-- ===== src/Protocol/Redeem.antt =====
-- protocol/handles.py: what the redemption of a handle gives.
use epistemos.Common.{
  and-true, ◌≡◌, sym, String, Bool, true, false, Option, none, some, List, [], ◌∷◌, All, Bool-cases,
  Option-cases, inl, inr, eq_iff, ◌==◌, if◌then◌else◌,
}
use epistemos.Result.{◌>>=◌, Result, ok, bind-ok, ok_injective}
use epistemos.Json.{obj, Fields}
use epistemos.Host.{Host}
use epistemos.Identity.{Principal}
use epistemos.Storage.{Objects, get_object}
use epistemos.Engine.Read.{is_readable}
use epistemos.Protocol.{
  Handle, Registry, redeemed, peek, principal_fingerprint, readable_members, is_bound, redeem,
  expand,
}

module _ (h : Host) (p : Principal) (os : Objects) where
  abbrev pub IsReadable : Fields → Type 0
  IsReadable o = is_readable h p os (obj o) ≡ ok true

  abbrev member : Fields → Result (Option Fields)
  member o = is_readable h p os (obj o) >>= λ may. ok (if may then some o else none)

  keep-IsReadable :
      (o : Fields) (may : Bool) (members : List Fields)
      → is_readable h p os (obj o) ≡ ok may
      → All IsReadable members
      → All IsReadable
          (elim (if may then some o else none) [ none ↦ members | some x ↦ x ∷ members ])
  keep-IsReadable o true members at all = (at, all)
  keep-IsReadable o false members at all = all

  readable_members-All :
      (ids : List String) (members : List Fields)
      → readable_members h p os ids ≡ ok members
      → All IsReadable members
  unfolding readable_members
  readable_members-All [] members e = rw (sym (ok_injective e)) tt
  readable_members-All (oid ∷ ids) members e = elim (Option-cases (get_object oid os)) [
    | inl missing ↦
        let (more, ran, last) =
          bind-ok (readable_members h p os ids) _ (rw (readable_members, missing) at e) in
        rw (sym (ok_injective last)) (readable_members-All ids more ran)
    | inr (o, at) ↦
        let (found, got, rest) = bind-ok (member o) _ (rw (readable_members, at) at e) in
        let (may, tested, same) = bind-ok (is_readable h p os (obj o)) _ got in
        let (more, ran, last) = bind-ok (readable_members h p os ids) _ rest in
        rw (sym (ok_injective last), sym (ok_injective same))
          (keep-IsReadable o may more tested (readable_members-All ids more ran))
  ]

  -- A handle gives members only to the identity and the tenant that it is bound to, and each of them
  -- is an object that the principal may read now.
  pub expand-All :
      (token : String) (handles : Registry) (kind : String) (members : List Fields)
      (complete : Bool)
      → expand h p os token handles ≡ ok (redeemed kind members complete)
      → (k : Handle) × (peek token handles ≡ some k)
        × (k.fingerprint ≡ principal_fingerprint p)
        × (k.tenant ≡ p.tenant)
        × All IsReadable members
  unfolding expand redeem
  expand-All token handles kind members complete e = elim (Option-cases (peek token handles)) [
    | inl unknown ↦ cc (rw (expand, unknown) at e)
    | inr (k, at) ↦ elim (Bool-cases (is_bound h p os k)) [
      | inl bound ↦
          let (found, ran, last) =
            bind-ok (readable_members h p os k.member_ids) _ (rw (expand, at, bound) at e) in
          let same : found ≡ members = cc last in
          let (print, tenant) =
            and-true (k.fingerprint == principal_fingerprint p) (k.tenant == p.tenant) bound in
          (
            k,
            at,
            (eq_iff k.fingerprint (principal_fingerprint p)).0 print,
            (eq_iff k.tenant p.tenant).0 tenant,
            rw (sym same) (readable_members-All k.member_ids found ran),
          )
      | inr foreign ↦ cc (rw (expand, at, foreign) at e)
    ]
  ]
