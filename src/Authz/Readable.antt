-- ===== src/Authz/Readable.antt =====
-- authz/__init__.py: who may read an object, said as a relation, and that the code decides it.
use epistemos.Common.{
  ◌≡◌, ◌⊎◌, inl, inr, refl, Bool, true, Option, none, some, List, [], ◌∷◌, arith, ◌&&◌, Bool-cases,
  All, subst,
}
use epistemos.Result.{Result, ok, Result-cases, ok_injective}
use epistemos.Json.{Json, Fields, is_str}
use epistemos.Json.Dict.{get}
use epistemos.Identity.{Principal, is_admin}
use epistemos.Spaces.{Visibility, level}
use epistemos.Authz.{
  SpaceResolver, MemberCheck, is_wide, placements, opens, any_opens, can_read_object, level,
}

module _ (p : Principal) (space_of : SpaceResolver) (is_member : MemberCheck) where
  -- A space in the principal's tenant that is organization-wide or wider, a team space that the
  -- principal owns or is a member of, or a private space that it owns.
  pub data Opened (sid : Json) (space : Visibility × Json × Json) : Type 0 where
    wide : is_str space.2 p.tenant ≡ true → is_wide space.0 ≡ true → Opened sid space
    team :
        is_str space.2 p.tenant ≡ true
        → space.0 ≡ Visibility.team
        → (is_str space.1 p.agent ≡ true) ⊎ (is_member sid p.agent ≡ true)
        → Opened sid space
    owned :
        is_str space.2 p.tenant ≡ true
        → space.0 ≡ Visibility.private
        → is_str space.1 p.agent ≡ true
        → Opened sid space

  -- Some placement resolves to a space that is open to the principal.
  pub data SomeOpened : List Json → Type 0 where
    here :
        {sid : Json} {sids : List Json} (space : Visibility × Json × Json)
        → space_of sid ≡ ok (some space)
        → Opened sid space
        → SomeOpened (sid ∷ sids)
    there : {sid : Json} {sids : List Json} → SomeOpened sids → SomeOpened (sid ∷ sids)

  -- Within its tenant the principal reads an object as admin, as the owner of an unplaced object of
  -- its namespace, or through a placement.
  pub data Readable (o : Fields) : Type 0 where
    as_admin : is_str (get "tenant" o) p.tenant ≡ true → is_admin p ≡ true → Readable o
    as_owner :
        is_str (get "tenant" o) p.tenant ≡ true
        → placements (get "spaces" o) ≡ ok []
        → is_str (get "owner" o) p.agent ≡ true
        → is_str (get "namespace" o) p.namespace ≡ true
        → Readable o
    as_placed :
        (sids : List Json)
        → is_str (get "tenant" o) p.tenant ≡ true
        → placements (get "spaces" o) ≡ ok sids
        → SomeOpened sids
        → Readable o

  opens-Opened :
      (sid : Json) (space : Visibility × Json × Json)
      → opens p is_member sid (some space) ≡ true
      → Opened sid space
  unfolding opens level
  opens-Opened sid (Visibility.private, owner, tenant) h = owned (ground arith) refl (ground arith)
  opens-Opened sid (Visibility.team, owner, tenant) h = team (ground arith) refl (ground arith)
  opens-Opened sid (Visibility.organization, owner, tenant) h = wide (ground arith) refl
  opens-Opened sid (Visibility.community, owner, tenant) h = wide (ground arith) refl
  opens-Opened sid (Visibility.public, owner, tenant) h = wide (ground arith) refl

  Opened-opens :
      (sid : Json) (space : Visibility × Json × Json)
      → Opened sid space
      → opens p is_member sid (some space) ≡ true
  unfolding opens level
  Opened-opens sid (v, owner, tenant) (wide t w) = ground arith
  Opened-opens sid (v, owner, tenant) (team t e m) = ground arith
  Opened-opens sid (v, owner, tenant) (owned t e o) = ground arith

  any_opens-SomeOpened :
      (sids : List Json) → any_opens p space_of is_member sids ≡ ok true → SomeOpened sids
  unfolding any_opens opens
  any_opens-SomeOpened [] h = cc
  any_opens-SomeOpened (sid ∷ sids) h = elim (Result-cases (space_of sid)) [
    | inl (e, at) ↦ cc (rw at at h)
    | inr (none, at) ↦ there (any_opens-SomeOpened sids (rw at at h))
    | inr (some space, at) ↦ elim (Bool-cases (opens p is_member sid (some space))) [
      | inl t ↦ here space at (opens-Opened sid space t)
      | inr f ↦ there (any_opens-SomeOpened sids (rw (at, f) at h))
    ]
  ]

  -- Every placement is resolved without an error.
  abbrev pub Resolves : List Json → Type 0
  Resolves = All (λ sid. (r : Option (Visibility × Json × Json)) × (space_of sid ≡ ok r))

  SomeOpened-any_opens :
      (sids : List Json)
      → Resolves sids
      → SomeOpened sids
      → any_opens p space_of is_member sids ≡ ok true
  unfolding any_opens
  SomeOpened-any_opens [] h s = elim s [ ]
  SomeOpened-any_opens (sid ∷ sids) h (here space at op) =
      rw at (rw (Opened-opens sid space op) refl)
  SomeOpened-any_opens (sid ∷ sids) h (there s) =
      rw h.0.1 (ground (arith, SomeOpened-any_opens sids h.1 s))

  -- Whoever the code lets read an object may read it.
  pub can_read_object_sound :
      (o : Fields) → can_read_object p space_of is_member o ≡ ok true → Readable o
  unfolding can_read_object any_opens
  can_read_object_sound o h = elim (Bool-cases (is_str (get "tenant" o) p.tenant)) [
    | inr f ↦ cc (rw f at h)
    | inl t ↦ elim (Bool-cases (is_admin p)) [
      | inl a ↦ as_admin t a
      | inr n ↦ elim (Result-cases (placements (get "spaces" o))) [
        | inl (e, at) ↦ cc (rw (t, n, at) at h)
        | inr ([], at) ↦
            let both : (is_str (get "owner" o) p.agent && is_str (get "namespace" o) p.namespace)
                ≡ true =
              ok_injective (rw (t, n, at) at h) in
            as_owner t at (ground arith) (ground arith)
        | inr (sid ∷ sids, at) ↦
            as_placed (sid ∷ sids) t at (any_opens-SomeOpened (sid ∷ sids) (rw (t, n, at) at h))
      ]
    ]
  ]

  by_placement :
      (o : Fields) (sids : List Json)
      → Resolves sids
      → SomeOpened sids
      → (elim sids as (λ x. Result Bool) [
        | [] ↦ ok (is_str (get "owner" o) p.agent && is_str (get "namespace" o) p.namespace)
        | sid ∷ rest ↦ any_opens p space_of is_member (sid ∷ rest)
      ])
        ≡ ok true
  by_placement o [] res s = elim s [ ]
  by_placement o (sid ∷ sids) res s = SomeOpened-any_opens (sid ∷ sids) res s

  -- Whoever may read an object whose placements all resolve is let to read it.
  pub can_read_object_complete :
      (o : Fields) (sids : List Json)
      → placements (get "spaces" o) ≡ ok sids
      → Resolves sids
      → Readable o
      → can_read_object p space_of is_member o ≡ ok true
  unfolding can_read_object any_opens
  can_read_object_complete o sids at res (as_admin t a) = rw (t, a) refl
  can_read_object_complete o sids at res (as_owner t e w n) = elim (Bool-cases (is_admin p)) [
    | inl a ↦ rw (t, a) refl
    | inr b ↦ rw (t, b, e, w, n) refl
  ]
  can_read_object_complete o sids at res (as_placed xs t e s) = elim (Bool-cases (is_admin p)) [
    | inl a ↦ rw (t, a) refl
    | inr b ↦ rw (t, b, at) (by_placement o sids res (subst SomeOpened (cc) s))
  ]
