-- ===== src/Protocol.antt =====
-- protocol/handles.py: expansion handles. The lock is not modelled, and a member is the object itself,
-- before it is projected to the wire.
pub mod Redeem
use Prim.Native.String.{◌++◌ as text_append}
use epistemos.Common.{
  ℕ, String, Bool, true, false, not, Option, none, some, List, [], ◌∷◌, ◌==◌, ◌||◌, length, nat_eq,
  if◌then◌else◌, ◌&&◌,
}
use epistemos.Result.{Result, ok, err, ◌>>=◌}
use epistemos.Json.{Json, obj, Fields}
use epistemos.Host.{Host}
use epistemos.Identity.{Principal}
use epistemos.Storage.{Objects, get_object}
use epistemos.Engine.Base.{Call}
use epistemos.Engine.Read.{is_readable}

unfoldable pub principal_fingerprint : Principal → String
principal_fingerprint p =
    text_append p.tenant (text_append "/" (text_append p.agent (text_append "/" p.namespace)))

pub record Handle : Type 0 where
  pub fingerprint : String
  pub tenant : String
  pub at_tx : Json
  pub member_ids : List String
  pub group_kind : String

-- The registry of one engine.
abbrev pub Registry : Type 0
Registry = List (String × Handle)

-- self._handles[token] = h
unfoldable pub register : String → Handle → Registry → Registry
register token k [] = (token, k) ∷ []
register token k ((t, j) ∷ handles) =
    let rest = register token k handles in
    if t == token then (token, k) ∷ handles else (t, j) ∷ rest

unfoldable pub peek : String → Registry → Option Handle
peek token [] = none
peek token ((t, j) ∷ handles) = let rest = peek token handles in if t == token then some j else rest

-- `mint`, which gives the token and the registry; the token's random part is the call's new id.
unfoldable pub mint : Call → Principal → List String → Json → String → Registry → String × Registry
mint c p member_ids at_tx group_kind handles =
    let token = c.new_id "xph" 0 in
    (
      token,
      register token
          (record {
            fingerprint = principal_fingerprint p;
            tenant = p.tenant;
            at_tx = at_tx;
            member_ids = member_ids;
            group_kind = group_kind;
          })
          handles,
    )

pub data Redemption : Type 0 where
  -- "unknown_or_unauthorized_handle", with no members
  refused : Redemption
  -- the kind, the members, and whether they are all there
  redeemed : String → List Fields → Bool → Redemption

module _ (h : Host) (p : Principal) (os : Objects) where
  -- The members that may be read now.
  unfoldable pub readable_members : List String → Result (List Fields)
  readable_members [] = ok []
  readable_members (oid ∷ ids) = do
    first ← elim (get_object oid os) [
      | none ↦ ok none
      | some o ↦ do may ← is_readable h p os (obj o); ok (if may then some o else none)
    ]
    members ← readable_members ids
    ok (elim first [ none ↦ members | some o ↦ o ∷ members ])

  abbrev pub is_bound : Handle → Bool
  is_bound k = k.fingerprint == principal_fingerprint p && k.tenant == p.tenant

  unfoldable pub redeem : Handle → Result Redemption
  redeem k = do
    members ← readable_members k.member_ids
    ok (redeemed k.group_kind members (nat_eq (length members) (length k.member_ids)))

  -- An unknown handle and one of another identity or tenant are refused alike.
  unfoldable pub expand : String → Registry → Result Redemption
  expand token handles = elim (peek token handles) [
    | none ↦ ok refused
    | some k ↦ if is_bound k then redeem k else ok refused
  ]
