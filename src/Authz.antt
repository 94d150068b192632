-- ===== src/Authz.antt =====
-- authz/__init__.py: the read decision.
pub mod Readable
use epistemos.Common.{String, zero}
use epistemos.Common.{
  ℕ, Bool, true, false, not, Option, none, some, List, [], ◌∷◌, ◌&&◌, ◌||◌, leb, nat_eq,
  if◌then◌else◌,
}
use epistemos.Result.{Result, ok, err, type_error, ◌>>=◌}
use epistemos.Json.{
  Json, null, bool, num, negative, float, str, arr, obj, Fields, end, field, is_str, to_list,
  iterate,
}
use epistemos.Json.Dict.{get}
use epistemos.Host.{negative_zero}
use epistemos.Identity.{Principal, is_admin}
use epistemos.Spaces.{Visibility, level}

-- space_id -> its level, owner and tenant, if there is such a space; the level is parsed there, and
-- an unknown one raises.
abbrev pub SpaceResolver : Type 0
SpaceResolver = Json → Result (Option (Visibility × Json × Json))

-- Is the agent a granted member of the space?
abbrev pub MemberCheck : Type 0
MemberCheck = Json → String → Bool

-- vis >= Visibility.ORGANIZATION
abbrev pub is_wide : Visibility → Bool
is_wide v = leb 2 (level v)

abbrev pub is_team : Visibility → Bool
is_team Visibility.team = true
is_team _ = false

abbrev pub is_private : Visibility → Bool
is_private Visibility.private = true
is_private _ = false

-- tuple(value or ()): a number other than 0, or True, cannot be iterated.
unfoldable pub placements : Json → Result (List Json)
unfolding iterate
placements null = ok []
placements (bool false) = ok []
placements (num zero) = ok []
placements (float b) = if nat_eq b 0 || nat_eq b negative_zero then ok [] else err type_error
placements v = iterate v

-- What one resolved placement gives: another tenant's space, or none, gives nothing.
unfoldable pub opens : Principal → MemberCheck → Json → Option (Visibility × Json × Json) → Bool
opens p is_member sid none = false
opens p is_member sid (some (vis, owner, tenant)) =
    if not (is_str tenant p.tenant)
    then false
    else if is_wide vis
    then true
    else if is_team vis && (is_str owner p.agent || is_member sid p.agent)
    then true
    else is_private vis && is_str owner p.agent

module _ (p : Principal) (space_of : SpaceResolver) (is_member : MemberCheck) where
  -- The loop over the placements, which stops at the first that opens.
  unfoldable pub any_opens : List Json → Result Bool
  any_opens [] = ok false
  any_opens (sid ∷ sids) =
      let rest = any_opens sids in
      do resolved ← space_of sid; if opens p is_member sid resolved then ok true else rest

  unfoldable pub can_read_object : Fields → Result Bool
  unfolding any_opens
  can_read_object o =
      if not (is_str (get "tenant" o) p.tenant)
      then ok false
      else if is_admin p
      then ok true
      else do
        sids ← placements (get "spaces" o)
        elim sids [
          | [] ↦ ok (is_str (get "owner" o) p.agent && is_str (get "namespace" o) p.namespace)
          | sid ∷ rest ↦ any_opens (sid ∷ rest)
        ]
