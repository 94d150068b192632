-- ===== src/Engine/Read.antt =====
-- core/__init__.py: loading an object by reference, and the read firewall over the store.
use Prim.Native.String.{◌++◌ as text_append}
use epistemos.Common.{
  String, Bool, false, not, Option, none, some, List, [], ◌∷◌, ◌&&◌, if◌then◌else◌,
}
use epistemos.Result.{Result, ok, err, validation, not_found, conflict, ◌>>=◌}
use epistemos.Json.{obj, Json, null, str, Fields, is_str, is_null}
use epistemos.Json.Dict.{get, get_or}
use epistemos.Host.{Host}
use epistemos.Identity.{Principal}
use epistemos.Spaces.{Visibility, resolve_visibility}
use epistemos.Authz.{can_read_object}
use epistemos.Storage.{Objects, get_object, in_scope}
use epistemos.Model.{truthy}

-- f"grant_{space_id}_{agent}"
unfoldable pub grant_id : String → String → String
grant_id space_id agent = text_append "grant_" (text_append space_id (text_append "_" agent))

-- store.get_object(id) for an id of any type: only a text is a key. For a list or a dict Python raises
-- TypeError, where this gives none.
abbrev pub get_object_at : Json → Objects → Option Fields
get_object_at (str i) os = get_object i os
get_object_at null os = none
get_object_at _ os = none

unfoldable pub ref_in_scope : Principal → String → Objects → Result Fields
ref_in_scope p ref_id os = elim (get_object ref_id os) [
  | none ↦ err not_found
  | some o ↦ if in_scope p.tenant p.namespace o then ok o else err not_found
]

-- `_open_belief`
unfoldable pub open_belief : Principal → String → Objects → Result Fields
open_belief p fact_id os = do
  old ← ref_in_scope p fact_id os
  if not (is_str (get "kind" old) "fact")
      then err validation
      else if not (is_null (get "tx_to" old))
      then err conflict
      else ok old

abbrev pub is_active_grant : Fields → Bool
is_active_grant g = is_str (get "kind" g) "grant" && truthy (get "active" g)

-- A placement that is no text names no grant.
unfoldable pub is_member : Objects → Json → String → Bool
is_member os (str space_id) agent = elim (get_object (grant_id space_id agent) os) [
  | none ↦ false
  | some g ↦ is_active_grant g
]
is_member os _ agent = false

module _ (h : Host) where
  unfoldable pub space_view : Fields → Result (Option (Visibility × Json × Json))
  space_view sp =
      if is_str (get "kind" sp) "space"
      then (do
        vis ← resolve_visibility h (get "visibility" sp)
        ok (some (vis, get_or "owner" (str "") sp, get_or "tenant" (str "") sp)))
      else ok none

  unfoldable pub space_of : Objects → Json → Result (Option (Visibility × Json × Json))
  unfolding space_view
  space_of os space_id = elim (get_object_at space_id os) [
    | none ↦ ok none
    | some sp ↦ space_view sp
  ]

  unfoldable pub can_read : Principal → Objects → Fields → Result Bool
  can_read p os o = can_read_object p (space_of os) (is_member os) o

  -- `[o for o in objs if self._can_read(principal, o)]`
  unfoldable pub readable : Principal → Objects → List Fields → Result (List Fields)
  readable p os [] = ok []
  readable p os (o ∷ more) = do
    may ← can_read p os o
    rest ← readable p os more
    ok (if may then o ∷ rest else rest)

  -- `_ref_readable`: an object that may not be read is reported as missing.
  unfoldable pub ref_readable : Principal → String → Objects → Result Fields
  ref_readable p ref_id os = do
    o ← ref_in_scope p ref_id os
    may ← can_read p os o
    if may then ok o else err not_found

  -- The public predicate, on a value of any type.
  unfoldable pub is_readable : Principal → Objects → Json → Result Bool
  is_readable p os (obj o) = if in_scope p.tenant p.namespace o then can_read p os o else ok false
  is_readable p os _ = ok false
