-- ===== src/Engine/Placement.antt =====
-- core/__init__.py: knowledge spaces: create, grant, revoke, share and promote.
pub mod Monotone
use epistemos.Common.{
  sorted_set, String, Bool, true, false, not, Option, none, some, List, [], ◌∷◌, ◌==◌, ◌&&◌, ◌||◌,
  ltb, if◌then◌else◌, contains,
}
use epistemos.Result.{Result, ok, err, validation, authorization, not_found}
use epistemos.Exec.{Exec, pure, lift, raise_if, ◌>>=◌, ◌>>◌}
use epistemos.Json.{
  Json, null, bool, str, arr, nil, Fields, end, field, is_str, of_list, iterate, as_dict, strs,
}
use epistemos.Json.Dict.{get, get_or, put}
use epistemos.Host.{Host}
use epistemos.Identity.{Principal, is_admin, require, guard_owner, validate_name}
use epistemos.Ledger.{Op}
use epistemos.Spaces.{
  Visibility, KnowledgeSpace, level, visibility_name, resolve_visibility, new_space, space_to_dict,
  space_from_dict,
}
use epistemos.Authz.{is_wide}
use epistemos.Storage.{Store, Objects, get_object}
use epistemos.Engine.Base.{Engine, Call, text_arg, optional_text, metadata_arg}
use epistemos.Engine.Read.{ref_in_scope, space_of, is_member, grant_id}
use epistemos.Engine.Calls.{look, commit}

-- `_load_space`
unfoldable pub load_space : Principal → String → Objects → Result Fields
load_space p space_id os = elim (get_object space_id os) [
  | none ↦ err not_found
  | some sp ↦
      if is_str (get "kind" sp) "space" && is_str (get "tenant" sp) p.tenant
      then ok sp
      else err not_found
]

-- The space's owner, an admin, or a holder of space.manage.
unfoldable pub require_space_admin : Principal → Fields → Result (Unit {0})
require_space_admin p sp =
    if is_str (get "owner" sp) p.agent || is_admin p || contains "space.manage" p.capabilities
    then ok tt
    else err authorization

-- The caller owns the destination, is a member, it is tenant-wide, or the caller is an admin.
unfoldable pub can_reach : Principal → Fields → String → Visibility → Objects → Bool
can_reach p dest_sp dest vis os =
    is_str (get "owner" dest_sp) p.agent
    || is_member os (str dest) p.agent
    || is_wide vis
    || is_admin p

-- Placing into an organization or wider needs the promote capability.
unfoldable pub gate : Principal → Visibility → Result (Unit {0})
gate p vis = if is_wide vis && not (is_admin p) then require p "knowledge.promote" else ok tt

abbrev pub level_of : Option (Visibility × Json × Json) → Visibility
level_of none = Visibility.private
level_of (some (vis, owner, tenant)) = vis

-- The destination is at least as wide as every current placement.
unfoldable pub check_monotone : Host → Visibility → List Json → Objects → Result (Unit {0})
check_monotone h dest [] os = ok tt
check_monotone h dest (sid ∷ sids) os =
    let rest = check_monotone h dest sids os in
    elim (space_of h os sid) [
      | err x ↦ err x
      | ok found ↦ if ltb (level dest) (level (level_of found)) then err validation else rest
    ]

module _ (e : Engine) (c : Call) (p : Principal) where
  -- `kind or vis.name`
  abbrev kind_or_name : Option String → Visibility → String
  kind_or_name none vis = visibility_name vis
  kind_or_name (some k) vis = if k == "" then visibility_name vis else k

  unfoldable pub create_space :
      Json → Json → Option String → Json → Json → Exec Store KnowledgeSpace
  create_space name visibility kind policy metadata = do
    lift (require p "space.create")
    name' ← lift (text_arg e name (some e.limits.max_str))
    vis ← lift (resolve_visibility e.host visibility)
    policy' ← lift (metadata_arg e policy)
    policy_dict ← lift (as_dict policy')
    metadata' ← lift (metadata_arg e metadata)
    meta_dict ← lift (as_dict metadata')
    space ← lift (
        new_space (record {
          id = c.new_id "spc" 0;
          tenant = p.tenant;
          name = name';
          kind = kind_or_name kind vis;
          visibility = vis;
          owner = p.agent;
          created_at = c.now;
          policy = policy_dict;
          metadata = put "namespace" (str p.namespace) meta_dict;
        }))
    commit e.host p c.now ((Op.space_created, space_to_dict space) ∷ [])
    pure space

  abbrev found_space : Option Fields → Result (Option KnowledgeSpace)
  found_space none = ok none
  found_space (some sp) =
      if is_str (get "kind" sp) "space" && is_str (get "tenant" sp) p.tenant
      then elim (space_from_dict e.host sp) [ ok k ↦ ok (some k) | err x ↦ err x ]
      else ok none

  unfoldable pub get_space : String → Exec Store (Option KnowledgeSpace)
  get_space space_id = do
    lift (require p "space.read")
    look (λ os. found_space (get_object space_id os))

  capability_args : List Json → Result (List String)
  capability_args [] = ok []
  capability_args (v ∷ vs) = elim (text_arg e v (some 64)) [
    | err x ↦ err x
    | ok s ↦ elim (capability_args vs) [ err x ↦ err x | ok ss ↦ ok (s ∷ ss) ]
  ]

  grant_object : String → String → List String → Fields
  grant_object space_id agent caps = field "id" (str (grant_id space_id agent)) (
      field "kind" (str "grant") (
        field "tenant" (str p.tenant) (
          field "namespace" (str p.namespace) (
            field "owner" (str p.agent) (
              field "created_at" (str c.now) (
                field "space" (str space_id) (
                  field "agent" (str agent)
                    (field "caps" (arr (strs caps)) (field "active" (bool true) end)))))))))

  abbrev is_empty : List String → Bool
  is_empty [] = true
  is_empty (x ∷ xs) = false

  unfoldable pub grant_capability : String → Json → List Json → Exec Store (Unit {0})
  unfolding capability_args grant_object
  grant_capability space_id agent capabilities = do
    sp ← look (load_space p space_id)
    lift (require_space_admin p sp)
    agent' ← lift (validate_name agent)
    caps ← lift (capability_args capabilities)
    raise_if (is_empty caps) validation
    commit e.host p c.now
        ((Op.capability_granted, grant_object space_id agent' (sorted_set caps)) ∷ [])

  unfoldable pub revoke_capability : String → Json → Exec Store (Unit {0})
  revoke_capability space_id agent = do
    sp ← look (load_space p space_id)
    lift (require_space_admin p sp)
    agent' ← lift (validate_name agent)
    commit e.host p c.now (
        (
          Op.capability_revoked,
          field "grant_id" (str (grant_id space_id agent'))
              (field "space" (str space_id) (field "agent" (str agent') end)),
        )
        ∷ [])

  placing : String → String → List Json → Bool → Json → Fields
  placing obj_id dest spaces shared reason = field "object_id" (str obj_id) (
      field "destination_space" (str dest) (
        field "source_spaces" (arr (of_list spaces)) (
          field "shared_by" (if shared then str p.agent else null) (
            field "promoted_by" (if shared then null else str p.agent)
              (field "reason" reason end)))))

  abbrev monotone_if : Bool → Visibility → List Json → Objects → Result (Unit {0})
  monotone_if true vis spaces os = check_monotone e.host vis spaces os
  monotone_if false vis spaces os = ok tt

  -- `_place`
  unfoldable pub place_object : Op → Bool → String → String → Json → Exec Store (Unit {0})
  unfolding placing
  place_object op monotone obj_id dest reason = do
    o ← look (ref_in_scope p obj_id)
    lift (guard_owner p (get_or "owner" (str p.agent) o))
    dest_sp ← look (load_space p dest)
    vis ← lift (resolve_visibility e.host (get "visibility" dest_sp))
    reach ← look (λ os. ok (can_reach p dest_sp dest vis os))
    raise_if (not reach) authorization
    lift (gate p vis)
    spaces ← lift (iterate (get_or "spaces" (arr nil) o))
    look (monotone_if monotone vis spaces)
    reason' ← lift (optional_text e reason (some e.limits.max_str))
    commit e.host p c.now ((op, placing obj_id dest spaces (not monotone) reason') ∷ [])

  unfoldable pub share : String → String → Json → Exec Store (Unit {0})
  unfolding place_object
  share = place_object Op.knowledge_shared false

  unfoldable pub promote : String → String → Json → Exec Store (Unit {0})
  unfolding place_object
  promote = place_object Op.knowledge_promoted true

  -- `_resolve_placement`: no space is the private default.
  unfoldable pub resolve_placement : Option String → Objects → Result (List String)
  resolve_placement none os = ok []
  resolve_placement (some space) os = epistemos.Result.◌>>=◌ (load_space p space os) λ dest_sp.
      epistemos.Result.◌>>=◌ (resolve_visibility e.host (get "visibility" dest_sp)) λ vis.
        if can_reach p dest_sp space vis os
        then epistemos.Result.◌>>=◌ (gate p vis) (λ _. ok (space ∷ []))
        else err authorization
