-- ===== src/Spaces.antt =====
-- spaces/__init__.py: the visibility lattice and knowledge spaces.
pub mod RoundTrip
use epistemos.Common.{ℕ, zero, suc, String, not, ◌==◌, ◌&&◌, ◌||◌, if◌then◌else◌}
use epistemos.Result.{Result, ok, err, validation, key_error, value_error, ◌>>=◌}
use epistemos.Json.{Json, null, num, str, obj, Fields, end, field}
use epistemos.Json.Dict.{get, get_or, item, has, put}
use epistemos.Host.{Host}

pub data Visibility : Type 0 where
  private team organization community public : Visibility

unfoldable pub level : Visibility → ℕ
level Visibility.private = 0
level Visibility.team = 1
level Visibility.organization = 2
level Visibility.community = 3
level Visibility.public = 4

unfoldable pub visibility_name : Visibility → String
visibility_name Visibility.private = "PRIVATE"
visibility_name Visibility.team = "TEAM"
visibility_name Visibility.organization = "ORGANIZATION"
visibility_name Visibility.community = "COMMUNITY"
visibility_name Visibility.public = "PUBLIC"

unfoldable pub of_level : ℕ → Result Visibility
of_level zero = ok Visibility.private
of_level (suc zero) = ok Visibility.team
of_level (suc (suc zero)) = ok Visibility.organization
of_level (suc (suc (suc zero))) = ok Visibility.community
of_level (suc (suc (suc (suc zero)))) = ok Visibility.public
of_level _ = err validation

unfoldable pub of_name : String → Result Visibility
of_name s =
    if s == "PRIVATE"
    then ok Visibility.private
    else if s == "TEAM"
    then ok Visibility.team
    else if s == "ORGANIZATION"
    then ok Visibility.organization
    else if s == "COMMUNITY"
    then ok Visibility.community
    else if s == "PUBLIC"
    then ok Visibility.public
    else err validation

unfoldable pub resolve_visibility : Host → Json → Result Visibility
unfolding of_level of_name
resolve_visibility h null = ok Visibility.private
resolve_visibility h (num n) = of_level n
resolve_visibility h (str s) = of_name (h.upper s)
resolve_visibility h _ = err validation

pub record KnowledgeSpace : Type 0 where
  pub id : String
  pub tenant : String
  pub name : String
  pub kind : String
  pub visibility : Visibility
  pub owner : String
  pub created_at : String
  pub policy : Fields
  pub metadata : Fields

-- KnowledgeSpace(...), whose visibility is resolved by the caller here.
unfoldable pub new_space : KnowledgeSpace → Result KnowledgeSpace
new_space sp = if sp.id == "" || sp.name == "" then err validation else ok sp

unfoldable pub space_to_dict : KnowledgeSpace → Fields
unfolding level
space_to_dict sp = field "id" (str sp.id) (
    field "kind" (str "space") (
      field "space_kind" (str sp.kind) (
        field "tenant" (str sp.tenant) (
          field "namespace" (get_or "namespace" (str "default") sp.metadata) (
            field "owner" (str sp.owner) (
              field "created_at" (str sp.created_at) (
                field "name" (str sp.name) (
                  field "visibility" (num (level sp.visibility)) (
                    field "policy" (obj sp.policy) (field "metadata" (obj sp.metadata) end))))))))))

-- A value of a field that the dataclass declares as text, or as a dict. Python does not check these
-- types; here another type is a TypeError at this place.
abbrev text_of : Json → Result String
text_of (str s) = ok s
text_of _ = err epistemos.Result.type_error

abbrev dict_of : Json → Result Fields
dict_of (obj d) = ok d
dict_of _ = err epistemos.Result.type_error

with_namespace : Fields → Fields → Fields
with_namespace d meta =
    if has "namespace" d && not (has "namespace" meta)
    then put "namespace" (get "namespace" d) meta
    else meta

unfoldable pub space_from_dict : Host → Fields → Result KnowledgeSpace
unfolding with_namespace
space_from_dict h d = do
  meta ← dict_of (get_or "metadata" (obj end) d)
  id ← item "id" d >>= text_of
  tenant ← item "tenant" d >>= text_of
  name ← item "name" d >>= text_of
  kind ← text_of (get_or "space_kind" (get_or "kind" (str "TEAM") d) d)
  visibility ← resolve_visibility h (get "visibility" d)
  owner ← item "owner" d >>= text_of
  created_at ← text_of (get_or "created_at" (str "") d)
  policy ← dict_of (get_or "policy" (obj end) d)
  new_space (record {
    id = id;
    tenant = tenant;
    name = name;
    kind = kind;
    visibility = visibility;
    owner = owner;
    created_at = created_at;
    policy = policy;
    metadata = with_namespace d meta;
  })
