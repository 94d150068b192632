-- ===== src/Identity.antt =====
-- identity/__init__.py: names, principals and their guards.
pub mod Names
use epistemos.Common.{
  ℕ, suc, String, ◌≡◌, Bool, true, false, not, Option, none, some, List, [], ◌∷◌, ◌==◌, ◌&&◌, ◌||◌,
  nat_eq, leb, if◌then◌else◌, length, any, all, contains, codes,
}
use epistemos.Result.{Result, ok, err, validation, authorization, tenant_isolation, identity, ◌>>=◌}
use epistemos.Json.{Json, str, is_str}

abbrev pub is_alnum : ℕ → Bool
is_alnum c = (leb b'A' c && leb c b'Z') || (leb b'a' c && leb c b'z') || (leb b'0' c && leb c b'9')

-- The class [A-Za-z0-9_.\-:] of the pattern.
abbrev pub is_name_char : ℕ → Bool
is_name_char c = is_alnum c || nat_eq c b'_' || nat_eq c b'.' || nat_eq c b'-' || nat_eq c b':'

-- ".." in value
abbrev pub has_dots : List ℕ → Bool
has_dots (a ∷ b ∷ cs) = (nat_eq a b'.' && nat_eq b b'.') || has_dots (b ∷ cs)
has_dots _ = false

-- The one-character members of _TRAVERSAL: / \ NUL * % newline, carriage return, tab.
abbrev pub is_unsafe : ℕ → Bool
is_unsafe c =
    nat_eq c b'/'
    || nat_eq c 92
    || nat_eq c 0
    || nat_eq c b'*'
    || nat_eq c b'%'
    || nat_eq c 10
    || nat_eq c 13
    || nat_eq c 9

-- ^[A-Za-z0-9][A-Za-z0-9_.\-:]{0,127}$
unfoldable pub matches_name : List ℕ → Bool
matches_name [] = false
matches_name (c ∷ cs) = is_alnum c && all is_name_char cs && leb (length cs) 127

unfoldable pub safe_name : List ℕ → Bool
unfolding matches_name
safe_name cs = if has_dots cs || any is_unsafe cs then false else matches_name cs

unfoldable pub validate_name : Json → Result String
unfolding safe_name
validate_name (str value) =
    if value == ""
    then err validation
    else if safe_name (codes value)
    then ok value
    else err validation
validate_name _ = err validation

abbrev pub default_caps : List String
default_caps =
    "read" ∷ "assert" ∷ "supersede" ∷ "retract" ∷ "contradict" ∷ "confirm" ∷ "decide" ∷ "ingest"
    ∷ "export" ∷ "space.create" ∷ "space.read" ∷ "claim.create" ∷ "claim.read" ∷ "claim.review"
    ∷ "claim.confirm" ∷ "claim.dispute" ∷ "claim.retract" ∷ "evidence.create" ∷ "evidence.attach"
    ∷ "evidence.read" ∷ []

pub record Principal : Type 0 where
  pub tenant : String
  pub agent : String
  pub namespace : String
  pub principal : Option String
  pub capabilities : List String

validate_optional : Option String → Result (Option String)
validate_optional none = ok none
validate_optional (some p) = do v ← validate_name (str p); ok (some v)

-- Principal(...), with its __post_init__
unfoldable pub new_principal :
    String → String → String → Option String → List String → Result Principal
unfolding validate_optional
new_principal tenant agent namespace principal capabilities = do
  t ← validate_name (str tenant)
  a ← validate_name (str agent)
  n ← validate_name (str namespace)
  p ← validate_optional principal
  ok (record { tenant = t; agent = a; namespace = n; principal = p; capabilities = capabilities })

unfoldable pub with_namespace : Principal → String → Result Principal
with_namespace p namespace = do
  n ← validate_name (str namespace)
  new_principal p.tenant p.agent n p.principal p.capabilities

abbrev pub is_admin : Principal → Bool
is_admin p = contains "admin" p.capabilities

unfoldable pub require : Principal → String → Result (Unit {0})
require p capability = if contains capability p.capabilities then ok tt else err authorization

unfoldable pub guard_scope : Principal → String → String → Result (Unit {0})
guard_scope p tenant namespace =
    if not (tenant == p.tenant)
    then err tenant_isolation
    else if not (namespace == p.namespace)
    then err tenant_isolation
    else ok tt

-- The owner is any value: `owner_agent != self.agent`.
unfoldable pub guard_owner : Principal → Json → Result (Unit {0})
guard_owner p owner =
    if not (is_str owner p.agent) && not (is_admin p) then err authorization else ok tt

-- A call without a principal.
unfoldable pub require_principal : Option Principal → Result Principal
require_principal none = err identity
require_principal (some p) = ok p
