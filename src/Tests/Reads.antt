-- ===== src/Tests/Reads.antt =====
-- authz/__init__.py and identity/__init__.py: a team space and its reader, and a name.
use epistemos.Common.{◌==◌, String, ◌≡◌, refl, true, some, [], ◌∷◌, ◌↔◌, codes}
use epistemos.Result.{ok}
use epistemos.Json.{Json, Fields, str, arr, cons, nil, end, field}
use epistemos.Json.Dict.{get}
use epistemos.Identity.{validate_name}
use epistemos.Identity.Names.{IsName, validate_name_iff}
use epistemos.Spaces.{Visibility}
use epistemos.Authz.{placements, can_read_object, SpaceResolver, MemberCheck}
use epistemos.Authz.Readable.{Readable, can_read_object_sound, can_read_object_complete}
use epistemos.Tests.Setup.{bob}

abbrev name : String
name = "alice"

validate_name_iff_example :
    (validate_name (str name) ≡ ok name) ↔ ((name ≡ name) × IsName (codes name))
validate_name_iff_example = validate_name_iff name name

-- Every placement is the team space of Alice's.
abbrev team : SpaceResolver
team sid = ok (some (Visibility.team, str "alice", str "acme"))

-- Bob is a member.
abbrev bobs : MemberCheck
bobs sid agent = agent == "bob"

abbrev placed : Fields
placed = field "tenant" (str "acme") (
    field "namespace" (str "hr")
      (field "owner" (str "alice") (field "spaces" (arr (cons (str "space_1") nil)) end)))

let_in : can_read_object bob team bobs placed ≡ ok true
unfolding can_read_object epistemos.Json.Dict.find placements epistemos.Authz.opens
    epistemos.Spaces.level
let_in = refl

can_read_object_sound_example : Readable bob team bobs placed
can_read_object_sound_example = can_read_object_sound bob team bobs placed let_in

at : placements (get "spaces" placed) ≡ ok (str "space_1" ∷ [])
unfolding placements epistemos.Json.Dict.find
at = refl

can_read_object_complete_example : can_read_object bob team bobs placed ≡ ok true
can_read_object_complete_example =
    can_read_object_complete bob team bobs placed (str "space_1" ∷ []) at
      ((some (Visibility.team, str "alice", str "acme"), refl), tt) can_read_object_sound_example
