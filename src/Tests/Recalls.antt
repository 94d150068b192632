-- ===== src/Tests/Recalls.antt =====
-- core/__init__.py: recall on a small store.
use epistemos.Common.{◌≡◌, refl, String, none, some, List, [], ◌∷◌}
use epistemos.Result.{Result, ok, err}
use epistemos.Json.{str, Fields, end, field}
use epistemos.Host.{pos, negsuc}
use epistemos.Storage.{Objects}
use epistemos.Engine.Recall.{recall}
use epistemos.Engine.Recall.Latest.{IsLatest, recall-IsLatest}
use epistemos.Tests.Setup.{host, alice}

abbrev episode_of : String → String → String → Fields
episode_of id owner created = field "id" (str id) (
    field "kind" (str "episode") (
      field "tenant" (str "acme") (
        field "namespace" (str "hr") (
          field "owner" (str owner)
            (field "session" (str "s") (field "created_at" (str created) end))))))

abbrev early : Fields
early = episode_of "e1" "alice" "2026-01"

abbrev late : Fields
late = episode_of "e2" "alice" "2026-02"

-- The latest of all is another agent's.
abbrev stored : Objects
stored = ("e1", early) ∷ ("e2", late) ∷ ("e3", episode_of "e3" "bob" "2026-03") ∷ []

newest : recall host alice (some "episodic") (some "s") (pos 1) stored ≡ ok (late ∷ [])
unfolding recall epistemos.Identity.require epistemos.Engine.Read.readable epistemos.Storage.objects
    epistemos.Json.Dict.find epistemos.Engine.Read.can_read epistemos.Authz.can_read_object
    epistemos.Authz.placements epistemos.Common.sort_by epistemos.Common.insert_by
newest = refl

-- A limit of -1 leaves out the last.
all_but_one : recall host alice none none (negsuc 0) stored ≡ ok (late ∷ [])
unfolding recall epistemos.Identity.require epistemos.Engine.Read.readable epistemos.Storage.objects
    epistemos.Json.Dict.find epistemos.Engine.Read.can_read epistemos.Authz.can_read_object
    epistemos.Authz.placements epistemos.Common.sort_by epistemos.Common.insert_by
all_but_one = refl

unknown_class :
    recall host alice (some "forgotten") none (pos 1) stored ≡ err epistemos.Result.value_error
unfolding recall epistemos.Identity.require
unknown_class = refl

recall-IsLatest_example :
    IsLatest host alice (some "episodic") (some "s") (pos 1) stored (late ∷ [])
recall-IsLatest_example =
    recall-IsLatest host alice (some "episodic") (some "s") (pos 1) stored (late ∷ []) newest
