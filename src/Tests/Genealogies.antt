-- ===== src/Tests/Genealogies.antt =====
-- core/__init__.py: explain_claim on a claim that its own claimant confirms.
use epistemos.Common.{◌≡◌, refl, String, List, [], ◌∷◌, Bool}
use epistemos.Result.{Result, ok, err, not_found}
use epistemos.Json.{bool, null, str, Fields, end, field}
use epistemos.Storage.{Store, Objects}
use epistemos.Engine.Genealogy.{Genealogy, explain_claim}
use epistemos.Tests.Setup.{open_engine, alice, bob}

abbrev object_of : String → String → Fields → Fields
object_of id kind more = field "id" (str id) (
    field "kind" (str kind) (
      field "tenant" (str "acme") (
        field "namespace" (str "hr")
          (field "owner" (str "alice") (field "status" (str "open") more)))))

abbrev stored : Objects
stored =
    ("c", object_of "c" "claim" (field "claimant" (str "alice") end))
    ∷ (
      "r",
      object_of "r" "review" (field "claim_id" (str "c") (field "verdict" (str "confirm") end)),
    )
    ∷ []

abbrev store : Store
store = record epistemos.Storage.empty_store { objects_by_id = stored }

abbrev reviews_of : Result Genealogy → List Fields
reviews_of (ok g) = g.reviews
reviews_of (err x) = []

-- The review by the claimant is disclosed as such.
self_review :
    reviews_of (explain_claim open_engine alice "c" store).0
    ≡ field "reviewer" (str "alice") (
        field "verdict"
          (str "confirm")
          (field "rationale" null (field "at" null (field "self_review" (bool Bool.true) end))))
      ∷ []
unfolding explain_claim epistemos.Identity.require epistemos.Engine.Read.ref_readable
    epistemos.Engine.Read.ref_in_scope epistemos.Storage.get_object epistemos.Storage.lookup
    epistemos.Json.Dict.find epistemos.Engine.Read.can_read epistemos.Authz.can_read_object
    epistemos.Authz.placements epistemos.Engine.Genealogy.scoped_source_view
    epistemos.Engine.Look.claim_evidence epistemos.Json.as_dict
    epistemos.Engine.Look.evidence_entries epistemos.Engine.Genealogy.readable_reviews_view
    epistemos.Engine.Collaboration.readable_reviews epistemos.Engine.Read.readable
    epistemos.Storage.objects epistemos.Claims.Belief.derive_belief
    epistemos.Engine.Collaboration.belief epistemos.Engine.Collaboration.the_claim
    epistemos.Json.Dict.json_eq epistemos.Json.iterate
self_review = refl

-- A claim that Bob may not read is not there for him.
withheld : (explain_claim open_engine bob "c" store).0 ≡ err not_found
unfolding explain_claim epistemos.Identity.require epistemos.Engine.Read.ref_readable
    epistemos.Engine.Read.ref_in_scope epistemos.Storage.get_object epistemos.Storage.lookup
    epistemos.Json.Dict.find epistemos.Engine.Read.can_read epistemos.Authz.can_read_object
    epistemos.Authz.placements
withheld = refl
