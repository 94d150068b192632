-- ===== src/Engine/Genealogy.antt =====
-- core/__init__.py: explain_claim, the genealogy of a claim.
use epistemos.Common.{String, not, none, some, Option, List, ◌&&◌, map, if◌then◌else◌}
use epistemos.Result.{Result, ok, err, validation}
use epistemos.Exec.{Exec, pure, lift, raise_if, ◌>>=◌, ◌>>◌}
use epistemos.Json.{Json, bool, arr, nil, Fields, end, field, is_str, is_null, iterate}
use epistemos.Json.Dict.{get, get_or, item, json_eq}
use epistemos.Identity.{Principal, require}
use epistemos.Model.{truthy}
use epistemos.Storage.{Store, Objects}
use epistemos.Claims.Belief.{Belief}
use epistemos.Engine.Base.{Engine}
use epistemos.Engine.Calls.{look}
use epistemos.Engine.Read.{get_object_at, can_read, ref_readable}
use epistemos.Engine.Look.{claim_evidence}
use epistemos.Engine.Collaboration.{readable_reviews, belief, first_space}

-- A review by the claimant of the claim says so.
abbrev pub review_entry : Json → Fields → Fields
review_entry claimant r = field "reviewer" (get "owner" r) (
    field "verdict" (get "verdict" r) (
      field "rationale" (get "rationale" r) (
        field "at" (get "created_at" r) (
          field "self_review" (bool (not (is_null claimant) && json_eq (get "owner" r) claimant))
            end))))

source_entry : Fields → Result Fields
source_entry src =
    epistemos.Result.◌>>=◌ (item "id" src)
      λ id. ok (field "id" id (field "uri" (get "uri" src) (field "trust" (get "trust" src) end)))

abbrev statement_of : Fields → Fields
statement_of claim =
    field "subject" (get "subject" claim)
      (field "predicate" (get "predicate" claim) (field "object" (get "object" claim) end))

abbrev temporal_of : Fields → Fields
temporal_of claim = field "valid_from" (get "valid_from" claim) (
    field "valid_to" (get "valid_to" claim) (
      field "tx_from" (get "tx_from" claim)
        (field "tx_to" (get "tx_to" claim) (field "status" (get "status" claim) end))))

pub record Genealogy : Type 0 where
  pub id : String
  pub statement : Fields
  pub claimant : Json
  pub contributor_kind : Json
  pub ingested_by : Json
  pub source : Option Fields
  pub evidence : List Fields
  pub reviews : List Fields
  pub contradictions : List Json
  pub belief_state : Belief
  pub space : Json
  pub temporal : Fields

module _ (e : Engine) (p : Principal) where
  -- `_scoped_source_view`
  unfoldable pub scoped_source_view : Fields → Objects → Result (Option Fields)
  unfolding source_entry
  scoped_source_view o os =
      if not (truthy (get "source" o)) then ok none else elim (get_object_at (get "source" o) os) [
        | none ↦ ok none
        | some src ↦ epistemos.Result.◌>>=◌ (can_read e.host p os src) λ may.
            if may
            then epistemos.Result.◌>>=◌ (source_entry src) (λ view. ok (some view))
            else ok none
      ]

  -- `_readable_reviews_view`
  unfoldable pub readable_reviews_view : String → Json → Objects → Result (List Fields)
  readable_reviews_view claim_id claimant os =
      epistemos.Result.◌>>=◌ (readable_reviews e p claim_id os)
        λ reviews. ok (map (review_entry claimant) reviews)

  unfoldable pub explain_claim : String → Exec Store Genealogy
  explain_claim claim_id = do
    lift (require p "claim.read")
    claim ← look (ref_readable e.host p claim_id)
    raise_if (not (is_str (get "kind" claim) "claim")) validation
    source ← look (scoped_source_view claim)
    evidence ← look (claim_evidence e.host p claim_id)
    reviews ← look (readable_reviews_view claim_id (get "claimant" claim))
    contradictions ← lift (iterate (get_or "contradicts" (arr nil) claim))
    state ← belief e p claim_id
    pure (record {
      id = claim_id;
      statement = statement_of claim;
      claimant = get "claimant" claim;
      contributor_kind = get "contributor_kind" claim;
      ingested_by = get "owner" claim;
      source = source;
      evidence = evidence;
      reviews = reviews;
      contradictions = contradictions;
      belief_state = state;
      space = first_space claim;
      temporal = temporal_of claim;
    })
