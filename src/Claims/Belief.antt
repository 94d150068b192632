-- ===== src/Claims/Belief.antt =====
-- claims/belief.py: the belief in a claim, computed from its reviews and its governance.
pub mod Laws
use epistemos.Common.{
  ℕ, suc, Bool, true, false, Option, none, some, List, [], ◌∷◌, ◌++◌, ltb, if◌then◌else◌, length,
  filter, map, String,
}
use epistemos.Json.{Json, null, str, obj, Fields, end, field, is_str}
use epistemos.Json.Dict.{get}

pub data BeliefState : Type 0 where
  proposed supported disputed accepted rejected retracted superseded : BeliefState

-- The sentence of `why`, by the values that it interpolates: the actor, and the numbers of contesting
-- and of confirming reviews.
pub data Why : Type 0 where
  retracted_by_owner superseded_by_newer no_review : Why
  rejected_by : Json → ℕ → Why
  accepted_by : Json → ℕ → ℕ → Why
  contested_by : ℕ → ℕ → Why
  confirmed_by : ℕ → Why

pub record Belief : Type 0 where
  pub state : BeliefState
  pub why : Why
  pub reviews : List Fields
  pub governance : Option Fields

review_view : Fields → Fields
review_view r = field "reviewer" (get "owner" r) (
    field "verdict" (get "verdict" r)
      (field "rationale" (get "rationale" r) (field "at" (get "created_at" r) end)))

abbrev result : BeliefState → Why → List Fields → Option Fields → Belief
result state why reviews governance = record {
  state = state;
  why = why;
  reviews = map review_view reviews;
  governance = governance;
}

abbrev pub with_verdict : String → List Fields → List Fields
with_verdict v reviews = filter (λ r. is_str (get "verdict" r) v) reviews

abbrev pub confirms : List Fields → List Fields
confirms reviews = with_verdict "confirm" reviews

-- disputes + rejects
abbrev pub contested : List Fields → List Fields
contested reviews = with_verdict "dispute" reviews ++ with_verdict "reject" reviews

-- The picture that the reviews give where nothing governs the claim.
from_reviews : List Fields → List Fields → List Fields → Belief
from_reviews (c ∷ cs) confirming reviews =
    result BeliefState.disputed (contested_by (length (c ∷ cs)) (length confirming)) reviews none
from_reviews [] (c ∷ cs) reviews =
    result BeliefState.supported (confirmed_by (length (c ∷ cs))) reviews none
from_reviews [] [] reviews = result BeliefState.proposed no_review reviews none

governed : List Fields → Option Fields → Option Fields → Belief
governed reviews acceptance (some g) =
    result BeliefState.rejected (rejected_by (get "actor" g) (length (contested reviews))) reviews
      (some g)
governed reviews (some g) none =
    result BeliefState.accepted
      (accepted_by (get "actor" g) (length (confirms reviews)) (length (contested reviews))) reviews
      (some g)
governed reviews none none = from_reviews (contested reviews) (confirms reviews) reviews

unfoldable pub derive_belief : Fields → List Fields → Option Fields → Option Fields → Belief
unfolding governed from_reviews review_view
derive_belief claim reviews acceptance rejection =
    if is_str (get "status" claim) "retracted"
    then result BeliefState.retracted retracted_by_owner reviews none
    else if is_str (get "status" claim) "superseded"
    then result BeliefState.superseded superseded_by_newer reviews none
    else governed reviews acceptance rejection
