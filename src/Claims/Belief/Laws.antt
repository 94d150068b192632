-- ===== src/Claims/Belief/Laws.antt =====
-- claims/belief.py: which reviews decide a belief.
use epistemos.Common.{
  ℕ, suc, ◌+◌, ◌≡◌, ◌≢◌, ◌⊎◌, ◌↔◌, refl, inl, inr, Bool, true, false, Option, none, some, List, [],
  ◌∷◌, ◌++◌, arith, Bool-cases, any, all, filter, length, if◌then◌else◌, All, ◌||◌,
}
use epistemos.Common.{Among, any-same}
use epistemos.Json.{Fields, is_str}
use epistemos.Json.Dict.{get}
use epistemos.Claims.Belief.{
  BeliefState, derive_belief, governed, from_reviews, confirms, contested, with_verdict, String,
}

-- Is some review a dispute or a rejection?
abbrev pub is_contesting : Fields → Bool
is_contesting r =
    epistemos.Common.◌||◌ (is_str (get "verdict" r) "dispute") (is_str (get "verdict" r) "reject")

abbrev pub is_confirming : Fields → Bool
is_confirming r = is_str (get "verdict" r) "confirm"

filter-nil : (p : Fields → Bool) (rs : List Fields) → any p rs ≡ false → filter p rs ≡ []
filter-nil p [] h = refl
filter-nil p (r ∷ rs) h = ground (arith, filter-nil p rs)

-- The state that reviews give: disputed if some review contests it, whatever
-- the number that confirms; else supported if some review confirms it; else proposed.
abbrev pub picture : List Fields → BeliefState
picture reviews =
    if any is_contesting reviews
    then BeliefState.disputed
    else if any is_confirming reviews
    then BeliefState.supported
    else BeliefState.proposed

filter-cons :
    (p : Fields → Bool) (rs : List Fields)
    → any p rs ≡ true
    → (c : Fields) × (cs : List Fields) × (filter p rs ≡ c ∷ cs)
filter-cons p [] h = cc
filter-cons p (r ∷ rs) h = elim (Bool-cases (p r)) [
  | inl on ↦ (r, filter p rs, rw on refl)
  | inr off ↦ let (c, cs, e) = filter-cons p rs (rw off at h) in (c, cs, rw off e)
]

abbrev has_verdict : String → Fields → Bool
has_verdict v r = is_str (get "verdict" r) v

any_contesting :
    (rs : List Fields)
    → any is_contesting rs ≡ (any (has_verdict "dispute") rs || any (has_verdict "reject") rs)
any_contesting [] = refl
any_contesting (r ∷ rs) = ground (arith, any_contesting rs)

contested_nil : (rs : List Fields) → any is_contesting rs ≡ false → contested rs ≡ []
contested_nil rs h =
    let split = any_contesting rs in
    rw
      (
        filter-nil (has_verdict "dispute") rs (ground (arith, split)),
        filter-nil (has_verdict "reject") rs (ground (arith, split)),
      )
      refl

append_cons :
    (xs ys : List Fields)
    → ((c : Fields) × (cs : List Fields) × (xs ≡ c ∷ cs))
      ⊎ ((c : Fields) × (cs : List Fields) × (ys ≡ c ∷ cs))
    → (c : Fields) × (cs : List Fields) × (xs ++ ys ≡ c ∷ cs)
append_cons [] ys (inl (c, cs, e)) = cc
append_cons [] ys (inr found) = found
append_cons (x ∷ xs) ys h = (x, xs ++ ys, refl)

contested_cons :
    (rs : List Fields)
    → any is_contesting rs ≡ true
    → (c : Fields) × (cs : List Fields) × (contested rs ≡ c ∷ cs)
contested_cons rs h =
    append_cons (with_verdict "dispute" rs) (with_verdict "reject" rs)
      (elim (Bool-cases (any (has_verdict "dispute") rs)) [
        | inl on ↦ inl (filter-cons (has_verdict "dispute") rs on)
        | inr off ↦ inr (filter-cons (has_verdict "reject") rs (ground (arith, any_contesting rs)))
      ])

from_reviews-picture :
    (rs : List Fields) → (from_reviews (contested rs) (confirms rs) rs).state ≡ picture rs
unfolding from_reviews
from_reviews-picture rs = elim (Bool-cases (any is_contesting rs)) [
  | inl on ↦ let (c, cs, e) = contested_cons rs on in rw (e, on) refl
  | inr off ↦ elim (Bool-cases (any is_confirming rs)) [
    | inl some_confirm ↦
        let (c, cs, e) = filter-cons is_confirming rs some_confirm in
        rw (contested_nil rs off, e, off, some_confirm) refl
    | inr none_confirm ↦
        rw (contested_nil rs off, filter-nil is_confirming rs none_confirm, off, none_confirm) refl
  ]
]

abbrev is_some : Option Fields → Bool
is_some none = false
is_some (some g) = true

abbrev first_of : List (Bool × BeliefState) → BeliefState → BeliefState
first_of [] last = last
first_of ((test, state) ∷ cases) last = if test then state else first_of cases last

-- By governance, then by the reviews.
abbrev open_cases : List Fields → Option Fields → Option Fields → List (Bool × BeliefState)
open_cases reviews acceptance rejection =
    (is_some rejection, BeliefState.rejected)
    ∷ (is_some acceptance, BeliefState.accepted)
    ∷ (any is_contesting reviews, BeliefState.disputed)
    ∷ (any is_confirming reviews, BeliefState.supported)
    ∷ []

-- The state of a claim by precedence: its own end, then governance, then its reviews.
abbrev pub standing : Fields → List Fields → Option Fields → Option Fields → BeliefState
standing claim reviews acceptance rejection =
    first_of
      ((is_str (get "status" claim) "retracted", BeliefState.retracted)
        ∷ (is_str (get "status" claim) "superseded", BeliefState.superseded)
        ∷ open_cases reviews acceptance rejection)
      BeliefState.proposed

governed-cases :
    (reviews : List Fields) (acceptance rejection : Option Fields)
    → (governed reviews acceptance rejection).state
      ≡ first_of (open_cases reviews acceptance rejection) BeliefState.proposed
unfolding governed
governed-cases reviews acceptance (some g) = refl
governed-cases reviews (some g) none = refl
governed-cases reviews none none = from_reviews-picture reviews

-- The state of the belief in a claim is the first that applies of: retracted and superseded, by the
-- claim's status; rejected and accepted, by its governance; disputed, if some review disputes or
-- rejects it; supported, if some review confirms it; proposed.
pub derive_belief-standing :
    (claim : Fields) (reviews : List Fields) (acceptance rejection : Option Fields)
    → (derive_belief claim reviews acceptance rejection).state
      ≡ standing claim reviews acceptance rejection
unfolding derive_belief
derive_belief-standing claim reviews acceptance rejection =
    elim (Bool-cases (is_str (get "status" claim) "retracted")) [
      | inl on ↦ rw on refl
      | inr off ↦ elim (Bool-cases (is_str (get "status" claim) "superseded")) [
        | inl on ↦ rw (off, on) refl
        | inr still ↦ rw (off, still) (governed-cases reviews acceptance rejection)
      ]
    ]

-- The state does not depend on the order of the reviews nor on how often one is given: two lists of
-- the same reviews give the same state.
pub derive_belief_same :
    (claim : Fields) (reviews others : List Fields) (acceptance rejection : Option Fields)
    → ((r : Fields) → Among r reviews ↔ Among r others)
    → (derive_belief claim reviews acceptance rejection).state
      ≡ (derive_belief claim others acceptance rejection).state
derive_belief_same claim reviews others acceptance rejection same =
    rw
      (
        derive_belief-standing claim reviews acceptance rejection,
        derive_belief-standing claim others acceptance rejection,
        any-same is_contesting reviews others same,
        any-same is_confirming reviews others same,
      )
      refl
