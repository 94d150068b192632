-- ===== src/Tests/Beliefs.antt =====
-- claims/belief.py: an open claim that two agents confirm and one disputes.
use epistemos.Common.{◌≡◌, String, none, [], ◌∷◌, Among, here, there}
use epistemos.Json.{Fields, str, end, field}
use epistemos.Claims.Belief.{derive_belief}
use epistemos.Claims.Belief.Laws.{standing, derive_belief-standing, derive_belief_same}

abbrev claim : Fields
claim = field "status" (str "open") end

abbrev review : String → String → Fields
review owner verdict = field "owner" (str owner) (field "verdict" (str verdict) end)

abbrev doubt : Fields
doubt = review "carol" "dispute"

abbrev praise : Fields
praise = review "bob" "confirm"

derive_belief-standing_example :
    (derive_belief claim (praise ∷ praise ∷ doubt ∷ []) none none).state
    ≡ standing claim (praise ∷ praise ∷ doubt ∷ []) none none
derive_belief-standing_example =
    derive_belief-standing claim (praise ∷ praise ∷ doubt ∷ []) none none

swapped : (r : Fields) → Among r (praise ∷ doubt ∷ []) → Among r (doubt ∷ praise ∷ [])
swapped r (here e) = there (here e)
swapped r (there (here e)) = here e
swapped r (there (there m)) = elim m [ ]

back : (r : Fields) → Among r (doubt ∷ praise ∷ []) → Among r (praise ∷ doubt ∷ [])
back r (here e) = there (here e)
back r (there (here e)) = here e
back r (there (there m)) = elim m [ ]

derive_belief_same_example :
    (derive_belief claim (praise ∷ doubt ∷ []) none none).state
    ≡ (derive_belief claim (doubt ∷ praise ∷ []) none none).state
derive_belief_same_example =
    derive_belief_same claim (praise ∷ doubt ∷ []) (doubt ∷ praise ∷ []) none none
      (λ r. (swapped r, back r))
