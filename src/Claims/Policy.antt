-- ===== src/Claims/Policy.antt =====
-- claims/policy.py: the port that decides a governed acceptance, and the default policy.
use epistemos.Common.{
  [], ◌∷◌, String, Bool, true, false, not, List, ◌||◌, if◌then◌else◌, length, filter, contains,
}
use Prim.Native.String.{◌++◌ as text_append}
use epistemos.Host.{Host}
use epistemos.Json.{Json, Fields, is_str, str, num}
use epistemos.Json.Dict.{get}

pub data Action : Type 0 where
  accept reject : Action

pub record PolicyRequest : Type 0 where
  pub action : Action
  pub principal_agent : String
  pub principal_caps : List String
  pub claim : Fields
  pub reviews : List Fields
  pub destination_space : Json

pub record PolicyDecision : Type 0 where
  pub allow : Bool
  pub reason : String

abbrev pub Policy : Type 0
Policy = PolicyRequest → PolicyDecision

-- f"... {value} ..."
abbrev join : List String → String
join [] = ""
join (s ∷ ss) = text_append s (join ss)

abbrev is_contesting : Fields → Bool
is_contesting r = is_str (get "verdict" r) "dispute" || is_str (get "verdict" r) "reject"

module _ (h : Host) where
  picture : List Fields → String
  picture reviews = join (
      "confirms="
      ∷ h.to_str (num (length (filter (λ r. is_str (get "verdict" r) "confirm") reviews)))
      ∷ ", disputes="
      ∷ h.to_str (num (length (filter is_contesting reviews)))
      ∷ [])

  tally : Action → List Fields → String
  unfolding picture
  tally reject reviews = join ("rejected by policy (" ∷ picture reviews ∷ ")" ∷ [])
  tally accept reviews = join ("accepted by policy (" ∷ picture reviews ∷ ")" ∷ [])

  text : Json → String
  text (str s) = s
  text j = h.to_str j

  unfoldable pub local_default_policy : Policy
  unfolding tally text
  local_default_policy req =
      let status = get "status" req.claim in
      if not (contains "knowledge.accept" req.principal_caps)
      then record { allow = false; reason = "principal lacks the knowledge.accept capability" }
      else if is_str status "retracted" || is_str status "superseded"
      then record {
        allow = false;
        reason = join ("cannot accept a " ∷ text status ∷ " claim" ∷ []);
      }
      else record { allow = true; reason = tally req.action req.reviews }
