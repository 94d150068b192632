-- ===== src/Context/Describe.antt =====
-- context/builder.py: the intent of a query, and what one object says in the envelope. The metadata
-- of an object is a dict wherever the engine wrote it; any other counts as an empty one here.
use Prim.Native.Nat.{◌/◌}
use Prim.Native.String.{◌++◌ as text_append}
use epistemos.Common.{
  ℕ, suc, zero, ◌+◌, String, Bool, true, false, Option, none, some, List, [], ◌∷◌, ◌==◌, ◌&&◌, ◌||◌,
  any, codes, nat_eq, if◌then◌else◌, length,
}
use epistemos.Result.{Result, ok, ◌>>=◌}
use epistemos.Json.{Json, null, str, obj, Fields, is_str, is_null, iterate}
use epistemos.Json.Dict.{get, get_or}
use epistemos.Host.{Host}
use epistemos.Model.{truthy}

-- max(1, math.ceil(len(text) / 4)), where len counts code points
unfoldable pub estimate_tokens : String → ℕ
estimate_tokens s = Prim.Native.Nat.max 1 ((length (codes s) + 3) / 4)

abbrev starts : List ℕ → List ℕ → Bool
starts [] cs = true
starts (m ∷ ms) [] = false
starts (m ∷ ms) (c ∷ cs) = nat_eq m c && starts ms cs

-- m in q
abbrev occurs : List ℕ → List ℕ → Bool
occurs m [] = starts m []
occurs m (c ∷ cs) = starts m (c ∷ cs) || occurs m cs

abbrev history_markers : List String
history_markers =
    "before" ∷ "previous" ∷ "prior" ∷ "used to" ∷ "history" ∷ "historical" ∷ "was " ∷ "were "
    ∷ "originally" ∷ "back then" ∷ "earlier" ∷ []

abbrev change_markers : List String
change_markers =
    "change" ∷ "changed" ∷ "what changed" ∷ "evolve" ∷ "evolved" ∷ "difference" ∷ "diff" ∷ []

abbrev why_markers : List String
why_markers = "why" ∷ "reason" ∷ "led to" ∷ "decide" ∷ "decision" ∷ "rationale" ∷ []

abbrev contra_markers : List String
contra_markers =
    "contradict" ∷ "conflict" ∷ "dispute" ∷ "disputed" ∷ "still true" ∷ "really" ∷ "actually"
    ∷ "under control" ∷ "compliant" ∷ []

abbrev current_markers : List String
current_markers = "now" ∷ "current" ∷ "currently" ∷ "today" ∷ "latest" ∷ "present" ∷ []

pub data Intent : Type 0 where
  historical change decision contradiction current : Intent

abbrev or_empty : Option String → String
or_empty none = ""
or_empty (some s) = s

abbrev any_marker : List String → String → Bool
any_marker markers q = any (λ m. occurs (codes m) (codes q)) markers

-- The intent, and whether its confidence is high. `current` counts only where no other signal does:
-- the tests before it have ruled the others out.
unfoldable pub classify_intent : Host → Option String → Intent × Bool
classify_intent h query =
    let q = text_append " " (text_append (h.lower (or_empty query)) " ") in
    if any_marker history_markers q || any_marker change_markers q
    then (if any_marker change_markers q then Intent.change else Intent.historical, true)
    else if any_marker contra_markers q
    then (Intent.contradiction, true)
    else if any_marker why_markers q
    then (Intent.decision, true)
    else if any_marker current_markers q
    then (Intent.current, true)
    else (Intent.current, false)

unfoldable pub may_collapse_history : Intent → Bool → Bool
may_collapse_history Intent.current confident = confident
may_collapse_history _ confident = false

abbrev metadata_get : String → Fields → Json
metadata_get key o = elim (get_or "metadata" (obj Fields.end) o) [ obj m ↦ get key m | _ ↦ null ]

-- o["id"]: an object of the store has a text for its id.
abbrev pub id_of : Fields → String
id_of o = elim (get "id" o) [ str s ↦ s | _ ↦ "" ]

abbrev pub relation_weakens : Json → Bool
relation_weakens v = is_str v "contradicts" || is_str v "weakens"

unfoldable pub is_contradiction : Fields → Bool
is_contradiction o =
    is_str (get "kind" o) "evidence" && relation_weakens (metadata_get "relation" o)

abbrev is_one_of : Json → List String → Bool
is_one_of v ss = any (λ s. is_str v s) ss

unfoldable pub is_current : Fields → Bool
is_current o =
    if is_str (get "kind" o) "fact"
    then is_null (get "tx_to" o)
    else if is_str (get "kind" o) "claim"
    then is_null (get "status" o)
      || is_one_of (get "status" o) ("open" ∷ "accepted" ∷ "supported" ∷ "proposed" ∷ [])
    else true

abbrev is_statement : Fields → Bool
is_statement o = is_str (get "kind" o) "fact" || is_str (get "kind" o) "claim"

abbrev take_text : ℕ → String → String
take_text zero s = ""
take_text (suc n) String.[] = ""
take_text (suc n) (String.◌∷◌ c s) = String.◌∷◌ c (take_text n s)

abbrev text_join : List String → String
text_join [] = ""
text_join (s ∷ []) = s
text_join (s ∷ t ∷ ss) = text_append s (text_append " " (text_join (t ∷ ss)))

-- The text of a source, if it has one that is not empty.
abbrev pub source_of : Fields → Option String
source_of o = elim (get "source" o) [ str s ↦ some s | _ ↦ none ]

abbrev pub sources_in : List Fields → List String
sources_in [] = []
sources_in (o ∷ os) =
    let more = sources_in os in
    elim (source_of o) [ none ↦ more | some s ↦ if s == "" then more else s ∷ more ]

text_items : List Json → List String
text_items [] = []
text_items (str s ∷ js) = s ∷ text_items js
text_items (_ ∷ js) = text_items js

module _ (h : Host) where
  -- str(value)
  abbrev pub to_text : Json → String
  to_text (str s) = s
  to_text v = h.to_str v

  -- a or b or ...
  abbrev first_of : List Json → Json
  first_of [] = null
  first_of (v ∷ []) = v
  first_of (v ∷ w ∷ vs) = if truthy v then v else first_of (w ∷ vs)

  abbrev words : List Json → List String
  words [] = []
  words (v ∷ vs) = if truthy v then to_text v ∷ words vs else words vs

  unfoldable pub label : Fields → String
  label o =
      if is_statement o
      then text_join (words (get "subject" o ∷ get "predicate" o ∷ get "object" o ∷ []))
      else if is_str (get "kind" o) "evidence"
      then to_text (first_of (get "title" o ∷ get "uri" o ∷ get "id" o ∷ []))
      else if is_str (get "kind" o) "decision"
      then to_text (first_of (get "statement" o ∷ get "id" o ∷ []))
      else if is_str (get "kind" o) "source"
      then to_text (first_of (get "uri" o ∷ get "id" o ∷ []))
      else if is_str (get "kind" o) "review"
      then text_append (to_text (get_or "verdict" (str "review") o))
          (text_append " of " (take_text 10 (to_text (get_or "claim_id" (str "") o))))
      else to_text (get "id" o)

  abbrev bracketed : String → String
  bracketed s = text_append " [" (text_append s "]")

  abbrev extra : Fields → String
  extra o =
      if is_str (get_or "kind" (str "object") o) "claim"
      then bracketed (text_append "status=" (to_text (get_or "status" (str "open") o)))
      else if is_str (get_or "kind" (str "object") o) "evidence"
      then (if truthy (metadata_get "relation" o)
          then bracketed (to_text (metadata_get "relation" o))
          else "")
      else if is_str (get_or "kind" (str "object") o) "fact"
      then (if is_null (get "tx_to" o) then " [current]" else " [superseded]")
      else ""

  unfoldable pub serialize : Fields → String
  serialize o =
      text_append (to_text (get_or "kind" (str "object") o))
        (text_append ": " (text_append (label o) (extra o)))

  unfoldable pub statement_key : Fields → Option String
  statement_key o =
      if is_statement o
      then some (
          text_append (to_text (get "kind" o)) (
            text_append ":" (
              text_append (to_text (get "subject" o))
                (text_append "|" (to_text (get "predicate" o))))))
      else none

  unfoldable pub content_key : Fields → Option String
  content_key o =
      if is_str (get "kind" o) "evidence" && truthy (get "content_hash" o)
      then some (text_append "hash:" (to_text (get "content_hash" o)))
      else none

  abbrev references : List String → List String
  references [] = []
  references (s ∷ ss) = text_append "evidence:" s ∷ references ss

  abbrev evidence_items : Json → Result (List Json)
  evidence_items v = if truthy v then iterate v else ok []

  unfoldable pub provenance : Fields → Result (List String)
  unfolding text_items
  provenance o = do
    items ← evidence_items (get "evidence" o)
    let refs = references (text_items items)
    ok (elim (sources_in (o ∷ [])) [ [] ↦ refs | s ∷ _ ↦ text_append "source:" s ∷ refs ])
