-- ===== src/Retrieval/Shown.antt =====
-- retrieval/__init__.py: one result of a search, with its reasons.
use Prim.Native.String.{◌++◌ as text_append}
use epistemos.Common.{ℕ, String, Bool, false, not, Option, none, some, List, [], ◌∷◌, if◌then◌else◌}
use epistemos.Result.{Result, ok, ◌>>=◌}
use epistemos.Json.{Json, bool, str, Fields, end, field, is_null}
use epistemos.Json.Dict.{get, get_or, item}
use epistemos.Engine.Transfer.Records.{text}
use epistemos.Retrieval.Text.{join}
use epistemos.Retrieval.Score.{Floats, Components, is_zero, is_fact}

pub record Retrieved : Type 0 where
  pub id : String
  pub kind : Json
  pub score : ℕ
  pub score_components : Components
  pub source : Option Fields
  pub temporal_state : Option Fields
  pub why : String
  pub obj : Fields

module _ (x : Floats) where
  -- Is the component there, and not 0.0?
  abbrev weighs : Option ℕ → Bool
  weighs none = false
  weighs (some v) = not (is_zero v)

  abbrev shown : String → Option ℕ → String
  shown name none = name
  shown name (some v) = text_append name (x.fixed v)

  abbrev bit_if : Bool → String → List String → List String
  bit_if b s more = if b then s ∷ more else more

  abbrev when_of : Bool → Components → List String
  when_of fact c =
      if fact
      then (if weighs c.temporal
          then "currently believed & valid"
          else "NOT currently believed/valid (historical)")
        ∷ []
      else []

  -- `_why`; the flag says that there is a temporal state.
  unfoldable pub why : Components → Bool → String
  why c fact =
      let bits = bit_if (weighs c.exact) "exact structural match" (
        bit_if (weighs c.lexical) (shown "lexical overlap " c.lexical) (
          bit_if (weighs c.authority) (shown "source trust " c.authority)
            (bit_if (weighs c.recency) (shown "recency " c.recency) (when_of fact c)))) in
      elim bits [ [] ↦ "matched query scope" | b ∷ bs ↦ join "; " (b ∷ bs) ]

  temporal_state : Fields → Option Fields
  temporal_state o =
      if not (is_fact o)
      then none
      else some (
          field "valid_from" (get "valid_from" o) (
            field "valid_to" (get "valid_to" o) (
              field "tx_from" (get "tx_from" o) (
                field "tx_to" (get "tx_to" o)
                  (field "believed" (bool (is_null (get "tx_to" o))) end)))))

  rounded : Option ℕ → Option ℕ
  rounded none = none
  rounded (some v) = some (x.round v)

  round_all : Components → Components
  unfolding rounded
  round_all c = record {
    exact = rounded c.exact;
    recency = rounded c.recency;
    authority = rounded c.authority;
    temporal = rounded c.temporal;
    lexical = rounded c.lexical;
  }

  unfoldable pub source_of : Option Fields → Result (Option Fields)
  source_of none = ok none
  source_of (some src) = do
    id ← item "id" src
    ok (some (field "id" id (field "uri" (get "uri" src) (field "trust" (get "trust" src) end))))

  -- `_build`, with the source that is in the object's scope. An id is a text, as the store keeps it.
  unfoldable pub build : Option Fields → Fields → ℕ → Components → Result Retrieved
  unfolding round_all source_of temporal_state
  build src o total c = do
    source ← source_of src
    id ← item "id" o >>= text
    ok (record {
      id = id;
      kind = get_or "kind" (str "unknown") o;
      score = x.round total;
      score_components = round_all c;
      source = source;
      temporal_state = temporal_state o;
      why = why c (is_fact o);
      obj = o;
    })
