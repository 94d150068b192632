-- ===== src/Engine/Search.antt =====
-- core/__init__.py: search. What the engine is made with for it, the arithmetic, the weights, the
-- tokenizer and a lexical index, if it has one, is an argument.
pub mod Answers
pub mod Alike
pub mod Blind
use epistemos.Common.{
  ℕ, String, Bool, true, false, Option, none, some, List, [], ◌∷◌, map, if◌then◌else◌,
}
use epistemos.Result.{Error, Result, ok, err, validation, type_error, value_error, ◌>>=◌}
use epistemos.Json.{Json, null, float, str, arr, obj, Items, nil, cons, Fields, end, field}
use epistemos.Host.{Host, pos, negsuc, int_of}
use epistemos.Identity.{Principal, require}
use epistemos.Storage.{Objects}
use epistemos.Engine.Base.{Engine, text_arg}
use epistemos.Engine.Read.{can_read}
use epistemos.Retrieval.Text.{Tokenizer}
use epistemos.Retrieval.Score.{Floats, Weights, Wanted}
use epistemos.Retrieval.Shown.{Retrieved}
use epistemos.Retrieval.Scan.{Query, LexicalIndex, legacy_search, indexed_search}

pub record Search : Type 0 where
  pub floats : Floats
  pub weights : Weights
  pub tokenizer : Tokenizer
  -- The index, and whether it is healthy.
  pub index : Option (LexicalIndex × Bool)

pub record SearchArgs : Type 0 where
  pub text : Json
  pub wanted : Wanted
  pub kinds : Json
  pub limit : Json
  pub believed_only : Bool
  pub at_valid : Json
  pub at_tx : Json

names_of : Items → Result (List String)
names_of nil = ok []
names_of (cons (str s) xs) = do ss ← names_of xs; ok (s ∷ ss)
names_of (cons _ xs) = err validation

unfoldable pub kinds_arg : Json → Result (Option (List String))
unfolding names_of
kinds_arg null = ok none
kinds_arg (arr xs) = do kinds ← names_of xs; ok (some kinds)
kinds_arg _ = err validation

-- int(limit), whose TypeError and ValueError become a ValidationError; it is not below 0.
not_an_integer : Error → Error
not_an_integer epistemos.Result.type_error = validation
not_an_integer epistemos.Result.value_error = validation
not_an_integer x = x

unfoldable pub limit_arg : Host → Json → Result ℕ
unfolding not_an_integer
limit_arg h limit = elim (int_of h limit) [
  | err x ↦ err (not_an_integer x)
  | ok n ↦ elim n [ pos k ↦ ok k | negsuc k ↦ err validation ]
]

text_if : Engine → Json → Result (Option String)
text_if e null = ok none
text_if e v = do s ← text_arg e v (some e.limits.max_text); ok (some s)

unfoldable pub query_of : Engine → SearchArgs → Result Query
unfolding text_if
query_of e a = do
  text ← text_if e a.text
  limit ← limit_arg e.host a.limit
  kinds ← kinds_arg a.kinds
  ok (record {
    text = text;
    wanted = a.wanted;
    kinds = kinds;
    limit = limit;
    believed_only = a.believed_only;
    at_tx = a.at_tx;
    at_valid = a.at_valid;
  })

abbrev pub scan_method : String
scan_method = "scan-tfidf+structural+temporal+authority"

abbrev pub index_method : String
index_method = "fts5-bm25+structural+temporal+authority"

component : String → Option ℕ → Fields → Fields
component key none more = more
component key (some v) more = field key (float v) more

or_null : Option Fields → Json
or_null none = null
or_null (some d) = obj d

unfoldable pub hit_view : String → Retrieved → Fields
unfolding component or_null
hit_view method r = field "id" (str r.id) (
    field "kind" r.kind (
      field "score" (float r.score) (
        field "score_components"
          (obj (
            component "exact" r.score_components.exact (
              component "recency" r.score_components.recency (
                component "authority" r.score_components.authority (
                  component "temporal" r.score_components.temporal
                    (component "lexical" r.score_components.lexical end))))))
          (field "retrieval_method" (str method) (
            field "source" (or_null r.source) (
              field "temporal_state" (or_null r.temporal_state)
                (field "why_returned" (str r.why) end)))))))

-- `utc` is what the machine's clock reads when the call is made.
module _ (e : Engine) (g : Search) (utc : ℕ) (p : Principal) where
  module _ (os : Objects) (q : Query) where
    unfoldable pub scan : Result (List Retrieved)
    scan =
        legacy_search g.floats e.host g.weights g.tokenizer utc os q p.tenant p.namespace
          (can_read e.host p os)

    -- Whatever the index raises, the scan answers, and the index counts as degraded from then on.
    unfoldable pub fall_back : Result (List Retrieved) → Result (List Retrieved × String × Bool)
    fall_back (ok results) = ok (results, index_method, false)
    fall_back (err x) = do results ← scan; ok (results, scan_method, true)

    -- The results, the method, and whether the index was marked degraded.
    unfoldable pub retrieve : Result (List Retrieved × String × Bool)
    unfolding scan fall_back
    retrieve = elim g.index [
      | none ↦ do results ← scan; ok (results, scan_method, false)
      | some i ↦
          if i.1
          then fall_back (
              indexed_search g.floats e.host g.weights g.tokenizer utc os q p.tenant p.namespace
                (can_read e.host p os) i.0)
          else (do results ← scan; ok (results, scan_method, false))
    ]

  unfoldable pub search : SearchArgs → Objects → Result (List Fields × Bool)
  search a os = do
    _ ← require p "read"
    q ← query_of e a
    found ← retrieve os q
    ok (map (hit_view found.1) found.0, found.2)
