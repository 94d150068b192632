-- ===== src/Retrieval/Scan.antt =====
-- retrieval/__init__.py: the two retrievers, the scan of all objects and the one on an index.
pub mod Ranked
pub mod Hits
pub mod Indexed
use epistemos.Common.{
  ℕ, String, Bool, true, false, not, Option, none, some, List, [], ◌∷◌, ◌==◌, ◌&&◌, ◌||◌, length,
  take, filter, contains, text_lt, if◌then◌else◌, nat_eq,
}
use epistemos.Result.{Result, ok, err, value_error, ◌>>=◌}
use epistemos.Json.{Json, str, Fields, is_str}
use epistemos.Json.Dict.{get}
use epistemos.Host.{Host, float_lt}
use epistemos.Storage.{Objects, objects, facts, get_object, in_scope}
use epistemos.Temporal.{believed}
use epistemos.Retrieval.Text.{Tokenizer, tokens_of, query_terms, object_text}
use epistemos.Retrieval.Score.{
  Floats, Weights, Wanted, is_zero, is_fact, matches_structural, nonlexical_components,
  source_in_scope, trust_of, total, tfidf,
}
use epistemos.Retrieval.Shown.{Retrieved, build}

pub record Query : Type 0 where
  pub text : Option String
  pub wanted : Wanted
  pub kinds : Option (List String)
  pub limit : ℕ
  pub believed_only : Bool
  pub at_tx : Json
  pub at_valid : Json

-- Spaces and grants are no knowledge.
abbrev pub is_control : Fields → Bool
is_control o = is_str (get "kind" o) "space" || is_str (get "kind" o) "grant"

in_list : Json → List String → Bool
in_list (str s) names = contains s names
in_list v names = false

unfoldable pub of_kinds : Option (List String) → Fields → Bool
unfolding in_list
of_kinds none o = true
of_kinds (some kinds) o = in_list (get "kind" o) kinds

-- `(a.score, a.id) < (b.score, b.id)`, where no score is NaN.
unfoldable pub ranks_below : Retrieved → Retrieved → Bool
ranks_below a b =
    if float_lt a.score b.score
    then true
    else if float_lt b.score a.score
    then false
    else text_lt a.id b.id

-- results.sort(key=..., reverse=True), which keeps the order of equals.
unfoldable pub insert_ranked : Retrieved → List Retrieved → List Retrieved
insert_ranked r [] = r ∷ []
insert_ranked r (q ∷ results) =
    let rest = insert_ranked r results in if ranks_below r q then q ∷ rest else r ∷ q ∷ results

unfoldable pub sort_ranked : List Retrieved → List Retrieved
sort_ranked [] = []
sort_ranked (r ∷ results) = insert_ranked r (sort_ranked results)

-- total <= 0.0
abbrev is_nothing : ℕ → Bool
is_nothing total = float_lt total 0 || is_zero total

-- A lexical index: its answer to a query, or none for any exception.
pub record LexicalIndex : Type 0 where
  pub search : String → String → String → Option (List String) → ℕ → Option (List (String × ℕ))

abbrev is_set : Option String → Bool
is_set none = false
is_set (some v) = not (v == "")

-- `subject or predicate or object`: a constraint that is the empty text does not count.
abbrev pub constrains : Wanted → Bool
constrains a = is_set a.subject || is_set a.predicate || is_set a.object

abbrev candidate_pool : ℕ
candidate_pool = 500

module _ (h : Host) (now : ℕ) (q : Query) where
  -- The tests after the firewall.
  unfoldable pub passes : Bool → Fields → Result Bool
  passes structural o = if not (of_kinds q.kinds o) then ok false else (do
    held ← if q.believed_only && is_fact o then believed h now o q.at_tx else ok true
    ok (held && (not structural || matches_structural q.wanted o)))

  module _ (authorize : Fields → Result Bool) where
    unfoldable pub is_candidate : Bool → Fields → Result Bool
    is_candidate structural o =
        if is_control o
        then ok false
        else (do may ← authorize o; if may then passes structural o else ok false)

    -- Control objects are left out first, then what the caller may not read.
    unfoldable pub candidates : Bool → List Fields → Result (List Fields)
    candidates structural [] = ok []
    candidates structural (o ∷ more) = do
      keep ← is_candidate structural o
      rest ← candidates structural more
      ok (if keep then o ∷ rest else rest)

module _ (h : Host) (tokens : Tokenizer) where
  -- `doc_tokens`
  unfoldable pub documents : List Fields → Result (List (Fields × List String))
  documents [] = ok []
  documents (o ∷ more) = do
    text ← object_text h o
    rest ← documents more
    ok ((o, tokens_of tokens (some text)) ∷ rest)

module _ (x : Floats) (h : Host) (w : Weights) (tokens : Tokenizer) (now : ℕ) (os : Objects)
    (q : Query) where
  -- The score of one object, where it has any and the object is not to be skipped.
  unfoldable pub scored : Bool → Option ℕ → Fields → Result (Option Retrieved)
  scored skip lexical o = do
    let src = source_in_scope os o
    trust ← trust_of h src
    comp ← nonlexical_components x h q.wanted trust now q.at_tx q.at_valid o
    let found = record comp { lexical = lexical }
    let score = total x w found
    if skip || is_nothing score then ok none else (do r ← build x src o score found; ok (some r))

  -- In how many of the documents the term is.
  abbrev document_count : List (Fields × List String) → String → ℕ
  document_count docs term = length (filter (λ d. contains term d.1) docs)

  -- A query for text that no term of the object matches is no hit.
  unfoldable pub scored_text :
      List String → (String → ℕ) → ℕ → Fields × List String → Result (Option Retrieved)
  scored_text [] df n_docs (o, words) = scored false none o
  scored_text (t ∷ ts) df n_docs (o, words) =
      let lexical = tfidf x (t ∷ ts) words df n_docs in scored (is_zero lexical) (some lexical) o

  unfoldable pub score_documents :
      List String → (String → ℕ) → ℕ → List (Fields × List String) → Result (List Retrieved)
  unfolding scored_text
  score_documents terms df n_docs [] = ok []
  score_documents terms df n_docs (d ∷ docs) = do
    hit ← scored_text terms df n_docs d
    rest ← score_documents terms df n_docs docs
    ok (elim hit [ none ↦ rest | some r ↦ r ∷ rest ])

  -- max(1, len(candidates))
  abbrev at_least_one : ℕ → ℕ
  at_least_one n = if nat_eq n 0 then 1 else n

  -- LegacyScanRetriever.search
  unfoldable pub legacy_search : String → String → (Fields → Result Bool) → Result (List Retrieved)
  legacy_search tenant namespace authorize = do
    found ← candidates h now q authorize true (objects tenant namespace none os)
    docs ← documents h tokens found
    results ←
        score_documents (query_terms tokens q.text) (document_count docs)
          (at_least_one (length docs)) docs
    ok (take q.limit (sort_ranked results))

  -- What the index names, where it is of the scope and passes the tests; no test leaves out
  -- the control objects here.
  module _ (tenant namespace : String) (authorize : Fields → Result Bool) where
    unfoldable pub is_indexed : Fields → Result Bool
    is_indexed o =
        if not (in_scope tenant namespace o)
        then ok false
        else (do may ← authorize o; if may then passes h now q true o else ok false)

    unfoldable pub indexed_pairs : List (String × ℕ) → Result (List (Fields × ℕ))
    unfolding is_indexed
    indexed_pairs [] = ok []
    indexed_pairs ((i, lexical) ∷ more) = elim (get_object i os) [
      | none ↦ indexed_pairs more
      | some o ↦ do
        keep ← is_indexed o
        rest ← indexed_pairs more
        ok (if keep then (o, lexical) ∷ rest else rest)
    ]

    unfoldable pub unscored : List Fields → List (Fields × ℕ)
    unscored [] = []
    unscored (o ∷ more) = (o, 0) ∷ unscored more

    -- `source`, where there is no text.
    unfoldable pub structural_objects : List Fields
    structural_objects =
        if constrains q.wanted
        then facts tenant namespace q.wanted.subject q.wanted.predicate q.wanted.object os
        else objects tenant namespace none os

    unfoldable pub structural_pairs : Result (List (Fields × ℕ))
    unfolding unscored
    structural_pairs = do
      found ← candidates h now q authorize false structural_objects
      ok (unscored found)

    abbrev lexical_of : ℕ → Option ℕ
    lexical_of v = if is_zero v then none else some v

    unfoldable pub score_pairs : List (Fields × ℕ) → Result (List Retrieved)
    score_pairs [] = ok []
    score_pairs ((o, lexical) ∷ pairs) = do
      hit ← scored false (lexical_of lexical) o
      rest ← score_pairs pairs
      ok (elim hit [ none ↦ rest | some r ↦ r ∷ rest ])

    -- The pairs of a query for text; any exception of the index is a ValueError here.
    unfoldable pub text_pairs : LexicalIndex → Option String → Result (List (Fields × ℕ))
    text_pairs index none = structural_pairs
    text_pairs index (some text) = elim (tokens_of tokens (some text)) [
      | [] ↦ structural_pairs
      | t ∷ ts ↦ elim (index.search tenant namespace text q.kinds candidate_pool) [
        | none ↦ err value_error
        | some pairs ↦ indexed_pairs pairs
      ]
    ]

    -- IndexedRetriever.search
    unfoldable pub indexed_search : LexicalIndex → Result (List Retrieved)
    unfolding text_pairs
    indexed_search index = do
      pairs ← text_pairs index q.text
      results ← score_pairs pairs
      ok (take q.limit (sort_ranked results))
