-- ===== src/Retrieval/Score.antt =====
-- retrieval/__init__.py: the components of a score. The arithmetic on doubles is a parameter, by their
-- bit patterns.

use epistemos.Common.{
  ℕ, ◌+◌, String, Bool, true, false, not, Option, none, some, List, [], ◌∷◌, ◌==◌, ◌&&◌, ◌||◌,
  nat_eq, filter, map, length, if◌then◌else◌,
}
use epistemos.Result.{Result, ok, ◌>>=◌}
use epistemos.Json.{Json, float, Fields, is_str}
use epistemos.Json.Dict.{get, get_or, json_eq}
use epistemos.Host.{Host, parse_instant, float_lt, one, negative_zero}
use epistemos.Model.{truthy}
use epistemos.Storage.{Objects}
use epistemos.Engine.Read.{get_object_at}
use epistemos.Temporal.{believed_at, valid_at, float_of}

pub record Floats : Type 0 where
  -- float(n)
  pub of_nat : ℕ → ℕ
  pub add : ℕ → ℕ → ℕ
  pub mul : ℕ → ℕ → ℕ
  pub div : ℕ → ℕ → ℕ
  -- float(sum(values))
  pub sum : List ℕ → ℕ
  -- math.log(x)
  pub log : ℕ → ℕ
  -- (now - then).total_seconds(), of two instants
  pub seconds : ℕ → ℕ → ℕ
  -- round(x, 6)
  pub round : ℕ → ℕ
  -- f"{x:.2f}"
  pub fixed : ℕ → String

-- x == 0.0
abbrev pub is_zero : ℕ → Bool
is_zero a = nat_eq a 0 || nat_eq a negative_zero

pub record Weights : Type 0 where
  pub lexical : ℕ
  pub exact : ℕ
  pub recency : ℕ
  pub authority : ℕ
  pub temporal : ℕ

-- The dict of the components: a key that was not set is none.
pub record Components : Type 0 where
  pub exact : Option ℕ
  pub recency : Option ℕ
  pub authority : Option ℕ
  pub temporal : Option ℕ
  pub lexical : Option ℕ

-- The constraints of a query on the statement of a fact.
pub record Wanted : Type 0 where
  pub subject : Option String
  pub predicate : Option String
  pub object : Option String

abbrev pub is_fact : Fields → Bool
is_fact o = is_str (get "kind" o) "fact"

abbrev meets : String → Option String → Fields → Bool
meets key none o = true
meets key (some v) o = is_str (get key o) v

abbrev asks_nothing : Wanted → Bool
asks_nothing q = elim q.subject [
  | some v ↦ false
  | none ↦ elim q.predicate [
    | some v ↦ false
    | none ↦ elim q.object [ some v ↦ false | none ↦ true ]
  ]
]

unfoldable pub matches_structural : Wanted → Fields → Bool
matches_structural q o =
    if asks_nothing q
    then true
    else if not (is_fact o)
    then false
    else meets "subject" q.subject o && meets "predicate" q.predicate o && meets "object" q.object o

abbrev asked_of : Option String → ℕ
asked_of none = 0
asked_of (some v) = 1

abbrev hit_of : String → Option String → Fields → ℕ
hit_of key none o = 0
hit_of key (some v) o = if is_str (get key o) v then 1 else 0

-- `_source_in_scope`
unfoldable pub source_in_scope : Objects → Fields → Option Fields
source_in_scope os o =
    if not (truthy (get "source" o)) then none else elim (get_object_at (get "source" o) os) [
      | none ↦ none
      | some src ↦
          if json_eq (get "tenant" src) (get "tenant" o)
            && json_eq (get "namespace" src) (get "namespace" o)
          then some src
          else none
    ]

-- `_trust_lookup`
unfoldable pub trust_of : Host → Option Fields → Result ℕ
trust_of h none = ok 0
trust_of h (some src) = float_of h (get_or "trust" (float 0) src)

module _ (x : Floats) where
  exact_of : Wanted → Fields → Option ℕ
  exact_of q o =
      let asked = asked_of q.subject + asked_of q.predicate + asked_of q.object in
      let hits =
        hit_of "subject" q.subject o
        + hit_of "predicate" q.predicate o
        + hit_of "object" q.object o in
      if is_fact o && not (nat_eq asked 0)
      then some (x.div (x.of_nat hits) (x.of_nat asked))
      else none

  -- max(0.0, a)
  abbrev not_negative : ℕ → ℕ
  not_negative a = if float_lt 0 a then a else 0

  recency_of : ℕ → Option ℕ → Option ℕ
  recency_of now none = none
  recency_of now (some tx_from) =
      let age_days = not_negative (x.div (x.seconds now tx_from) (x.of_nat 86400)) in
      some (x.div one (x.add one (x.div age_days (x.of_nat 30))))

  -- `obj.get("tx_from") or obj.get("created_at")`
  abbrev begun : Fields → Json
  begun o = if truthy (get "tx_from" o) then get "tx_from" o else get "created_at" o

  module _ (h : Host) where
    temporal_of : ℕ → Json → Json → Fields → Result (Option ℕ)
    temporal_of now at_tx at_valid o = if not (is_fact o) then ok none else (do
      known ← believed_at h now o at_tx
      holds ← if known then valid_at h now o at_valid else ok false
      ok (some (if holds then one else 0)))

    -- `_nonlexical_components`
    unfoldable pub nonlexical_components : Wanted → ℕ → ℕ → Json → Json → Fields → Result Components
    unfolding exact_of recency_of temporal_of
    nonlexical_components q source_trust now at_tx at_valid o = do
      tx_from ← parse_instant h (begun o)
      temporal ← temporal_of now at_tx at_valid o
      ok (record {
        exact = exact_of q o;
        recency = recency_of now tx_from;
        authority = if is_zero source_trust then none else some source_trust;
        temporal = temporal;
        lexical = none;
      })

  weighted : ℕ → Option ℕ → List ℕ → List ℕ
  weighted w none more = more
  weighted w (some v) more = x.mul w v ∷ more

  -- `_total`
  unfoldable pub total : Weights → Components → ℕ
  unfolding weighted
  total w c = x.sum (
      weighted w.exact c.exact (
        weighted w.recency c.recency (
          weighted w.authority c.authority
            (weighted w.temporal c.temporal (weighted w.lexical c.lexical [])))))

  -- `_tfidf`: the sum over the terms that the document has.
  tf_idf : (String → ℕ) → ℕ → ℕ → String → ℕ
  tf_idf df n_docs tf term =
      let idf = x.add (x.log (x.div (x.of_nat (n_docs + 1)) (x.of_nat (df term + 1)))) one in
      x.mul (x.div (x.of_nat tf) (x.add (x.of_nat tf) one)) idf

  term_count : String → List String → ℕ
  term_count term tokens = length (filter (λ t. t == term) tokens)

  term_scores : (String → ℕ) → ℕ → List String → List String → ℕ → ℕ
  unfolding tf_idf term_count
  term_scores df n_docs tokens [] score = score
  term_scores df n_docs tokens (term ∷ terms) score =
      let tf = term_count term tokens in
      term_scores df n_docs tokens terms
        (if nat_eq tf 0 then score else x.add score (tf_idf df n_docs tf term))

  -- min(1.0, a)
  abbrev at_most_one : ℕ → ℕ
  at_most_one a = if float_lt a one then a else one

  unfoldable pub tfidf : List String → List String → (String → ℕ) → ℕ → ℕ
  unfolding term_scores
  tfidf terms tokens df n_docs =
      let score = term_scores df n_docs tokens terms 0 in
      let most =
        x.sum
          (map (λ term. x.add (x.log (x.div (x.of_nat (n_docs + 1)) (x.of_nat 1))) one) terms) in
      if is_zero most then 0 else at_most_one (x.div score most)
