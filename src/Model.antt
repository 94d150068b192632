-- ===== src/Model.antt =====
-- model/__init__.py and claims/__init__.py: the dataclasses. An instance is the dict that
-- `to_dict` gives: the declared fields, with their defaults, after `__post_init__`.
use epistemos.Common.{
  ℕ, String, Bool, true, false, not, Option, none, some, List, [], ◌∷◌, ◌==◌, ◌&&◌, ◌||◌, nat_eq,
  leb, ltb, if◌then◌else◌, contains,
}
use epistemos.Result.{Result, ok, err, validation, temporal, type_error, ◌>>=◌}
use epistemos.Json.{
  Json, null, bool, num, negative, float, str, arr, obj, Items, nil, cons, Fields, end, field,
}
use epistemos.Json.Dict.{get, find, put}
use epistemos.Host.{Host, parse_instant, one, negative_zero}

pub data Class : Type 0 where
  fact source entity relation decision episode observation document claim evidence review : Class

-- A field's name and its default, if it has one.
abbrev pub Field : Type 0
Field = String × Option Json

abbrev required : String → Field
required k = (k, none)

abbrev optional : String → Field
optional k = (k, some null)

abbrev defaults : String → Json → Field
defaults k v = (k, some v)

abbrev tuple : String → Field
tuple k = (k, some (arr nil))

abbrev envelope : String → List Field → List Field
envelope kind more =
    required "id"
    ∷ defaults "kind" (str kind)
    ∷ required "tenant"
    ∷ required "namespace"
    ∷ required "owner"
    ∷ required "created_at"
    ∷ optional "source"
    ∷ optional "source_hash"
    ∷ defaults "confidence" (float one)
    ∷ tuple "provenance"
    ∷ tuple "supersedes"
    ∷ tuple "contradicts"
    ∷ tuple "derived_from"
    ∷ tuple "spaces"
    ∷ defaults "schema_version" (num 1)
    ∷ defaults "metadata" (obj end)
    ∷ more

unfoldable pub class_fields : Class → List Field
class_fields Class.fact = envelope "fact" (
    required "subject"
    ∷ required "predicate"
    ∷ optional "object"
    ∷ optional "valid_from"
    ∷ optional "valid_to"
    ∷ required "tx_from"
    ∷ optional "tx_to"
    ∷ defaults "status" (str "asserted")
    ∷ defaults "memory_class" (str "semantic")
    ∷ [])
class_fields Class.source = envelope "source" (
    required "uri"
    ∷ defaults "source_kind" (str "unknown")
    ∷ defaults "trust" (float 0x3fe0000000000000)
    ∷ [])
class_fields Class.entity =
    envelope "entity"
      (required "name" ∷ defaults "entity_type" (str "thing") ∷ tuple "aliases" ∷ [])
class_fields Class.relation =
    envelope "relation"
      (required "source_entity" ∷ required "target_entity" ∷ required "rel_type" ∷ [])
class_fields Class.decision = envelope "decision" (
    required "statement"
    ∷ tuple "evidence"
    ∷ tuple "alternatives"
    ∷ optional "outcome"
    ∷ defaults "reversible" (bool true)
    ∷ [])
class_fields Class.episode =
    envelope "episode"
      (required "summary" ∷ required "occurred_at" ∷ optional "session" ∷ tuple "facts" ∷ [])
class_fields Class.observation = envelope "observation" (required "text" ∷ optional "session" ∷ [])
class_fields Class.document =
    envelope "document"
      (required "title" ∷ required "text" ∷ defaults "mime" (str "text/plain") ∷ [])
class_fields Class.claim = envelope "claim" (
    required "subject"
    ∷ required "predicate"
    ∷ optional "object"
    ∷ required "claimant"
    ∷ defaults "contributor_kind" (str "agent")
    ∷ optional "valid_from"
    ∷ optional "valid_to"
    ∷ required "tx_from"
    ∷ optional "tx_to"
    ∷ defaults "status" (str "open")
    ∷ [])
class_fields Class.evidence = envelope "evidence" (
    defaults "evidence_kind" (str "uri")
    ∷ optional "title"
    ∷ optional "uri"
    ∷ optional "content_hash"
    ∷ optional "origin"
    ∷ optional "captured_at"
    ∷ [])
class_fields Class.review =
    envelope "review"
      (required "claim_id" ∷ required "verdict" ∷ optional "rationale" ∷ tuple "evidence_refs" ∷ [])

-- An argument, or the field's default; TypeError if it has none.
unfoldable pub arg : Field → Fields → Result Json
arg (k, default) kw = elim (find k kw) [
  | some v ↦ ok v
  | none ↦ elim default [ some v ↦ ok v | none ↦ err type_error ]
]

-- Keys that name no field are left out, as `from_dict` does before the call.
unfoldable pub fill : List Field → Fields → Result Fields
fill [] kw = ok end
fill ((k, default) ∷ fs) kw = do v ← arg (k, default) kw; rest ← fill fs kw; ok (field k v rest)

-- bool(value)
abbrev pub truthy : Json → Bool
truthy null = false
truthy (bool b) = b
truthy (num n) = not (nat_eq n 0)
truthy (negative n) = true
truthy (float b) = not (nat_eq b 0) && not (nat_eq b negative_zero)
truthy (str s) = not (s == "")
truthy (arr nil) = false
truthy (arr (cons x xs)) = true
truthy (obj end) = false
truthy (obj (field k v d)) = true

-- 0.0 <= f <= 1.0
abbrev pub in_unit : ℕ → Bool
in_unit f = leb f one || nat_eq f negative_zero

abbrev check : Bool → epistemos.Result.Error → Result (Unit {0})
check true e = ok tt
check false e = err e

unfoldable pub verdicts : List String
verdicts = "confirm" ∷ "dispute" ∷ "reject" ∷ "request_evidence" ∷ "abstain" ∷ []

unfoldable pub evidence_kinds : List String
evidence_kinds =
    "document" ∷ "uri" ∷ "hash" ∷ "observation" ∷ "dataset" ∷ "artifact" ∷ "event"
    ∷ "external_record" ∷ []

-- value in an enumeration of texts
abbrev pub one_of : List String → Json → Bool
one_of names (str s) = contains s names
one_of names null = false
one_of names _ = false

module _ (h : Host) where
  -- 0.0 <= float(value) <= 1.0, or ValidationError; what float() refuses is a TypeError here.
  unfoldable pub check_unit : Json → Result (Unit {0})
  check_unit v = elim (h.to_float v) [
    | none ↦ err type_error
    | some f ↦ check (in_unit f) validation
  ]

  abbrev precedes : Option ℕ → Option ℕ → Bool
  precedes (some vt) (some vf) = ltb vt vf
  precedes none (some vf) = false
  precedes _ none = false

  unfoldable pub check_validity : Fields → Result (Unit {0})
  check_validity d = do
    vf ← parse_instant h (get "valid_from" d)
    vt ← parse_instant h (get "valid_to" d)
    check (not (precedes vt vf)) temporal

  to_str_each : Items → Items
  to_str_each nil = nil
  to_str_each (cons (str s) xs) = cons (str s) (to_str_each xs)
  to_str_each (cons v xs) = cons (str (h.to_str v)) (to_str_each xs)

  -- `_tuple`, on None and on a sequence; the engine passes nothing else.
  unfoldable pub tuple_of : Json → Result Json
  unfolding to_str_each
  tuple_of null = ok (arr nil)
  tuple_of (arr xs) = ok (arr (to_str_each xs))
  tuple_of _ = err type_error

  unfoldable pub normalise : List String → Fields → Result Fields
  normalise [] d = ok d
  normalise (k ∷ ks) d = do v ← tuple_of (get k d); normalise ks (put k v d)

  -- The checks of each `__post_init__`, after those of `Envelope`.
  unfoldable pub check_class : Class → Fields → Result (Unit {0})
  unfolding check_validity check_unit verdicts evidence_kinds
  check_class Class.fact d = do
    _ ← check (truthy (get "subject" d) && truthy (get "predicate" d)) validation
    check_validity d
  check_class Class.source d = check_unit (get "trust" d)
  check_class Class.entity d = check (truthy (get "name" d)) validation
  check_class Class.relation d =
      check
        (truthy (get "source_entity" d)
          && truthy (get "target_entity" d)
          && truthy (get "rel_type" d))
        validation
  check_class Class.decision d = check (truthy (get "statement" d)) validation
  check_class Class.episode d = ok tt
  check_class Class.observation d = ok tt
  check_class Class.document d = ok tt
  check_class Class.claim d = do
    _ ← check (truthy (get "subject" d) && truthy (get "predicate" d)) validation
    _ ← check (truthy (get "claimant" d)) validation
    check_validity d
  check_class Class.evidence d = do
    _ ← check (one_of evidence_kinds (get "evidence_kind" d)) validation
    _ ← parse_instant h (get "captured_at" d)
    ok tt
  check_class Class.review d = do
    _ ← check (truthy (get "claim_id" d)) validation
    check (one_of verdicts (get "verdict" d)) validation

  unfoldable pub tuple_keys : Class → List String
  tuple_keys Class.entity = "aliases" ∷ []
  tuple_keys Class.decision = "evidence" ∷ "alternatives" ∷ []
  tuple_keys Class.episode = "facts" ∷ []
  tuple_keys Class.review = "evidence_refs" ∷ []
  tuple_keys _ = []

  unfoldable pub post_init : Class → Fields → Result Fields
  post_init c d = do
    _ ← check_unit (get "confidence" d)
    _ ← check_class c d
    normalise (tuple_keys c) d

  -- Cls(**kw), and Cls.from_dict(d)
  unfoldable pub construct : Class → Fields → Result Fields
  construct c kw = fill (class_fields c) kw >>= post_init c

-- _KIND_TO_CLS
unfoldable pub class_of : String → Option Class
class_of k =
    if k == "fact"
    then some Class.fact
    else if k == "source"
    then some Class.source
    else if k == "entity"
    then some Class.entity
    else if k == "relation"
    then some Class.relation
    else if k == "decision"
    then some Class.decision
    else if k == "episode"
    then some Class.episode
    else if k == "observation"
    then some Class.observation
    else if k == "document"
    then some Class.document
    else if k == "claim"
    then some Class.claim
    else if k == "evidence"
    then some Class.evidence
    else if k == "review"
    then some Class.review
    else none
