-- ===== src/Engine/Query.antt =====
-- core/__init__.py: the temporal queries, over the facts that the principal may read.
pub mod Readable
pub mod Ordered
use epistemos.Common.{
  ℕ, String, Bool, true, false, not, Option, none, some, List, [], ◌∷◌, ◌&&◌, ltb, nat_eq, filter,
  if◌then◌else◌, sort_by,
}
use epistemos.Result.{Result, ok, err, ◌>>=◌}
use epistemos.Json.{
  Json, null, bool, str, arr, obj, nil, Fields, end, field, is_null, is_str, iterate, of_list,
  float,
}
use epistemos.Json.Dict.{get, get_or, item, json_eq}
use epistemos.Host.{Host, parse_instant}
use epistemos.Identity.{Principal, require}
use epistemos.Model.{Class, construct, truthy}
use epistemos.Storage.{Objects, facts}
use epistemos.Temporal.{float_of, resolve_current}
use epistemos.Engine.Base.{Engine, Call, instant_arg}
use epistemos.Engine.Read.{get_object_at, readable}

-- `self._readable(principal, self.store.facts(...))`
abbrev pub readable_facts :
    Host
    → Principal
    → Option String
    → Option String
    → Option String
    → Objects
    → Result (List Fields)
readable_facts h p subject predicate object os =
    readable h p os (facts p.tenant p.namespace subject predicate object os)

-- The source is of the fact's own scope.
abbrev same_scope : Fields → Fields → Bool
same_scope src fact =
    json_eq (get "tenant" src) (get "tenant" fact)
    && json_eq (get "namespace" src) (get "namespace" fact)

-- `_trust_lookup`. Its cache saves look-ups only: the facts of one query are of one scope.
unfoldable pub trust_of : Host → Objects → Fields → Result ℕ
trust_of h os fact =
    if not (truthy (get "source" fact)) then ok 0 else elim (get_object_at (get "source" fact) os) [
      | none ↦ ok 0
      | some src ↦ if same_scope src fact then float_of h (get_or "trust" (float 0) src) else ok 0
    ]

from_dicts : Host → List Fields → Result (List Fields)
from_dicts h [] = ok []
from_dicts h (r ∷ rows) = do f ← construct h Class.fact r; fs ← from_dicts h rows; ok (f ∷ fs)

-- The sort key of the timeline: the real instants, with the earliest for a missing one.
abbrev pub floor_of : Option ℕ → ℕ
floor_of none = 0
floor_of (some t) = t

abbrev pub Dated : Type 0
Dated = (ℕ × ℕ) × Fields

abbrev pub is_before : ℕ × ℕ → ℕ × ℕ → Bool
is_before (a, b) (c, d) = if nat_eq a c then ltb b d else ltb a c

abbrev pub is_earlier : Dated → Dated → Bool
is_earlier q r = is_before q.0 r.0

unfoldable pub sort_dated : List Dated → List Dated
sort_dated rows = sort_by is_earlier rows

date_rows : Host → List Fields → Result (List Dated)
date_rows h [] = ok []
date_rows h (r ∷ rows) = do
  tx ← parse_instant h (get "tx_from" r)
  valid ← parse_instant h (get "valid_from" r)
  more ← date_rows h rows
  ok (((floor_of tx, floor_of valid), r) ∷ more)

abbrev pub on_predicate : Option String → List Fields → List Fields
on_predicate none rows = rows
on_predicate (some v) rows = filter (λ r. is_str (get "predicate" r) v) rows

-- One entry of the timeline.
entry_of : Fields → Result Fields
entry_of r = do
  id ← item "id" r
  subject ← item "subject" r
  predicate ← item "predicate" r
  supersedes ← iterate (get_or "supersedes" (arr nil) r)
  contradicts ← iterate (get_or "contradicts" (arr nil) r)
  ok (
      field "id" id (
        field "statement"
          (obj (
            field "subject" subject
              (field "predicate" predicate (field "object" (get "object" r) end))))
          (field "valid_from" (get "valid_from" r) (
            field "valid_to" (get "valid_to" r) (
              field "tx_from" (get "tx_from" r) (
                field "tx_to" (get "tx_to" r) (
                  field "status" (get "status" r) (
                    field "believed" (bool (is_null (get "tx_to" r))) (
                      field "confidence" (get "confidence" r) (
                        field "source" (get "source" r) (
                          field "supersedes" (arr (of_list supersedes))
                            (field "contradicts" (arr (of_list contradicts)) end))))))))))))

entries : List Dated → Result (List Fields)
unfolding entry_of
entries [] = ok []
entries (r ∷ rows) = do first ← entry_of r.1; more ← entries rows; ok (first ∷ more)

-- `utc` is what the machine's clock reads when the call is made.
module _ (e : Engine) (c : Call) (utc : ℕ) (p : Principal) where
  -- The dict of the current fact, before Fact.from_dict.
  unfoldable pub current_row : String → String → Json → Objects → Result (Option Fields)
  current_row subject predicate at_valid os = do
    _ ← require p "read"
    anchor ← instant_arg e (if is_null at_valid then str c.now else at_valid)
    rows ← readable_facts e.host p (some subject) (some predicate) none os
    resolve_current e.host (trust_of e.host os) utc anchor null rows

  unfoldable pub current_fact : String → String → Json → Objects → Result (Option Fields)
  current_fact subject predicate at_valid os = do
    best ← current_row subject predicate at_valid os
    elim best [ none ↦ ok none | some b ↦ do f ← construct e.host Class.fact b; ok (some f) ]

  unfoldable pub current : String → String → Json → Objects → Result Json
  current subject predicate at_valid os = do
    f ← current_fact subject predicate at_valid os
    ok (elim f [ none ↦ null | some f ↦ get "object" f ])

  unfoldable pub as_of : Json → String → String → Json → Objects → Result Json
  as_of at_valid subject predicate at_tx os = do
    _ ← require p "read"
    valid ← instant_arg e at_valid
    tx ← instant_arg e at_tx
    rows ← readable_facts e.host p (some subject) (some predicate) none os
    best ← resolve_current e.host (trust_of e.host os) utc valid tx rows
    ok (elim best [ none ↦ null | some b ↦ get "object" b ])

  unfoldable pub facts_for :
      Option String → Option String → Option String → Bool → Objects → Result (List Fields)
  unfolding from_dicts
  facts_for subject predicate object believed_only os = do
    _ ← require p "read"
    rows ← readable_facts e.host p subject predicate object os
    from_dicts e.host (if believed_only then filter (λ r. is_null (get "tx_to" r)) rows else rows)

  -- The rows of the timeline, in order.
  unfoldable pub timeline_rows : String → Option String → Objects → Result (List Dated)
  unfolding date_rows
  timeline_rows subject predicate os = do
    rows ← readable_facts e.host p (some subject) none none os
    dated ← date_rows e.host (on_predicate predicate rows)
    ok (sort_dated dated)

  unfoldable pub timeline : String → Option String → Objects → Result (List Fields)
  unfolding entries
  timeline subject predicate os = do
    _ ← require p "read"
    rows ← timeline_rows subject predicate os
    entries rows
