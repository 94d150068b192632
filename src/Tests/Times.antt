-- ===== src/Tests/Times.antt =====
-- temporal/__init__.py and core/__init__.py: beliefs in time.
use epistemos.Common.{
  ℕ, ◌≡◌, ◌↔◌, refl, sym, ap, ◌∙◌, subst, String, true, none, some, List, [], ◌∷◌, Among, here,
  there, ltb, ◌&&◌,
}
use epistemos.Result.{Result, ok, err, ok_injective}
use epistemos.Json.{Json, null, str, float, obj, Fields, end, field}
use epistemos.Json.Dict.{get_or}
use epistemos.Host.{one, parse_instant}
use epistemos.Ledger.{Op, LedgerRecord}
use epistemos.Storage.{Objects}
use epistemos.Temporal.{Rank, as_of, holds, believed_at, rank_key, float_of, resolve_current}
use epistemos.Temporal.Order.{IsUnit}
use epistemos.Temporal.AsOf.{IsWanted, IsValid, as_of_iff}
use epistemos.Temporal.Closing.{believed_at-close_belief}
use epistemos.Temporal.Current.{IsRankOf, IsCurrent, resolve_current-IsCurrent}
use epistemos.Engine.Query.{Dated, current_row, timeline_rows, trust_of, readable_facts}
use epistemos.Engine.Query.Ordered.{IsOrdered}
use epistemos.Engine.Query.Readable.{
  IsDated, IsReadableFact, OnPredicate, current_row-IsReadableFact, timeline_rows-IsOrdered,
}
use epistemos.Engine.Change.{close_belief}
use epistemos.Tests.Setup.{host, open_engine, first_call, alice}

abbrev fact_from : String → String → Json → Fields
fact_from i tx_from tx_to = field "id" (str i) (
    field "kind" (str "fact") (
      field "tenant" (str "acme") (
        field "namespace" (str "hr") (
          field "owner" (str "alice") (
            field "subject" (str "Alice") (
              field "predicate" (str "works_at") (
                field "object" (str "X") (
                  field "confidence" (float one)
                    (field "tx_from" (str tx_from) (field "tx_to" tx_to end))))))))))

abbrev opened : Fields
opened = fact_from "f2" "20" null

abbrev ended : Fields
ended = fact_from "f1" "2" (str "20")

as_of_iff_example : Among opened (opened ∷ []) ↔ (
    Among opened (ended ∷ opened ∷ [])
    × IsWanted host 0 null true opened
    × IsValid host 0 null opened)
unfolding as_of holds epistemos.Temporal.believed epistemos.Json.Dict.find
as_of_iff_example = as_of_iff host 0 null null true (ended ∷ opened ∷ []) (opened ∷ []) opened kept
  where
    kept : as_of host 0 null null true (ended ∷ opened ∷ []) ≡ ok (opened ∷ [])
    kept = refl

abbrev closing : LedgerRecord
closing = record {
  seq = 2;
  ts = "2026";
  op = Op.fact_retracted;
  tenant = "acme";
  namespace = "hr";
  actor = "alice";
  principal = none;
  payload = field "tx_to" (str "2026") (field "status" (str "retracted") end);
  content_hash = "";
  prev_hash = "";
  entry_hash = "";
}

abbrev or_end : Result Fields → Fields
or_end (ok d) = d
or_end (err x) = end

abbrev closed : Fields
closed = field "id" (str "f2") (
    field "kind" (str "fact") (
      field "tenant" (str "acme") (
        field "namespace" (str "hr") (
          field "owner" (str "alice") (
            field "subject" (str "Alice") (
              field "predicate" (str "works_at") (
                field "object" (str "X") (
                  field "confidence" (float one) (
                    field "tx_from" (str "20")
                      (field "tx_to" (str "2026") (field "status" (str "retracted") end)))))))))))

closes : close_belief closing opened ≡ ok (some closed)
unfolding close_belief epistemos.Json.Dict.find epistemos.Json.Dict.put
closes = refl

abbrev two : ℕ
two = 2

abbrev four : ℕ
four = 4

when :
    (parse_instant host (str "20") ≡ ok (some two))
    × (parse_instant host (str "2026") ≡ ok (some four))
unfolding parse_instant
when = (refl, refl)

at_two : epistemos.Temporal.or_now host 0 (str "20") ≡ ok two
unfolding parse_instant
at_two = refl

was_believed : believed_at host 0 opened (str "20") ≡ ok true
unfolding believed_at parse_instant epistemos.Temporal.instant_in_interval epistemos.Json.Dict.find
was_believed = refl

believed_at-close_belief_example : believed_at host 0 closed (str "20") ≡ ok (true && ltb two four)
unfolding epistemos.Json.Dict.find
believed_at-close_belief_example =
    believed_at-close_belief host closing opened closed 0 (str "20") two four true closes at_two
      when.1 was_believed

abbrev no_trust : Fields → Result ℕ
no_trust f = ok 0

trusted : (f : Fields) (k : Rank) → IsRankOf host no_trust f k → k.trust ≡ 0
trusted f k r = ok_injective (sym r.trust)

confident : float_of host (get_or "confidence" (float one) opened) ≡ ok one
unfolding float_of epistemos.Json.Dict.find
confident = refl

of_values : (k : Rank) → k.trust ≡ 0 → k.confidence ≡ one → IsUnit k
of_values k t c = rw (t, c) (refl, refl)

confidence_of :
    (f : Fields) (k : Rank)
    → opened ≡ f
    → float_of host (get_or "confidence" (float one) f) ≡ ok k.confidence
    → k.confidence ≡ one
confidence_of f k at c =
    ok_injective
      (sym c ∙ sym (ap (λ o. float_of host (get_or "confidence" (float one) o)) at) ∙ confident)

units : (f : Fields) (k : Rank) → Among f (opened ∷ []) → IsRankOf host no_trust f k → IsUnit k
units f k m r = elim m [
  | here at ↦ of_values k (trusted f k r) (confidence_of f k (sym at) r.confidence)
  | there n ↦ elim n [ ]
]

picked : resolve_current host no_trust 0 null null (opened ∷ []) ≡ ok (some opened)
unfolding resolve_current as_of holds epistemos.Temporal.believed epistemos.Json.Dict.find
    epistemos.Temporal.rank_keys rank_key epistemos.Temporal.float_of epistemos.Temporal.winner
    epistemos.Temporal.greatest
picked = refl

resolve_current-IsCurrent_example : IsCurrent host no_trust 0 null null (opened ∷ []) opened
resolve_current-IsCurrent_example =
    resolve_current-IsCurrent host no_trust 0 null null (opened ∷ []) opened units picked

abbrev stored : Objects
stored = ("f2", opened) ∷ []

trust_stored : trust_of host stored opened ≡ ok 0
unfolding trust_of epistemos.Json.Dict.find
trust_stored = refl

facts-stored :
    epistemos.Storage.facts "acme" "hr" (some "Alice") (some "works_at") none stored ≡ opened ∷ []
unfolding epistemos.Storage.facts epistemos.Json.Dict.find
facts-stored = refl

units_stored :
    (f : Fields) (k : Rank)
    → Among f (epistemos.Storage.facts "acme" "hr" (some "Alice") (some "works_at") none stored)
    → IsRankOf host (trust_of host stored) f k
    → IsUnit k
units_stored f k m r = elim (subst (Among f) facts-stored m) [
  | here at ↦
      of_values k (ok_injective (sym r.trust ∙ ap (trust_of host stored) at ∙ trust_stored))
        (confidence_of f k (sym at) r.confidence)
  | there n ↦ elim n [ ]
]

picked_row :
    current_row open_engine first_call 0 alice "Alice" "works_at" null stored ≡ ok (some opened)
unfolding current_row epistemos.Identity.require epistemos.Engine.Base.instant_arg parse_instant
    epistemos.Engine.Read.readable epistemos.Storage.facts epistemos.Json.Dict.find
    epistemos.Engine.Read.can_read epistemos.Authz.can_read_object epistemos.Authz.placements
    resolve_current as_of holds epistemos.Temporal.believed epistemos.Temporal.valid_at
    epistemos.Temporal.instant_in_interval epistemos.Temporal.rank_keys trust_of
    epistemos.Json.iterate epistemos.Storage.objects epistemos.Temporal.float_of
    epistemos.Temporal.greatest rank_key epistemos.Temporal.rank_lt epistemos.Temporal.winner
    epistemos.Host.float_lt
picked_row = refl

current_row-IsReadableFact_example :
    IsReadableFact host alice stored (some "Alice") (some "works_at") opened
    × ((rows : List Fields) × ((f : Fields)
          → Among f rows ↔ IsReadableFact host alice stored (some "Alice") (some "works_at") f)
        × IsCurrent host (trust_of host stored) 0 (str first_call.now) null rows opened)
current_row-IsReadableFact_example =
    current_row-IsReadableFact open_engine first_call 0 alice stored "Alice" "works_at" null opened
      units_stored picked_row

abbrev both : Objects
both = ("f2", opened) ∷ ("f1", ended) ∷ []

abbrev dated : List Dated
dated = ((1, 0), ended) ∷ ((2, 0), opened) ∷ []

listed : timeline_rows open_engine first_call 0 alice "Alice" none both ≡ ok dated
unfolding timeline_rows epistemos.Engine.Read.readable epistemos.Storage.facts
    epistemos.Json.Dict.find epistemos.Engine.Read.can_read epistemos.Authz.can_read_object
    epistemos.Authz.placements parse_instant epistemos.Engine.Query.sort_dated
    epistemos.Common.sort_by epistemos.Common.insert_by
listed = refl

timeline_rows-IsOrdered_example :
    IsOrdered dated
    × ((d : Dated)
        → Among d dated
        → IsDated host d
          × IsReadableFact host alice both (some "Alice") none d.1
          × OnPredicate open_engine first_call 0 alice both none d.1)
    × ((f : Fields)
        → IsReadableFact host alice both (some "Alice") none f
        → OnPredicate open_engine first_call 0 alice both none f
        → (k : ℕ × ℕ) × Among (k, f) dated)
timeline_rows-IsOrdered_example =
    timeline_rows-IsOrdered open_engine first_call 0 alice both "Alice" none dated listed
