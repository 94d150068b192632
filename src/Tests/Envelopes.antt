-- ===== src/Tests/Envelopes.antt =====
-- context/builder.py: envelopes over a small store.
use epistemos.Common.{
  ℕ, ◌≤◌, ◌≡◌, refl, String, true, false, none, some, List, [], ◌∷◌, Among, here,
}
use epistemos.Result.{Result, ok, err}
use epistemos.Json.{Json, null, str, obj, Fields, end, field}
use epistemos.Host.{pos}
use epistemos.Storage.{Objects}
use epistemos.Context.Describe.{Intent, id_of}
use epistemos.Context.Collapse.{collapse}
use epistemos.Context.Collapse.Reachable.{IsReachable, collapse-IsReachable}
use epistemos.Context.Pack.{EnvelopeItem, Role, pack}
use epistemos.Context.Pack.Budget.{Sorted, spare_tokens, pack-Sorted, pack_spent}
use epistemos.Context.Build.{
  EnvelopeConfig, ContextEnvelope, Scored, authorized_hits, build, objects_of,
}
use epistemos.Context.Build.Honest.{Honest, build-Honest}
use epistemos.Context.Build.Hits.{IsHitOn}
use epistemos.Tests.Setup.{host, alice}

abbrev fact_of : String → String → Json → Fields
fact_of i value tx_to = field "id" (str i) (
    field "kind" (str "fact") (
      field "tenant" (str "acme") (
        field "namespace" (str "hr") (
          field "owner" (str "alice") (
            field "subject" (str "Alice") (
              field "predicate" (str "works_at")
                (field "object" (str value) (field "tx_to" tx_to end))))))))

-- Two versions of one statement, the first of them superseded.
abbrev versions : List Fields
versions = fact_of "f1" "X" (str "2026-01-02") ∷ fact_of "f2" "Y" null ∷ []

collapse-IsReachable_example :
    IsReachable "f1"
      (collapse host (λ i. 0) versions Intent.current true).keep
      (collapse host (λ i. 0) versions Intent.current true).groups
unfolding epistemos.Json.Dict.find
collapse-IsReachable_example =
    collapse-IsReachable host (λ i. 0) versions Intent.current true
      (fact_of "f1" "X" (str "2026-01-02")) (here refl)

abbrev item_with : String → Role → EnvelopeItem
item_with i role = record {
  object_id = i;
  kind = "fact";
  text = "text";
  tokens = 5;
  role = role;
  provenance = [];
}

abbrev two_items : List EnvelopeItem
two_items = item_with "f1" Role.history ∷ item_with "f2" Role.current ∷ []

pack-Sorted_example : Sorted [] (item_with "f1" Role.history) (pack two_items (pos 4) false [])
pack-Sorted_example =
    pack-Sorted [] two_items (pos 4) false (item_with "f1" Role.history) (here refl)

abbrev eight : ℕ
eight = 8

pack_spent_example :
    spare_tokens [] (pack two_items (pos eight) false []).chosen ≤ eight
    × spare_tokens [] (pack two_items (pos eight) true []).chosen ≤ 4
pack_spent_example = pack_spent [] two_items eight

abbrev stored : Objects
stored = ("f1", fact_of "f1" "X" (str "2026-01-02")) ∷ ("f2", fact_of "f2" "Y" null) ∷ []

abbrev hits : List Fields
hits = field "id" (str "f1") end ∷ field "id" (str "f2") end ∷ []

abbrev config : EnvelopeConfig
config = record {
  pin_contradictions = true;
  collapse_redundancy = true;
  budget_pack = true;
  token_budget = some (pos 4);
  continuation = false;
}

abbrev blank : ContextEnvelope
blank = record {
  query = "";
  intent = Intent.current;
  is_confident = true;
  items = [];
  pinned_contradictions = [];
  collapsed_groups = [];
  provenance_refs = [];
  collapsed_versions = 0;
  duplicates_folded = 0;
  context_incomplete = false;
  incomplete_reasons = [];
  token_estimate = 0;
  at_tx = null;
}

abbrev or_blank : Result ContextEnvelope → ContextEnvelope
or_blank (ok env) = env
or_blank (err x) = blank

abbrev envelope : ContextEnvelope
envelope = or_blank (build host alice stored config (some "where now") none null hits)

built : build host alice stored config (some "where now") none null hits ≡ ok envelope
unfolding build authorized_hits epistemos.Json.Dict.find epistemos.Storage.get_object
    epistemos.Storage.lookup epistemos.Engine.Read.is_readable epistemos.Engine.Read.can_read
    epistemos.Authz.can_read_object epistemos.Authz.placements epistemos.Temporal.float_of
    epistemos.Context.Build.items_of collapse epistemos.Context.Collapse.group_by
    epistemos.Context.Collapse.fold_each epistemos.Context.Describe.statement_key
    epistemos.Context.Collapse.add_to epistemos.Context.Collapse.fold_versions
    epistemos.Common.insert_sorted epistemos.Common.sorted_set epistemos.Context.Build.add_pins
    epistemos.Context.Build.contradictions epistemos.Context.Build.finalize
    epistemos.Context.Build.pin_claims epistemos.Context.Build.retrieved
    epistemos.Context.Build.score_of epistemos.Context.Collapse.best_scored
    epistemos.Context.Collapse.duplicate_key epistemos.Context.Collapse.first_current
    epistemos.Context.Collapse.fold_copies epistemos.Context.Describe.classify_intent
    epistemos.Context.Describe.content_key epistemos.Context.Describe.estimate_tokens
    epistemos.Context.Describe.is_contradiction epistemos.Context.Describe.is_current
    epistemos.Context.Describe.label epistemos.Context.Describe.may_collapse_history
    epistemos.Context.Describe.provenance epistemos.Context.Describe.serialize
    epistemos.Context.Pack.effective_budget epistemos.Context.Pack.goes_before
    epistemos.Context.Pack.insert_item epistemos.Context.Pack.is_critical
    epistemos.Context.Pack.item_of pack epistemos.Context.Pack.pack_from
    epistemos.Context.Pack.role_of epistemos.Context.Pack.role_rank
    epistemos.Context.Pack.sort_items epistemos.Host.float_lt epistemos.Json.iterate
    epistemos.Storage.insert
built = refl

on_first :
    IsHitOn host alice stored (field "id" (str "f1") end) (fact_of "f1" "X" (str "2026-01-02"))
unfolding epistemos.Json.Dict.find epistemos.Storage.get_object epistemos.Storage.lookup
    epistemos.Engine.Read.is_readable epistemos.Engine.Read.can_read epistemos.Authz.can_read_object
    epistemos.Authz.placements epistemos.Json.iterate
on_first = record {
  found = refl;
  knowledge = record {
    no_space = refl;
    no_grant = refl;
    no_dimension = refl;
    no_microconnection = refl;
  };
  may = refl;
}

build-Honest_example : Honest host alice stored "f1" envelope
unfolding epistemos.Json.Dict.find
build-Honest_example =
    build-Honest host alice stored config (some "where now") none null hits envelope
      (field "id" (str "f1") end) (fact_of "f1" "X" (str "2026-01-02")) built (here refl) on_first
