-- ===== src/Tests/Runs.antt =====
-- core/__init__.py: calls of a small engine.
use epistemos.Common.{◌≡◌, none, [], length, some, ◌↔◌, String, ℕ}
use epistemos.Result.{ok}
use epistemos.Json.{null, float, str}
use epistemos.Host.{one}
use epistemos.Ledger.{verify_chain, genesis_hash}
use epistemos.Ledger.Chain.{Chain, Pinned, verify_chain_iff}
use epistemos.Common.{◌↔◌}
use epistemos.Engine.Apply.{rebuild_projection}
use epistemos.Storage.{Store, empty_store}
use epistemos.Engine.Facts.{FactArgs}
use epistemos.Engine.Request.{Request, run}
use epistemos.Common.{◌⊎◌}
use epistemos.Engine.Commit.{Restored}
use epistemos.Engine.Request.Whole.{OneCommit, run_whole}
use epistemos.Engine.Request.Isolated.{Confined, run-Confined}
use epistemos.Engine.Request.Signed.{Adds, run-Adds}
use epistemos.Engine.Request.Reach.{
  Reachable, start, call, Reachable-Consistent, Reachable-verifies, Reachable-rebuilds,
}
use epistemos.Tests.Setup.{engine, first_call, second_call, alice}

abbrev works_at : FactArgs
works_at = record {
  subject = str "Alice";
  predicate = str "works_at";
  object = str "X";
  valid_from = null;
  valid_to = null;
  source = none;
  confidence = float one;
  derived_from = [];
  memory_class = str "semantic";
  metadata = null;
}

abbrev asserted : Store
asserted = (run engine first_call alice (Request.assert_fact works_at) empty_store).1

abbrev pub retracted : Store
retracted = (run engine second_call alice (Request.retract "fact_1" null) asserted).1

pub retracted-Reachable : Reachable engine retracted
retracted-Reachable =
    call second_call alice (Request.retract "fact_1" null)
      (call first_call alice (Request.assert_fact works_at) start)

Reachable-verifies_example :
    verify_chain engine.host retracted.ledger none none ≡ ok (length retracted.ledger)
Reachable-verifies_example = Reachable-verifies engine retracted retracted-Reachable

Reachable-rebuilds_example :
    ((rebuild_projection retracted).0 ≡ ok (length retracted.ledger))
    × ((rebuild_projection retracted).1.ledger ≡ retracted.ledger)
    × ((rebuild_projection retracted).1.objects_by_id ≡ retracted.objects_by_id)
Reachable-rebuilds_example = Reachable-rebuilds engine retracted retracted-Reachable

abbrev two : ℕ
two = 2

verify_chain_iff_example : (verify_chain engine.host retracted.ledger (some two) none ≡ ok two) ↔ (
    (last : String) × Chain engine.host genesis_hash 1 retracted.ledger last
    × (length retracted.ledger ≡ two)
    × Pinned engine.host (some two) two
    × Pinned engine.host none last)
verify_chain_iff_example = verify_chain_iff engine.host retracted.ledger (some two) none two

idle : asserted.depth ≡ 0
idle = (Reachable-Consistent (call first_call alice (Request.assert_fact works_at) start)).idle

run-Adds_example :
    Adds alice asserted (run engine second_call alice (Request.retract "fact_1" null) asserted).1
run-Adds_example = run-Adds engine second_call alice (Request.retract "fact_1" null) asserted idle

run-Confined_example :
    Confined alice asserted
      (run engine second_call alice (Request.retract "fact_1" null) asserted).1
run-Confined_example =
    run-Confined engine second_call alice (Request.retract "fact_1" null) asserted idle

run_whole_example :
    Restored asserted (run engine second_call alice (Request.retract "fact_1" null) asserted).1
    ⊎ OneCommit engine.host alice asserted
        (run engine second_call alice (Request.retract "fact_1" null) asserted).1
run_whole_example = run_whole engine second_call alice (Request.retract "fact_1" null) asserted idle
