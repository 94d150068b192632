-- ===== src/Tests/Chains.antt =====
-- ledger/__init__.py and storage/memory.py: ledgers of a concrete host.
use epistemos.Common.{◌≡◌, refl, none, some, List, [], ◌∷◌}
use epistemos.Result.{ok, err, integrity}
use epistemos.Json.{Fields, str, end, field}
use epistemos.Ledger.{Op, Event, LedgerRecord, genesis_hash, seal, verify_chain}
use epistemos.Storage.{Store, empty_store}
use epistemos.Engine.Calls.{commit}
use epistemos.Engine.Commit.{Restored, commit-Restored}
use epistemos.Tests.Setup.{host, alice}

abbrev note : Fields
note = field "id" (str "obs_1") (
    field "kind" (str "observation")
      (field "tenant" (str "acme") (field "namespace" (str "hr") end)))

abbrev sealed : LedgerRecord
unfolding seal
sealed =
    seal host 1
      (record {
        op = Op.observation_recorded;
        ts = "2026-01-01T00:00:00Z";
        tenant = "acme";
        namespace = "hr";
        actor = "alice";
        principal = none;
        payload = note;
      })
      genesis_hash

passes : verify_chain host (sealed ∷ []) (some 1) (some sealed.entry_hash) ≡ ok 1
unfolding verify_chain epistemos.Ledger.verify_from epistemos.Ledger.links sealed
    epistemos.Ledger.content_hash epistemos.Host.hash_obj epistemos.Ledger.content
    epistemos.Ledger.op_name epistemos.Ledger.header
passes = refl

abbrev bad_batch : List (Op × Fields)
bad_batch = (Op.observation_recorded, note) ∷ (Op.unknown "drop_all", end) ∷ []

raises : (commit host alice "2026-01-01T00:00:00Z" bad_batch empty_store).0 ≡ err integrity
unfolding commit epistemos.Storage.atomic epistemos.Engine.Calls.emit_all
    epistemos.Engine.Apply.emit epistemos.Storage.append epistemos.Engine.Apply.apply seal
    epistemos.Json.Dict.find epistemos.Storage.put_object
raises = refl

commit-Restored_example :
    Restored empty_store (commit host alice "2026-01-01T00:00:00Z" bad_batch empty_store).1
commit-Restored_example =
    commit-Restored host alice "2026-01-01T00:00:00Z" bad_batch empty_store refl raises
