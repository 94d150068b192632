-- ===== src/Tests/Transfers.antt =====
-- core/__init__.py and schema.py: exports and imports.
use epistemos.Common.{ℕ, ◌≤◌, ◌≡◌, refl, true, false, none, some, List, [], ◌∷◌, All, length}
use epistemos.Result.{Result, ok, err, integrity}
use epistemos.Json.{Json, num, str, arr, obj, Items, nil, cons, Fields, end, field, of_list}
use epistemos.Json.Dict.{get}
use epistemos.Host.{pos}
use epistemos.Ledger.{Op, LedgerRecord, verify_chain}
use epistemos.Schema.{upgrade, upgrade_fuel, migrate_export}
use epistemos.Schema.Upgrade.{IsCurrent, upgrade_terminates, migrate_export-IsCurrent}
use epistemos.Storage.{Store, empty_store}
use epistemos.Engine.Commit.{Restored}
use epistemos.Engine.Transfer.Records.{record_to_dict, export_format, dicts_of}
use epistemos.Engine.Transfer.Import.{import_events}
use epistemos.Engine.Transfer.Import.Handled.{import_events-Restored}
use epistemos.Engine.Transfer.Export.{
  export_whole, export_for, exported, scope_of, resealed, event_in,
}
use epistemos.Engine.Transfer.Export.Whole.{import_events-export_whole}
use epistemos.Engine.Transfer.Export.Scoped.{IsGranted, events_in, export_for-IsGranted}
use epistemos.Engine.Request.Reach.{Reachable-Consistent}
use epistemos.Tests.Setup.{host, engine, alice}
use epistemos.Tests.Runs.{retracted, retracted-Reachable}

-- A record of an operation that no version knows.
abbrev strange : LedgerRecord
strange = record {
  seq = 1;
  ts = "2026";
  op = Op.unknown "mystery";
  tenant = "acme";
  namespace = "hr";
  actor = "alice";
  principal = none;
  payload = end;
  content_hash = "";
  prev_hash = "";
  entry_hash = "";
}

abbrev strange_export : Json
strange_export = obj (
    field "format" (str export_format) (
      field "schema_version" (num 1)
        (field "events" (arr (cons (obj (record_to_dict strange)) nil)) end)))

raises : (import_events host strange_export false true empty_store).0 ≡ err integrity
unfolding import_events epistemos.Engine.Transfer.Records.recognised epistemos.Json.Dict.find
    epistemos.Storage.event_count epistemos.Host.int_of
    epistemos.Engine.Transfer.Import.import_verbatim epistemos.Json.iterate
    epistemos.Engine.Transfer.Records.records_of epistemos.Engine.Transfer.Records.dict_to_record
    epistemos.Json.as_dict record_to_dict epistemos.Storage.atomic
    epistemos.Engine.Transfer.Import.keep_records epistemos.Engine.Transfer.Import.persist_all
    epistemos.Storage.persist_record epistemos.Storage.clear_projection
    epistemos.Engine.Apply.apply_all epistemos.Engine.Apply.apply
    epistemos.Engine.Apply.in_record_scope epistemos.Engine.Apply.mutate
    epistemos.Engine.Change.annotations epistemos.Engine.Change.attach
    epistemos.Engine.Change.close_belief epistemos.Engine.Change.close_claim
    epistemos.Engine.Change.contradicted_by epistemos.Engine.Change.corroborate
    epistemos.Engine.Change.extend_new epistemos.Engine.Change.govern
    epistemos.Engine.Change.mark_merged epistemos.Engine.Change.mark_split
    epistemos.Engine.Change.merge_into epistemos.Engine.Change.note_contradiction
    epistemos.Engine.Change.place epistemos.Engine.Change.recent epistemos.Engine.Change.revoke
    epistemos.Engine.Change.set_metadata epistemos.Engine.Transfer.Import.append_apply
    epistemos.Engine.Transfer.Import.import_migrated epistemos.Engine.Transfer.Import.reseal_all
    epistemos.Engine.Transfer.Import.reseal_each epistemos.Engine.Transfer.Import.reseal_import
    epistemos.Engine.Transfer.Records.carries_chain epistemos.Engine.Transfer.Records.event_of
    epistemos.Engine.Transfer.Records.text epistemos.Engine.Transfer.Records.verify_received
    epistemos.Host.hash_obj epistemos.Json.Dict.json_eq epistemos.Json.Dict.put
    epistemos.Json.Dict.remove epistemos.Ledger.content epistemos.Ledger.content_hash
    epistemos.Ledger.header epistemos.Ledger.links epistemos.Ledger.op_name
    epistemos.Ledger.op_of_name epistemos.Ledger.seal verify_chain epistemos.Ledger.verify_from
    migrate_export epistemos.Schema.migrations upgrade epistemos.Schema.upgrade_event
    epistemos.Schema.upgrade_fact epistemos.Schema.v0_to_v1 epistemos.Storage.append
    epistemos.Storage.get_object epistemos.Storage.head epistemos.Storage.head_link
    epistemos.Storage.insert epistemos.Storage.lookup epistemos.Storage.put_object
    epistemos.Storage.read_events epistemos.Storage.roll_back
raises = refl

import_events-Restored_example :
    Restored empty_store (import_events host strange_export false true empty_store).1
import_events-Restored_example =
    import_events-Restored host strange_export false true empty_store integrity refl raises

import_events-export_whole_example :
    import_events engine.host (obj (export_whole engine.host "now" retracted)) true true empty_store
    ≡ (
      ok (length retracted.ledger),
      record empty_store { ledger = retracted.ledger; objects_by_id = retracted.objects_by_id },
    )
import_events-export_whole_example =
    import_events-export_whole engine.host retracted
      (Reachable-Consistent {e = engine} retracted-Reachable) "now" true

-- An export of version 0 with one fact.
abbrev old : Fields
old = field "schema_version" (num 0) (
    field "events"
      (arr (
        cons
          (obj (
            field "payload" (obj (field "kind" (str "fact") (field "valid_start" (str "2026") end)))
              end))
          nil))
      end)

upgrade_terminates_example :
    (r : Result Fields) × ((fuel : ℕ)
      → upgrade_fuel ≤ fuel
      → upgrade host fuel (pos 0) old ≡ some r)
upgrade_terminates_example = upgrade_terminates host (pos 0) old

abbrev or_end : Result Fields → Fields
or_end (ok d) = d
or_end (err x) = end

abbrev migrated : Fields
migrated = or_end (migrate_export host old)

migrates : migrate_export host old ≡ ok migrated
unfolding migrate_export epistemos.Host.int_of epistemos.Json.Dict.find upgrade
    epistemos.Schema.migrations epistemos.Schema.v0_to_v1 epistemos.Json.iterate
    epistemos.Json.as_dict epistemos.Json.Dict.put
migrates = refl

migrate_export-IsCurrent_example : IsCurrent host migrated
migrate_export-IsCurrent_example = migrate_export-IsCurrent host old migrated migrates

abbrev note : Fields
note = field "id" (str "obs_1") (
    field "kind" (str "observation") (
      field "tenant" (str "acme") (field "namespace" (str "hr") (field "owner" (str "alice") end))))

abbrev noted : LedgerRecord
noted = record {
  seq = 1;
  ts = "2026";
  op = Op.observation_recorded;
  tenant = "acme";
  namespace = "hr";
  actor = "alice";
  principal = none;
  payload = note;
  content_hash = "";
  prev_hash = "";
  entry_hash = "";
}

abbrev noting : Store
noting = record empty_store { ledger = noted ∷ []; objects_by_id = ("obs_1", note) ∷ [] }

abbrev scoped : Fields
scoped = or_end (export_for host "now" alice "principal" noting)

exports : export_for host "now" alice "principal" noting ≡ ok scoped
unfolding export_for epistemos.Identity.require epistemos.Engine.Transfer.Export.scoped_records
    epistemos.Engine.Transfer.Export.readable_ids epistemos.Storage.objects epistemos.Json.Dict.find
    epistemos.Engine.Read.can_read epistemos.Authz.can_read_object epistemos.Authz.placements
exports = refl

export_for-IsGranted_example :
    (rs : List LedgerRecord) × (get "events" scoped ≡ arr (of_list (dicts_of rs)))
    × (verify_chain host rs none none ≡ ok (length rs))
    × All (IsGranted host alice noting) (events_in rs)
export_for-IsGranted_example = export_for-IsGranted host alice noting "now" scoped exports
