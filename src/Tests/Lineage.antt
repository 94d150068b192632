-- ===== src/Tests/Lineage.antt =====
-- provenance/__init__.py and index/provenance.py: an explanation, and a rebuilt index.
use epistemos.Common.{◌≡◌, refl, none, some, [], ◌∷◌, Option, String}
use epistemos.Result.{Result, ok, err}
use epistemos.Json.{Fields, str, arr, cons, nil, end, field}
use epistemos.Host.{pos}
use epistemos.Ledger.{Op, Event, LedgerRecord, genesis_hash, seal, verify_chain}
use epistemos.Storage.{Store}
use epistemos.Provenance.Index.{Index, IndexHealth, rebuild}
use epistemos.Provenance.Explain.{activities_for}
use epistemos.Provenance.Parity.{activities_for-rebuild}
use epistemos.Provenance.Views.{Node}
use epistemos.Engine.Explain.{Explanation, explain}
use epistemos.Engine.Explain.Authorized.{IsOpen, IsAuthorized, explain-IsAuthorized}
use epistemos.Tests.Setup.{host, alice}
use epistemos.Tests.Table.{table}

abbrev fact_id : String
fact_id = "fact_0123456789abcdef0123456789abcdef"

abbrev fact : Fields
fact = field "id" (str fact_id) (
    field "kind" (str "fact") (
      field "tenant" (str "acme") (
        field "namespace" (str "hr")
          (field "owner" (str "alice") (field "derived_from" (arr (cons (str "d") nil)) end)))))

-- What the fact is derived from is another agent's.
abbrev document : Fields
document = field "id" (str "d") (
    field "kind" (str "document") (
      field "tenant" (str "acme") (
        field "namespace" (str "hr")
          (field "owner" (str "bob") (field "text" (str "salary") end)))))

abbrev event_of : Op → Fields → Event
event_of op payload = record {
  op = op;
  ts = "2026-01-01T00:00:00Z";
  tenant = "acme";
  namespace = "hr";
  actor = "alice";
  principal = none;
  payload = payload;
}

abbrev first_record : LedgerRecord
unfolding seal
first_record = seal host 1 (event_of Op.document_ingested document) genesis_hash

abbrev second_record : LedgerRecord
unfolding seal
second_record = seal host 2 (event_of Op.fact_asserted fact) first_record.entry_hash

abbrev store : Store
store = record {
  ledger = first_record ∷ second_record ∷ [];
  objects_by_id = ("d", document) ∷ (fact_id, fact) ∷ [];
  depth = 0;
  snap_ledger = 0;
  snap_objects = none;
}

verifies : verify_chain host store.ledger none none ≡ ok 2
unfolding verify_chain epistemos.Ledger.verify_from epistemos.Ledger.links first_record
    epistemos.Ledger.content_hash epistemos.Host.hash_obj epistemos.Ledger.content
    epistemos.Ledger.op_name epistemos.Ledger.header
verifies = refl

-- An index that has seen nothing yet.
abbrev index : Index table
index = record { rows = []; state = IndexHealth.degraded }

activities_for-rebuild_example :
    (activities_for table store "acme" "hr" fact_id (some (rebuild table store.ledger index).1)).0
    ≡ (activities_for table store "acme" "hr" fact_id none).0
activities_for-rebuild_example =
    activities_for-rebuild table host store "acme" "hr" fact_id index 2 verifies

-- The rebuilt index is healthy, and has the place of the fact's record.
indexed :
    (rebuild table store.ledger index).1
    ≡ record { rows = (fact_id, 2) ∷ []; state = IndexHealth.healthy }
unfolding rebuild epistemos.Provenance.Index.refill epistemos.Provenance.Index.insert_records
    epistemos.Provenance.Refs.id_leaves first_record epistemos.Provenance.Refs.matches_shape
indexed = refl

abbrev Explained : Type 0
Explained = Explanation host table alice store × Option (Index table)

abbrev explained_or : Explained → Result Explained → Explained
explained_or out (ok found) = found
explained_or out (err x) = out

abbrev otherwise : Explained
otherwise = (epistemos.Engine.Explain.of_object (Node.missing (str "")), none)

abbrev tree : Explained
tree = explained_or otherwise (explain host table alice store fact_id (pos 3) none)

explains : explain host table alice store fact_id (pos 3) none ≡ ok tree
unfolding explain epistemos.Identity.require epistemos.Storage.get_object epistemos.Storage.lookup
    epistemos.Json.Dict.find epistemos.Engine.Read.can_read epistemos.Authz.can_read_object
    epistemos.Authz.placements epistemos.Provenance.Explain.explain
    epistemos.Provenance.Explain.guarded epistemos.Provenance.Explain.expand
    epistemos.Provenance.Explain.source_view epistemos.Provenance.Explain.walk
    epistemos.Provenance.Explain.superseded_by activities_for epistemos.Storage.objects
    epistemos.Provenance.Views.is_in epistemos.Json.iterate epistemos.Ledger.op_name
    epistemos.Provenance.Explain.scan_activities epistemos.Provenance.Refs.refs_id
    epistemos.Provenance.Views.activity_view epistemos.Provenance.Views.content_of
    epistemos.Provenance.Views.status_view epistemos.Storage.read_events
explains = refl

explain-IsAuthorized_example :
    IsOpen host table alice store fact_id × IsAuthorized host table alice store tree.0
explain-IsAuthorized_example =
    explain-IsAuthorized host table alice store fact_id (pos 3) none tree explains
