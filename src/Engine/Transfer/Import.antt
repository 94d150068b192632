-- ===== src/Engine/Transfer/Import.antt =====
-- core/__init__.py: the import of an export into an empty store.
pub mod Laws
pub mod Handled
use epistemos.Common.{ℕ, Bool, true, false, not, List, [], ◌∷◌, ◌&&◌, nat_eq, length}
use epistemos.Result.{schema, integrity, conflict}
use epistemos.Engine.Transfer.Records.{
  records_of, carries_chain, events_of, event_of, verify_if, verify_received, recognised,
}
use epistemos.Exec.{◌>>=◌, Exec, pure, lift, gets, raise_if, ◌>>◌}
use epistemos.Json.{Json, negative, Fields, iterate}
use epistemos.Json.Dict.{get_or}
use epistemos.Host.{Host, ℤ, pos, negsuc, int_of}
use epistemos.Ledger.{LedgerRecord, Event}
use epistemos.Schema.{schema_version, migrate_export}
use epistemos.Storage.{
  Store, atomic, append, persist_record, read_events, event_count, clear_projection, on_objects,
}
use epistemos.Engine.Apply.{apply, apply_all}

abbrev is_supported : ℤ → Bool
is_supported (pos n) = nat_eq n schema_version
is_supported (negsuc n) = false

unfoldable pub persist_all : List LedgerRecord → Exec Store (Unit {0})
persist_all [] = pure tt
persist_all (r ∷ rs) = do persist_record r; persist_all rs

module _ (h : Host) where
  -- Records kept as they are, and projected.
  unfoldable pub keep_records : List LedgerRecord → Exec Store (Unit {0})
  keep_records records = do
    persist_all records
    clear_projection
    rs ← gets (read_events 0)
    on_objects (apply_all rs)

  -- self._apply(self.store.append(ev))
  unfoldable pub append_apply : Event → Exec Store (Unit {0})
  append_apply ev = do r ← append h ev; on_objects (apply r r.op)

  unfoldable pub reseal_each : List Json → Exec Store (Unit {0})
  reseal_each [] = pure tt
  reseal_each (j ∷ js) = do ev ← lift (event_of h j); append_apply ev; reseal_each js

  unfoldable pub reseal_all : Json → Exec Store (Unit {0})
  reseal_all events = do js ← lift (iterate events); reseal_each js

  -- `_reseal_import`
  unfoldable pub reseal_import : Json → Exec Store ℕ
  reseal_import events = do atomic (reseal_all events); gets event_count

  unfoldable pub import_verbatim : Fields → Bool → Exec Store ℕ
  import_verbatim payload verify = do
    js ← lift (iterate (events_of payload))
    records ← lift (records_of h js)
    lift (verify_if h verify records)
    atomic (keep_records records)
    pure (length records)

  unfoldable pub import_migrated : Fields → Bool → Bool → Exec Store ℕ
  import_migrated payload verify migrate = do
    raise_if (not migrate) schema
    lift (verify_received h verify payload)
    upgraded ← lift (migrate_export h payload)
    reseal_import (events_of upgraded)

  abbrev by_version : Bool → Fields → Bool → Bool → Exec Store ℕ
  by_version true payload verify migrate = import_verbatim payload verify
  by_version false payload verify migrate = import_migrated payload verify migrate

  unfoldable pub import_events : Json → Bool → Bool → Exec Store ℕ
  import_events j verify migrate = do
    payload ← lift (recognised j)
    n ← gets event_count
    raise_if (not (nat_eq n 0)) conflict
    raise_if (verify && not (carries_chain (events_of payload))) integrity
    version ← lift (int_of h (get_or "schema_version" (negative 0) payload))
    by_version (is_supported version) payload verify migrate
