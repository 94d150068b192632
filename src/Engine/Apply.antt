-- ===== src/Engine/Apply.antt =====
-- core/__init__.py: projecting a sealed record onto the objects (`_apply` and its parts), and
-- emitting an event, the only way to change the store.
pub mod Laws
pub mod Revoked
pub mod Scope
pub mod Writes
pub mod Isolation
use epistemos.Common.{[], ◌∷◌, String, Option, none, some, List, if◌then◌else◌, length, ℕ, ◌∷◌}
use epistemos.Result.{Result, ok, err, integrity}
use epistemos.Exec.{◌>>◌, raise, Exec, pure, lift, gets, ◌>>=◌, raise}
use epistemos.Json.{Json, Fields, iterate, as_dict}
use epistemos.Json.Dict.{item}
use epistemos.Host.{Host}
use epistemos.Identity.{Principal}
use epistemos.Ledger.{LedgerRecord, Op}
use epistemos.Storage.{
  atomic, clear_projection, read_events, append, Store, Objects, on_objects, put_object, in_scope,
  append,
}
use epistemos.Engine.Change.{
  close_belief, corroborate, contradicted_by, merge_into, mark_merged, mark_split, revoke, place,
  close_claim, attach, govern,
}
use epistemos.Engine.Read.{get_object_at}

-- The in-memory store has no lexical index.
abbrev pub persist : Fields → Exec Objects (Unit {0})
persist o = put_object o

-- `_guard_payload_scope`
abbrev pub guard_payload_scope : LedgerRecord → Fields → Result (Unit {0})
guard_payload_scope r o = if in_scope r.tenant r.namespace o then ok tt else err integrity

-- `_in_record_scope`
unfoldable pub in_record_scope : LedgerRecord → Json → Objects → Result Fields
in_record_scope r id os = elim (get_object_at id os) [
  | none ↦ err integrity
  | some o ↦ if in_scope r.tenant r.namespace o then ok o else err integrity
]

-- Load an object of the record's scope, and write it back changed if the change says so.
unfoldable pub mutate :
    LedgerRecord → Json → (Fields → Result (Option Fields)) → Exec Objects (Unit {0})
mutate r id change = do
  o ← gets (in_record_scope r id) >>= lift
  changed ← lift (change o)
  elim changed [ none ↦ pure tt | some o' ↦ persist o' ]

abbrev pub item_of : String → LedgerRecord → Exec Objects Json
item_of key r = lift (item key r.payload)

put_payload : LedgerRecord → Exec Objects (Unit {0})
put_payload r = do lift (guard_payload_scope r r.payload); persist r.payload

mutate_each : LedgerRecord → (Fields → Result (Option Fields)) → List Json → Exec Objects (Unit {0})
mutate_each r change [] = pure tt
mutate_each r change (id ∷ ids) = do mutate r id change; mutate_each r change ids

apply_contradiction : LedgerRecord → Exec Objects (Unit {0})
apply_contradiction r = do
  a ← item_of "fact_id" r
  b ← item_of "other_id" r
  mutate r a (contradicted_by r b)
  mutate r b (contradicted_by r a)

apply_merge : LedgerRecord → Exec Objects (Unit {0})
unfolding mutate_each
apply_merge r = do
  canonical ← item_of "canonical" r
  mutate r canonical (merge_into r)
  duplicates ← item_of "duplicates" r
  ids ← lift (iterate duplicates)
  mutate_each r (mark_merged r canonical) ids

id_of : Json → Result Json
id_of e = elim (as_dict e) [ err x ↦ err x | ok d ↦ item "id" d ]

ids_of : List Json → Result (List Json)
ids_of [] = ok []
ids_of (e ∷ es) = elim (id_of e) [
  | err x ↦ err x
  | ok i ↦ elim (ids_of es) [ err x ↦ err x | ok is ↦ ok (i ∷ is) ]
]

put_each : LedgerRecord → List Json → Exec Objects (Unit {0})
put_each r [] = pure tt
put_each r (e ∷ es) = do
  ent ← lift (as_dict e)
  lift (guard_payload_scope r ent)
  persist ent
  put_each r es

apply_split : LedgerRecord → Exec Objects (Unit {0})
unfolding ids_of id_of put_each
apply_split r = do
  entity ← item_of "entity" r
  into ← item_of "into" r
  entities ← lift (iterate into)
  into_ids ← lift (ids_of entities)
  mutate r entity (mark_split r into_ids)
  put_each r entities

-- An unknown grant is nothing to revoke.
apply_revoked : LedgerRecord → Exec Objects (Unit {0})
apply_revoked r = do
  id ← item_of "grant_id" r
  found ← gets (get_object_at id)
  elim found [ none ↦ pure tt | some _ ↦ mutate r id (revoke r) ]

abbrev apply_to :
    String → LedgerRecord → (Fields → Result (Option Fields)) → Exec Objects (Unit {0})
apply_to key r change = do id ← item_of key r; mutate r id change

-- `_apply`
unfoldable pub apply : LedgerRecord → Op → Exec Objects (Unit {0})
unfolding put_payload apply_contradiction apply_merge apply_split apply_revoked
apply r Op.source_added = put_payload r
apply r Op.observation_recorded = put_payload r
apply r Op.document_ingested = put_payload r
apply r Op.fact_asserted = put_payload r
apply r Op.entity_added = put_payload r
apply r Op.relation_added = put_payload r
apply r Op.decision_recorded = put_payload r
apply r Op.episode_recorded = put_payload r
apply r Op.fact_superseded = apply_to "fact_id" r (close_belief r)
apply r Op.fact_retracted = apply_to "fact_id" r (close_belief r)
apply r Op.fact_confirmed = apply_to "fact_id" r (corroborate r)
apply r Op.contradiction_recorded = apply_contradiction r
apply r Op.entity_merged = apply_merge r
apply r Op.entity_split = apply_split r
apply r Op.space_created = put_payload r
apply r Op.capability_granted = put_payload r
apply r Op.capability_revoked = apply_revoked r
apply r Op.knowledge_shared = apply_to "object_id" r (place r)
apply r Op.knowledge_promoted = apply_to "object_id" r (place r)
apply r Op.claim_asserted = put_payload r
apply r Op.evidence_recorded = put_payload r
apply r Op.claim_reviewed = put_payload r
apply r Op.claim_retracted = apply_to "claim_id" r (close_claim r)
apply r Op.claim_superseded = apply_to "claim_id" r (close_claim r)
apply r Op.evidence_attached = apply_to "claim_id" r (attach r)
apply r Op.claim_accepted = apply_to "claim_id" r (govern r "accepted")
apply r Op.claim_rejected = apply_to "claim_id" r (govern r "rejected")
apply r (Op.unknown _) = raise integrity

-- `_emit`: the event is sealed onto the ledger first, and then projected.
unfoldable pub emit : Host → Principal → Op → String → Fields → Exec Store LedgerRecord
emit h p op ts payload = do
  r ← append h (record {
    op = op;
    ts = ts;
    tenant = p.tenant;
    namespace = p.namespace;
    actor = p.agent;
    principal = p.principal;
    payload = payload;
  })
  on_objects (apply r r.op)
  pure r

unfoldable pub apply_all : List LedgerRecord → Exec Objects (Unit {0})
apply_all [] = pure tt
apply_all (r ∷ rs) = do apply r r.op; apply_all rs

-- `rebuild_projection`, which returns the number of events.
unfoldable pub rebuild_projection : Exec Store ℕ
rebuild_projection = atomic (do
  clear_projection
  records ← gets (read_events 0)
  on_objects (apply_all records)
  pure (length records))
