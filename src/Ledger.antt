-- ===== src/Ledger.antt =====
-- ledger/__init__.py: events, sealed records, the hash chain and its verification.
pub mod Chain
pub mod Tamper
use epistemos.Common.{
  ℕ, suc, ◌+◌, String, ◌≡◌, Bool, true, not, Option, none, some, List, [], ◌∷◌, ◌==◌, nat_eq,
  if◌then◌else◌, false,
}
use epistemos.Result.{Result, ok, err, integrity}
use epistemos.Json.{Json, null, num, str, obj, Fields, end, field}
use epistemos.Host.{Host, hash_obj}

abbrev pub genesis_hash : String
genesis_hash = "0000000000000000000000000000000000000000000000000000000000000000"

-- The names of `class Op`; `unknown` is any other text.
pub data Op : Type 0 where
  source_added observation_recorded document_ingested : Op
  fact_asserted fact_superseded fact_retracted fact_confirmed : Op
  contradiction_recorded entity_added relation_added entity_merged entity_split : Op
  decision_recorded episode_recorded : Op
  space_created capability_granted capability_revoked knowledge_shared knowledge_promoted : Op
  claim_asserted claim_retracted claim_superseded evidence_recorded evidence_attached : Op
  claim_reviewed claim_accepted claim_rejected : Op
  unknown : String → Op

unfoldable pub op_name : Op → String
op_name Op.source_added = "source_added"
op_name Op.observation_recorded = "observation_recorded"
op_name Op.document_ingested = "document_ingested"
op_name Op.fact_asserted = "fact_asserted"
op_name Op.fact_superseded = "fact_superseded"
op_name Op.fact_retracted = "fact_retracted"
op_name Op.fact_confirmed = "fact_confirmed"
op_name Op.contradiction_recorded = "contradiction_recorded"
op_name Op.entity_added = "entity_added"
op_name Op.relation_added = "relation_added"
op_name Op.entity_merged = "entity_merged"
op_name Op.entity_split = "entity_split"
op_name Op.decision_recorded = "decision_recorded"
op_name Op.episode_recorded = "episode_recorded"
op_name Op.space_created = "space_created"
op_name Op.capability_granted = "capability_granted"
op_name Op.capability_revoked = "capability_revoked"
op_name Op.knowledge_shared = "knowledge_shared"
op_name Op.knowledge_promoted = "knowledge_promoted"
op_name Op.claim_asserted = "claim_asserted"
op_name Op.claim_retracted = "claim_retracted"
op_name Op.claim_superseded = "claim_superseded"
op_name Op.evidence_recorded = "evidence_recorded"
op_name Op.evidence_attached = "evidence_attached"
op_name Op.claim_reviewed = "claim_reviewed"
op_name Op.claim_accepted = "claim_accepted"
op_name Op.claim_rejected = "claim_rejected"
op_name (Op.unknown s) = s

-- The values of `class Op`, and the operation that a text names.
abbrev pub known_ops : List Op
known_ops =
    Op.source_added ∷ Op.observation_recorded ∷ Op.document_ingested ∷ Op.fact_asserted
    ∷ Op.fact_superseded ∷ Op.fact_retracted ∷ Op.fact_confirmed ∷ Op.contradiction_recorded
    ∷ Op.entity_added ∷ Op.relation_added ∷ Op.entity_merged ∷ Op.entity_split
    ∷ Op.decision_recorded ∷ Op.episode_recorded ∷ Op.space_created ∷ Op.capability_granted
    ∷ Op.capability_revoked ∷ Op.knowledge_shared ∷ Op.knowledge_promoted ∷ Op.claim_asserted
    ∷ Op.claim_retracted ∷ Op.claim_superseded ∷ Op.evidence_recorded ∷ Op.evidence_attached
    ∷ Op.claim_reviewed ∷ Op.claim_accepted ∷ Op.claim_rejected ∷ []

find_op : String → List Op → Op
find_op s [] = Op.unknown s
find_op s (op ∷ ops) = let rest = find_op s ops in if op_name op == s then op else rest

unfoldable pub op_of_name : String → Op
unfolding find_op op_name
op_of_name s = find_op s known_ops

pub record Event : Type 0 where
  pub op : Op
  pub ts : String
  pub tenant : String
  pub namespace : String
  pub actor : String
  pub principal : Option String
  pub payload : Fields

pub record LedgerRecord : Type 0 where
  pub seq : ℕ
  pub ts : String
  pub op : Op
  pub tenant : String
  pub namespace : String
  pub actor : String
  pub principal : Option String
  pub payload : Fields
  pub content_hash : String
  pub prev_hash : String
  pub entry_hash : String

abbrev pub opt_str : Option String → Json
opt_str none = null
opt_str (some s) = str s

-- The fields that the entry hash commits to.
unfoldable pub header : LedgerRecord → Fields
unfolding op_name
header r = field "seq" (num r.seq) (
    field "ts" (str r.ts) (
      field "op" (str (op_name r.op)) (
        field "tenant" (str r.tenant) (
          field "namespace" (str r.namespace) (
            field "actor" (str r.actor) (
              field "principal" (opt_str r.principal) (
                field "content_hash" (str r.content_hash)
                  (field "prev_hash" (str r.prev_hash) end))))))))

-- What the content hash commits to.
unfoldable pub content : Op → Fields → Fields
content op payload = field "op" (str (op_name op)) (field "payload" (obj payload) end)

-- The checks after the loop.
check_anchor : Option ℕ → Option String → String × ℕ → Result ℕ
check_anchor expected_count expected_head (last_hash, count) =
    if elim expected_count [ none ↦ false | some n ↦ not (nat_eq count n) ]
    then err integrity
    else if elim expected_head [ none ↦ false | some x ↦ not (last_hash == x) ]
    then err integrity
    else ok count

module _ (h : Host) where
  unfoldable pub content_hash : Op → Fields → String
  content_hash op payload = hash_obj h (obj (content op payload))

  -- A record whose hashes are still to be written.
  abbrev unsealed : ℕ → Event → String → LedgerRecord
  unsealed seq event prev_hash = record {
    seq = seq;
    ts = event.ts;
    op = event.op;
    tenant = event.tenant;
    namespace = event.namespace;
    actor = event.actor;
    principal = event.principal;
    payload = event.payload;
    content_hash = content_hash event.op event.payload;
    prev_hash = prev_hash;
    entry_hash = "";
  }

  unfoldable pub seal : ℕ → Event → String → LedgerRecord
  seal seq event prev_hash =
      let r = unsealed seq event prev_hash in record r { entry_hash = hash_obj h (obj (header r)) }

  -- The four tests that the loop makes of one record, in its order.
  unfoldable pub links : LedgerRecord → String → ℕ → Bool
  links rec prev expected_seq =
      if not (nat_eq rec.seq expected_seq)
      then false
      else if not (rec.prev_hash == prev)
      then false
      else if not (content_hash rec.op rec.payload == rec.content_hash)
      then false
      else hash_obj h (obj (header rec)) == rec.entry_hash

  -- The loop, from the last hash, the next sequence number and the count; it gives the head's hash
  -- and the count.
  unfoldable pub verify_from : List LedgerRecord → String → ℕ → ℕ → Result (String × ℕ)
  verify_from [] prev expected_seq count = ok (prev, count)
  verify_from (rec ∷ records) prev expected_seq count =
      let rest = verify_from records rec.entry_hash (expected_seq + 1) (count + 1) in
      if links rec prev expected_seq then rest else err integrity

  unfoldable pub verify_chain : List LedgerRecord → Option ℕ → Option String → Result ℕ
  unfolding check_anchor
  verify_chain records expected_count expected_head = elim (verify_from records genesis_hash 1 0) [
    | ok found ↦ check_anchor expected_count expected_head found
    | err e ↦ err e
  ]
