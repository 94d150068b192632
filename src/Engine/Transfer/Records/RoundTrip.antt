-- ===== src/Engine/Transfer/Records/RoundTrip.antt =====
-- core/__init__.py: the dict of a record, and the record that it is read back as.
use epistemos.Common.{◌≡◌, refl, String, Option, none, some, List, [], ◌∷◌, All, true}
use epistemos.Result.{ok}
use epistemos.Json.{Json, obj, str, to_list, of_list, iterate, arr}
use epistemos.Json.Dict.{find}
use epistemos.Host.{Host, int_of}
use epistemos.Ledger.{Op, op_name, op_of_name, opt_str, LedgerRecord}
use epistemos.Engine.Transfer.Records.{
  dicts_of, record_to_dict, dict_to_record, or_schema, records_of, optional_text, carries_chain,
}

-- The operation is one of `class Op`.
abbrev pub IsKnown : Op → Type 0
IsKnown (Op.unknown s) = ⊥
IsKnown _ = Unit

op_of_name-op_name : (op : Op) → IsKnown op → op_of_name (op_name op) ≡ op
unfolding op_of_name op_name
op_of_name-op_name Op.source_added k = refl
op_of_name-op_name Op.observation_recorded k = refl
op_of_name-op_name Op.document_ingested k = refl
op_of_name-op_name Op.fact_asserted k = refl
op_of_name-op_name Op.fact_superseded k = refl
op_of_name-op_name Op.fact_retracted k = refl
op_of_name-op_name Op.fact_confirmed k = refl
op_of_name-op_name Op.contradiction_recorded k = refl
op_of_name-op_name Op.entity_added k = refl
op_of_name-op_name Op.relation_added k = refl
op_of_name-op_name Op.entity_merged k = refl
op_of_name-op_name Op.entity_split k = refl
op_of_name-op_name Op.decision_recorded k = refl
op_of_name-op_name Op.episode_recorded k = refl
op_of_name-op_name Op.space_created k = refl
op_of_name-op_name Op.capability_granted k = refl
op_of_name-op_name Op.capability_revoked k = refl
op_of_name-op_name Op.knowledge_shared k = refl
op_of_name-op_name Op.knowledge_promoted k = refl
op_of_name-op_name Op.claim_asserted k = refl
op_of_name-op_name Op.claim_retracted k = refl
op_of_name-op_name Op.claim_superseded k = refl
op_of_name-op_name Op.evidence_recorded k = refl
op_of_name-op_name Op.evidence_attached k = refl
op_of_name-op_name Op.claim_reviewed k = refl
op_of_name-op_name Op.claim_accepted k = refl
op_of_name-op_name Op.claim_rejected k = refl
op_of_name-op_name (Op.unknown s) k = absurd k

optional_text-opt_str : (o : Option String) → optional_text (opt_str o) ≡ ok o
unfolding optional_text
optional_text-opt_str none = refl
optional_text-opt_str (some s) = refl

pub dict_to_record-record_to_dict :
    (h : Host) (r : LedgerRecord) → IsKnown r.op → dict_to_record h (obj (record_to_dict r)) ≡ ok r
unfolding dict_to_record record_to_dict find int_of or_schema epistemos.Json.as_dict
dict_to_record-record_to_dict h r k =
    rw (optional_text-opt_str r.principal, op_of_name-op_name r.op k) refl

pub records_of-dicts_of :
    (h : Host) (rs : List LedgerRecord)
    → All (λ r. IsKnown r.op) rs
    → records_of h (dicts_of rs) ≡ ok rs
unfolding records_of
records_of-dicts_of h [] k = refl
records_of-dicts_of h (r ∷ rs) k =
    rw (dict_to_record-record_to_dict h r k.0, records_of-dicts_of h rs k.1) refl

pub to_list-of_list : (js : List Json) → to_list (of_list js) ≡ js
to_list-of_list [] = refl
to_list-of_list (j ∷ js) = rw (to_list-of_list js) refl

pub dicts_of_chained : (rs : List LedgerRecord) → carries_chain (arr (of_list (dicts_of rs))) ≡ true
unfolding carries_chain record_to_dict find
dicts_of_chained [] = refl
dicts_of_chained (r ∷ rs) = dicts_of_chained rs
