-- ===== src/Engine/Apply/Isolation.antt =====
-- core/__init__.py: each kind of record writes in its own scope only.
use epistemos.Common.{none, some, String, Option, List, [], ◌∷◌}
use epistemos.Result.{Result, integrity}
use epistemos.Exec.{pure}
use epistemos.Json.{Json, Fields, as_dict}
use epistemos.Ledger.{Op, LedgerRecord}
use epistemos.Storage.{Objects}
use epistemos.Engine.Apply.{
  apply, apply_to, put_payload, put_each, apply_contradiction, apply_merge, apply_split,
  apply_revoked, mutate, mutate_each,
}
use epistemos.Engine.Change.{close_belief, corroborate, place, close_claim, attach, govern, revoke}
use epistemos.Engine.Apply.Scope.{
  close_belief-StaysInScope, corroborate-StaysInScope, contradicted_by-StaysInScope,
  merge_into-StaysInScope, mark_merged-StaysInScope, mark_split-StaysInScope, revoke-StaysInScope,
  place-StaysInScope, close_claim-StaysInScope, attach-StaysInScope, govern-StaysInScope,
  StaysInScope,
}
use epistemos.Engine.Apply.Writes.{
  WritesInScope, Obeys, write_rules, Obeys-bind, Obeys-mutate, Obeys-lift, Obeys-guarded,
  Obeys-persist, Obeys-raise,
}

module _ (r : LedgerRecord) where
  put_payload-Obeys : Obeys r (put_payload r)
  unfolding put_payload
  put_payload-Obeys = search write_rules depth 20

  mutate_each-Obeys :
      (change : Fields → Result (Option Fields)) (ids : List Json)
      → ((o : Fields) → StaysInScope o (change o))
      → Obeys r (mutate_each r change ids)
  unfolding mutate_each
  mutate_each-Obeys change [] stays = search write_rules depth 20
  mutate_each-Obeys change (id ∷ ids) stays =
      Obeys-bind _ _ (Obeys-mutate id change stays) (λ _. mutate_each-Obeys change ids stays)

  put_each-Obeys : (es : List Json) → Obeys r (put_each r es)
  unfolding put_each
  put_each-Obeys [] = search write_rules depth 20
  put_each-Obeys (e ∷ es) = Obeys-bind _ _ (Obeys-lift (as_dict e)) (λ ent.
      Obeys-guarded ent _
        (λ scope. Obeys-bind _ _ (Obeys-persist ent scope) (λ _. put_each-Obeys es)))

  apply_contradiction-Obeys : Obeys r (apply_contradiction r)
  unfolding apply_contradiction
  apply_contradiction-Obeys = search (write_rules, contradicted_by-StaysInScope) depth 20

  apply_merge-Obeys : Obeys r (apply_merge r)
  unfolding apply_merge
  apply_merge-Obeys =
      search (write_rules, merge_into-StaysInScope, mark_merged-StaysInScope, mutate_each-Obeys)
        depth 20

  apply_split-Obeys : Obeys r (apply_split r)
  unfolding apply_split
  apply_split-Obeys = search (write_rules, mark_split-StaysInScope, put_each-Obeys) depth 20

  revoke_found-Obeys :
      (id : Json) (found : Option Fields)
      → Obeys r (elim found [ none ↦ pure tt | some _ ↦ mutate r id (revoke r) ])
  revoke_found-Obeys id none = search write_rules depth 20
  revoke_found-Obeys id (some o) = search (write_rules, revoke-StaysInScope) depth 20

  apply_revoked-Obeys : Obeys r (apply_revoked r)
  unfolding apply_revoked
  apply_revoked-Obeys = search (write_rules, revoke_found-Obeys) depth 20

  apply_to-Obeys :
      (key : String) (change : Fields → Result (Option Fields))
      → ((o : Fields) → StaysInScope o (change o))
      → Obeys r (apply_to key r change)
  apply_to-Obeys key change stays = search (write_rules, stays) depth 20

  apply-Obeys : (op : Op) → Obeys r (apply r op)
  unfolding apply
  apply-Obeys Op.source_added = put_payload-Obeys
  apply-Obeys Op.observation_recorded = put_payload-Obeys
  apply-Obeys Op.document_ingested = put_payload-Obeys
  apply-Obeys Op.fact_asserted = put_payload-Obeys
  apply-Obeys Op.entity_added = put_payload-Obeys
  apply-Obeys Op.relation_added = put_payload-Obeys
  apply-Obeys Op.decision_recorded = put_payload-Obeys
  apply-Obeys Op.episode_recorded = put_payload-Obeys
  apply-Obeys Op.fact_superseded =
      apply_to-Obeys "fact_id" (close_belief r) (close_belief-StaysInScope r)
  apply-Obeys Op.fact_retracted =
      apply_to-Obeys "fact_id" (close_belief r) (close_belief-StaysInScope r)
  apply-Obeys Op.fact_confirmed =
      apply_to-Obeys "fact_id" (corroborate r) (corroborate-StaysInScope r)
  apply-Obeys Op.contradiction_recorded = apply_contradiction-Obeys
  apply-Obeys Op.entity_merged = apply_merge-Obeys
  apply-Obeys Op.entity_split = apply_split-Obeys
  apply-Obeys Op.space_created = put_payload-Obeys
  apply-Obeys Op.capability_granted = put_payload-Obeys
  apply-Obeys Op.capability_revoked = apply_revoked-Obeys
  apply-Obeys Op.knowledge_shared = apply_to-Obeys "object_id" (place r) (place-StaysInScope r)
  apply-Obeys Op.knowledge_promoted = apply_to-Obeys "object_id" (place r) (place-StaysInScope r)
  apply-Obeys Op.claim_asserted = put_payload-Obeys
  apply-Obeys Op.evidence_recorded = put_payload-Obeys
  apply-Obeys Op.claim_reviewed = put_payload-Obeys
  apply-Obeys Op.claim_retracted =
      apply_to-Obeys "claim_id" (close_claim r) (close_claim-StaysInScope r)
  apply-Obeys Op.claim_superseded =
      apply_to-Obeys "claim_id" (close_claim r) (close_claim-StaysInScope r)
  apply-Obeys Op.evidence_attached = apply_to-Obeys "claim_id" (attach r) (attach-StaysInScope r)
  apply-Obeys Op.claim_accepted =
      apply_to-Obeys "claim_id" (govern r "accepted") (λ o. govern-StaysInScope r o "accepted")
  apply-Obeys Op.claim_rejected =
      apply_to-Obeys "claim_id" (govern r "rejected") (λ o. govern-StaysInScope r o "rejected")
  apply-Obeys (Op.unknown name) = Obeys-raise integrity

-- Whatever a record of any kind does, raising or not, each id finds what it found before, or an object
-- that carries the record's tenant and namespace.
pub apply-WritesInScope :
    (r : LedgerRecord) (op : Op) (os : Objects) → WritesInScope r os (apply r op os).1
apply-WritesInScope r op os = (apply-Obeys r op).at os
