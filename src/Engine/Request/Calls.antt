-- ===== src/Engine/Request/Calls.antt =====
-- core/__init__.py: every call has that shape.
use epistemos.Common.{List, Bool, Option, String}
use epistemos.Json.{Json, Fields}
use epistemos.Identity.{Principal}
use epistemos.Engine.Base.{Engine, Call}
use epistemos.Engine.Request.{Request, run}
use epistemos.Engine.Request.Keep.{Transacts, call_rules}
use epistemos.Engine.Ingest.{add_source, observe, ingest_document, record_decision, remember}
use epistemos.Engine.Facts.{
  assert_fact, supersede, correct_validity, end_fact, retract, contradict, confirm, FactArgs,
}
use epistemos.Engine.Graph.{add_entity, add_relation, merge_entities, split_entity}
use epistemos.Engine.Placement.{create_space, grant_capability, revoke_capability, share, promote}
use epistemos.Engine.Collaboration.{
  create_claim, retract_claim, create_evidence, attach_evidence, review_claim, accept_claim,
  reject_claim, ClaimArgs, EvidenceArgs,
}

module _ (e : Engine) (c : Call) (p : Principal) where
  add_source_call :
      (a : Json) (b : Json) (x : Json) (d : Json) → Transacts e.host p (add_source e c p a b x d)
  unfolding add_source
  add_source_call a b x d = search call_rules depth 40

  observe_call :
      (a : Json) (b : Option String) (x : Json) (d : Json)
      → Transacts e.host p (observe e c p a b x d)
  unfolding observe
  observe_call a b x d = search call_rules depth 40

  ingest_document_call :
      (a : Json) (b : Json) (x : Json) (d : Option String) (f : Json)
      → Transacts e.host p (ingest_document e c p a b x d f)
  unfolding ingest_document
  ingest_document_call a b x d f = search call_rules depth 40

  record_decision_call :
      (a : Json) (b : List String) (x : List Json) (d : Json) (f : Bool) (g : Json)
      → Transacts e.host p (record_decision e c p a b x d f g)
  unfolding record_decision
  record_decision_call a b x d f g = search call_rules depth 40

  remember_call :
      (a : Json) (b : Json) (x : Json) (d : List String) (f : Json)
      → Transacts e.host p (remember e c p a b x d f)
  unfolding remember
  remember_call a b x d f = search call_rules depth 40

  assert_fact_call : (a : FactArgs) → Transacts e.host p (assert_fact e c p a)
  unfolding assert_fact
  assert_fact_call a = search call_rules depth 40

  supersede_call :
      (a : String) (b : Fields) (x : Json) (d : Option String)
      → Transacts e.host p (supersede e c p a b x d)
  unfolding supersede
  supersede_call a b x d = search call_rules depth 40

  correct_validity_call :
      (a : String) (b : Option Json) (x : Option Json) (d : Json) (f : Option String)
      → Transacts e.host p (correct_validity e c p a b x d f)
  unfolding correct_validity
  correct_validity_call a b x d f = search call_rules depth 40

  end_fact_call :
      (a : String) (b : Json) (x : Json) (d : Option String)
      → Transacts e.host p (end_fact e c p a b x d)
  unfolding end_fact
  end_fact_call a b x d = search call_rules depth 40

  retract_call : (a : String) (b : Json) → Transacts e.host p (retract e c p a b)
  unfolding retract
  retract_call a b = search call_rules depth 40

  contradict_call :
      (a : String) (b : String) (x : Json) → Transacts e.host p (contradict e c p a b x)
  unfolding contradict
  contradict_call a b x = search call_rules depth 40

  confirm_call : (a : String) (b : String) (x : Json) → Transacts e.host p (confirm e c p a b x)
  unfolding confirm
  confirm_call a b x = search call_rules depth 40

  add_entity_call :
      (a : Json) (b : Json) (x : List Json) (d : Json)
      → Transacts e.host p (add_entity e c p a b x d)
  unfolding add_entity
  add_entity_call a b x d = search call_rules depth 40

  add_relation_call :
      (a : String) (b : String) (x : Json) (d : Json)
      → Transacts e.host p (add_relation e c p a b x d)
  unfolding add_relation
  add_relation_call a b x d = search call_rules depth 40

  merge_entities_call :
      (a : String) (b : List Json) (x : List Json) → Transacts e.host p (merge_entities e c p a b x)
  unfolding merge_entities
  merge_entities_call a b x = search call_rules depth 40

  split_entity_call : (a : String) (b : List Fields) → Transacts e.host p (split_entity e c p a b)
  unfolding split_entity
  split_entity_call a b = search call_rules depth 40

  create_space_call :
      (a : Json) (b : Json) (x : Option String) (d : Json) (f : Json)
      → Transacts e.host p (create_space e c p a b x d f)
  unfolding create_space
  create_space_call a b x d f = search call_rules depth 40

  grant_capability_call :
      (a : String) (b : Json) (x : List Json) → Transacts e.host p (grant_capability e c p a b x)
  unfolding grant_capability
  grant_capability_call a b x = search call_rules depth 40

  revoke_capability_call :
      (a : String) (b : Json) → Transacts e.host p (revoke_capability e c p a b)
  unfolding revoke_capability
  revoke_capability_call a b = search call_rules depth 40

  share_call : (a : String) (b : String) (x : Json) → Transacts e.host p (share e c p a b x)
  unfolding share
  share_call a b x = search call_rules depth 40

  promote_call : (a : String) (b : String) (x : Json) → Transacts e.host p (promote e c p a b x)
  unfolding promote
  promote_call a b x = search call_rules depth 40

  create_claim_call : (a : ClaimArgs) → Transacts e.host p (create_claim e c p a)
  unfolding create_claim
  create_claim_call a = search call_rules depth 40

  retract_claim_call : (a : String) (b : Json) → Transacts e.host p (retract_claim e c p a b)
  unfolding retract_claim
  retract_claim_call a b = search call_rules depth 40

  create_evidence_call : (a : EvidenceArgs) → Transacts e.host p (create_evidence e c p a)
  unfolding create_evidence
  create_evidence_call a = search call_rules depth 40

  attach_evidence_call :
      (a : String) (b : String) (x : Json) → Transacts e.host p (attach_evidence e c p a b x)
  unfolding attach_evidence
  attach_evidence_call a b x = search call_rules depth 40

  review_claim_call :
      (a : String) (b : String) (x : Json) (d : List String)
      → Transacts e.host p (review_claim e c p a b x d)
  unfolding review_claim
  review_claim_call a b x d = search call_rules depth 40

  accept_claim_call : (a : String) (b : Json) → Transacts e.host p (accept_claim e c p a b)
  unfolding accept_claim
  accept_claim_call a b = search call_rules depth 40

  reject_claim_call : (a : String) (b : Json) → Transacts e.host p (reject_claim e c p a b)
  unfolding reject_claim
  reject_claim_call a b = search call_rules depth 40

  -- A call reads and checks, commits at most one transaction, and after that only reads.
  pub run_call : (request : Request) → Transacts e.host p (run e c p request)
  unfolding run
  run_call (Request.add_source a b x d) = search (call_rules, add_source_call a b x d) depth 40
  run_call (Request.observe a b x d) = search (call_rules, observe_call a b x d) depth 40
  run_call (Request.ingest_document a b x d f) =
      search (call_rules, ingest_document_call a b x d f) depth 40
  run_call (Request.record_decision a b x d f g) =
      search (call_rules, record_decision_call a b x d f g) depth 40
  run_call (Request.remember a b x d f) = search (call_rules, remember_call a b x d f) depth 40
  run_call (Request.assert_fact a) = search (call_rules, assert_fact_call a) depth 40
  run_call (Request.supersede a b x d) = search (call_rules, supersede_call a b x d) depth 40
  run_call (Request.correct_validity a b x d f) =
      search (call_rules, correct_validity_call a b x d f) depth 40
  run_call (Request.end_fact a b x d) = search (call_rules, end_fact_call a b x d) depth 40
  run_call (Request.retract a b) = search (call_rules, retract_call a b) depth 40
  run_call (Request.contradict a b x) = search (call_rules, contradict_call a b x) depth 40
  run_call (Request.confirm a b x) = search (call_rules, confirm_call a b x) depth 40
  run_call (Request.add_entity a b x d) = search (call_rules, add_entity_call a b x d) depth 40
  run_call (Request.add_relation a b x d) = search (call_rules, add_relation_call a b x d) depth 40
  run_call (Request.merge_entities a b x) = search (call_rules, merge_entities_call a b x) depth 40
  run_call (Request.split_entity a b) = search (call_rules, split_entity_call a b) depth 40
  run_call (Request.create_space a b x d f) =
      search (call_rules, create_space_call a b x d f) depth 40
  run_call (Request.grant_capability a b x) =
      search (call_rules, grant_capability_call a b x) depth 40
  run_call (Request.revoke_capability a b) =
      search (call_rules, revoke_capability_call a b) depth 40
  run_call (Request.share a b x) = search (call_rules, share_call a b x) depth 40
  run_call (Request.promote a b x) = search (call_rules, promote_call a b x) depth 40
  run_call (Request.create_claim a) = search (call_rules, create_claim_call a) depth 40
  run_call (Request.retract_claim a b) = search (call_rules, retract_claim_call a b) depth 40
  run_call (Request.create_evidence a) = search (call_rules, create_evidence_call a) depth 40
  run_call (Request.attach_evidence a b x) =
      search (call_rules, attach_evidence_call a b x) depth 40
  run_call (Request.review_claim a b x d) = search (call_rules, review_claim_call a b x d) depth 40
  run_call (Request.accept_claim a b) = search (call_rules, accept_claim_call a b) depth 40
  run_call (Request.reject_claim a b) = search (call_rules, reject_claim_call a b) depth 40
