-- ===== src/Engine/Request.antt =====
-- core/__init__.py: one call of the engine, with its arguments, and what it does to the store. A
-- client is whatever sequence of calls it makes, each with a principal and a clock of its own.
pub mod Keep
pub mod Calls
pub mod Reach
pub mod Signed
pub mod Isolated
pub mod Whole
use epistemos.Common.{String, Bool, Option, List}
use epistemos.Exec.{Exec, pure, ◌>>◌}
use epistemos.Json.{Json, Fields}
use epistemos.Identity.{Principal}
use epistemos.Storage.{Store}
use epistemos.Engine.Base.{Engine, Call}
use epistemos.Engine.Facts.{FactArgs}
use epistemos.Engine.Collaboration.{ClaimArgs, EvidenceArgs}
use epistemos.Engine.Ingest
use epistemos.Engine.Facts
use epistemos.Engine.Graph
use epistemos.Engine.Placement
use epistemos.Engine.Collaboration

pub data Request : Type 0 where
  add_source : Json → Json → Json → Json → Request
  observe : Json → Option String → Json → Json → Request
  ingest_document : Json → Json → Json → Option String → Json → Request
  record_decision : Json → List String → List Json → Json → Bool → Json → Request
  remember : Json → Json → Json → List String → Json → Request
  assert_fact : FactArgs → Request
  supersede : String → Fields → Json → Option String → Request
  correct_validity : String → Option Json → Option Json → Json → Option String → Request
  end_fact : String → Json → Json → Option String → Request
  retract : String → Json → Request
  contradict : String → String → Json → Request
  confirm : String → String → Json → Request
  add_entity : Json → Json → List Json → Json → Request
  add_relation : String → String → Json → Json → Request
  merge_entities : String → List Json → List Json → Request
  split_entity : String → List Fields → Request
  create_space : Json → Json → Option String → Json → Json → Request
  grant_capability : String → Json → List Json → Request
  revoke_capability : String → Json → Request
  share : String → String → Json → Request
  promote : String → String → Json → Request
  create_claim : ClaimArgs → Request
  retract_claim : String → Json → Request
  create_evidence : EvidenceArgs → Request
  attach_evidence : String → String → Json → Request
  review_claim : String → String → Json → List String → Request
  accept_claim : String → Json → Request
  reject_claim : String → Json → Request

abbrev done : {A : Type 0} → Exec Store A → Exec Store (Unit {0})
done m = m >> pure tt

module _ (e : Engine) (c : Call) (p : Principal) where
  unfoldable pub run : Request → Exec Store (Unit {0})
  run (add_source a b x d) = done (Ingest.add_source e c p a b x d)
  run (observe a b x d) = done (Ingest.observe e c p a b x d)
  run (ingest_document a b x d y) = done (Ingest.ingest_document e c p a b x d y)
  run (record_decision a b x d y f) = done (Ingest.record_decision e c p a b x d y f)
  run (remember a b x d y) = done (Ingest.remember e c p a b x d y)
  run (assert_fact a) = done (Facts.assert_fact e c p a)
  run (supersede a b x d) = done (Facts.supersede e c p a b x d)
  run (correct_validity a b x d y) = done (Facts.correct_validity e c p a b x d y)
  run (end_fact a b x d) = done (Facts.end_fact e c p a b x d)
  run (retract a b) = done (Facts.retract e c p a b)
  run (contradict a b x) = done (Facts.contradict e c p a b x)
  run (confirm a b x) = done (Facts.confirm e c p a b x)
  run (add_entity a b x d) = done (Graph.add_entity e c p a b x d)
  run (add_relation a b x d) = done (Graph.add_relation e c p a b x d)
  run (merge_entities a b x) = done (Graph.merge_entities e c p a b x)
  run (split_entity a b) = done (Graph.split_entity e c p a b)
  run (create_space a b x d y) = done (Placement.create_space e c p a b x d y)
  run (grant_capability a b x) = done (Placement.grant_capability e c p a b x)
  run (revoke_capability a b) = done (Placement.revoke_capability e c p a b)
  run (share a b x) = done (Placement.share e c p a b x)
  run (promote a b x) = done (Placement.promote e c p a b x)
  run (create_claim a) = done (Collaboration.create_claim e c p a)
  run (retract_claim a b) = done (Collaboration.retract_claim e c p a b)
  run (create_evidence a) = done (Collaboration.create_evidence e c p a)
  run (attach_evidence a b x) = done (Collaboration.attach_evidence e c p a b x)
  run (review_claim a b x d) = done (Collaboration.review_claim e c p a b x d)
  run (accept_claim a b) = done (Collaboration.accept_claim e c p a b)
  run (reject_claim a b) = done (Collaboration.reject_claim e c p a b)
