-- ===== src/Engine/Collaboration.antt =====
-- core/__init__.py: collaborative claims: claims, evidence, reviews, governed acceptance, belief.
use epistemos.Common.{
  String, not, Option, none, some, List, [], ◌∷◌, ◌==◌, ◌&&◌, if◌then◌else◌, filter,
}
use epistemos.Result.{
  Error, Result, ok, err, validation, authorization, conflict, value_error, type_error,
}
use epistemos.Exec.{Exec, pure, lift, raise_if, ◌>>=◌, ◌>>◌}
use epistemos.Json.{
  Json, null, str, arr, obj, nil, Fields, end, field, is_str, is_null, of_list, iterate, as_dict,
}
use epistemos.Json.Dict.{get, get_or}
use epistemos.Identity.{Principal, is_admin, require, guard_owner}
use epistemos.Ledger.{Op, opt_str}
use epistemos.Model.{Class, construct, one_of, truthy, verdicts, evidence_kinds}
use epistemos.Storage.{Store, Objects, objects}
use epistemos.Claims.Belief.{Belief, derive_belief}
use epistemos.Claims.Policy.{Action, accept, reject}
use epistemos.Engine.Base.{
  Engine, Call, text_arg, optional_text, confidence_arg, instant_arg, metadata_arg,
}
use epistemos.Engine.Read.{ref_readable, readable}
use epistemos.Engine.Calls.{envelope, look, commit, optional_ref, tuple}
use epistemos.Engine.Placement.{resolve_placement}

abbrev contributor_kinds : List String
contributor_kinds = "human" ∷ "agent" ∷ "service" ∷ "organization" ∷ []

abbrev relations : List String
relations = "supports" ∷ "contradicts" ∷ "weakens" ∷ "derived_from" ∷ []

pub record ClaimArgs : Type 0 where
  pub subject : Json
  pub predicate : Json
  pub object : Json
  pub claimant : Json
  pub contributor_kind : Json
  pub source : Option String
  pub confidence : Json
  pub valid_from : Json
  pub valid_to : Json
  pub space : Option String
  pub derived_from : List String
  pub metadata : Json

pub record EvidenceArgs : Type 0 where
  pub evidence_kind : Json
  pub title : Json
  pub uri : Json
  pub content_hash : Json
  pub origin : Json
  pub captured_at : Json
  pub space : Option String
  pub metadata : Json

-- The capability that a verdict needs.
unfoldable pub review_capability : String → String
review_capability verdict =
    if verdict == "confirm"
    then "claim.confirm"
    else if verdict == "dispute"
    then "claim.dispute"
    else "claim.review"

-- obj.get("metadata", {}).get(key), as the dict that governance left there.
marker : String → Fields → Result (Option Fields)
marker key claim =
    epistemos.Result.◌>>=◌ (as_dict (get_or "metadata" (obj end) claim))
      λ meta. elim (get key meta) [ null ↦ ok none | obj g ↦ ok (some g) | _ ↦ err type_error ]

-- (claim.get("spaces") or (None,))[0]
abbrev pub first_space : Fields → Json
first_space claim = elim (get "spaces" claim) [ arr (epistemos.Json.cons x xs) ↦ x | _ ↦ null ]

module _ (e : Engine) (p : Principal) where
  unfoldable pub refs_readable : List String → Objects → Result (Unit {0})
  refs_readable [] os = ok tt
  refs_readable (id ∷ ids) os = elim (ref_readable e.host p id os) [
    | err x ↦ err x
    | ok _ ↦ refs_readable ids os
  ]

  -- A readable object that is a claim, or ValidationError.
  unfoldable pub the_claim : String → Objects → Result Fields
  the_claim claim_id os =
      epistemos.Result.◌>>=◌ (ref_readable e.host p claim_id os)
        λ claim. if is_str (get "kind" claim) "claim" then ok claim else err validation

  unfoldable pub readable_reviews : String → Objects → Result (List Fields)
  readable_reviews claim_id os = readable e.host p os (
      filter (λ r. is_str (get "claim_id" r) claim_id)
        (objects p.tenant p.namespace (some "review") os))

  unfoldable pub belief : String → Exec Store Belief
  unfolding marker
  belief claim_id = do
    lift (require p "claim.read")
    claim ← look (the_claim claim_id)
    reviews ← look (readable_reviews claim_id)
    accepted ← lift (marker "accepted" claim)
    rejected ← lift (marker "rejected" claim)
    pure (derive_belief claim reviews accepted rejected)

module _ (e : Engine) (c : Call) (p : Principal) where
  -- `claimant or principal.agent`
  abbrev claimant_or_agent : Json → Json
  claimant_or_agent v = if truthy v then v else str p.agent

  unfoldable pub create_claim : ClaimArgs → Exec Store Fields
  create_claim a = do
    lift (require p "claim.create")
    subject ← lift (text_arg e a.subject none)
    predicate ← lift (text_arg e a.predicate none)
    object ← lift (optional_text e a.object none)
    claimant ← lift (text_arg e (claimant_or_agent a.claimant) (some 128))
    raise_if (not (one_of contributor_kinds a.contributor_kind)) value_error
    valid_from ← lift (instant_arg e a.valid_from)
    valid_to ← lift (instant_arg e a.valid_to)
    confidence ← lift (confidence_arg e a.confidence)
    look (refs_readable e p a.derived_from)
    look (optional_ref p a.source)
    spaces ← look (resolve_placement e c p a.space)
    meta ← lift (metadata_arg e a.metadata)
    claim ← lift (
        construct e.host Class.claim (
          envelope p "claim" (c.new_id "clm" 0) c.now (
            field "source" (opt_str a.source) (
              field "confidence" confidence (
                field "derived_from" (tuple a.derived_from) (
                  field "spaces" (tuple spaces) (
                    field "subject" (str subject) (
                      field "predicate" (str predicate) (
                        field "object" object (
                          field "claimant" (str claimant) (
                            field "contributor_kind" a.contributor_kind (
                              field "valid_from" valid_from (
                                field "valid_to" valid_to (
                                  field "tx_from" (str c.now) (
                                    field "tx_to" null (
                                      field "status" (str "open")
                                        (field "metadata" meta end)))))))))))))))))
    commit e.host p c.now ((Op.claim_asserted, claim) ∷ [])
    pure claim

  unfoldable pub retract_claim : String → Json → Exec Store (Unit {0})
  retract_claim claim_id reason = do
    lift (require p "claim.retract")
    claim ← look (the_claim e p claim_id)
    lift (guard_owner p (get_or "owner" (str p.agent) claim))
    raise_if (not (is_str (get "status" claim) "open")) conflict
    reason' ← lift (optional_text e reason (some e.limits.max_str))
    commit e.host p c.now (
        (
          Op.claim_retracted,
          field "claim_id" (str claim_id) (
              field "status" (str "retracted")
                (field "tx_to" (str c.now) (field "reason" reason' end))),
        )
        ∷ [])

  unfoldable pub create_evidence : EvidenceArgs → Exec Store Fields
  unfolding evidence_kinds
  create_evidence a = do
    lift (require p "evidence.create")
    raise_if (not (one_of evidence_kinds a.evidence_kind)) value_error
    title ← lift (optional_text e a.title none)
    uri ← lift (optional_text e a.uri (some e.limits.max_uri))
    content_hash ← lift (optional_text e a.content_hash (some 256))
    origin ← lift (optional_text e a.origin none)
    captured_at ← lift (instant_arg e a.captured_at)
    spaces ← look (resolve_placement e c p a.space)
    meta ← lift (metadata_arg e a.metadata)
    ev ← lift (
        construct e.host Class.evidence (
          envelope p "evidence" (c.new_id "evd" 0) c.now (
            field "spaces" (tuple spaces) (
              field "evidence_kind" a.evidence_kind (
                field "title" title (
                  field "uri" uri (
                    field "content_hash" content_hash (
                      field "origin" origin
                        (field "captured_at" captured_at (field "metadata" meta end))))))))))
    commit e.host p c.now ((Op.evidence_recorded, ev) ∷ [])
    pure ev

  unfoldable pub attach_evidence : String → String → Json → Exec Store (Unit {0})
  attach_evidence evidence_id to_claim relation = do
    lift (require p "evidence.attach")
    raise_if (not (one_of relations relation)) value_error
    claim ← look (ref_readable e.host p to_claim)
    ev ← look (ref_readable e.host p evidence_id)
    raise_if (not (is_str (get "kind" claim) "claim")) validation
    raise_if (not (is_str (get "kind" ev) "evidence")) validation
    commit e.host p c.now (
        (
          Op.evidence_attached,
          field "claim_id" (str to_claim)
              (field "evidence_id" (str evidence_id) (field "relation" relation end)),
        )
        ∷ [])

  unfoldable pub review_claim : String → String → Json → List String → Exec Store Fields
  unfolding verdicts
  review_claim claim_id verdict rationale evidence_refs = do
    raise_if (not (one_of verdicts (str verdict))) value_error
    lift (require p (review_capability verdict))
    claim ← look (the_claim e p claim_id)
    look (refs_readable e p evidence_refs)
    rationale' ← lift (optional_text e rationale (some e.limits.max_text))
    spaces ← lift (iterate (get_or "spaces" (arr nil) claim))
    review ← lift (
        construct e.host Class.review (
          envelope p "review" (c.new_id "rev" 0) c.now (
            field "spaces" (arr (of_list spaces)) (
              field "claim_id" (str claim_id) (
                field "verdict" (str verdict) (
                  field "rationale" rationale'
                    (field "evidence_refs" (tuple evidence_refs) end)))))))
    commit e.host p c.now ((Op.claim_reviewed, review) ∷ [])
    pure review

  -- `note or decision.reason`
  abbrev note_or : Json → String → Json
  note_or note reason = if truthy note then note else str reason

  -- `_govern`: a claimant that is no admin cannot govern its own claim.
  unfoldable pub govern_claim : String → Op → Action → Json → Exec Store (Unit {0})
  unfolding first_space
  govern_claim claim_id op action reason = do
    lift (require p "knowledge.accept")
    claim ← look (the_claim e p claim_id)
    raise_if (is_str (get "claimant" claim) p.agent && not (is_admin p)) authorization
    reviews ← look (readable_reviews e p claim_id)
    let decision = e.policy (record {
      action = action;
      principal_agent = p.agent;
      principal_caps = p.capabilities;
      claim = claim;
      reviews = reviews;
      destination_space = first_space claim;
    })
    raise_if (not decision.allow) authorization
    note ← lift (optional_text e reason (some e.limits.max_str))
    commit e.host p c.now (
        (op, field "claim_id" (str claim_id) (field "reason" (note_or note decision.reason) end))
        ∷ [])

  unfoldable pub accept_claim : String → Json → Exec Store (Unit {0})
  unfolding govern_claim
  accept_claim claim_id reason = govern_claim claim_id Op.claim_accepted accept reason

  unfoldable pub reject_claim : String → Json → Exec Store (Unit {0})
  unfolding govern_claim
  reject_claim claim_id reason = govern_claim claim_id Op.claim_rejected reject reason
