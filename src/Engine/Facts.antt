-- ===== src/Engine/Facts.antt =====
-- core/__init__.py: bitemporal facts: assert, supersede, correct, retract, contradict, confirm.
use epistemos.Common.{ℕ, String, not, Option, none, some, List, [], ◌∷◌, ◌==◌, if◌then◌else◌}
use epistemos.Result.{Result, ok, err, validation, value_error, type_error, not_found}
use epistemos.Exec.{Exec, pure, lift, raise_if, ◌>>=◌, ◌>>◌}
use epistemos.Json.{
  Json, null, float, str, arr, obj, nil, Fields, end, field, is_str, of_list, iterate,
}
use epistemos.Json.Dict.{get, get_or, item, update}
use epistemos.Host.{one, is_finite, float_lt}
use epistemos.Identity.{Principal, require, guard_owner}
use epistemos.Ledger.{Op, opt_str}
use epistemos.Model.{Class, construct, one_of, truthy}
use epistemos.Storage.{Store, get_object}
use epistemos.Engine.Base.{
  Engine, Call, text_arg, optional_text, confidence_arg, instant_arg, metadata_arg,
}
use epistemos.Engine.Read.{ref_in_scope, open_belief, can_read}
use epistemos.Engine.Calls.{envelope, look, commit, refs_in_scope, optional_ref, tuple}

abbrev pub memory_classes : List String
memory_classes = "working" ∷ "session" ∷ "episodic" ∷ "semantic" ∷ "procedural" ∷ "longterm" ∷ []

pub record FactArgs : Type 0 where
  pub subject : Json
  pub predicate : Json
  pub object : Json
  pub valid_from : Json
  pub valid_to : Json
  pub source : Option String
  pub confidence : Json
  pub derived_from : List String
  pub memory_class : Json
  pub metadata : Json

abbrev listed : List Json → Json
listed xs = arr (of_list xs)

-- `source if source is not None else old.get("source")`
abbrev source_or_old : Option String → Fields → Json
source_or_old none old = get "source" old
source_or_old (some id) old = str id

-- {"fact_id": ..., "tx_to": ts, "status": ..., "reason": ...}
closing : String → String → String → Json → Fields → Fields
closing fact_id ts status reason more =
    field "fact_id" (str fact_id)
      (field "tx_to" (str ts) (field "status" (str status) (field "reason" reason more)))

module _ (e : Engine) (c : Call) (p : Principal) where
  unfoldable pub assert_fact : FactArgs → Exec Store Fields
  assert_fact a = do
    lift (require p "assert")
    subject ← lift (text_arg e a.subject none)
    predicate ← lift (text_arg e a.predicate none)
    object ← lift (optional_text e a.object none)
    valid_from ← lift (instant_arg e a.valid_from)
    valid_to ← lift (instant_arg e a.valid_to)
    confidence ← lift (confidence_arg e a.confidence)
    look (refs_in_scope p a.derived_from)
    look (optional_ref p a.source)
    raise_if (not (one_of memory_classes a.memory_class)) value_error
    meta ← lift (metadata_arg e a.metadata)
    fact ← lift (
        construct e.host Class.fact (
          envelope p "fact" (c.new_id "fact" 0) c.now (
            field "source" (opt_str a.source) (
              field "confidence" confidence (
                field "derived_from" (tuple a.derived_from) (
                  field "subject" (str subject) (
                    field "predicate" (str predicate) (
                      field "object" object (
                        field "valid_from" valid_from (
                          field "valid_to" valid_to (
                            field "tx_from" (str c.now) (
                              field "tx_to" null (
                                field "status" (str "asserted") (
                                  field "memory_class" a.memory_class
                                    (field "metadata" meta end)))))))))))))))
    commit e.host p c.now ((Op.fact_asserted, fact) ∷ [])
    pure fact

  -- What a replacement inherits from the fact that it closes, its owner and placement with it.
  inherited : String → Fields → Option String → Json → Result Fields
  inherited fact_id old source confidence =
      epistemos.Result.◌>>=◌ (iterate (get_or "derived_from" (arr nil) old)) λ derived.
        epistemos.Result.◌>>=◌ (iterate (get_or "spaces" (arr nil) old)) λ spaces. ok (
          field "source" (source_or_old source old) (
            field "confidence" confidence (
              field "supersedes" (tuple (fact_id ∷ [])) (
                field "derived_from" (listed derived) (
                  field "owner" (get_or "owner" (str p.agent) old) (
                    field "spaces" (listed spaces) (
                      field "tx_from" (str c.now) (
                        field "tx_to" null (
                          field "status" (str "asserted") (
                            field "memory_class" (get_or "memory_class" (str "semantic") old)
                              end))))))))))

  -- The belief is closed and its replacement asserted, in one transaction.
  replace : String → Json → Fields → Exec Store Fields
  unfolding closing
  replace fact_id reason fact = do
    commit e.host p c.now (
        (
          Op.fact_superseded,
          closing fact_id c.now "superseded" reason (field "replacement" (get "id" fact) end),
        )
        ∷ (Op.fact_asserted, fact)
        ∷ [])
    pure fact

  unfoldable pub supersede : String → Fields → Json → Option String → Exec Store Fields
  unfolding inherited replace
  supersede fact_id new reason source = do
    lift (require p "supersede")
    old ← look (open_belief p fact_id)
    lift (guard_owner p (get_or "owner" (str p.agent) old))
    reason' ← lift (optional_text e reason (some e.limits.max_str))
    look (optional_ref p source)
    confidence ←
        lift (confidence_arg e (get_or "confidence" (get_or "confidence" (float one) old) new))
    kept ← lift (inherited fact_id old source confidence)
    old_subject ← lift (item "subject" old)
    subject ← lift (text_arg e (get_or "subject" old_subject new) none)
    old_predicate ← lift (item "predicate" old)
    predicate ← lift (text_arg e (get_or "predicate" old_predicate new) none)
    object ← lift (optional_text e (get "object" new) none)
    valid_from ← lift (instant_arg e (get_or "valid_from" (str c.now) new))
    valid_to ← lift (instant_arg e (get "valid_to" new))
    meta ← lift (metadata_arg e (get "metadata" new))
    fact ← lift (
        construct e.host Class.fact (
          envelope p "fact" (c.new_id "fact" 0) c.now (
            update kept (
              field "subject" (str subject) (
                field "predicate" (str predicate) (
                  field "object" object (
                    field "valid_from" valid_from
                      (field "valid_to" valid_to (field "metadata" meta end)))))))))
    replace fact_id reason' fact

  -- `_pick`: an argument that was not passed keeps the old value.
  abbrev pick : Option Json → Json → Result Json
  pick none current = ok current
  pick (some v) current = instant_arg e v

  correction : String → Json → Json
  correction fact_id reason =
      if truthy reason
      then obj (field "correction_of" (str fact_id) (field "reason" reason end))
      else obj (field "correction_of" (str fact_id) end)

  unfoldable pub correct_validity :
      String → Option Json → Option Json → Json → Option String → Exec Store Fields
  unfolding inherited replace correction
  correct_validity fact_id valid_from valid_to reason source = do
    lift (require p "supersede")
    old ← look (open_belief p fact_id)
    lift (guard_owner p (get_or "owner" (str p.agent) old))
    new_vf ← lift (pick valid_from (get "valid_from" old))
    new_vt ← lift (pick valid_to (get "valid_to" old))
    reason' ← lift (optional_text e reason (some e.limits.max_str))
    look (optional_ref p source)
    kept ← lift (inherited fact_id old source (get_or "confidence" (float one) old))
    subject ← lift (item "subject" old)
    predicate ← lift (item "predicate" old)
    fact ← lift (
        construct e.host Class.fact (
          envelope p "fact" (c.new_id "fact" 0) c.now (
            update kept (
              field "subject" subject (
                field "predicate" predicate (
                  field "object" (get "object" old) (
                    field "valid_from" new_vf (
                      field "valid_to" new_vt
                        (field "metadata" (correction fact_id reason') end)))))))))
    replace fact_id reason' fact

  unfoldable pub end_fact : String → Json → Json → Option String → Exec Store Fields
  unfolding correct_validity
  end_fact fact_id valid_to reason source =
      correct_validity fact_id none (some valid_to) reason source

  unfoldable pub retract : String → Json → Exec Store (Unit {0})
  unfolding closing
  retract fact_id reason = do
    lift (require p "retract")
    old ← look (open_belief p fact_id)
    lift (guard_owner p (get_or "owner" (str p.agent) old))
    reason' ← lift (optional_text e reason (some e.limits.max_str))
    commit e.host p c.now ((Op.fact_retracted, closing fact_id c.now "retracted" reason' end) ∷ [])

  -- Both facts must be readable, or they are reported as missing.
  unfoldable pub contradict : String → String → Json → Exec Store (Unit {0})
  contradict fact_id by note = do
    lift (require p "contradict")
    a ← look (ref_in_scope p fact_id)
    b ← look (ref_in_scope p by)
    may ← look (λ os. can_read e.host p os a)
    raise_if (not may) not_found
    may' ← look (λ os. can_read e.host p os b)
    raise_if (not may') not_found
    raise_if (fact_id == by) validation
    note' ← lift (optional_text e note (some e.limits.max_str))
    commit e.host p c.now (
        (
          Op.contradiction_recorded,
          field "fact_id" (str fact_id) (field "other_id" (str by) (field "note" note' end)),
        )
        ∷ [])

  -- The double of a value, or the error that `float` raises on it.
  abbrev float_of : Json → epistemos.Result.Error → Result ℕ
  float_of v x = elim (e.host.to_float v) [ none ↦ err x | some f ↦ ok f ]

  -- max(0.0, min(1.0, confidence + delta))
  unfoldable pub raised : ℕ → ℕ → ℕ
  raised confidence delta =
      let sum = e.host.add_float confidence delta in
      let capped = if float_lt sum one then sum else one in if float_lt 0 capped then capped else 0

  found : Option Fields → Result Fields
  found none = err type_error
  found (some o) = construct e.host Class.fact o

  unfoldable pub confirm : String → String → Json → Exec Store Fields
  unfolding found raised
  confirm fact_id source delta_confidence = do
    lift (require p "confirm")
    fact ← look (ref_in_scope p fact_id)
    raise_if (not (is_str (get "kind" fact) "fact")) validation
    may ← look (λ os. can_read e.host p os fact)
    raise_if (not may) not_found
    look (ref_in_scope p source)
    delta ← lift (float_of delta_confidence validation)
    raise_if (not (is_finite delta)) validation
    raise_if (float_lt delta 0) validation
    confidence ← lift (float_of (get_or "confidence" (float one) fact) type_error)
    commit e.host p c.now (
        (
          Op.fact_confirmed,
          field "fact_id" (str fact_id) (
              field "source" (str source)
                (field "confidence" (float (raised confidence delta)) end)),
        )
        ∷ [])
    look (λ os. found (get_object fact_id os))
