-- ===== src/Engine/Look.antt =====
-- core/__init__.py: one object by its id, the evidence of a claim, and the checks of the ledger that
-- health reports. Metadata and links that are no dicts are a TypeError here, where Python raises
-- AttributeError.
pub mod Hidden
pub mod Evident
use epistemos.Common.{
  ℕ, String, Bool, true, false, not, Option, none, some, List, [], ◌∷◌, ◌==◌, ◌&&◌, filter, length,
  if◌then◌else◌,
}
use epistemos.Result.{Result, ok, err, integrity, ◌>>=◌}
use epistemos.Json.{Json, str, arr, obj, nil, Fields, end, field, iterate, as_dict}
use epistemos.Json.Dict.{get_or, item}
use epistemos.Host.{Host}
use epistemos.Identity.{Principal, require}
use epistemos.Ledger.{LedgerRecord, verify_chain}
use epistemos.Model.{Class, class_of, construct}
use epistemos.Storage.{Store, Objects, get_object, in_scope, read_events, event_count, head}
use epistemos.Engine.Read.{get_object_at, can_read, ref_readable}

abbrev class_at : Json → Option Class
class_at (str k) = class_of k
class_at _ = none

-- cls.from_dict(obj) if cls else obj
unfoldable pub typed : Host → Fields → Result Fields
typed h o = elim (class_at (get_or "kind" (str "") o)) [ none ↦ ok o | some c ↦ construct h c o ]

module _ (h : Host) (p : Principal) where
  -- An object of the principal's scope that the firewall lets through.
  unfoldable pub shown : Objects → Fields → Result (Option Fields)
  shown os o = if not (in_scope p.tenant p.namespace o) then ok none else (do
    may ← can_read h p os o
    if not may then ok none else (do d ← typed h o; ok (some d)))

  -- Engine.get
  unfoldable pub get : String → Objects → Result (Option Fields)
  get obj_id os = do
    _ ← require p "read"
    elim (get_object obj_id os) [ none ↦ ok none | some o ↦ shown os o ]

  -- What is said of the evidence of one link.
  unfoldable pub entry_of : Fields → Fields → Result Fields
  entry_of link ev = do
    id ← item "id" ev
    ok (
        field "evidence" id (
          field "relation" (epistemos.Json.Dict.get "relation" link) (
            field "evidence_kind" (epistemos.Json.Dict.get "evidence_kind" ev) (
              field "uri" (epistemos.Json.Dict.get "uri" ev)
                (field "title" (epistemos.Json.Dict.get "title" ev) end)))))

  unfoldable pub one_link : Objects → Fields → Result (Option Fields)
  unfolding entry_of
  one_link os link = elim (get_object_at (epistemos.Json.Dict.get "evidence" link) os) [
    | none ↦ ok none
    | some ev ↦ do
      may ← can_read h p os ev
      if may then (do e ← entry_of link ev; ok (some e)) else ok none
  ]

  unfoldable pub evidence_entries : Objects → List Json → Result (List Fields)
  unfolding one_link
  evidence_entries os [] = ok []
  evidence_entries os (j ∷ links) = do
    link ← as_dict j
    entry ← one_link os link
    out ← evidence_entries os links
    ok (elim entry [ none ↦ out | some e ↦ e ∷ out ])

  unfoldable pub claim_evidence : String → Objects → Result (List Fields)
  claim_evidence claim_id os = do
    _ ← require p "claim.read"
    claim ← ref_readable h p claim_id os
    meta ← as_dict (get_or "metadata" (obj end) claim)
    links ← iterate (get_or "evidence_links" (arr nil) meta)
    evidence_entries os links

-- `verify_integrity`
unfoldable pub verify_integrity : Host → Option ℕ → Option String → Store → Result ℕ
verify_integrity h expected_count expected_head s =
    verify_chain h (read_events 0 s) expected_count expected_head

-- The events that health counts for a principal, and the head that it shows.
unfoldable pub scope_events : Principal → Store → ℕ
scope_events p s =
    length (filter (λ r. r.tenant == p.tenant && r.namespace == p.namespace) (read_events 0 s))

pub record Health : Type 0 where
  pub event_count : ℕ
  pub head_hash : Option String
  pub integrity_verified : Bool
  pub integrity_ok : Option Bool

abbrev head_hash_of : Option LedgerRecord → Option String
head_hash_of none = none
head_hash_of (some r) = some r.entry_hash

abbrev checked : Bool → Result ℕ → Option Bool
checked false r = none
checked true (ok n) = some true
checked true (err x) = some false

-- The part of `health` on the ledger; the check of a chain raises nothing but an integrity error.
unfoldable pub health : Host → Option Principal → Bool → Store → Health
health h none verify s = record {
  event_count = epistemos.Storage.event_count s;
  head_hash = head_hash_of (head s.ledger);
  integrity_verified = verify;
  integrity_ok = checked verify (verify_integrity h none none s);
}
health h (some p) verify s = record {
  event_count = scope_events p s;
  head_hash = none;
  integrity_verified = verify;
  integrity_ok = checked verify (verify_integrity h none none s);
}
