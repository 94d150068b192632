-- ===== src/Ledger/Tamper.antt =====
-- ledger/__init__.py: what the head's hash says of the records before it. Nothing is assumed of the
-- hash or of the JSON text: where two histories share a head and differ, the proof gives two texts
-- with one digest, or two records with one header text.
use epistemos.Common.{String, ◌≡◌, ◌≢◌, ◌⊎◌, List, [], ◌∷◌}
use epistemos.Json.{obj, Fields}
use epistemos.Host.{Host}
use epistemos.Ledger.{LedgerRecord, header, content, content_hash}
use epistemos.Ledger.Chain.{Chain}

module _ (h : Host) where
  -- Two texts with one digest.
  abbrev pub Collision : Type 0
  Collision = (s : String) × (t : String) × (s ≢ t) × (h.sha256_hex s ≡ h.sha256_hex t)

  abbrev pub SameText : Fields → Fields → Type 0
  SameText d e = h.canonical_json (obj d) ≡ h.canonical_json (obj e)

  -- Two records with one header text whose links or content hashes differ.
  abbrev pub Ambiguous : Type 0
  Ambiguous =
      (r : LedgerRecord) × (s : LedgerRecord) × SameText (header r) (header s)
      × ((r.prev_hash ≢ s.prev_hash) ⊎ (r.content_hash ≢ s.content_hash))

  -- The records agree in the canonical text of their headers and of their contents, and in every
  -- hash.
  pub record Agree (r s : LedgerRecord) : Type 0 where
    pub same_header : SameText (header r) (header s)
    pub same_content : SameText (content r.op r.payload) (content s.op s.payload)
    pub same_entry : r.entry_hash ≡ s.entry_hash

  abbrev pub AllAgree : List LedgerRecord → List LedgerRecord → Type 0
  AllAgree [] [] = Unit
  AllAgree (r ∷ rs) (s ∷ ss) = Agree r s × AllAgree rs ss
  AllAgree _ _ = ⊥

  abbrev pub Broken : Type 0
  Broken = Collision ⊎ Ambiguous
