-- ===== src/Provenance/Parity.antt =====
-- provenance/__init__.py and index/provenance.py: the activities that a rebuilt index gives.
use epistemos.Common.{
  ℕ, ◌+◌, ◌≤◌, ◌<◌, ◌≡◌, refl, sym, ap, ◌∙◌, inl, inr, String, Bool, true, false, Option, none,
  some, List, [], ◌∷◌, ◌&&◌, ◌||◌, arith, nat_eq, any, filter, contains, map, Bool-cases,
  Option-cases, and-true,
}
use epistemos.Result.{ok}
use epistemos.Json.{obj}
use epistemos.Host.{Host}
use epistemos.Ledger.{LedgerRecord, genesis_hash, verify_chain}
use epistemos.Ledger.Chain.{Chain, verify_chain_iff}
use epistemos.Storage.{Store, read_events, records_by_seq}
use epistemos.Storage.Reading.{read_all}
use epistemos.Provenance.Refs.{refs_id, matches_shape, id_leaves}
use epistemos.Provenance.Leaves.{contains-id_leaves}
use epistemos.Provenance.Index.{
  Table, IndexHealth, is_healthy, is_unavailable, has_seq, Index, usable_for, seqs_for,
  insert_leaves, insert_records, refill, counted, rebuild,
}
use epistemos.Provenance.Views.{activity_view, of_scope}
use epistemos.Provenance.Explain.{scan_activities, keyed_activities, activities_for}

-- Some record at the place n mentions the id.
abbrev mentioned : String → ℕ → List LedgerRecord → Bool
mentioned i n rs = any (λ r. nat_eq r.seq n && refs_id (obj r.payload) i) rs

-- Below the first place of a chain there is no record.
not-mentioned :
    (h : Host) (i : String) (rs : List LedgerRecord) (prev last : String) (n m : ℕ)
    → m < n
    → Chain h prev n rs last
    → mentioned i m rs ≡ false
not-mentioned h i [] prev last n m below c = refl
not-mentioned h i (r ∷ rs) prev last n m below c =
    let rest = not-mentioned h i rs r.entry_hash last (n + 1) m (omega arith) c.1 in
    let apart : nat_eq r.seq m ≡ false = ground (arith, c.0.at_seq) in rw (apart, rest) refl

-- In a chain, the record at a place is the only one there: two tests that tell the same of each
-- place keep the same records.
filter-mentioned :
    (h : Host) (i : String) (p : LedgerRecord → Bool) (seqs : List ℕ) (rs : List LedgerRecord)
    (prev last : String) (n : ℕ)
    → Chain h prev n rs last
    → ((m : ℕ) → n ≤ m → has_seq m seqs ≡ mentioned i m rs)
    → filter p (filter (λ r. has_seq r.seq seqs) rs)
      ≡ filter (λ r. p r && refs_id (obj r.payload) i) rs
filter-mentioned h i p seqs [] prev last n c same = refl
filter-mentioned h i p seqs (r ∷ rs) prev last n c same =
    let none_more = not-mentioned h i rs r.entry_hash last (n + 1) n (omega arith) c.1 in
    let first : has_seq r.seq seqs ≡ refs_id (obj r.payload) i =
      rw c.0.at_seq (same n (omega arith) ∙ (rw (none_more, c.0.at_seq) (ground arith))) in
    let rest = filter-mentioned h i p seqs rs r.entry_hash last (n + 1) c.1 (λ m above.
      same m (omega arith)
      ∙ (let apart : nat_eq r.seq m ≡ false = ground (arith, c.0.at_seq) in rw apart refl)) in
    elim (Bool-cases (refs_id (obj r.payload) i)) [
      | inl on ↦ elim (Bool-cases (p r)) [
        | inl kept ↦ rw (first, on, kept, rest) refl
        | inr left ↦ rw (first, on, left, rest) refl
      ]
      | inr off ↦ rw (first, off, rest) (ground arith)
    ]

not-healthy : (x : IndexHealth) → is_unavailable x ≡ true → is_healthy x ≡ true → ⊥
not-healthy IndexHealth.unavailable off on = cc on
not-healthy IndexHealth.healthy off on = cc off
not-healthy IndexHealth.degraded off on = cc off
not-healthy IndexHealth.rebuilding off on = cc off

module _ (t : Table) where
  -- A healthy index holds, of the ids that it can answer for, what a scan would find.
  pub IsTrusted : List LedgerRecord → Index t → Type 0
  IsTrusted ledger ix =
      is_healthy ix.state ≡ true
      → (i : String) (m : ℕ) → matches_shape i ≡ true
      → t.holds ix.rows i m ≡ mentioned i m ledger

  module _ (i : String) (shape : matches_shape i ≡ true) where
    holds-insert_leaves :
        (seq : ℕ) (ids : List String) (rows rows' : t.Rows)
        → insert_leaves t seq ids rows ≡ some rows'
        → (m : ℕ) → t.holds rows' i m ≡ t.holds rows i m || (nat_eq seq m && contains i ids)
    unfolding insert_leaves
    holds-insert_leaves seq [] rows rows' e m =
        let same : rows ≡ rows' = cc e in rw (sym same) (ground arith)
    holds-insert_leaves seq (id ∷ ids) rows rows' e m =
        t.holds-insert (id ∷ ids) seq rows rows' e i m

    holds-insert_records :
        (rs : List LedgerRecord) (rows rows' : t.Rows)
        → insert_records t rs rows ≡ some rows'
        → (m : ℕ) → t.holds rows' i m ≡ t.holds rows i m || mentioned i m rs
    unfolding insert_records
    holds-insert_records [] rows rows' e m =
        let same : rows ≡ rows' = cc e in rw (sym same) (ground arith)
    holds-insert_records (r ∷ rs) rows rows' e m =
        elim (Option-cases (insert_leaves t r.seq (id_leaves (obj r.payload) []) rows)) [
          | inl failed ↦ cc (rw (insert_records, failed) at e)
          | inr (more, done) ↦
              holds-insert_records rs more rows' (rw (insert_records, done) at e) m
              ∙ ap (λ b. b || mentioned i m rs)
                  (holds-insert_leaves r.seq (id_leaves (obj r.payload) []) rows more done m
                    ∙ ap (λ b. t.holds rows i m || (nat_eq r.seq m && b))
                        (contains-id_leaves i (obj r.payload) []
                          ∙ ap (λ b. b && refs_id (obj r.payload) i) shape))
              ∙ ground arith
        ]

    holds-refill :
        (ledger : List LedgerRecord) (rows rows' : t.Rows)
        → refill t ledger rows ≡ some rows'
        → (m : ℕ) → t.holds rows' i m ≡ mentioned i m ledger
    unfolding refill
    holds-refill ledger rows rows' e m = elim (Option-cases (t.delete rows)) [
      | inl failed ↦ cc (rw (refill, failed) at e)
      | inr (empty, done) ↦
          holds-insert_records ledger empty rows' (rw (refill, done) at e) m
          ∙ ap (λ b. b || mentioned i m ledger) (t.holds-delete rows empty done i m)
    ]

  counted-IsTrusted :
      (ledger : List LedgerRecord) (ix : Index t) (n : Option ℕ)
      → IsTrusted ledger ix
      → IsTrusted ledger (counted t ix n).1
  unfolding counted IsTrusted
  counted-IsTrusted ledger ix none trusted = λ healthy. cc healthy
  counted-IsTrusted ledger ix (some n) trusted = trusted

  answered :
      (ix : Index t) (i : String) (seqs : List ℕ)
      → usable_for t ix i ≡ true
      → seqs_for t ix i ≡ some seqs
      → (is_healthy ix.state ≡ true) × (matches_shape i ≡ true) × (t.select i ix.rows ≡ some seqs)
  unfolding usable_for seqs_for
  answered ix i seqs on found =
      let (healthy, shape) = and-true (is_healthy ix.state) (matches_shape i) on in
      (healthy, shape, rw (seqs_for, on) at found)

  -- However a rebuild ends, the index that it leaves is exact or not healthy.
  pub rebuild-IsTrusted :
      (ledger : List LedgerRecord) (ix : Index t) → IsTrusted ledger (rebuild t ledger ix).1
  unfolding rebuild
  rebuild-IsTrusted ledger ix = elim (Bool-cases (is_unavailable ix.state)) [
    | inl off ↦ rw off (unavailable-IsTrusted off)
    | inr on ↦ elim (Option-cases (refill t ledger ix.rows)) [
      | inl failed ↦ rw (on, failed) (unfold IsTrusted in (λ healthy. cc healthy))
      | inr (rows, done) ↦
          rw (on, done)
            (counted-IsTrusted ledger (record { rows = rows; state = IndexHealth.healthy })
              (t.count rows)
              (unfold IsTrusted in
                (λ healthy i m shape. holds-refill i shape ledger ix.rows rows done m)))
    ]
  ]
    where
      unavailable-IsTrusted : is_unavailable ix.state ≡ true → IsTrusted ledger ix
      unavailable-IsTrusted off =
          unfold IsTrusted in (λ healthy. absurd (not-healthy ix.state off healthy))

  module _ (h : Host) (s : Store) (tenant namespace i : String) where
    keyed-scan :
        (last : String) (seqs : List ℕ)
        → Chain h genesis_hash 1 s.ledger last
        → ((m : ℕ) → has_seq m seqs ≡ mentioned i m s.ledger)
        → keyed_activities t s tenant namespace seqs ≡ scan_activities t s tenant namespace i
    unfolding keyed_activities scan_activities records_by_seq read_events
    keyed-scan last seqs chain same =
        rw (read_all h s.ledger genesis_hash last 1 (omega arith) chain) (
          ap (map activity_view) (
            filter-mentioned h i (of_scope tenant namespace) seqs s.ledger genesis_hash last 1 chain
              (λ m above. same m)))

    activities_for-scan :
        (last : String) (ix : Index t)
        → Chain h genesis_hash 1 s.ledger last
        → IsTrusted s.ledger ix
        → (activities_for t s tenant namespace i (some ix)).0
          ≡ (activities_for t s tenant namespace i none).0
    unfolding activities_for IsTrusted
    activities_for-scan last ix chain trusted = elim (Bool-cases (usable_for t ix i)) [
      | inr off ↦ rw (activities_for, off) refl
      | inl on ↦ elim (Option-cases (seqs_for t ix i)) [
        | inl failed ↦ rw (activities_for, on, failed) refl
        | inr (seqs, found) ↦
            rw (activities_for, on, found) (keyed-scan last seqs chain (exact on found))
      ]
    ]
      where
        exact :
            usable_for t ix i ≡ true
            → {seqs : List ℕ} → seqs_for t ix i ≡ some seqs
            → (m : ℕ) → has_seq m seqs ≡ mentioned i m s.ledger
        exact on {seqs} found m =
            let (healthy, shape, selected) = answered ix i seqs on found in
            t.has_seq-select i ix.rows seqs selected m ∙ trusted healthy i m shape

    -- After a rebuild of the provenance index over a ledger that passes the check, however the
    -- rebuild ends, the activities of an id that are found with the index are those that the scan of
    -- the whole ledger finds, in the same order.
    pub activities_for-rebuild :
        (ix : Index t) (n : ℕ)
        → verify_chain h s.ledger none none ≡ ok n
        → (activities_for t s tenant namespace i (some (rebuild t s.ledger ix).1)).0
          ≡ (activities_for t s tenant namespace i none).0
    activities_for-rebuild ix n verified =
        let (last, chain, _, _, _) = (verify_chain_iff h s.ledger none none n).0 verified in
        activities_for-scan last (rebuild t s.ledger ix).1 chain (rebuild-IsTrusted s.ledger ix)
