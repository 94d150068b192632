-- ===== src/Provenance/Index.antt =====
-- index/provenance.py and index/__init__.py: the index from an id to the places of the records that
-- mention it. The statements that SQLite runs on the table prov_ref are a parameter.
use epistemos.Common.{
  ℕ, String, Bool, true, false, not, Option, none, some, List, [], ◌∷◌, ◌≡◌, ◌==◌, ◌&&◌, ◌||◌,
  nat_eq, contains, any, all, filter, length, if◌then◌else◌,
}
use epistemos.Json.{obj, Fields}
use epistemos.Ledger.{LedgerRecord}
use epistemos.Provenance.Refs.{id_leaves, matches_shape}

pub data IndexHealth : Type 0 where
  healthy degraded rebuilding unavailable : IndexHealth

abbrev pub is_healthy : IndexHealth → Bool
is_healthy IndexHealth.healthy = true
is_healthy _ = false

abbrev pub is_unavailable : IndexHealth → Bool
is_unavailable IndexHealth.unavailable = true
is_unavailable _ = false

-- n in ns
abbrev pub has_seq : ℕ → List ℕ → Bool
has_seq n ns = any (λ m. nat_eq m n) ns

-- The table, with the statements of the module; none is sqlite3.Error. `holds` says which rows there
-- are: the laws are what SQL says of each statement that succeeds.
pub record Table : Type 1 where
  pub Rows : Type 0
  pub holds : Rows → String → ℕ → Bool
  -- DELETE FROM prov_ref WHERE seq = ?
  pub delete_seq : ℕ → Rows → Option Rows
  -- INSERT OR REPLACE INTO prov_ref(obj_id, seq) VALUES (?,?), for each id
  pub insert : List String → ℕ → Rows → Option Rows
  -- DELETE FROM prov_ref
  pub delete : Rows → Option Rows
  -- SELECT seq FROM prov_ref WHERE obj_id = ? ORDER BY seq
  pub select : String → Rows → Option (List ℕ)
  -- SELECT COUNT(DISTINCT seq) FROM prov_ref
  pub count : Rows → Option ℕ
  -- SELECT obj_id, seq FROM prov_ref
  pub pairs : Rows → Option (List (String × ℕ))
  pub holds-delete_seq :
      (n : ℕ) (r r' : Rows)
      → delete_seq n r ≡ some r'
      → (i : String) (m : ℕ) → holds r' i m ≡ (if nat_eq m n then false else holds r i m)
  pub holds-insert :
      (ids : List String) (n : ℕ) (r r' : Rows)
      → insert ids n r ≡ some r'
      → (i : String) (m : ℕ) → holds r' i m ≡ holds r i m || (nat_eq n m && contains i ids)
  pub holds-delete :
      (r r' : Rows) → delete r ≡ some r' → (i : String) (m : ℕ) → holds r' i m ≡ false
  pub has_seq-select :
      (i : String) (r : Rows) (ns : List ℕ)
      → select i r ≡ some ns
      → (m : ℕ) → has_seq m ns ≡ holds r i m

module _ (t : Table) where
  pub record Index : Type 0 where
    pub rows : t.Rows
    pub state : IndexHealth

  -- `record`: the statements before the one that fails stay.
  insert_refs : ℕ → List String → Index → Index
  insert_refs seq [] ix = ix
  insert_refs seq (id ∷ ids) ix = elim (t.insert (id ∷ ids) seq ix.rows) [
    | none ↦ record ix { state = IndexHealth.degraded }
    | some rows ↦ record ix { rows = rows }
  ]

  unfoldable pub record_event : ℕ → Fields → Index → Index
  unfolding insert_refs
  record_event seq payload ix =
      if is_unavailable ix.state then ix else elim (t.delete_seq seq ix.rows) [
        | none ↦ record ix { state = IndexHealth.degraded }
        | some rows ↦ insert_refs seq (id_leaves (obj payload) []) (record ix { rows = rows })
      ]

  unfoldable pub usable_for : Index → String → Bool
  usable_for ix obj_id = is_healthy ix.state && matches_shape obj_id

  -- none is any exception
  unfoldable pub seqs_for : Index → String → Option (List ℕ)
  unfolding usable_for
  seqs_for ix obj_id = if not (usable_for ix obj_id) then none else t.select obj_id ix.rows

  unfoldable pub mark_degraded : Index → Index
  mark_degraded ix =
      if is_unavailable ix.state then ix else record ix { state = IndexHealth.degraded }

  unfoldable pub restore_healthy : Index → Index
  restore_healthy ix =
      if is_unavailable ix.state then ix else record ix { state = IndexHealth.healthy }

  -- `clear`; none is sqlite3.Error
  unfoldable pub clear : Index → Option Index
  clear ix =
      if is_unavailable ix.state
      then some ix
      else elim (t.delete ix.rows) [ none ↦ none | some rows ↦ some (record ix { rows = rows }) ]

  unfoldable pub count : Index → Option ℕ
  count ix = if is_unavailable ix.state then some 0 else t.count ix.rows

  unfoldable pub insert_leaves : ℕ → List String → t.Rows → Option t.Rows
  insert_leaves seq [] rows = some rows
  insert_leaves seq (id ∷ ids) rows = t.insert (id ∷ ids) seq rows

  -- The loop of `rebuild`.
  unfoldable pub insert_records : List LedgerRecord → t.Rows → Option t.Rows
  unfolding insert_leaves
  insert_records [] rows = some rows
  insert_records (r ∷ records) rows =
      elim (insert_leaves r.seq (id_leaves (obj r.payload) []) rows) [
        | none ↦ none
        | some more ↦ insert_records records more
      ]

  -- The block of `rebuild` that the store rolls back if it raises.
  unfoldable pub refill : List LedgerRecord → t.Rows → Option t.Rows
  refill ledger rows = elim (t.delete rows) [
    | none ↦ none
    | some none_left ↦ insert_records ledger none_left
  ]

  unfoldable pub counted : Index → Option ℕ → Option ℕ × Index
  counted ix none = (none, record ix { state = IndexHealth.degraded })
  counted ix (some n) = (some n, ix)

  -- The first part is none where sqlite3.Error is raised.
  unfoldable pub rebuild : List LedgerRecord → Index → Option ℕ × Index
  unfolding counted
  rebuild ledger ix =
      if is_unavailable ix.state then (some 0, ix) else elim (refill ledger ix.rows) [
        | none ↦ (none, record ix { state = IndexHealth.degraded })
        | some rows ↦ counted (record { rows = rows; state = IndexHealth.healthy }) (t.count rows)
      ]

  -- How many records mention an id, and `ensure_built`.
  abbrev mentions : LedgerRecord → Bool
  mentions r = elim (id_leaves (obj r.payload) []) [ [] ↦ false | id ∷ ids ↦ true ]

  unfoldable pub expected_seq_count : List LedgerRecord → ℕ
  expected_seq_count ledger = length (filter mentions ledger)

  -- The first part is none where sqlite3.Error is raised, and else whether it was rebuilt.
  unfoldable pub ensure_built : List LedgerRecord → Index → Option Bool × Index
  ensure_built ledger ix = if is_unavailable ix.state then (some false, ix) else elim (count ix) [
    | none ↦ (none, ix)
    | some n ↦
        if nat_eq (expected_seq_count ledger) n
        then (some false, ix)
        else (let (done, built) = rebuild ledger ix in
            (elim done [ none ↦ none | some m ↦ some true ], built))
  ]

  abbrev pair_of : ℕ → List String → List (String × ℕ)
  pair_of seq [] = []
  pair_of seq (id ∷ ids) = (id, seq) ∷ pair_of seq ids

  abbrev expected_pairs : List LedgerRecord → List (String × ℕ)
  expected_pairs [] = []
  expected_pairs (r ∷ records) =
      epistemos.Common.◌++◌ (pair_of r.seq (id_leaves (obj r.payload) [])) (expected_pairs records)

  abbrev within : List (String × ℕ) → List (String × ℕ) → Bool
  within xs ys = all (λ x. any (λ y. y.0 == x.0 && nat_eq y.1 x.1) ys) xs

  checked : Bool → Index → Option Bool × Index
  checked ok ix = (
    some ok,
    if not ok && is_healthy ix.state then record ix { state = IndexHealth.degraded } else ix,
  )

  -- The first part is none where sqlite3.Error is raised.
  unfoldable pub verify : List LedgerRecord → Index → Option Bool × Index
  unfolding checked
  verify ledger ix = if is_unavailable ix.state then (some false, ix) else elim (t.pairs ix.rows) [
    | none ↦ (none, ix)
    | some indexed ↦
        checked (within indexed (expected_pairs ledger) && within (expected_pairs ledger) indexed)
          ix
  ]
