-- ===== src/Engine/Transfer/Import/Handled.antt =====
-- core/__init__.py: the store after an import, whether it returns or raises.
use epistemos.Common.{
  ℕ, ◌≡◌, refl, Bool, true, false, not, ◌&&◌, List, [], ◌∷◌, arith, length, nat_eq, String, none,
  nat_eq_iff,
}
use epistemos.Result.{Error, Result, ok, err, schema, integrity, conflict, Result-cases}
use epistemos.Exec.{Exec, continue, gets, raise_if, ◌>>◌}
use epistemos.Json.{Json, Fields, iterate, negative}
use epistemos.Json.Dict.{get_or}
use epistemos.Host.{Host, int_of}
use epistemos.Ledger.{LedgerRecord, genesis_hash, verify_chain}
use epistemos.Ledger.Chain.{Chain, verify_chain_iff}
use epistemos.Schema.{migrate_export}
use epistemos.Storage.{Store, atomic, event_count}
use epistemos.Engine.Consistent.{Sound, Consistent, Grown, Grown-refl}
use epistemos.Engine.Commit.{Restored, entered, atomic-Consistent, atomic-Restored}
use epistemos.Engine.Transfer.Records.{
  records_of, carries_chain, events_of, verify_if, verify_received, recognised,
}
use epistemos.Engine.Transfer.Import.{
  keep_records, reseal_each, reseal_all, reseal_import, import_verbatim, import_migrated,
  import_events, by_version, is_supported,
}
use epistemos.Engine.Transfer.Import.Laws.{
  reseal_each-Grown, reseal_each-Sound, keep_records-Grown, keep_records-Sound, continue-returned,
}

empty_of : (rs : List LedgerRecord) → length rs ≡ 0 → rs ≡ []
empty_of [] e = refl
empty_of (r ∷ rs) e = absurd (omega arith)

not-false : (b : Bool) → not b ≡ false → b ≡ true
not-false true e = refl
not-false false e = cc

passed_count :
    (r : Result ℕ)
    → epistemos.Result.◌>>=◌ {B = Unit {0}} r (λ _. ok tt) ≡ ok tt
    → (n : ℕ) × (r ≡ ok n)
passed_count (ok n) e = (n, refl)
passed_count (err x) e = cc

module _ (h : Host) where
  -- An outcome of an import into the store: consistent if the import verifies what it reads, and
  -- restored if it raises.
  pub record Handled {A : Type 0} (verify : Bool) (s : Store) (o : Result A × Store) : Type 0 where
    pub keeps : verify ≡ true → Consistent h s → Consistent h o.1
    pub undone : (x : Error) → o.0 ≡ err x → s.depth ≡ 0 → Restored s o.1

  module _ (verify : Bool) (s : Store) where
    refused : {A : Type 0} (x : Error) → Handled {A = A} verify s (err x, s)
    refused x = record {
      keeps = λ v c. c;
      undone = λ y e idle. record { idle = idle; ledger = refl; objects = refl };
    }

    continue-Handled :
        {A B : Type 0} (r : Result A) (f : A → Exec Store B)
        → ((a : A) → r ≡ ok a → Handled verify s (f a s))
        → Handled verify s (continue r f s)
    continue-Handled (ok a) f go = go a refl
    continue-Handled (err x) f go = refused x

    raise_if-Handled :
        {B : Type 0} (b : Bool) (x : Error) (k : Exec Store B)
        → (b ≡ false → Handled verify s (k s))
        → Handled verify s ((raise_if b x >> k) s)
    raise_if-Handled true x k go = refused x
    raise_if-Handled false x k go = go refl

    finished :
        (f : Store → ℕ) (r : Result (Unit {0})) (t : Store)
        → (verify ≡ true → Consistent h s → Consistent h t)
        → ((x : Error) → r ≡ err x → s.depth ≡ 0 → Restored s t)
        → Handled verify s (continue r (λ _. gets f) t)
    finished f (ok a) t keeps undone = record { keeps = keeps; undone = λ x e idle. cc }
    finished f (err y) t keeps undone = record {
      keeps = keeps;
      undone = λ x e idle. undone y refl idle;
    }

    atomic-Handled :
        (body : Exec Store (Unit {0})) (f : Store → ℕ)
        → Grown (entered s) (body (entered s)).1
        → (verify ≡ true
            → Sound h (entered s)
            → (body (entered s)).0 ≡ ok tt
            → Sound h (body (entered s)).1)
        → Handled verify s ((atomic body >> gets f) s)
    atomic-Handled body f grown sound =
        let (r, t) = atomic body s in
        finished f r t
          (λ v c.
            atomic-Consistent h s body c grown
              (sound v (record { chained = c.sound.chained; projected = c.sound.projected })))
          (λ x e idle. atomic-Restored s idle body grown e)

    reseal_all-Grown : (events : Json) (t : Store) → Grown t (reseal_all h events t).1
    unfolding reseal_all
    reseal_all-Grown events t = by_items (iterate events)
      where
        by_items : (r : Result (List Json)) → Grown t (continue r (reseal_each h) t).1
        by_items (ok js) = reseal_each-Grown h js t
        by_items (err x) = Grown-refl t

    reseal_import-Handled : (events : Json) → Handled verify s (reseal_import h events s)
    unfolding reseal_import reseal_all
    reseal_import-Handled events =
        atomic-Handled (reseal_all h events) event_count (reseal_all-Grown events (entered s))
          (λ v sound e.
            continue-returned h (Sound h) (iterate events) (reseal_each h) (entered s) e
              (λ js at ran. reseal_each-Sound h js (entered s) ran sound))

    import_migrated-Handled :
        (payload : Fields) (migrate : Bool)
        → Handled verify s (import_migrated h payload verify migrate s)
    unfolding import_migrated
    import_migrated-Handled payload migrate = raise_if-Handled (not migrate) schema _ λ _.
        continue-Handled (verify_received h verify payload) _ λ _ _.
          continue-Handled (migrate_export h payload) _
            λ upgraded _. reseal_import-Handled (events_of upgraded)

    verified :
        (rs : List LedgerRecord)
        → verify ≡ true
        → verify_if h verify rs ≡ ok tt
        → (last : String) × Chain h genesis_hash 1 rs last
    verified rs v passed =
        let (n, e) = passed_count (verify_chain h rs none none) (rw v at passed) in
        let found = (verify_chain_iff h rs none none n).0 e in (found.0, found.1)

    import_verbatim-Handled :
        (payload : Fields) → s.ledger ≡ [] → Handled verify s (import_verbatim h payload verify s)
    unfolding import_verbatim
    import_verbatim-Handled payload empty = continue-Handled (iterate (events_of payload)) _ λ js _.
        continue-Handled (records_of h js) _ λ rs _.
          continue-Handled (verify_if h verify rs) _ λ _ passed.
            atomic-Handled (keep_records h rs) (λ _. length rs)
              (keep_records-Grown h rs (entered s))
              (λ v sound ran.
                let (last, chain) = verified rs v passed in
                keep_records-Sound h rs last (entered s) empty chain ran)

    by_version-Handled :
        (current : Bool) (payload : Fields) (migrate : Bool)
        → s.ledger ≡ []
        → Handled verify s (by_version h current payload verify migrate s)
    by_version-Handled true payload migrate empty = import_verbatim-Handled payload empty
    by_version-Handled false payload migrate empty = import_migrated-Handled payload migrate

    pub import_events-Handled :
        (j : Json) (migrate : Bool) → Handled verify s (import_events h j verify migrate s)
    unfolding import_events event_count
    import_events-Handled j migrate = continue-Handled (recognised j) _ λ payload _.
        raise_if-Handled (not (nat_eq (length s.ledger) 0)) conflict _ λ fresh.
          raise_if-Handled (verify && not (carries_chain (events_of payload))) integrity _ λ _.
            continue-Handled (int_of h (get_or "schema_version" (negative 0) payload)) _
              λ version _. by_version-Handled (is_supported version) payload migrate (
                empty_of s.ledger (
                  (nat_eq_iff (length s.ledger) 0).0
                    (not-false (nat_eq (length s.ledger) 0) fresh)))

  -- A verified import keeps the store consistent, whether it returns or raises.
  pub import_events-Consistent :
      (j : Json) (migrate : Bool) (s : Store)
      → Consistent h s
      → Consistent h (import_events h j true migrate s).1
  import_events-Consistent j migrate s c = (import_events-Handled true s j migrate).keeps refl c

  -- An import outside any transaction that raises, verified or not, leaves the store with no
  -- transaction open and with the ledger and the objects that it had.
  pub import_events-Restored :
      (j : Json) (verify migrate : Bool) (s : Store) (x : Error)
      → s.depth ≡ 0
      → (import_events h j verify migrate s).0 ≡ err x
      → Restored s (import_events h j verify migrate s).1
  import_events-Restored j verify migrate s x idle e =
      (import_events-Handled verify s j migrate).undone x e idle
