-- ===== src/Engine/Transfer/Export/Whole.antt =====
-- core/__init__.py: the import of a whole export.
use epistemos.Common.{
  ◌≡◌, refl, ap, ◌∙◌, String, Bool, true, none, List, [], ◌∷◌, All, arith, length,
}
use epistemos.Result.{Result, ok, err}
use epistemos.Json.{obj, iterate}
use epistemos.Json.Dict.{find}
use epistemos.Host.{Host, int_of}
use epistemos.Ledger.{Op, LedgerRecord, genesis_hash}
use epistemos.Ledger.Chain.{verify_chain_iff}
use epistemos.Storage.{Store, Objects, empty_store, read_events, event_count, atomic}
use epistemos.Storage.Reading.{read_all}
use epistemos.Engine.Apply.{apply, apply_all}
use epistemos.Engine.Consistent.{Consistent, went_on}
use epistemos.Engine.Commit.{atomic-settle, entered}
use epistemos.Engine.Transfer.Records.{dicts_of, recognised, verify_if}
use epistemos.Engine.Transfer.Records.RoundTrip.{
  IsKnown, records_of-dicts_of, to_list-of_list, dicts_of_chained,
}
use epistemos.Engine.Transfer.Import.{import_events, import_verbatim, keep_records}
use epistemos.Engine.Transfer.Import.Laws.{keep_records_run}
use epistemos.Engine.Transfer.Export.{exported, export_whole, find}

apply-IsKnown : (r : LedgerRecord) (op : Op) (os : Objects) → (apply r op os).0 ≡ ok tt → IsKnown op
unfolding apply
apply-IsKnown r (Op.unknown s) os e = cc
apply-IsKnown r _ os e = tt

apply_all-IsKnown :
    (rs : List LedgerRecord) (os : Objects)
    → (apply_all rs os).0 ≡ ok tt
    → All (λ r. IsKnown r.op) rs
unfolding apply_all
apply_all-IsKnown [] os e = tt
apply_all-IsKnown (r ∷ rs) os e =
    let (a, ran, rest) = went_on (apply r r.op os).0 (apply_all rs) (apply r r.op os).1 e in
    (apply-IsKnown r r.op os ran, apply_all-IsKnown rs (apply r r.op os).1 (rw rest at e))

module _ (h : Host) (s : Store) (c : Consistent h s) where
  all_read : read_events 0 s ≡ s.ledger
  unfolding read_events
  all_read =
      let (last, chain) = c.sound.chained in
      read_all h s.ledger genesis_hash last 1 (omega arith) chain

  known : All (λ r. IsKnown r.op) s.ledger
  known =
      apply_all-IsKnown s.ledger []
        (ap (λ (x : Result (Unit {0}) × Objects). x.0) c.sound.projected)

  passes : verify_if h true s.ledger ≡ ok tt
  passes =
      let (last, chain) = c.sound.chained in
      ap (λ r. epistemos.Result.◌>>=◌ {B = Unit {0}} r (λ _. ok tt))
        ((verify_chain_iff h s.ledger none none (length s.ledger)).1 (last, chain, refl, tt, tt))

  -- The store that the import leaves.
  abbrev pub restored : Store
  restored = record empty_store { ledger = s.ledger; objects_by_id = s.objects_by_id }

  keep_run :
      keep_records h s.ledger (entered empty_store)
      ≡ (ok tt, record (entered empty_store) { ledger = s.ledger; objects_by_id = s.objects_by_id })
  unfolding read_events
  keep_run =
      keep_records_run h s.ledger (entered empty_store) ∙ rw (all_read, c.sound.projected) refl

  keep_restored : atomic (keep_records h s.ledger) empty_store ≡ (ok tt, restored)
  keep_restored = rw (atomic-settle empty_store refl (keep_records h s.ledger)) (rw keep_run refl)

  verbatim_restored :
      (now : String)
      → import_verbatim h (export_whole h now s) true empty_store ≡ (ok (length s.ledger), restored)
  unfolding import_verbatim iterate export_whole exported find
  verbatim_restored now =
      rw
        (
          all_read,
          to_list-of_list (dicts_of s.ledger),
          records_of-dicts_of h s.ledger known,
          passes,
          keep_restored,
        )
        refl

  -- Whatever the calls ...
  pub import_events-export_whole :
      (now : String) (migrate : Bool)
      → import_events h (obj (export_whole h now s)) true migrate empty_store
        ≡ (ok (length s.ledger), restored)
  unfolding import_events recognised event_count export_whole exported find int_of
  import_events-export_whole now migrate =
      rw (dicts_of_chained (read_events 0 s)) (verbatim_restored now)
