-- ===== src/Engine/Request/Reach.antt =====
-- core/__init__.py: the stores that calls and verified imports lead to.
use epistemos.Common.{Bool, true, ◌≡◌, refl, none, List, [], arith, length, filter, ltb}
use epistemos.Result.{Result, ok}
use epistemos.Exec.{continue, pure}
use epistemos.Host.{Host}
use epistemos.Identity.{Principal}
use epistemos.Ledger.{LedgerRecord, genesis_hash, verify_chain}
use epistemos.Ledger.Chain.{verify_chain_iff}
use epistemos.Storage.Reading.{read_all}
use epistemos.Storage.{Store, Objects, empty_store, clear_projection, read_events}
use epistemos.Engine.Base.{Engine, Call}
use epistemos.Engine.Apply.{apply_all, rebuild_projection}
use epistemos.Engine.Consistent.{Consistent}
use epistemos.Engine.Commit.{atomic-settle, entered, commit-Consistent}
use epistemos.Json.{Json}
use epistemos.Engine.Transfer.Import.{import_events}
use epistemos.Engine.Transfer.Import.Handled.{import_events-Consistent}
use epistemos.Engine.Request.{Request, run}
use epistemos.Engine.Request.Keep.{Outcome, untouched, failed, committed}
use epistemos.Engine.Request.Calls.{run_call}

-- The stores that calls and verified imports lead to, from an empty one.
pub data Reachable (e : Engine) : Store → Type 0 where
  start : Reachable e empty_store
  call :
      {s : Store} (c : Call) (p : Principal) (request : Request)
      → Reachable e s
      → Reachable e (run e c p request s).1
  imported :
      {s : Store} (j : Json) (migrate : Bool)
      → Reachable e s
      → Reachable e (import_events e.host j true migrate s).1

empty-Consistent : (h : Host) → Consistent h empty_store
unfolding apply_all
empty-Consistent h = record {
  idle = refl;
  sound = record { chained = (genesis_hash, refl); projected = refl };
}

Outcome-Consistent :
    {A : Type 0} (h : Host) (p : Principal) (s : Store) (o : Result A × Store)
    → Consistent h s
    → Outcome h p s o
    → Consistent h o.1
Outcome-Consistent h p s _ k (untouched r) = k
Outcome-Consistent h p s _ k (failed ts events x e) = commit-Consistent h p ts events s k
Outcome-Consistent h p s _ k (committed ts events r e) = commit-Consistent h p ts events s k

pub Reachable-Consistent : {e : Engine} {s : Store} → Reachable e s → Consistent e.host s
Reachable-Consistent {e} start = empty-Consistent e.host
Reachable-Consistent {e} (call {s} c p request r) =
    Outcome-Consistent e.host p s (run e c p request s) (Reachable-Consistent r)
      ((run_call e c p request).at s)
Reachable-Consistent {e} (imported {s} j migrate r) =
    import_events-Consistent e.host j migrate s (Reachable-Consistent r)

-- Whatever the calls and the verified imports, from an empty store, the ledger passes the check, and the check returns the
-- number of its records.
pub Reachable-verifies :
    (e : Engine) (s : Store)
    → Reachable e s
    → verify_chain e.host s.ledger none none ≡ ok (length s.ledger)
Reachable-verifies e s r =
    let (last, chain) = (Reachable-Consistent r).sound.chained in
    (verify_chain_iff e.host s.ledger none none (length s.ledger)).1 (last, chain, refl, tt, tt)

rebuilt :
    (rs all : List LedgerRecord) (os os' : Objects) (t : Store)
    → all ≡ rs
    → apply_all rs os ≡ (ok tt, os')
    → continue
        (apply_all all os).0
        (λ _. pure (length all))
        (record t { objects_by_id = (apply_all all os).1 })
      ≡ (ok (length rs), record t { objects_by_id = os' })
rebuilt rs all os os' t same e = rw same (rw e refl)

-- Rebuilding the objects of a consistent store from its ledger succeeds, counts the records, and
-- gives the same objects over the same ledger.
pub rebuild-Consistent :
    (h : Host) (s : Store)
    → Consistent h s
    → ((rebuild_projection s).0 ≡ ok (length s.ledger))
      × ((rebuild_projection s).1.ledger ≡ s.ledger)
      × ((rebuild_projection s).1.objects_by_id ≡ s.objects_by_id)
unfolding rebuild_projection clear_projection read_events
rebuild-Consistent h s c =
    let (last, chain) = c.sound.chained in
    let all_read = read_all h s.ledger genesis_hash last 1 (omega arith) chain in
    let run_body =
      rebuilt s.ledger (filter (λ r. ltb 0 r.seq) s.ledger) [] s.objects_by_id (entered s) all_read
        c.sound.projected in
    rw (atomic-settle s c.idle, run_body) (refl, refl, refl)

-- Whatever the calls and the verified imports, from an empty store, rebuilding the objects from the ledger succeeds, counts
-- the ledger's records, and gives the same objects over the same ledger.
pub Reachable-rebuilds :
    (e : Engine) (s : Store)
    → Reachable e s
    → ((rebuild_projection s).0 ≡ ok (length s.ledger))
      × ((rebuild_projection s).1.ledger ≡ s.ledger)
      × ((rebuild_projection s).1.objects_by_id ≡ s.objects_by_id)
Reachable-rebuilds e s r = rebuild-Consistent e.host s (Reachable-Consistent r)
