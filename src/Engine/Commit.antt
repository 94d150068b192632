-- ===== src/Engine/Commit.antt =====
-- core/__init__.py and storage/memory.py: a transaction of events keeps the store consistent, and one
-- that raises restores it.
use epistemos.Common.{
  suc, String, ◌≡◌, refl, true, some, List, arith, length, take-length-append, nat_eq,
}
use epistemos.Result.{Error, Result, ok, err}
use epistemos.Exec.{Exec}
use epistemos.Json.{Fields}
use epistemos.Host.{Host}
use epistemos.Identity.{Principal}
use epistemos.Ledger.{Op}
use epistemos.Storage.{Store, atomic, roll_back, settle, join_from}
use epistemos.Engine.Calls.{emit_all, commit}
use epistemos.Engine.Consistent.{Sound, Consistent, Grown, emit_all-Grown, emit_all-Sound}

-- The store that a transaction found: no transaction open, its ledger and its objects.
pub record Restored (s t : Store) : Type 0 where
  pub idle : t.depth ≡ 0
  pub ledger : t.ledger ≡ s.ledger
  pub objects : t.objects_by_id ≡ s.objects_by_id

abbrev pub entered : Store → Store
entered s = record s {
  depth = suc s.depth;
  snap_ledger = length s.ledger;
  snap_objects = some s.objects_by_id;
}

module _ (s : Store) (idle : s.depth ≡ 0) where
  outermost : (nat_eq s.depth 0 ≡ true) × (join_from s.depth s ≡ entered s)
  outermost = rw idle (refl, refl)

  pub settle-Restored :
      {A : Type 0} (r : Result A) (t : Store) {x : Error}
      → Grown (entered s) t
      → (settle true (r, t)).0 ≡ err x
      → Restored s (settle true (r, t)).1
  unfolding roll_back
  settle-Restored (ok a) t g e = cc
  settle-Restored (err y) t g e = record {
    idle = omega (arith, g.depth);
    ledger = rw (g.grown.1, g.snap_ledger) (take-length-append s.ledger g.grown.0);
    objects = rw g.snap_objects refl;
  }

  pub atomic-settle :
      {A : Type 0} (body : Exec Store A) → atomic body s ≡ settle true (body (entered s))
  unfolding atomic
  atomic-settle body = λ i. settle (outermost.0 i) (body (outermost.1 i))

  -- A transaction that raises restores the ledger and the objects.
  pub atomic-Restored :
      {A : Type 0} (body : Exec Store A) {x : Error}
      → Grown (entered s) (body (entered s)).1
      → (atomic body s).0 ≡ err x
      → Restored s (atomic body s).1
  atomic-Restored body g e =
      rw (atomic-settle body)
        (settle-Restored (body (entered s)).0 (body (entered s)).1 g (rw (atomic-settle body) at e))

module _ (h : Host) (s : Store) where
  pub Restored-Consistent : {t : Store} → Consistent h s → Restored s t → Consistent h t
  Restored-Consistent c r = record {
    idle = r.idle;
    sound = record {
      chained = rw r.ledger c.sound.chained;
      projected = rw (r.ledger, r.objects) c.sound.projected;
    };
  }

  settle-Consistent :
      (r : Result (Unit {0})) (t : Store)
      → Consistent h s
      → Grown (entered s) t
      → (r ≡ ok tt → Sound h t)
      → Consistent h (settle true (r, t)).1
  settle-Consistent (err x) t c g sound =
      Restored-Consistent c (settle-Restored s c.idle {A = Unit} (err x) t g refl)
  settle-Consistent (ok a) t c g sound = record {
    idle = omega (arith, g.depth, c.idle);
    sound = record { chained = (sound refl).chained; projected = (sound refl).projected };
  }

  -- A transaction keeps the store consistent if its body leaves a sound store when it returns.
  pub atomic-Consistent :
      (body : Exec Store (Unit {0}))
      → Consistent h s
      → Grown (entered s) (body (entered s)).1
      → ((body (entered s)).0 ≡ ok tt → Sound h (body (entered s)).1)
      → Consistent h (atomic body s).1
  atomic-Consistent body c g sound =
      rw (atomic-settle s c.idle body)
        (settle-Consistent (body (entered s)).0 (body (entered s)).1 c g sound)

module _ (h : Host) (p : Principal) (ts : String) (events : List (Op × Fields)) (s : Store) where
  -- Events committed together outside any other transaction that raise leave the store with no
  -- transaction open and with the ledger and the objects that it had.
  pub commit-Restored :
      {x : Error}
      → s.depth ≡ 0
      → (commit h p ts events s).0 ≡ err x
      → Restored s (commit h p ts events s).1
  unfolding commit
  commit-Restored idle e =
      atomic-Restored s idle (emit_all h p ts events) (emit_all-Grown h p ts events (entered s)) e

  -- Whether it raises or not, a transaction keeps the store consistent.
  pub commit-Consistent : Consistent h s → Consistent h (commit h p ts events s).1
  unfolding commit
  commit-Consistent c =
      let start : Sound h (entered s) = record {
        chained = c.sound.chained;
        projected = c.sound.projected;
      } in
      atomic-Consistent h s (emit_all h p ts events) c (emit_all-Grown h p ts events (entered s))
        (λ e. emit_all-Sound h p ts events (entered s) e start)
