-- ===== src/Engine/Request/Signed.antt =====
-- core/__init__.py: what a call adds to the ledger, and by whom.
use epistemos.Common.{
  ◌≡◌, refl, sym, ◌∙◌, List, [], ◌∷◌, ◌++◌, All, append_assoc, append-nil, String, true,
}
use epistemos.Result.{Result, ok, err}
use epistemos.Json.{Fields}
use epistemos.Host.{Host}
use epistemos.Identity.{Principal}
use epistemos.Ledger.{Op, LedgerRecord, seal}
use epistemos.Storage.{Store, settle}
use epistemos.Engine.Base.{Engine, Call}
use epistemos.Engine.Apply.{emit}
use epistemos.Engine.Calls.{emit_all, commit}
use epistemos.Engine.Consistent.{Grown, emit-state, emit_all-Grown, either_way}
use epistemos.Engine.Commit.{entered, atomic-settle, settle-Restored}
use epistemos.Engine.Request.{Request, run}
use epistemos.Engine.Request.Keep.{Outcome, untouched, failed, committed}
use epistemos.Engine.Request.Calls.{run_call}

-- The record carries the principal's tenant, namespace, agent and principal name.
pub record IsSignedBy (p : Principal) (r : LedgerRecord) : Type 0 where
  pub tenant : r.tenant ≡ p.tenant
  pub namespace : r.namespace ≡ p.namespace
  pub actor : r.actor ≡ p.agent
  pub principal : r.principal ≡ p.principal

-- Records that the principal signs are added at the end of the ledger.
abbrev pub Adds : Principal → Store → Store → Type 0
Adds p s t = (more : List LedgerRecord) × (t.ledger ≡ s.ledger ++ more) × All (IsSignedBy p) more

module _ (p : Principal) where
  All-append :
      (xs ys : List LedgerRecord)
      → All (IsSignedBy p) xs
      → All (IsSignedBy p) ys
      → All (IsSignedBy p) (xs ++ ys)
  All-append [] ys a b = b
  All-append (x ∷ xs) ys a b = (a.0, All-append xs ys a.1 b)

  Adds-refl : (s : Store) → Adds p s s
  Adds-refl s = ([], sym (append-nil s.ledger), tt)

  Adds-trans : (s t u : Store) → Adds p s t → Adds p t u → Adds p s u
  Adds-trans s t u (xs, e, a) (ys, g, b) =
      (xs ++ ys, rw (g, e) (append_assoc s.ledger xs ys), All-append xs ys a b)

module _ (h : Host) (p : Principal) (ts : String) where
  emit-Adds : (op : Op) (payload : Fields) (s : Store) → Adds p s (emit h p op ts payload s).1
  unfolding seal
  emit-Adds op payload s =
      rw (emit-state h p op ts payload s)
        (_, refl, (record { tenant = refl; namespace = refl; actor = refl; principal = refl }, tt))

  emit_all-Adds : (events : List (Op × Fields)) (s : Store) → Adds p s (emit_all h p ts events s).1
  unfolding emit_all
  emit_all-Adds [] s = Adds-refl p s
  emit_all-Adds ((op, payload) ∷ events) s =
      let (r, t) = emit h p op ts payload s in
      let first : Adds p s t = emit-Adds op payload s in
      either_way (Adds p s) r (emit_all h p ts events) t first
        (Adds-trans p s t (emit_all h p ts events t).1 first (emit_all-Adds events t))

  settle-Adds :
      (s : Store)
      → s.depth ≡ 0
      → (r : Result (Unit {0})) (t : Store) → Grown (entered s) t
      → Adds p s t
      → Adds p s (settle true (r, t)).1
  settle-Adds s idle (ok a) t g adds = adds
  settle-Adds s idle (err x) t g adds =
      let back = settle-Restored s idle {A = Unit} (err x) t g refl in
      ([], back.ledger ∙ sym (append-nil s.ledger), tt)

  commit-Adds :
      (events : List (Op × Fields)) (s : Store) → s.depth ≡ 0 → Adds p s (commit h p ts events s).1
  unfolding commit
  commit-Adds events s idle =
      let (r, t) = emit_all h p ts events (entered s) in
      rw (atomic-settle s idle (emit_all h p ts events)) (
        settle-Adds s idle r t (emit_all-Grown h p ts events (entered s))
          (emit_all-Adds events (entered s)))

Outcome-Adds :
    {A : Type 0} (h : Host) (p : Principal) (s : Store) (o : Result A × Store)
    → s.depth ≡ 0
    → Outcome h p s o
    → Adds p s o.1
Outcome-Adds h p s _ idle (untouched r) = Adds-refl p s
Outcome-Adds h p s _ idle (failed ts events x e) = commit-Adds h p ts events s idle
Outcome-Adds h p s _ idle (committed ts events r e) = commit-Adds h p ts events s idle

-- Outside a transaction, a call changes the ledger only by adding records at its end, each with the
-- caller's tenant, namespace, agent and principal name, whether it raises or returns.
pub run-Adds :
    (e : Engine) (c : Call) (p : Principal) (request : Request) (s : Store)
    → s.depth ≡ 0
    → Adds p s (run e c p request s).1
run-Adds e c p request s idle =
    Outcome-Adds e.host p s (run e c p request s) idle ((run_call e c p request).at s)
