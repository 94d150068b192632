-- ===== src/Engine/Request/Isolated.antt =====
-- core/__init__.py: a call writes in its principal's scope only.
use epistemos.Common.{◌≡◌, refl, ◌∙◌, ◌⊎◌, inl, inr, true, some, List, [], ◌∷◌, String, ap}
use epistemos.Result.{Result, ok, err}
use epistemos.Json.{Fields}
use epistemos.Host.{Host}
use epistemos.Identity.{Principal}
use epistemos.Ledger.{Op, seal}
use epistemos.Storage.{Store, lookup, in_scope, settle}
use epistemos.Engine.Base.{Engine, Call}
use epistemos.Engine.Apply.{emit}
use epistemos.Engine.Apply.Isolation.{apply-WritesInScope}
use epistemos.Engine.Calls.{emit_all, commit}
use epistemos.Engine.Consistent.{Grown, emit-state, emit_all-Grown, either_way, sealed}
use epistemos.Engine.Commit.{entered, atomic-settle, settle-Restored}
use epistemos.Engine.Request.{Request, run}
use epistemos.Engine.Request.Keep.{Outcome, untouched, failed, committed}
use epistemos.Engine.Request.Calls.{run_call}

-- Each id finds what it found before, or an object of the principal's tenant and namespace.
abbrev pub Confined : Principal → Store → Store → Type 0
Confined p s t =
    (i : String)
    → (lookup i t.objects_by_id ≡ lookup i s.objects_by_id)
      ⊎ ((o : Fields) × (lookup i t.objects_by_id ≡ some o)
          × (in_scope p.tenant p.namespace o ≡ true))

Confined-trans : (p : Principal) (s t u : Store) → Confined p s t → Confined p t u → Confined p s u
Confined-trans p s t u f g i = elim (g i) [
  | inr wrote ↦ inr wrote
  | inl kept ↦ elim (f i) [
    | inl still ↦ inl (kept ∙ still)
    | inr (o, found, scope) ↦ inr (o, kept ∙ found, scope)
  ]
]

module _ (h : Host) (p : Principal) (ts : String) where
  emit-Confined :
      (op : Op) (payload : Fields) (s : Store) → Confined p s (emit h p op ts payload s).1
  unfolding seal
  emit-Confined op payload s =
      rw (emit-state h p op ts payload s)
        (apply-WritesInScope (sealed h p op ts payload s) op s.objects_by_id).at

  emit_all-Confined :
      (events : List (Op × Fields)) (s : Store) → Confined p s (emit_all h p ts events s).1
  unfolding emit_all
  emit_all-Confined [] s = λ i. inl refl
  emit_all-Confined ((op, payload) ∷ events) s =
      let (r, t) = emit h p op ts payload s in
      let first : Confined p s t = emit-Confined op payload s in
      either_way (Confined p s) r (emit_all h p ts events) t first
        (Confined-trans p s t (emit_all h p ts events t).1 first (emit_all-Confined events t))

  settle-Confined :
      (s : Store)
      → s.depth ≡ 0
      → (r : Result (Unit {0})) (t : Store) → Grown (entered s) t
      → Confined p s t
      → Confined p s (settle true (r, t)).1
  settle-Confined s idle (ok a) t g confined i = confined i
  settle-Confined s idle (err x) t g confined i =
      inl (ap (lookup i) (settle-Restored s idle {A = Unit} (err x) t g refl).objects)

  commit-Confined :
      (events : List (Op × Fields)) (s : Store)
      → s.depth ≡ 0
      → Confined p s (commit h p ts events s).1
  unfolding commit
  commit-Confined events s idle =
      let (r, t) = emit_all h p ts events (entered s) in
      rw (atomic-settle s idle (emit_all h p ts events)) (
        settle-Confined s idle r t (emit_all-Grown h p ts events (entered s))
          (emit_all-Confined events (entered s)))

Outcome-Confined :
    {A : Type 0} (h : Host) (p : Principal) (s : Store) (o : Result A × Store)
    → s.depth ≡ 0
    → Outcome h p s o
    → Confined p s o.1
Outcome-Confined h p s _ idle (untouched r) = λ i. inl refl
Outcome-Confined h p s _ idle (failed ts events x e) = commit-Confined h p ts events s idle
Outcome-Confined h p s _ idle (committed ts events r e) = commit-Confined h p ts events s idle

-- Outside a transaction, whatever a call does, raising or not, each id finds what it found before, or
-- an object that carries the caller's tenant and namespace.
pub run-Confined :
    (e : Engine) (c : Call) (p : Principal) (request : Request) (s : Store)
    → s.depth ≡ 0
    → Confined p s (run e c p request s).1
run-Confined e c p request s idle =
    Outcome-Confined e.host p s (run e c p request s) idle ((run_call e c p request).at s)
