-- ===== src/Engine/Request/Whole.antt =====
-- core/__init__.py: a call changes the store by one whole transaction, or not at all.
use epistemos.Common.{◌≡◌, refl, ◌⊎◌, inl, inr, String, List}
use epistemos.Result.{Result, ok}
use epistemos.Json.{Fields}
use epistemos.Host.{Host}
use epistemos.Identity.{Principal}
use epistemos.Ledger.{Op}
use epistemos.Storage.{Store}
use epistemos.Engine.Base.{Engine, Call}
use epistemos.Engine.Calls.{commit}
use epistemos.Engine.Commit.{Restored, commit-Restored}
use epistemos.Engine.Request.{Request, run}
use epistemos.Engine.Request.Keep.{Outcome, untouched, failed, committed}
use epistemos.Engine.Request.Calls.{run_call}

-- One transaction of events took place without an error, and led from the one store to the other.
abbrev pub OneCommit : Host → Principal → Store → Store → Type 0
OneCommit h p s t =
    (ts : String) × (events : List (Op × Fields)) × ((commit h p ts events s).0 ≡ ok tt)
    × (t ≡ (commit h p ts events s).1)

whole-Outcome :
    {A : Type 0} (h : Host) (p : Principal) (s : Store) (o : Result A × Store)
    → s.depth ≡ 0
    → Outcome h p s o
    → Restored s o.1 ⊎ OneCommit h p s o.1
whole-Outcome h p s _ idle (untouched r) =
    inl (record { idle = idle; ledger = refl; objects = refl })
whole-Outcome h p s _ idle (failed ts events x e) = inl (commit-Restored h p ts events s idle e)
whole-Outcome h p s _ idle (committed ts events r e) = inr (ts, events, e, refl)

-- Outside a transaction, a call leaves the ledger and the objects as they were, or it commits all the
-- events of one transaction, without an error, and does nothing more to the store.
pub run_whole :
    (e : Engine) (c : Call) (p : Principal) (request : Request) (s : Store)
    → s.depth ≡ 0
    → Restored s (run e c p request s).1 ⊎ OneCommit e.host p s (run e c p request s).1
run_whole e c p request s idle =
    whole-Outcome e.host p s (run e c p request s) idle ((run_call e c p request).at s)
