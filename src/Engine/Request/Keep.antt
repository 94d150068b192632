-- ===== src/Engine/Request/Keep.antt =====
-- core/__init__.py: the shape of a call: it reads and checks, commits at most one
-- transaction, and after that only reads.
use epistemos.Common.{◌≡◌, refl, Bool, true, false, List, String, subst, ◌∙◌, sym}
use epistemos.Result.{Error, Result, ok, err}
use epistemos.Exec.{Exec, pure, lift, raise_if, continue, ◌>>=◌}
use epistemos.Json.{Fields}
use epistemos.Host.{Host}
use epistemos.Identity.{Principal}
use epistemos.Ledger.{Op}
use epistemos.Storage.{Store, Objects}
use epistemos.Engine.Calls.{commit, look}

-- The action leaves the store alone.
pub record Reads {A : Type 0} (m : Exec Store A) : Type 0 where
  pub same : (s : Store) → (m s).1 ≡ s

-- What became of a store: no event was committed; or the events of one transaction were, and either
-- the transaction raised, and the call with it, or the call went on and only read.
pub data Outcome {A : Type 0} (h : Host) (p : Principal) (s : Store)
    : Result A × Store → Type 0 where
  untouched : (r : Result A) → Outcome h p s (r, s)
  failed :
      (ts : String) (events : List (Op × Fields)) (x : Error)
      → (commit h p ts events s).0 ≡ err x
      → Outcome h p s (err x, (commit h p ts events s).1)
  committed :
      (ts : String) (events : List (Op × Fields)) (r : Result A)
      → (commit h p ts events s).0 ≡ ok tt
      → Outcome h p s (r, (commit h p ts events s).1)

pub record Transacts {A : Type 0} (h : Host) (p : Principal) (m : Exec Store A) : Type 0 where
  pub at : (s : Store) → Outcome h p s (m s)

pub Reads-pure : {A : Type 0} (a : A) → Reads (pure a)
Reads-pure a = record { same = λ s. refl }

pub Reads-lift : {A : Type 0} (r : Result A) → Reads (lift r)
Reads-lift r = record { same = λ s. refl }

pub Reads-look : {A : Type 0} (f : Objects → Result A) → Reads (look f)
Reads-look f = record { same = λ s. refl }

pub Reads-raise_if : (b : Bool) (x : Error) → Reads (raise_if b x)
Reads-raise_if true x = record { same = λ s. refl }
Reads-raise_if false x = record { same = λ s. refl }

continue-Reads :
    {A B : Type 0} (r : Result A) (f : A → Exec Store B) (s : Store)
    → ((a : A) → Reads (f a))
    → (continue r f s).1 ≡ s
continue-Reads (ok a) f s k = (k a).same s
continue-Reads (err x) f s k = refl

pub Reads-bind :
    {A B : Type 0} (m : Exec Store A) (f : A → Exec Store B)
    → Reads m
    → ((a : A) → Reads (f a))
    → Reads (m >>= f)
Reads-bind m f r k = record { same = λ s. continue-Reads (m s).0 f (m s).1 k ∙ r.same s }

module _ {h : Host} {p : Principal} where
  commit-Outcome :
      (ts : String) (events : List (Op × Fields)) (s : Store) (r : Result (Unit {0}))
      → (commit h p ts events s).0 ≡ r
      → Outcome h p s (r, (commit h p ts events s).1)
  commit-Outcome ts events s (ok a) e = committed ts events (ok a) e
  commit-Outcome ts events s (err x) e = failed ts events x e

  pub Transacts-commit :
      (ts : String) (events : List (Op × Fields)) → Transacts h p (commit h p ts events)
  Transacts-commit ts events = record {
    at = λ s. commit-Outcome ts events s (commit h p ts events s).0 refl;
  }

  continue-Outcome :
      {A B : Type 0} (r : Result A) (f : A → Exec Store B) (s : Store)
      → ((a : A) → Transacts h p (f a))
      → Outcome h p s (continue r f s)
  continue-Outcome (ok a) f s k = (k a).at s
  continue-Outcome (err x) f s k = untouched (err x)

  pub Transacts-bind :
      {A B : Type 0} (m : Exec Store A) (f : A → Exec Store B)
      → Reads m
      → ((a : A) → Transacts h p (f a))
      → Transacts h p (m >>= f)
  Transacts-bind m f r k = record {
    at = λ s.
        subst (λ t. Outcome h p s (continue (m s).0 f t)) (sym (r.same s))
          (continue-Outcome (m s).0 f s k);
  }

  afterwards :
      {A B : Type 0} (f : A → Exec Store B) (s : Store) (o : Result A × Store)
      → ((a : A) → Reads (f a))
      → Outcome h p s o
      → Outcome h p s (continue o.0 f o.1)
  afterwards f s _ k (untouched r) =
      subst (λ t. Outcome h p s ((continue r f s).0, t)) (sym (continue-Reads r f s k))
        (untouched (continue r f s).0)
  afterwards f s _ k (failed ts events x e) = failed ts events x e
  afterwards f s _ k (committed ts events r e) =
      let t = (commit h p ts events s).1 in
      subst (λ u. Outcome h p s ((continue r f t).0, u)) (sym (continue-Reads r f t k))
        (committed ts events (continue r f t).0 e)

  pub Transacts-then :
      {A B : Type 0} (m : Exec Store A) (f : A → Exec Store B)
      → Transacts h p m
      → ((a : A) → Reads (f a))
      → Transacts h p (m >>= f)
  Transacts-then m f t k = record { at = λ s. afterwards f s (m s) k (t.at s) }

pub ruleset call_rules = (
  Reads-pure, Reads-lift, Reads-look, Reads-raise_if, Reads-bind, Transacts-bind, Transacts-then,
  Transacts-commit,
)
