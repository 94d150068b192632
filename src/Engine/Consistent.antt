-- ===== src/Engine/Consistent.antt =====
-- core/__init__.py: the invariant of the store: its records form a verified chain, and its objects
-- are what the records project to.
use epistemos.Common.{
  ℕ, ◌+◌, String, ◌≡◌, refl, sym, ap, List, [], ◌∷◌, ◌++◌, arith, length, append_assoc, append-nil,
  ◌∙◌,
}
use epistemos.Result.{Result, ok, err}
use epistemos.Exec.{Exec, continue, pure}
use epistemos.Json.{Fields}
use epistemos.Host.{Host}
use epistemos.Identity.{Principal}
use epistemos.Ledger.{Op, Event, LedgerRecord, genesis_hash, seal}
use epistemos.Ledger.Chain.{Chain, Chain-append}
use epistemos.Storage.{Store, Objects, head, head_link, append}
use epistemos.Engine.Apply.{apply, apply_all, emit}
use epistemos.Engine.Calls.{emit_all}

-- The records project to these objects.
abbrev pub Projects : List LedgerRecord → Objects → Type 0
Projects rs os = apply_all rs [] ≡ (ok tt, os)

pub record Sound (h : Host) (s : Store) : Type 0 where
  pub chained : (last : String) × Chain h genesis_hash 1 s.ledger last
  pub projected : Projects s.ledger s.objects_by_id

-- Between calls no transaction is open.
pub record Consistent (h : Host) (s : Store) : Type 0 where
  pub idle : s.depth ≡ 0
  pub sound : Sound h s

-- Inside a transaction the ledger only grows, and the snapshot stays.
pub record Grown (s t : Store) : Type 0 where
  pub depth : t.depth ≡ s.depth
  pub snap_ledger : t.snap_ledger ≡ s.snap_ledger
  pub snap_objects : t.snap_objects ≡ s.snap_objects
  pub grown : (more : List LedgerRecord) × (t.ledger ≡ s.ledger ++ more)

pub Grown-refl : (s : Store) → Grown s s
Grown-refl s = record {
  depth = refl;
  snap_ledger = refl;
  snap_objects = refl;
  grown = ([], sym (append-nil s.ledger));
}

pub Grown-trans : {s t u : Store} → Grown s t → Grown t u → Grown s u
Grown-trans {s} a b = record {
  depth = cc (a.depth, b.depth);
  snap_ledger = cc (a.snap_ledger, b.snap_ledger);
  snap_objects = cc (a.snap_objects, b.snap_objects);
  grown = (
    a.grown.0 ++ b.grown.0,
    rw (b.grown.1, a.grown.1) (append_assoc s.ledger a.grown.0 b.grown.0),
  );
}

-- The head's link is the chain's last hash and the next place.
head_link-Chain :
    (h : Host) (r : LedgerRecord) (rs : List LedgerRecord) (prev last : String) (n : ℕ)
    → Chain h prev n (r ∷ rs) last
    → head_link (r ∷ rs) ≡ (last, n + length (r ∷ rs))
unfolding head_link head
head_link-Chain h r [] prev last n c = ground (arith, c.0.at_seq, c.1)
head_link-Chain h r (s ∷ rs) prev last n c =
    head_link-Chain h s rs r.entry_hash last (n + 1) c.1 ∙ ground arith

head_link-genesis :
    (h : Host) (rs : List LedgerRecord) (last : String)
    → Chain h genesis_hash 1 rs last
    → head_link rs ≡ (last, 1 + length rs)
unfolding head_link head
head_link-genesis h [] last c = ground arith
head_link-genesis h (r ∷ rs) last c = head_link-Chain h r rs genesis_hash last 1 c

continue-tt : {S : Type 0} (r : Result (Unit {0})) (s : S) → continue r (λ _. pure tt) s ≡ (r, s)
continue-tt (ok a) s = refl
continue-tt (err e) s = refl

continue_assoc :
    {S A : Type 0} (r : Result A) (s : S) (f : A → Exec S (Unit {0})) (t : S)
    → continue r f s ≡ (ok tt, t)
    → (a : A) × (r ≡ ok a) × (f a s ≡ (ok tt, t))
continue_assoc (ok a) s f t e = (a, refl, e)
continue_assoc (err x) s f t e = cc

apply_all-append :
    (rs : List LedgerRecord) (r : LedgerRecord) (os os' : Objects)
    → apply_all rs os ≡ (ok tt, os')
    → apply_all (rs ++ r ∷ []) os ≡ apply r r.op os'
unfolding apply_all
apply_all-append [] r os os' e =
    continue-tt (apply r r.op os).0 (apply r r.op os).1
    ∙ ap (apply r r.op) (ap (λ (x : Result (Unit {0}) × Objects). x.1) e)
apply_all-append (q ∷ rs) r os os' e =
    let (a, ran, rest) =
      continue_assoc (apply q q.op os).0 (apply q q.op os).1 (λ _. apply_all rs) os' e in
    rw ran (apply_all-append rs r (apply q q.op os).1 os' rest)

continue-state :
    {S A : Type 0} (r : Result (Unit {0})) (a : A) (s : S) → (continue r (λ _. pure a) s).1 ≡ s
continue-state (ok _) a s = refl
continue-state (err e) a s = refl

continue-ok :
    {S A : Type 0} (r : Result (Unit {0})) (a : A) {b : A} (s : S)
    → (continue r (λ _. pure a) s).0 ≡ ok b
    → r ≡ ok tt
continue-ok (ok _) a s e = refl
continue-ok (err x) a s e = cc

next-Chain :
    (h : Host) (rs : List LedgerRecord) (last : String) (e : Event)
    → Chain h genesis_hash 1 rs last
    → let r = seal h (head_link rs).1 e (head_link rs).0 in
      Chain h genesis_hash 1 (rs ++ r ∷ []) r.entry_hash
next-Chain h rs last e c =
    rw (head_link-genesis h rs last c)
      (Chain-append h rs genesis_hash last 1 (1 + length rs) e refl c)

module _ (h : Host) (p : Principal) (op : Op) (ts : String) (payload : Fields) (s : Store) where
  abbrev pub event : Event
  event = record {
    op = op;
    ts = ts;
    tenant = p.tenant;
    namespace = p.namespace;
    actor = p.agent;
    principal = p.principal;
    payload = payload;
  }

  -- The record that the event is sealed into.
  abbrev pub sealed : LedgerRecord
  sealed = seal h (head_link s.ledger).1 event (head_link s.ledger).0

  abbrev pub emitted : Store
  emitted = record s {
    ledger = s.ledger ++ sealed ∷ [];
    objects_by_id = (apply sealed op s.objects_by_id).1;
  }

  pub emit-state : (emit h p op ts payload s).1 ≡ emitted
  unfolding emit append seal
  emit-state = continue-state (apply sealed op s.objects_by_id).0 sealed emitted

  pub emit-ok :
      {r : LedgerRecord}
      → (emit h p op ts payload s).0 ≡ ok r
      → (apply sealed op s.objects_by_id).0 ≡ ok tt
  unfolding emit append seal
  emit-ok e = continue-ok (apply sealed op s.objects_by_id).0 sealed emitted e

  pub emitted-Grown : Grown s emitted
  emitted-Grown = record {
    depth = refl;
    snap_ledger = refl;
    snap_objects = refl;
    grown = (sealed ∷ [], refl);
  }

  emit-Grown : Grown s (emit h p op ts payload s).1
  emit-Grown = rw emit-state emitted-Grown

  -- A record that is sealed and applied without an error keeps the store sound.
  pub emitted-Sound : (apply sealed op s.objects_by_id).0 ≡ ok tt → Sound h s → Sound h emitted
  unfolding seal
  emitted-Sound e sound =
      let (last, chain) = sound.chained in
      record {
        chained = (sealed.entry_hash, next-Chain h s.ledger last event chain);
        projected = apply_all-append s.ledger sealed [] s.objects_by_id sound.projected ∙ λ i.
            (e i, (apply sealed op s.objects_by_id).1);
      }

  emit-Sound :
      {r : LedgerRecord}
      → (emit h p op ts payload s).0 ≡ ok r
      → Sound h s
      → Sound h (emit h p op ts payload s).1
  emit-Sound e sound = rw emit-state (emitted-Sound (emit-ok e) sound)

pub either_way :
    {S A B : Type 0} (P : S → Type 0) (r : Result A) (k : Exec S B) (t : S)
    → P t
    → P (k t).1
    → P (continue r (λ _. k) t).1
either_way P (ok a) k t stay go = go
either_way P (err x) k t stay go = stay

pub went_on :
    {S A B : Type 0} (r : Result A) (k : Exec S B) (t : S) {b : B}
    → (continue r (λ _. k) t).0 ≡ ok b
    → (a : A) × (r ≡ ok a) × (continue r (λ _. k) t ≡ k t)
went_on (ok a) k t e = (a, refl, refl)
went_on (err x) k t e = cc

-- Whatever becomes of the events, the ledger has only grown.
pub emit_all-Grown :
    (h : Host) (p : Principal) (ts : String) (events : List (Op × Fields)) (s : Store)
    → Grown s (emit_all h p ts events s).1
unfolding emit_all
emit_all-Grown h p ts [] s = Grown-refl s
emit_all-Grown h p ts ((op, payload) ∷ events) s =
    let (r, t) = emit h p op ts payload s in
    let first : Grown s t = emit-Grown h p op ts payload s in
    either_way (Grown s) r (emit_all h p ts events) t first
      (Grown-trans first (emit_all-Grown h p ts events t))

-- Events that are all emitted without an error keep the store sound.
pub emit_all-Sound :
    (h : Host) (p : Principal) (ts : String) (events : List (Op × Fields)) (s : Store)
    → (emit_all h p ts events s).0 ≡ ok tt
    → Sound h s
    → Sound h (emit_all h p ts events s).1
unfolding emit_all
emit_all-Sound h p ts [] s e sound = sound
emit_all-Sound h p ts ((op, payload) ∷ events) s e sound =
    let t : Store = (emit h p op ts payload s).1 in
    let (r, ran, rest) = went_on (emit h p op ts payload s).0 (emit_all h p ts events) t e in
    rw rest
      (emit_all-Sound h p ts events t (rw rest at e) (emit-Sound h p op ts payload s ran sound))
