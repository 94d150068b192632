-- ===== src/Ledger/Chain.antt =====
-- ledger/__init__.py: what it means for records to form a chain, said without the loop, and the
-- chain that sealing extends.
use epistemos.Common.{
  ℕ, ◌+◌, String, ◌≡◌, ◌↔◌, refl, true, inl, inr, Option, none, some, List, [], ◌∷◌, ◌++◌, arith,
  Bool-cases, eq_iff, length,
}
use epistemos.Result.{ok, err}
use epistemos.Json.{obj}
use epistemos.Host.{Host, hash_obj}
use epistemos.Ledger.{
  Event, LedgerRecord, genesis_hash, seal, links, verify_from, verify_chain, check_anchor,
  content_hash, header, Result,
}

module _ (h : Host) where
  -- The record stands at its place, points at the record before it, and its hashes are those of
  -- what it holds.
  pub record IsLinked (r : LedgerRecord) (prev : String) (n : ℕ) : Type 0 where
    pub at_seq : r.seq ≡ n
    pub at_prev : r.prev_hash ≡ prev
    pub holds_content : content_hash h r.op r.payload ≡ r.content_hash
    pub holds_header : hash_obj h (obj (header r)) ≡ r.entry_hash

  links-IsLinked :
      (r : LedgerRecord) (prev : String) (n : ℕ) → links h r prev n ≡ true → IsLinked r prev n
  unfolding links
  links-IsLinked r prev n e = ground (
    arith,
    eq_iff r.prev_hash prev,
    eq_iff (content_hash h r.op r.payload) r.content_hash,
    eq_iff (hash_obj h (obj (header r))) r.entry_hash,
  )

  IsLinked-links :
      (r : LedgerRecord) (prev : String) (n : ℕ) → IsLinked r prev n → links h r prev n ≡ true
  unfolding links
  IsLinked-links r prev n l = ground (
    arith,
    eq_iff r.prev_hash prev,
    eq_iff (content_hash h r.op r.payload) r.content_hash,
    eq_iff (hash_obj h (obj (header r))) r.entry_hash,
  )

  -- The records follow one another from the hash `prev` at place n, and `last` is the hash at the
  -- end.
  abbrev pub Chain : String → ℕ → List LedgerRecord → String → Type 0
  Chain prev n [] last = prev ≡ last
  Chain prev n (r ∷ rs) last = IsLinked r prev n × Chain r.entry_hash (n + 1) rs last

  pub verify_from-Chain :
      (rs : List LedgerRecord) (prev last : String) (n k m : ℕ)
      → verify_from h rs prev n k ≡ ok (last, m)
      → Chain prev n rs last × (m ≡ k + length rs)
  unfolding verify_from
  verify_from-Chain [] prev last n k m e = ground arith
  verify_from-Chain (r ∷ rs) prev last n k m e = elim (Bool-cases (links h r prev n)) [
    | inl t ↦
        let found = verify_from-Chain rs r.entry_hash last (n + 1) (k + 1) m (ground arith) in
        ((links-IsLinked r prev n t, found.0), omega arith)
    | inr f ↦ cc
  ]

  pub Chain-verify_from :
      (rs : List LedgerRecord) (prev last : String) (n k : ℕ)
      → Chain prev n rs last
      → verify_from h rs prev n k ≡ ok (last, k + length rs)
  unfolding verify_from
  Chain-verify_from [] prev last n k c = ground arith
  Chain-verify_from (r ∷ rs) prev last n k c =
      rw (IsLinked-links r prev n c.0)
        (ground (arith, Chain-verify_from rs r.entry_hash last (n + 1) (k + 1) c.1))

  -- A freshly sealed record is linked.
  pub seal-IsLinked : (n : ℕ) (e : Event) (prev : String) → IsLinked (seal h n e prev) prev n
  unfolding seal header
  seal-IsLinked n e prev = record {
    at_seq = refl;
    at_prev = refl;
    holds_content = refl;
    holds_header = refl;
  }

  pub Chain-append :
      (rs : List LedgerRecord) (prev last : String) (n k : ℕ) (e : Event)
      → k ≡ n + length rs
      → Chain prev n rs last
      → Chain prev n (rs ++ seal h k e last ∷ []) (seal h k e last).entry_hash
  Chain-append [] prev last n k e at c =
      let n_is_k : n ≡ k = omega arith in (rw (c, n_is_k) (seal-IsLinked k e last), refl)
  Chain-append (r ∷ rs) prev last n k e at c =
      (c.0, Chain-append rs r.entry_hash last (n + 1) k e (omega arith) c.1)

  -- The anchors that a caller pins, where there are any.
  abbrev pub Pinned {ℓ} : {A : Type ℓ} → Option A → A → Type ℓ
  Pinned none a = Unit
  Pinned (some x) a = a ≡ x

  check_anchor_iff :
      (count : Option ℕ) (head : Option String) (last : String) (m n : ℕ)
      → (check_anchor count head (last, m) ≡ ok n) ↔ ((m ≡ n) × Pinned count n × Pinned head last)
  unfolding check_anchor
  check_anchor_iff none none last m n = (λ e. ground arith, λ e. ground arith)
  check_anchor_iff (some c) none last m n = (λ e. ground arith, λ e. ground arith)
  check_anchor_iff none (some x) last m n =
      (λ e. ground (arith, eq_iff last x), λ e. ground (arith, eq_iff last x))
  check_anchor_iff (some c) (some x) last m n =
      (λ e. ground (arith, eq_iff last x), λ e. ground (arith, eq_iff last x))

  -- The check passes exactly when the records form a chain from the genesis hash that fits the
  -- anchors, and it returns how many records there are.
  pub verify_chain_iff :
      (rs : List LedgerRecord) (count : Option ℕ) (head : Option String) (n : ℕ)
      → (verify_chain h rs count head ≡ ok n) ↔ (
          (last : String) × Chain genesis_hash 1 rs last
          × (length rs ≡ n)
          × Pinned count n
          × Pinned head last)
  unfolding verify_chain
  verify_chain_iff rs count head n = (into (verify_from h rs genesis_hash 1 0) refl, back)
    where
      into :
          (r : Result (String × ℕ))
          → verify_from h rs genesis_hash 1 0 ≡ r
          → (elim r [ ok found ↦ check_anchor count head found | err e ↦ err e ]) ≡ ok n
          → (last : String) × Chain genesis_hash 1 rs last
            × (length rs ≡ n)
            × Pinned count n
            × Pinned head last
      into (err e) p q = cc
      into (ok (last, m)) p q =
          let chain = verify_from-Chain rs genesis_hash last 1 0 m p in
          let fits = (check_anchor_iff count head last m n).0 q in
          (last, chain.0, omega arith, fits.1, fits.2)

      back :
          ((last : String) × Chain genesis_hash 1 rs last
            × (length rs ≡ n)
            × Pinned count n
            × Pinned head last)
          → verify_chain h rs count head ≡ ok n
      back (last, chain, len, c, x) =
          rw (Chain-verify_from rs genesis_hash last 1 0 chain, verify_chain)
            ((check_anchor_iff count head last (0 + length rs) n).1 (omega arith, c, x))
