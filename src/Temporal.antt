-- ===== src/Temporal.antt =====
-- temporal/__init__.py: the two time axes, what the system believed at an instant, and which of
-- several believed facts is the current one.
pub mod AsOf
pub mod Order
pub mod Current
pub mod Closing
use epistemos.Common.{
  ℕ, String, Bool, true, false, not, Option, none, some, List, [], ◌∷◌, ◌&&◌, ◌||◌, ltb, leb,
  text_lt, if◌then◌else◌,
}
use epistemos.Result.{Result, ok, err, type_error, ◌>>=◌}
use epistemos.Json.{Json, null, str, float, Fields, is_null}
use epistemos.Json.Dict.{get, get_or}
use epistemos.Host.{Host, parse_instant, float_lt, one}
use epistemos.Model.{truthy}

abbrev at_or_after : Option ℕ → ℕ → Bool
at_or_after none instant = true
at_or_after (some lo) instant = leb lo instant

abbrev before : Option ℕ → ℕ → Bool
before none instant = true
before (some hi) instant = ltb instant hi

-- What `max` compares: trust, confidence, transaction time and id.
pub record Rank : Type 0 where
  pub trust : ℕ
  pub confidence : ℕ
  pub tx_from : String
  pub id : String

-- a < b on the tuples. Trust and confidence are not NaN: canonical JSON refuses it in an event.
unfoldable pub rank_lt : Rank → Rank → Bool
rank_lt a b =
    if float_lt a.trust b.trust
    then true
    else if float_lt b.trust a.trust
    then false
    else if float_lt a.confidence b.confidence
    then true
    else if float_lt b.confidence a.confidence
    then false
    else if text_lt a.tx_from b.tx_from
    then true
    else if text_lt b.tx_from a.tx_from
    then false
    else text_lt a.id b.id

-- max(candidates, key=...): the first of the greatest.
unfoldable pub greatest : Rank × Fields → List (Rank × Fields) → Rank × Fields
greatest best [] = best
greatest (k, f) ((l, g) ∷ more) =
    let kept = greatest (k, f) more in
    let moved = greatest (l, g) more in if rank_lt k l then moved else kept

module _ (h : Host) where
  -- `instant_in_interval`
  unfoldable pub instant_in_interval : ℕ → Json → Json → Result Bool
  instant_in_interval instant lo hi = do
    lo_dt ← parse_instant h lo
    hi_dt ← parse_instant h hi
    ok (at_or_after lo_dt instant && before hi_dt instant)

  -- parse_instant(instant) if instant is not None else now_utc()
  abbrev pub or_now : ℕ → Json → Result ℕ
  or_now now instant = do when ← parse_instant h instant; ok (elim when [ none ↦ now | some t ↦ t ])

  -- `instant` is null for None, which stands for now.
  unfoldable pub valid_at : ℕ → Fields → Json → Result Bool
  valid_at now fact instant = do
    when ← or_now now instant
    instant_in_interval when (get "valid_from" fact) (get "valid_to" fact)

  unfoldable pub believed_at : ℕ → Fields → Json → Result Bool
  believed_at now fact instant = do
    when ← or_now now instant
    instant_in_interval when (get "tx_from" fact) (get "tx_to" fact)

  -- Now means that the interval is still open.
  unfoldable pub believed : ℕ → Fields → Json → Result Bool
  believed now fact null = ok (is_null (get "tx_to" fact))
  believed now fact at_tx = believed_at now fact at_tx

  -- The two tests that a fact passes to be kept.
  unfoldable pub holds : ℕ → Json → Json → Bool → Fields → Result Bool
  holds now at_tx at_valid believed_only f = do
    b ← if believed_only then believed now f at_tx else ok true
    if not b then ok false else if is_null at_valid then ok true else valid_at now f at_valid

  unfoldable pub as_of : ℕ → Json → Json → Bool → List Fields → Result (List Fields)
  as_of now at_tx at_valid believed_only [] = ok []
  as_of now at_tx at_valid believed_only (f ∷ facts) = do
    keep ← holds now at_tx at_valid believed_only f
    out ← as_of now at_tx at_valid believed_only facts
    ok (if keep then f ∷ out else out)

  -- float(value)
  unfoldable pub float_of : Json → Result ℕ
  float_of v = elim (h.to_float v) [ none ↦ err type_error | some f ↦ ok f ]

  -- str(value or "")
  abbrev pub text_or_empty : Json → String
  text_or_empty (str s) = s
  text_or_empty v = if truthy v then h.to_str v else ""

  module _ (trust_of : Fields → Result ℕ) where
    -- `_rank_key`, with a trust_of
    unfoldable pub rank_key : Fields → Result Rank
    rank_key fact = do
      trust ← trust_of fact
      confidence ← float_of (get_or "confidence" (float one) fact)
      ok (record {
        trust = trust;
        confidence = confidence;
        tx_from = text_or_empty (get "tx_from" fact);
        id = text_or_empty (get "id" fact);
      })

    unfoldable pub rank_keys : List Fields → Result (List (Rank × Fields))
    rank_keys [] = ok []
    rank_keys (f ∷ facts) = do k ← rank_key f; ks ← rank_keys facts; ok ((k, f) ∷ ks)

    -- A winner without an object says that the relation ended.
    unfoldable pub winner : List (Rank × Fields) → Option Fields
    winner [] = none
    winner (c ∷ cs) =
        let best = greatest c cs in if is_null (get "object" best.1) then none else some best.1

    unfoldable pub resolve_current : ℕ → Json → Json → List Fields → Result (Option Fields)
    resolve_current now at_valid at_tx facts = do
      candidates ← as_of now at_tx at_valid true facts
      ranked ← rank_keys candidates
      ok (winner ranked)
