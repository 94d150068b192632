-- ===== src/Retrieval/Scan/Ranked.antt =====
-- retrieval/__init__.py: the order of the results.
use epistemos.Common.{
  ℕ, zero, suc, ◌≡◌, inl, inr, true, false, List, [], ◌∷◌, All, arith, take, codes, Bool-cases,
}
use epistemos.Host.{float_lt}
use epistemos.Temporal.Order.{codes_asym}
use epistemos.Retrieval.Shown.{Retrieved}
use epistemos.Retrieval.Scan.{ranks_below, insert_ranked, sort_ranked}

-- No result ranks below the one after it.
abbrev pub IsRanked : List Retrieved → Type 0
IsRanked [] = Unit
IsRanked (a ∷ []) = Unit
IsRanked (a ∷ b ∷ results) = (ranks_below a b ≡ false) × IsRanked (b ∷ results)

float_asym : (a b : ℕ) → float_lt a b ≡ true → float_lt b a ≡ false
unfolding float_lt
float_asym a b e = ground arith

ranks_asym : (a b : Retrieved) → ranks_below a b ≡ true → ranks_below b a ≡ false
unfolding ranks_below
ranks_asym a b e = ground (
  arith,
  float_asym a.score b.score,
  float_asym b.score a.score,
  codes_asym (codes a.id) (codes b.id),
)

insert_behind :
    (q r : Retrieved) (results : List Retrieved)
    → ranks_below q r ≡ false
    → IsRanked (q ∷ results)
    → IsRanked (insert_ranked r results)
    → IsRanked (q ∷ insert_ranked r results)
unfolding insert_ranked
insert_behind q r [] above ranked more = (above, tt)
insert_behind q r (s ∷ results) above ranked more = elim (Bool-cases (ranks_below r s)) [
  | inl below ↦ rw below (ranked.0, rw (insert_ranked, below) at more)
  | inr not_below ↦ rw not_below (above, rw (insert_ranked, not_below) at more)
]

tail_of : (q : Retrieved) (results : List Retrieved) → IsRanked (q ∷ results) → IsRanked results
tail_of q [] ranked = tt
tail_of q (s ∷ results) ranked = ranked.1

insert_ranked-IsRanked :
    (r : Retrieved) (results : List Retrieved)
    → IsRanked results
    → IsRanked (insert_ranked r results)
unfolding insert_ranked
insert_ranked-IsRanked r [] ranked = tt
insert_ranked-IsRanked r (q ∷ results) ranked = elim (Bool-cases (ranks_below r q)) [
  | inl below ↦ rw below (
      insert_behind q r results (ranks_asym r q below) ranked
        (insert_ranked-IsRanked r results (tail_of q results ranked)))
  | inr above ↦ rw above (above, ranked)
]

pub sort_ranked-IsRanked : (results : List Retrieved) → IsRanked (sort_ranked results)
unfolding sort_ranked
sort_ranked-IsRanked [] = tt
sort_ranked-IsRanked (r ∷ results) =
    insert_ranked-IsRanked r (sort_ranked results) (sort_ranked-IsRanked results)

pub take-IsRanked :
    (n : ℕ) (results : List Retrieved) → IsRanked results → IsRanked (take n results)
take-IsRanked zero results ranked = tt
take-IsRanked (suc n) [] ranked = tt
take-IsRanked (suc zero) (a ∷ []) ranked = tt
take-IsRanked (suc (suc n)) (a ∷ []) ranked = tt
take-IsRanked (suc zero) (a ∷ b ∷ results) ranked = tt
take-IsRanked (suc (suc n)) (a ∷ b ∷ results) ranked =
    (ranked.0, take-IsRanked (suc n) (b ∷ results) ranked.1)

-- Sorting keeps what holds of every result.
insert_ranked-All :
    (P : Retrieved → Type 0) (r : Retrieved) (results : List Retrieved)
    → P r
    → All P results
    → All P (insert_ranked r results)
unfolding insert_ranked
insert_ranked-All P r [] pr all = (pr, tt)
insert_ranked-All P r (q ∷ results) pr all = elim (Bool-cases (ranks_below r q)) [
  | inl below ↦ rw below (all.0, insert_ranked-All P r results pr all.1)
  | inr above ↦ rw above (pr, all)
]

pub sort_ranked-All :
    (P : Retrieved → Type 0) (results : List Retrieved)
    → All P results
    → All P (sort_ranked results)
unfolding sort_ranked
sort_ranked-All P [] all = tt
sort_ranked-All P (r ∷ results) all =
    insert_ranked-All P r (sort_ranked results) all.0 (sort_ranked-All P results all.1)
