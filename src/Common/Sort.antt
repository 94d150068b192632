-- ===== src/Common/Sort.antt =====
-- Python's sort by a strict order: it is stable, so of two items that the order does not tell apart
-- the first stays first.
use Prim.Native.Nat.{ℕ, zero, suc}
use mathlib.Core.Path.{◌≡◌}
use mathlib.Core.Logic.{◌↔◌, ◌⊎◌, inl, inr}
use mathlib.Core.Bool.{Bool, true, false}
use mathlib.Core.List.{List, [], ◌∷◌}
use epistemos.Common.Tests.{if◌then◌else◌, Bool-cases}
use epistemos.Common.Lists.{All, All-take, All-Among, Among, here, there, take}

module _ {ℓ} {A : Type ℓ} (before : A → A → Bool) where
  unfoldable pub insert_by : A → List A → List A
  insert_by r [] = r ∷ []
  insert_by r (q ∷ rows) =
      let rest = insert_by r rows in if before q r then q ∷ rest else r ∷ q ∷ rows

  unfoldable pub sort_by : List A → List A
  sort_by [] = []
  sort_by (r ∷ rows) = insert_by r (sort_by rows)

  -- No item is before one that stands ahead of it.
  abbrev pub IsSortedBy : List A → Type ℓ
  IsSortedBy [] = Unit
  IsSortedBy (r ∷ rows) = All (λ q. before q r ≡ false) rows × IsSortedBy rows

  Among-insert : (d r : A) (rows : List A) → Among d (insert_by r rows) ↔ Among d (r ∷ rows)
  unfolding insert_by
  Among-insert d r [] = (λ m. m, λ m. m)
  Among-insert d r (q ∷ rows) = elim (Bool-cases (before q r)) [
    | inl ahead ↦
        let rest = Among-insert d r rows in
        rw ahead (
          λ m. elim m [
            | here at ↦ there (here at)
            | there m' ↦ elim (rest.0 m') [ here at ↦ here at | there m'' ↦ there (there m'') ]
          ],
          λ m. elim m [
            | here at ↦ there (rest.1 (here at))
            | there m' ↦ elim m' [ here at ↦ here at | there m'' ↦ there (rest.1 (there m'')) ]
          ],
        )
    | inr after ↦ rw after (λ m. m, λ m. m)
  ]

  -- Sorting keeps the items.
  pub Among-sort : (d : A) (rows : List A) → Among d (sort_by rows) ↔ Among d rows
  unfolding sort_by
  Among-sort d [] = (λ m. m, λ m. m)
  Among-sort d (r ∷ rows) =
      let rest = Among-sort d rows in
      let first = Among-insert d r (sort_by rows) in
      (
        λ m. elim (first.0 m) [ here at ↦ here at | there m' ↦ there (rest.0 m') ],
        λ m. first.1 (elim m [ here at ↦ here at | there m' ↦ there (rest.1 m') ]),
      )

  insert_all :
      (P : A → Type 0) (r : A) (rows : List A) → P r → All P rows → All P (insert_by r rows)
  unfolding insert_by
  insert_all P r [] pr all = (pr, tt)
  insert_all P r (q ∷ rows) pr all = elim (Bool-cases (before q r)) [
    | inl ahead ↦ rw ahead (all.0, insert_all P r rows pr all.1)
    | inr after ↦ rw after (pr, all)
  ]

  -- What a prefix of a sorted list leaves out is before nothing in the prefix.
  pub Among-take :
      (n : ℕ) (d : A) (rows : List A)
      → IsSortedBy rows
      → Among d rows
      → Among d (take n rows) ⊎ All (λ q. before d q ≡ false) (take n rows)
  Among-take zero d rows sorted m = inr tt
  Among-take (suc n) d [] sorted m = elim m [ ]
  Among-take (suc n) d (r ∷ rows) sorted (here at) = inl (here at)
  Among-take (suc n) d (r ∷ rows) sorted (there m) = elim (Among-take n d rows sorted.1 m) [
    | inl kept ↦ inl (there kept)
    | inr above ↦ inr (All-Among (λ q. before q r ≡ false) d rows sorted.0 m, above)
  ]

  pub IsSortedBy-take : (n : ℕ) (rows : List A) → IsSortedBy rows → IsSortedBy (take n rows)
  IsSortedBy-take zero rows sorted = tt
  IsSortedBy-take (suc n) [] sorted = tt
  IsSortedBy-take (suc n) (r ∷ rows) sorted =
      (All-take (λ q. before q r ≡ false) n rows sorted.0, IsSortedBy-take n rows sorted.1)

module _ {ℓ} {A : Type ℓ} (before : A → A → Bool)
    (asym : (q r : A) → before q r ≡ true → before r q ≡ false)
    (not_before_trans : (x q r : A)
      → before x q ≡ false
      → before q r ≡ false
      → before x r ≡ false) where
  not_before_all :
      (q r : A) (rows : List A)
      → before q r ≡ false
      → All (λ x. before x q ≡ false) rows
      → All (λ x. before x r ≡ false) rows
  not_before_all q r [] qr all = tt
  not_before_all q r (x ∷ rows) qr all =
      (not_before_trans x q r all.0 qr, not_before_all q r rows qr all.1)

  insert_by-IsSortedBy :
      (r : A) (rows : List A) → IsSortedBy before rows → IsSortedBy before (insert_by before r rows)
  unfolding insert_by
  insert_by-IsSortedBy r [] o = (tt, tt)
  insert_by-IsSortedBy r (q ∷ rows) o = elim (Bool-cases (before q r)) [
    | inl ahead ↦ rw ahead (
      insert_all before (λ x. before x q ≡ false) r rows (asym q r ahead) o.0,
      insert_by-IsSortedBy r rows o.1,
    )
    | inr after ↦ rw after ((after, not_before_all q r rows after o.0), o)
  ]

  pub sort_by-IsSortedBy : (rows : List A) → IsSortedBy before (sort_by before rows)
  unfolding sort_by
  sort_by-IsSortedBy [] = tt
  sort_by-IsSortedBy (r ∷ rows) =
      insert_by-IsSortedBy r (sort_by before rows) (sort_by-IsSortedBy rows)
