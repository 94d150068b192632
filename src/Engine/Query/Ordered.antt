-- ===== src/Engine/Query/Ordered.antt =====
-- core/__init__.py: the order of the timeline's rows.
use epistemos.Common.{
  ℕ, ◌<◌, ◌≤◌, ◌≡◌, ◌↔◌, ◌⊎◌, inl, inr, true, false, List, [], ◌∷◌, All, All-map, Bool-cases, ltb,
  Among, arith, IsSortedBy, sort_by-IsSortedBy, Among-sort,
}
use epistemos.Engine.Query.{Dated, is_before, is_earlier, sort_dated}

-- The first key is not below the second, by the transaction instant and then by the valid instant.
abbrev pub NotEarlier : ℕ × ℕ → ℕ × ℕ → Type 0
NotEarlier (a, b) (c, d) = (c < a) ⊎ ((c ≡ a) × (d ≤ b))

-- No row is earlier than a row that stands ahead of it.
abbrev pub IsOrdered : List Dated → Type 0
IsOrdered [] = Unit
IsOrdered (r ∷ rows) = All (λ q. NotEarlier q.0 r.0) rows × IsOrdered rows

not_before-NotEarlier : (q r : ℕ × ℕ) → is_before q r ≡ false → NotEarlier q r
not_before-NotEarlier (a, b) (c, d) e = elim (Bool-cases (ltb c a)) [
  | inl less ↦ inl (ground (arith, less))
  | inr same ↦ inr (ground (arith, same, e), ground (arith, same, e))
]

sorted-IsOrdered : (rows : List Dated) → IsSortedBy is_earlier rows → IsOrdered rows
sorted-IsOrdered [] sorted = tt
sorted-IsOrdered (r ∷ rows) sorted = (
  All-map _ _ (λ q e. not_before-NotEarlier q.0 r.0 e) rows sorted.0,
  sorted-IsOrdered rows sorted.1,
)

not_before_trans :
    (x q r : ℕ × ℕ) → is_before x q ≡ false → is_before q r ≡ false → is_before x r ≡ false
not_before_trans (a, b) (c, d) (e, f) xq qr = ground arith

before_asym : (q r : ℕ × ℕ) → is_before q r ≡ true → is_before r q ≡ false
before_asym (a, b) (c, d) qr = ground arith

pub sort_dated-IsOrdered : (rows : List Dated) → IsOrdered (sort_dated rows)
unfolding sort_dated
sort_dated-IsOrdered rows = sorted-IsOrdered (sort_dated rows) (
    sort_by-IsSortedBy is_earlier (λ q r. before_asym q.0 r.0)
      (λ x q r. not_before_trans x.0 q.0 r.0) rows)

-- Sorting keeps the rows.
pub Among-sort_dated : (d : Dated) (rows : List Dated) → Among d (sort_dated rows) ↔ Among d rows
unfolding sort_dated
Among-sort_dated = Among-sort is_earlier
