-- ===== src/Context/Pack/Budget.antt =====
-- context/builder.py: what packing keeps, and what it may spend.
use Prim.Native.Nat.{◌/◌}
use epistemos.Common.{
  ℕ, ◌+◌, ◌≤◌, ◌≡◌, ◌↔◌, ◌⊎◌, refl, ap, ◌∙◌, ◌-◌, Bool, true, false, String, List, [], ◌∷◌, ◌||◌,
  Among, here, there, inl, inr, arith, Bool-cases, leb→le, if◌then◌else◌, leb,
}
use epistemos.Host.{ℤ, pos}
use epistemos.Context.Pack.{
  EnvelopeItem, goes_before, insert_item, sort_items, is_critical, effective_budget, fits, Packed,
  pack_from, pack,
}

Among-insert :
    (x i : EnvelopeItem) (items : List EnvelopeItem)
    → Among x (insert_item i items) ↔ Among x (i ∷ items)
unfolding insert_item
Among-insert x i [] = (λ m. m, λ m. m)
Among-insert x i (j ∷ items) = elim (Bool-cases (goes_before j i)) [
  | inl ahead ↦
      let rest = Among-insert x i items in
      rw ahead (
        λ m. elim m [
          | here at ↦ there (here at)
          | there m' ↦ elim (rest.0 m') [ here at ↦ here at | there n ↦ there (there n) ]
        ],
        λ m. elim m [
          | here at ↦ there (rest.1 (here at))
          | there m' ↦ elim m' [ here at ↦ here at | there n ↦ there (rest.1 (there n)) ]
        ],
      )
  | inr after ↦ rw after (λ m. m, λ m. m)
]

-- Sorting keeps the items.
pub Among-sort_items :
    (x : EnvelopeItem) (items : List EnvelopeItem) → Among x (sort_items items) ↔ Among x items
unfolding sort_items
Among-sort_items x [] = (λ m. m, λ m. m)
Among-sort_items x (i ∷ items) =
    let rest = Among-sort_items x items in
    let first = Among-insert x i (sort_items items) in
    (
      λ m. elim (first.0 m) [ here at ↦ here at | there n ↦ there (rest.0 n) ],
      λ m. first.1 (elim m [ here at ↦ here at | there n ↦ there (rest.1 n) ]),
    )

right_false : (a b : Bool) → (a || b) ≡ false → b ≡ false
right_false true b e = cc
right_false false b e = e

or_true : (a : Bool) → (a || true) ≡ true
or_true true = refl
or_true false = refl

module _ (pinned : List String) where
  -- The tokens of the items that are not critical.
  abbrev pub spare_tokens : List EnvelopeItem → ℕ
  spare_tokens [] = 0
  spare_tokens (i ∷ items) =
      if is_critical pinned i then spare_tokens items else i.tokens + spare_tokens items

  -- Each item is chosen, or it is dropped and is not critical.
  abbrev pub Sorted : EnvelopeItem → Packed → Type 0
  Sorted i r = Among i r.chosen ⊎ (Among i r.dropped × (is_critical pinned i ≡ false))

  pack_from-Sorted :
      (effective : ℤ) (used : ℕ) (items : List EnvelopeItem) (x : EnvelopeItem)
      → Among x items
      → Sorted x (pack_from effective pinned used items)
  unfolding pack_from
  pack_from-Sorted effective used [] x m = elim m [ ]
  pack_from-Sorted effective used (i ∷ items) x m =
      let kept = pack_from-Sorted effective (used + i.tokens) items x in
      let passed = pack_from-Sorted effective used items x in
      elim (Bool-cases (fits (used + i.tokens) effective || is_critical pinned i)) [
        | inl stays ↦ rw stays (elim m [
          | here at ↦ inl (here at)
          | there n ↦ elim (kept n) [ inl c ↦ inl (there c) | inr d ↦ inr d ]
        ])
        | inr goes ↦ rw goes (elim m [
          | here at ↦ inr (here at, ap (is_critical pinned) at ∙ right_false _ _ goes)
          | there n ↦ elim (passed n) [ inl c ↦ inl c | inr (d, spare) ↦ inr (there d, spare) ]
        ])
      ]

  pack_from-spent :
      (limit used : ℕ) (items : List EnvelopeItem)
      → spare_tokens (pack_from (pos limit) pinned used items).chosen ≤ limit - used
  unfolding pack_from
  pack_from-spent limit used [] = omega arith
  pack_from-spent limit used (i ∷ items) =
      let kept = pack_from-spent limit (used + i.tokens) items in
      let passed = pack_from-spent limit used items in
      elim (Bool-cases (is_critical pinned i)) [
        | inl critical ↦
            rw (critical, or_true (leb (used + i.tokens) limit), critical) (omega (arith, kept))
        | inr spare ↦ elim (Bool-cases (leb (used + i.tokens) limit)) [
          | inl room ↦
              rw (spare, room, spare) (omega (arith, kept, leb→le (used + i.tokens) limit room))
          | inr full ↦ rw (spare, full) passed
        ]
      ]

  -- Packing loses no item, and drops none that is critical, by its role or as a pinned
  -- contradiction, whatever the budget: each item is chosen, or it is dropped and is not critical.
  pub pack-Sorted :
      (items : List EnvelopeItem) (budget : ℤ) (continuation : Bool) (x : EnvelopeItem)
      → Among x items
      → Sorted x (pack items budget continuation pinned)
  unfolding pack
  pack-Sorted items budget continuation x m =
      pack_from-Sorted (effective_budget budget continuation) 0 (sort_items items) x
        ((Among-sort_items x items).1 m)

  -- Packing spends no more than the budget on the items that are not critical, and no more than half
  -- of it when a continuation is asked for.
  pub pack_spent :
      (items : List EnvelopeItem) (budget : ℕ)
      → spare_tokens (pack items (pos budget) false pinned).chosen ≤ budget
        × spare_tokens (pack items (pos budget) true pinned).chosen ≤ budget / 2
  unfolding pack effective_budget
  pack_spent items budget = (
    omega (arith, pack_from-spent budget 0 (sort_items items)),
    omega (arith, pack_from-spent (budget / 2) 0 (sort_items items)),
  )
