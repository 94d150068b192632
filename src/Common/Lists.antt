-- ===== src/Common/Lists.antt =====
-- Lists measured by native numbers, Boolean searches, and a predicate on all items.
use Prim.Native.Nat.{ℕ, zero, suc, ◌+◌, ◌≤◌, ◌<◌}
use Prim.Native.String.{String}
use mathlib.Core.Path.{◌≡◌, refl, ap, sym, ◌∙◌, subst}
use mathlib.Core.Logic.{◌↔◌, inl, inr}
use mathlib.Core.Bool.{Bool, true, false, ◌&&◌, ◌||◌}
use mathlib.Core.List.{List, [], ◌∷◌, ◌++◌}
use native.Mathlib.Omega.{arith}
use text.Mathlib.Text.{◌==◌}
use epistemos.Common.Tests.{if◌then◌else◌, Bool-cases}

module _ {ℓ} {A : Type ℓ} where
  abbrev pub length : List A → ℕ
  length [] = 0
  length (x ∷ xs) = suc (length xs)

  abbrev pub drop : ℕ → List A → List A
  drop zero xs = xs
  drop (suc n) [] = []
  drop (suc n) (x ∷ xs) = drop n xs

  abbrev pub take : ℕ → List A → List A
  take zero xs = []
  take (suc n) [] = []
  take (suc n) (x ∷ xs) = x ∷ take n xs

  abbrev pub any : (A → Bool) → List A → Bool
  any p [] = false
  any p (x ∷ xs) = p x || any p xs

  abbrev pub all : (A → Bool) → List A → Bool
  all p [] = true
  all p (x ∷ xs) = p x && all p xs

  abbrev pub filter : (A → Bool) → List A → List A
  filter p [] = []
  filter p (x ∷ xs) = let rest = filter p xs in if p x then x ∷ rest else rest

  pub length-append : (xs ys : List A) → length (xs ++ ys) ≡ length xs + length ys
  length-append [] ys = omega arith
  length-append (x ∷ xs) ys = omega (arith, length-append xs ys)

  pub take-length-append : (xs ys : List A) → take (length xs) (xs ++ ys) ≡ xs
  take-length-append [] ys = refl
  take-length-append (x ∷ xs) ys = ap (λ t. x ∷ t) (take-length-append xs ys)

-- A predicate that holds of every item.
abbrev pub All {ℓ κ} : {A : Type ℓ} → (A → Type κ) → List A → Type κ
All P [] = Unit
All P (x ∷ xs) = P x × All P xs

abbrev pub contains : String → List String → Bool
contains s xs = any (λ x. x == s) xs

-- An item of the list.
pub data Among {ℓ} {A : Type ℓ} (x : A) : List A → Type ℓ where
  here : {y : A} {ys : List A} → x ≡ y → Among x (y ∷ ys)
  there : {y : A} {ys : List A} → Among x ys → Among x (y ∷ ys)

module _ {ℓ} {A : Type ℓ} (p : A → Bool) where
  Among-any : (x : A) (xs : List A) → Among x xs → p x ≡ true → any p xs ≡ true
  Among-any x [] m h = elim m [ ]
  Among-any x (y ∷ ys) (here e) h = rw (sym (ap p e), h) refl
  Among-any x (y ∷ ys) (there m) h = ground (arith, Among-any x ys m h)

  any-Among : (xs : List A) → any p xs ≡ true → (x : A) × Among x xs × (p x ≡ true)
  any-Among [] h = cc
  any-Among (y ∷ ys) h = elim (Bool-cases (p y)) [
    | inl on ↦ (y, here refl, on)
    | inr off ↦ let (x, m, at) = any-Among ys (rw off at h) in (x, there m, at)
  ]

  -- A search sees only which items there are.
  pub any-same : (xs ys : List A) → ((x : A) → Among x xs ↔ Among x ys) → any p xs ≡ any p ys
  any-same xs ys same = elim (Bool-cases (any p xs)) [
    | inl on ↦ let (x, m, at) = any-Among xs on in rw on (sym (Among-any x ys ((same x).0 m) at))
    | inr off ↦ elim (Bool-cases (any p ys)) [
      | inl found ↦
          let (x, m, at) = any-Among ys found in cc (Among-any x xs ((same x).1 m) at, off)
      | inr neither ↦ rw (off, neither) refl
    ]
  ]

-- A filter keeps the items that pass its test.
pub Among-filter {ℓ} :
    {A : Type ℓ} (keep : A → Bool) (f : A) (rows : List A)
    → Among f (filter keep rows) ↔ (Among f rows × (keep f ≡ true))
Among-filter keep f [] = (λ m. elim m [ ], λ (m, _). elim m [ ])
Among-filter keep f (r ∷ rows) =
    let rest = Among-filter keep f rows in
    elim (Bool-cases (keep r)) [
      | inl on ↦ rw on (
        λ m. elim m [
          | here at ↦ (here at, ap keep at ∙ on)
          | there m' ↦ let (among, k) = rest.0 m' in (there among, k)
        ],
        λ (m, k). elim m [ here at ↦ here at | there m' ↦ there (rest.1 (m', k)) ],
      )
      | inr off ↦ rw off (
        λ m. let (among, k) = rest.0 m in (there among, k),
        λ (m, k). elim m [
          | here at ↦ cc (sym off ∙ ap keep (sym at) ∙ k)
          | there m' ↦ rest.1 (m', k)
        ],
      )
    ]

pub All-map {ℓ κ μ} :
    {A : Type ℓ} (P : A → Type κ) (Q : A → Type μ)
    → ((x : A) → P x → Q x)
    → (xs : List A) → All P xs
    → All Q xs
All-map P Q f [] all = tt
All-map P Q f (x ∷ xs) all = (f x all.0, All-map P Q f xs all.1)

pub All-take {ℓ κ} :
    {A : Type ℓ} (P : A → Type κ) (n : ℕ) (xs : List A) → All P xs → All P (take n xs)
All-take P zero xs all = tt
All-take P (suc n) [] all = tt
All-take P (suc n) (x ∷ xs) all = (all.0, All-take P n xs all.1)

pub length-take-le {ℓ} : {A : Type ℓ} (n : ℕ) (xs : List A) → length (take n xs) ≤ n
length-take-le zero xs = omega arith
length-take-le (suc n) [] = omega arith
length-take-le (suc n) (x ∷ xs) = omega (arith, length-take-le n xs)

pub All-Among {ℓ κ} :
    {A : Type ℓ} (P : A → Type κ) (x : A) (xs : List A) → All P xs → Among x xs → P x
All-Among P x [] all m = elim m [ ]
All-Among P x (y ∷ ys) all (here at) = subst P (sym at) all.0
All-Among P x (y ∷ ys) all (there m) = All-Among P x ys all.1 m

pub Among-All {ℓ κ} :
    {A : Type ℓ} (P : A → Type κ) (xs : List A) → ((x : A) → Among x xs → P x) → All P xs
Among-All P [] f = tt
Among-All P (x ∷ xs) f = (f x (here refl), Among-All P xs (λ y m. f y (there m)))

-- Where there are fewer than n, the first n are all.
pub take-short {ℓ} : {A : Type ℓ} (n : ℕ) (xs : List A) → length (take n xs) < n → take n xs ≡ xs
take-short zero xs few = absurd (omega (arith, few))
take-short (suc n) [] few = refl
take-short (suc n) (x ∷ xs) few = ap (λ t. x ∷ t) (take-short n xs (omega (arith, few)))

pub Among-of-take {ℓ} :
    {A : Type ℓ} (n : ℕ) (x : A) (xs : List A) → Among x (take n xs) → Among x xs
Among-of-take zero x xs m = elim m [ ]
Among-of-take (suc n) x [] m = elim m [ ]
Among-of-take (suc n) x (y ∷ ys) (here at) = here at
Among-of-take (suc n) x (y ∷ ys) (there m) = there (Among-of-take n x ys m)
