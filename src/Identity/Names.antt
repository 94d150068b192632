-- ===== src/Identity/Names.antt =====
-- identity/__init__.py: which names are valid.
use epistemos.Common.{
  ℕ, ◌≤◌, ◌≡◌, refl, true, false, List, [], ◌∷◌, arith, length, any, all, All, Bool-cases, inl, inr,
  String, ◌↔◌, codes, sym, ◌==◌, subst, eq_iff,
}
use epistemos.Result.{ok_injective}
use epistemos.Identity.{
  is_alnum, is_name_char, is_unsafe, has_dots, matches_name, safe_name, validate_name, str, ok,
}

-- The shape of a name: a letter or digit, at most 127 more characters, each a letter, a digit or one
-- of _ . - : , and no two dots in a row.
abbrev pub IsName : List ℕ → Type 0
IsName [] = ⊥
IsName (c ∷ cs) =
    (is_alnum c ≡ true)
    × All (λ x. is_name_char x ≡ true) cs
    × (length cs ≤ 127)
    × (has_dots (c ∷ cs) ≡ false)

-- A character of a name is none of the unsafe ones.
name_char_safe : (c : ℕ) → is_name_char c ≡ true → is_unsafe c ≡ false
name_char_safe c h = ground arith

all-All : (cs : List ℕ) → all is_name_char cs ≡ true → All (λ x. is_name_char x ≡ true) cs
all-All [] h = tt
all-All (c ∷ cs) h = elim (Bool-cases (is_name_char c)) [
  | inl e ↦ (e, all-All cs (rw e at h))
  | inr e ↦ cc (rw e at h)
]

All-all : (cs : List ℕ) → All (λ x. is_name_char x ≡ true) cs → all is_name_char cs ≡ true
All-all [] h = refl
All-all (c ∷ cs) h = rw h.0 (All-all cs h.1)

names_safe : (cs : List ℕ) → All (λ x. is_name_char x ≡ true) cs → any is_unsafe cs ≡ false
names_safe [] h = refl
names_safe (c ∷ cs) h = rw (name_char_safe c h.0) (names_safe cs h.1)

alnum_name_char : (c : ℕ) → is_alnum c ≡ true → is_name_char c ≡ true
alnum_name_char c h = rw h

safe_name-IsName : (cs : List ℕ) → safe_name cs ≡ true → IsName cs
unfolding safe_name matches_name
safe_name-IsName [] h = cc
safe_name-IsName (c ∷ cs) h = elim (Bool-cases (has_dots (c ∷ cs))) [
  | inl dots ↦ cc (rw dots at h)
  | inr plain ↦ elim (Bool-cases (any is_unsafe (c ∷ cs))) [
    | inl bad ↦ cc (rw (plain, bad) at h)
    | inr good ↦
        let m : matches_name (c ∷ cs) ≡ true = rw (plain, good) at h in
        (ground arith, all-All cs (ground arith), ground arith, plain)
  ]
]

IsName-safe_name : (cs : List ℕ) → IsName cs → safe_name cs ≡ true
unfolding safe_name matches_name
IsName-safe_name [] h = absurd h
IsName-safe_name (c ∷ cs) h =
    let first : is_alnum c ≡ true = h.0 in
    let unsafe : any is_unsafe (c ∷ cs) ≡ false =
      names_safe (c ∷ cs) (alnum_name_char c first, h.1) in
    rw (h.3, unsafe, first, All-all cs h.1) (ground arith)

name_not_empty : (s : String) → IsName (codes s) → (s == "") ≡ false
name_not_empty s h = elim (Bool-cases (s == "")) [
  | inl e ↦ absurd (subst (λ t. IsName (codes t)) ((eq_iff s "").0 e) h)
  | inr e ↦ e
]

accepted : (s v : String) → validate_name (str s) ≡ ok v → (v ≡ s) × IsName (codes s)
unfolding validate_name
accepted s v e = elim (Bool-cases (s == "")) [
  | inl b ↦ cc (rw b at e)
  | inr b ↦ elim (Bool-cases (safe_name (codes s))) [
    | inl g ↦ (sym (ok_injective (rw (b, g) at e)), safe_name-IsName (codes s) g)
    | inr g ↦ cc (rw (b, g) at e)
  ]
]

accepts : (s v : String) → (v ≡ s) × IsName (codes s) → validate_name (str s) ≡ ok v
unfolding validate_name
accepts s v h = rw (h.0, name_not_empty s h.1, IsName-safe_name (codes s) h.1) refl

-- A text is accepted as a name exactly when it has the shape of one, and then it is given back.
pub validate_name_iff :
    (s v : String) → (validate_name (str s) ≡ ok v) ↔ ((v ≡ s) × IsName (codes s))
validate_name_iff s v = (λ e. accepted s v e, λ h. accepts s v h)
