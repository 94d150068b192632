-- ===== src/Temporal/Order.antt =====
-- temporal/__init__.py: the order of the tuples that `max` compares.
use epistemos.Common.{
  ℕ, ◌≡◌, refl, String, Bool, true, false, List, [], ◌∷◌, ◌||◌, arith, ltb, nat_eq, codes, codes_lt,
  text_lt, if◌then◌else◌,
}
use epistemos.Host.{float_lt, negative_zero}
use epistemos.Model.{in_unit}
use epistemos.Temporal.{Rank, rank_lt}

-- A strict order on the values that P holds of, for which incomparable values are alike.
pub record IsStrict {A : Type 0} (P : A → Type 0) (lt : A → A → Bool) : Type 0 where
  pub asym : (a b : A) → P a → P b → lt a b ≡ true → lt b a ≡ false
  pub between : (a b c : A) → P a → P b → P c → lt a c ≡ true → (lt a b || lt b c) ≡ true

module _ {A : Type 0} (P : A → Type 0) (f g : A → A → Bool) where
  -- The first order decides, and the second where the first does not.
  abbrev lexical : A → A → Bool
  lexical a b = if f a b then true else if f b a then false else g a b

  lexical-IsStrict : IsStrict P f → IsStrict P g → IsStrict P lexical
  lexical-IsStrict first second = record {
    asym = λ a b pa pb e. ground (arith, first.asym a b pa pb, second.asym a b pa pb);
    between = λ a b c pa pb pc e. ground (
      arith,
      first.asym a b pa pb,
      first.asym b c pb pc,
      first.asym a c pa pc,
      first.between a b c pa pb pc,
      first.between c b a pc pb pa,
      first.between b a c pb pa pc,
      first.between a c b pa pc pb,
      first.between c a b pc pa pb,
      first.between b c a pb pc pa,
      second.between a b c pa pb pc,
    );
  }

pub codes_asym : (xs ys : List ℕ) → codes_lt xs ys ≡ true → codes_lt ys xs ≡ false
codes_asym [] [] e = refl
codes_asym [] (b ∷ ys) e = refl
codes_asym (a ∷ xs') [] e = cc
codes_asym (a ∷ xs') (b ∷ ys) e = ground (arith, codes_asym xs' ys)

pub codes_between :
    (xs ys zs : List ℕ) → codes_lt xs zs ≡ true → (codes_lt xs ys || codes_lt ys zs) ≡ true
codes_between [] [] [] e = cc
codes_between [] [] (c ∷ zs) e = refl
codes_between [] (b ∷ ys) [] e = refl
codes_between [] (b ∷ ys) (c ∷ zs) e = refl
codes_between (a ∷ xs') [] [] e = cc
codes_between (a ∷ xs') [] (c ∷ zs) e = refl
codes_between (a ∷ xs') (b ∷ ys) [] e = cc
codes_between (a ∷ xs') (b ∷ ys) (c ∷ zs) e = ground (arith, codes_between xs' ys zs)

abbrev unit_key : ℕ → ℕ
unit_key f = if nat_eq f negative_zero then 0 else f

float_lt-unit :
    (a b : ℕ) → in_unit a ≡ true → in_unit b ≡ true → float_lt a b ≡ ltb (unit_key a) (unit_key b)
unfolding float_lt
float_lt-unit a b ua ub = ground arith

-- Trust and confidence are within 0 and 1, as the engine writes them.
abbrev pub IsUnit : Rank → Type 0
IsUnit k = (in_unit k.trust ≡ true) × (in_unit k.confidence ≡ true)

module _ (P : Rank → Type 0) where
  by_float :
      (key : Rank → ℕ)
      → ((k : Rank) → P k → in_unit (key k) ≡ true)
      → IsStrict P (λ a b. float_lt (key a) (key b))
  by_float key unit = record {
    asym = λ a b pa pb e. ground (
      arith,
      float_lt-unit (key a) (key b) (unit a pa) (unit b pb),
      float_lt-unit (key b) (key a) (unit b pb) (unit a pa),
    );
    between = λ a b c pa pb pc e. ground (
      arith,
      float_lt-unit (key a) (key b) (unit a pa) (unit b pb),
      float_lt-unit (key b) (key c) (unit b pb) (unit c pc),
      float_lt-unit (key a) (key c) (unit a pa) (unit c pc),
    );
  }

  by_text : (key : Rank → String) → IsStrict P (λ a b. text_lt (key a) (key b))
  by_text key = record {
    asym = λ a b pa pb e. codes_asym (codes (key a)) (codes (key b)) e;
    between = λ a b c pa pb pc e. codes_between (codes (key a)) (codes (key b)) (codes (key c)) e;
  }

pub rank_lt-IsStrict : IsStrict IsUnit rank_lt
unfolding rank_lt
rank_lt-IsStrict = lexical-IsStrict IsUnit _ _ (by_float IsUnit (λ k. k.trust) (λ k u. u.0)) (
    lexical-IsStrict IsUnit _ _ (by_float IsUnit (λ k. k.confidence) (λ k u. u.1))
      (lexical-IsStrict IsUnit _ _ (by_text IsUnit (λ k. k.tx_from)) (by_text IsUnit (λ k. k.id))))
