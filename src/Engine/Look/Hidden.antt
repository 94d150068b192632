-- ===== src/Engine/Look/Hidden.antt =====
-- core/__init__.py: what get does not show.
use epistemos.Common.{
  subst, ◌≡◌, ◌↔◌, ◌⊎◌, inl, inr, refl, sym, ap, ◌∙◌, String, Bool, true, false, not, none, some,
  Bool-cases, Option-cases, if◌then◌else◌,
}
use epistemos.Result.{Result, ok, bind-ok}
use epistemos.Json.{Fields}
use epistemos.Host.{Host}
use epistemos.Identity.{Principal, require}
use epistemos.Storage.{Objects, get_object, in_scope}
use epistemos.Engine.Read.{can_read}
use epistemos.Engine.Look.{get, shown, typed}

some_injective : {A : Type 0} {a b : A} → some a ≡ some b → a ≡ b
some_injective e = cc

module _ (h : Host) (p : Principal) (os : Objects) where
  -- The object is of another scope, or the principal may not read it.
  abbrev pub IsWithheld : Fields → Type 0
  IsWithheld o = (in_scope p.tenant p.namespace o ≡ false) ⊎ (can_read h p os o ≡ ok false)

  refused :
      (o : Fields) (may : Bool)
      → (if not may then ok none else epistemos.Result.◌>>=◌ (typed h o) (λ d. ok (some d)))
        ≡ ok none
      → may ≡ false
  refused o false e = refl
  refused o true e = let (d, _, last) = bind-ok (typed h o) (λ d. ok (some d)) e in cc last

  shown_iff : (o : Fields) → (shown h p os o ≡ ok none) ↔ IsWithheld o
  unfolding shown
  shown_iff o = (out, back)
    where
      out : shown h p os o ≡ ok none → IsWithheld o
      out e = elim (Bool-cases (in_scope p.tenant p.namespace o)) [
        | inl here ↦
            let (may, at, rest) = bind-ok (can_read h p os o) _ (rw here at e) in
            inr (at ∙ ap ok (refused o may rest))
        | inr elsewhere ↦ inl elsewhere
      ]

      back : IsWithheld o → shown h p os o ≡ ok none
      back w = elim w [
        | inl elsewhere ↦ rw elsewhere refl
        | inr unreadable ↦ elim (Bool-cases (in_scope p.tenant p.namespace o)) [
          | inl here ↦ rw (here, unreadable) refl
          | inr elsewhere ↦ rw elsewhere refl
        ]
      ]

  -- There is no such object, or it is withheld.
  abbrev pub IsHidden : String → Type 0
  IsHidden i = (get_object i os ≡ none) ⊎ ((o : Fields) × (get_object i os ≡ some o) × IsWithheld o)

  -- A principal that may read gets nothing exactly where there is no object of the id, or one of
  -- another scope, or one that it may not read: the three look the same.
  pub get-IsHidden : (i : String) → require p "read" ≡ ok tt → (get h p i os ≡ ok none) ↔ IsHidden i
  unfolding get
  get-IsHidden i allowed = elim (Option-cases (get_object i os)) [
    | inl absent ↦ rw (get, allowed, absent) (λ e. inl refl, λ w. refl)
    | inr (o, at) ↦
        rw (get, allowed, at)
          (
            λ e. inr (o, refl, (shown_iff o).0 e),
            λ w. elim w [
              | inl bad ↦ cc bad
              | inr (q, same, withheld) ↦
                  (shown_iff o).1 (subst IsWithheld (sym (some_injective same)) withheld)
            ],
          )
  ]
