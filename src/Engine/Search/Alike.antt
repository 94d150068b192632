-- ===== src/Engine/Search/Alike.antt =====
-- core/__init__.py: stores that differ only in what a principal may not read.
use epistemos.Common.{
  ◌≡◌, ◌⊎◌, refl, sym, ◌∙◌, fun_ext, subst, inl, inr, String, Bool, true, false, Option, none, some,
  [], ◌∷◌, ◌==◌, arith, eq_iff, Bool-cases,
}
use epistemos.Result.{Result, ok}
use epistemos.Json.{Json, null, bool, num, negative, float, str, arr, obj, Fields, is_str}
use epistemos.Json.Dict.{get}
use epistemos.Host.{Host}
use epistemos.Identity.{Principal}
use epistemos.Authz.{can_read_object}
use epistemos.Storage.{Objects, get_object, lookup}
use epistemos.Engine.Read.{is_active_grant, is_member, space_view, space_of, can_read, grant_id}
use epistemos.Retrieval.Scan.{is_control}

abbrev Unheld : String → Objects → Type 0
Unheld i os = lookup i os ≡ none

-- `may` is a right to read, and `Named` are the ids that must stay.
module _ (may : Fields → Result Bool) (Named : String → Type 0) where
  -- An object that may not be read, is no space or grant, and whose id is not named.
  pub record IsSecret (i : String) (o : Fields) : Type 0 where
    pub hidden : may o ≡ ok false
    pub knowledge : is_control o ≡ false
    pub unnamed : Named i → ⊥

  -- Two stores that differ only in secrets: one has another one under an id, or none.
  pub data Alike : Objects → Objects → Type 0 where
    both_end : Alike [] []
    both :
        {os os' : Objects} (i : String) (o : Fields)
        → Alike os os'
        → Alike ((i, o) ∷ os) ((i, o) ∷ os')
    changed :
        {os os' : Objects} (i : String) (o o' : Fields)
        → IsSecret i o
        → IsSecret i o'
        → Alike os os'
        → Alike ((i, o) ∷ os) ((i, o') ∷ os')
    left :
        {os os' : Objects} (i : String) (o : Fields)
        → IsSecret i o
        → Unheld i os'
        → Alike os os'
        → Alike ((i, o) ∷ os) os'
    right :
        {os os' : Objects} (i : String) (o : Fields)
        → IsSecret i o
        → Unheld i os
        → Alike os os'
        → Alike os ((i, o) ∷ os')

  -- Nothing is found, or a secret is.
  abbrev pub IsVoid : String → Option Fields → Type 0
  IsVoid k x = (x ≡ none) ⊎ ((o : Fields) × (x ≡ some o) × IsSecret k o)

  abbrev pub SameAt : String → Option Fields → Option Fields → Type 0
  SameAt k x y = (x ≡ y) ⊎ (IsVoid k x × IsVoid k y)

  at_key : (i k : String) (o : Fields) → i == k ≡ true → IsSecret i o → IsSecret k o
  at_key i k o same s = subst (λ j. IsSecret j o) ((eq_iff i k).0 same) s

  Unheld-at : (i k : String) (os : Objects) → i == k ≡ true → Unheld i os → lookup k os ≡ none
  Unheld-at i k os same u = subst (λ j. lookup j os ≡ none) ((eq_iff i k).0 same) u

  pub lookup-SameAt :
      {os os' : Objects} → Alike os os' → (k : String) → SameAt k (lookup k os) (lookup k os')
  unfolding lookup
  lookup-SameAt both_end k = inl refl
  lookup-SameAt (both i o a) k = elim (Bool-cases (i == k)) [
    | inl same ↦ rw same (inl refl)
    | inr other ↦ rw other (lookup-SameAt a k)
  ]
  lookup-SameAt (changed i o o' s s' a) k = elim (Bool-cases (i == k)) [
    | inl same ↦
        rw same (inr (inr (o, refl, at_key i k o same s), inr (o', refl, at_key i k o' same s')))
    | inr other ↦ rw other (lookup-SameAt a k)
  ]
  lookup-SameAt (left {os' = os'} i o s u a) k = elim (Bool-cases (i == k)) [
    | inl same ↦ rw same (inr (inr (o, refl, at_key i k o same s), inl (Unheld-at i k os' same u)))
    | inr other ↦ rw other (lookup-SameAt a k)
  ]
  lookup-SameAt (right {os} i o s u a) k = elim (Bool-cases (i == k)) [
    | inl same ↦ rw same (inr (inl (Unheld-at i k os same u), inr (o, refl, at_key i k o same s)))
    | inr other ↦ rw other (lookup-SameAt a k)
  ]

  -- A secret is no space, and no grant.
  no_space : (o : Fields) → is_control o ≡ false → is_str (get "kind" o) "space" ≡ false
  no_space o c = ground arith

  no_grant : (o : Fields) → is_control o ≡ false → is_active_grant o ≡ false
  no_grant o c = ground arith

  module _ (h : Host) (p : Principal) where
    space_void :
        (k : String) (os : Objects) → IsVoid k (lookup k os) → space_of h os (str k) ≡ ok none
    unfolding space_of get_object
    space_void k os (inl missing) = rw (space_of, missing) refl
    space_void k os (inr (o, found, s)) =
        rw (space_of, found) (rw (space_view, no_space o s.knowledge) refl)

    space_same : {os os' : Objects} → Alike os os' → (j : Json) → space_of h os j ≡ space_of h os' j
    unfolding space_of get_object
    space_same a null = refl
    space_same a (bool b) = refl
    space_same a (num n) = refl
    space_same a (negative n) = refl
    space_same a (float b) = refl
    space_same a (arr xs) = refl
    space_same a (obj d) = refl
    space_same {os} {os'} a (str k) = elim (lookup-SameAt a k) [
      | inl same ↦ rw (space_of, same) refl
      | inr (v, v') ↦ space_void k os v ∙ sym (space_void k os' v')
    ]

    member_void :
        (j agent : String) (os : Objects)
        → IsVoid (grant_id j agent) (lookup (grant_id j agent) os)
        → is_member os (str j) agent ≡ false
    unfolding is_member get_object
    member_void j agent os (inl missing) = rw (is_member, missing) refl
    member_void j agent os (inr (o, found, s)) = rw (is_member, found) (no_grant o s.knowledge)

    member_same :
        {os os' : Objects}
        → Alike os os'
        → (j : Json) (agent : String) → is_member os j agent ≡ is_member os' j agent
    unfolding is_member get_object
    member_same a null agent = refl
    member_same a (bool b) agent = refl
    member_same a (num n) agent = refl
    member_same a (negative n) agent = refl
    member_same a (float b) agent = refl
    member_same a (arr xs) agent = refl
    member_same a (obj d) agent = refl
    member_same {os} {os'} a (str k) agent = elim (lookup-SameAt a (grant_id k agent)) [
      | inl same ↦ rw (is_member, same) refl
      | inr (v, v') ↦ member_void k agent os v ∙ sym (member_void k agent os' v')
    ]

    -- The right to read does not depend on secrets.
    pub can_read_same : {os os' : Objects} → Alike os os' → can_read h p os ≡ can_read h p os'
    unfolding can_read
    can_read_same {os} {os'} a =
        let spaces : space_of h os ≡ space_of h os' = fun_ext (space_same a) in
        let members : is_member os ≡ is_member os' = fun_ext (λ j. fun_ext (member_same a j)) in
        fun_ext (λ o. λ i. can_read_object p (spaces i) (members i) o)
