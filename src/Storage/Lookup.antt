-- ===== src/Storage/Lookup.antt =====
-- storage/memory.py: what a look-up finds after an object is put.
use epistemos.Common.{
  ◌≡◌, refl, ◌⊎◌, inl, inr, true, false, some, String, Option, [], ◌∷◌, arith, eq_iff,
  if◌then◌else◌, ◌==◌, Bool, Bool-cases,
}
use epistemos.Json.{Json, null, bool, num, negative, float, str, arr, obj, Fields}
use epistemos.Json.Dict.{get, find, has}
use epistemos.Storage.{Objects, lookup, insert, put_object, has_keys, store_at, ok}

pub lookup-insert :
    (i j : String) (o : Fields) (os : Objects)
    → lookup i (insert j o os) ≡ (if j == i then some o else lookup i os)
unfolding lookup insert
lookup-insert i j o [] = refl
lookup-insert i j o ((k, p) ∷ os) =
    ground (arith, eq_iff j i, eq_iff k j, eq_iff k i, lookup-insert i j o os)

either : (b : Bool) (x y : Option Fields) → ((if b then x else y) ≡ y) ⊎ ((if b then x else y) ≡ x)
either true x y = inr refl
either false x y = inl refl

stored :
    (i : String) (v : Json) (o : Fields) (os : Objects)
    → (lookup i (store_at v o os).1 ≡ lookup i os) ⊎ (lookup i (store_at v o os).1 ≡ some o)
unfolding store_at
stored i (str j) o os = rw (lookup-insert i j o os) (either (j == i) (some o) (lookup i os))
stored i null o os = inl refl
stored i (bool b) o os = inl refl
stored i (num n) o os = inl refl
stored i (negative n) o os = inl refl
stored i (float b) o os = inl refl
stored i (arr xs) o os = inl refl
stored i (obj d) o os = inl refl

-- After an object is put, each id finds what it found before, or that object.
pub lookup-put_object :
    (i : String) (o : Fields) (os : Objects)
    → (lookup i (put_object o os).1 ≡ lookup i os) ⊎ (lookup i (put_object o os).1 ≡ some o)
unfolding put_object
lookup-put_object i o os = elim (Bool-cases (has_keys o)) [
  | inl on ↦ rw on (stored i (get "id" o) o os)
  | inr off ↦ rw off (inl refl)
]

-- An object that the store takes, under this id.
pub record IsStorable (i : String) (o : Fields) : Type 0 where
  pub id : find "id" o ≡ some (str i)
  pub kind : has "kind" o ≡ true
  pub tenant : has "tenant" o ≡ true
  pub namespace : has "namespace" o ≡ true

pub put_object_stored :
    (i : String) (o : Fields) (os : Objects)
    → IsStorable i o
    → put_object o os ≡ (ok tt, insert i o os)
unfolding put_object has_keys store_at
put_object_stored i o os s =
    let held : has "id" o ≡ true = rw (has, s.id) refl in
    rw (held, s.kind, s.tenant, s.namespace, s.id) refl
