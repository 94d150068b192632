-- ===== src/Json/Dict.antt =====
-- `dict` operations: d.get(k), `k in d`, d[k], d[k] = v, d.setdefault, d.update and ==.
use epistemos.Common.{
  String, Bool, true, false, not, Option, none, some, List, [], ◌∷◌, ◌≡◌, refl, arith, ◌==◌, ◌&&◌,
  eq_iff, if◌then◌else◌, nat_eq, Option-cases, inl, inr, ◌∙◌, ap,
}
use epistemos.Result.{Result, ok, err, key_error, ok_injective}
use epistemos.Json.{
  Json, null, bool, num, negative, float, str, arr, obj, Items, nil, cons, Fields, end, field,
}

unfoldable pub find : String → Fields → Option Json
find k end = none
find k (field j v d) = if j == k then some v else find k d

abbrev pub or_null : Option Json → Json
or_null none = null
or_null (some v) = v

-- d.get(k)
abbrev pub get : String → Fields → Json
get k d = or_null (find k d)

-- d.get(k, default)
abbrev pub get_or : String → Json → Fields → Json
get_or k v d = elim (find k d) [ none ↦ v | some w ↦ w ]

abbrev pub has : String → Fields → Bool
has k d = elim (find k d) [ none ↦ false | some _ ↦ true ]

-- d[k], which raises KeyError
abbrev pub item : String → Fields → Result Json
item k d = elim (find k d) [ none ↦ err key_error | some v ↦ ok v ]

-- d[k] = v
unfoldable pub put : String → Json → Fields → Fields
put k v end = field k v end
put k v (field j w d) = if j == k then field k v d else field j w (put k v d)

-- d.pop(k), without the value
unfoldable pub remove : String → Fields → Fields
remove k end = end
remove k (field j w d) = let rest = remove k d in if j == k then rest else field j w rest

-- d.update(e)
unfoldable pub update : Fields → Fields → Fields
update d end = d
update d (field k v e) = update (put k v d) e

pub find-put :
    (k j : String) (v : Json) (d : Fields)
    → find j (put k v d) ≡ (if k == j then some v else find j d)
unfolding find put
find-put k j v end = refl
find-put k j v (field i w d) = ground (arith, eq_iff k j, eq_iff i k, eq_iff i j, find-put k j v d)

pub item-ok : (k : String) (o : Fields) (v : Json) → item k o ≡ ok v → find k o ≡ some v
item-ok k o v e = elim (Option-cases (find k o)) [
  | inl none_at ↦ cc (rw (item, none_at) at e)
  | inr (w, at) ↦ at ∙ ap some (ok_injective (rw (item, at) at e))
]

-- `a == b`. Two dicts are equal if they have equally many keys and the same value at each.
abbrev size : Fields → List String
size end = []
size (field k v d) = k ∷ size d

abbrev same_size : List String → List String → Bool
same_size [] [] = true
same_size (x ∷ xs) (y ∷ ys) = same_size xs ys
same_size _ _ = false

unfoldable mutual
  pub json_eq : Json → Json → Bool
  json_eq null null = true
  json_eq (bool true) (bool b) = b
  json_eq (bool false) (bool b) = not b
  json_eq (num m) (num n) = nat_eq m n
  json_eq (negative m) (negative n) = nat_eq m n
  json_eq (float m) (float n) = nat_eq m n
  json_eq (str s) (str t) = s == t
  json_eq (arr xs) (arr ys) = items_eq xs ys
  json_eq (obj d) (obj e) = same_size (size d) (size e) && fields_eq d e
  json_eq _ _ = false

  pub items_eq : Items → Items → Bool
  items_eq nil nil = true
  items_eq (cons x xs) (cons y ys) = json_eq x y && items_eq xs ys
  items_eq _ _ = false

  pub fields_eq : Fields → Fields → Bool
  fields_eq end e = true
  fields_eq (field k v d) e =
      elim (find k e) [ none ↦ false | some w ↦ json_eq v w ] && fields_eq d e
