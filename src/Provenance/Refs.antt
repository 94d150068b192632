-- ===== src/Provenance/Refs.antt =====
-- provenance/__init__.py and index/provenance.py: the ids that a payload mentions.
use epistemos.Common.{
  ℕ, zero, suc, String, Bool, true, false, List, [], ◌∷◌, ◌==◌, ◌&&◌, ◌||◌, nat_eq, leb, codes,
  contains, if◌then◌else◌,
}
use epistemos.Json.{Json, str, arr, obj, Items, nil, cons, Fields, end, field}

-- `_refs_id`: the id is a text leaf of the value.
unfoldable mutual
  pub refs_id : Json → String → Bool
  refs_id (str s) obj_id = s == obj_id
  refs_id (obj d) obj_id = fields_ref d obj_id
  refs_id (arr xs) obj_id = items_ref xs obj_id
  refs_id _ obj_id = false

  pub fields_ref : Fields → String → Bool
  fields_ref end obj_id = false
  fields_ref (field k v d) obj_id = refs_id v obj_id || fields_ref d obj_id

  pub items_ref : Items → String → Bool
  items_ref nil obj_id = false
  items_ref (cons v xs) obj_id = refs_id v obj_id || items_ref xs obj_id

abbrev is_lower : ℕ → Bool
is_lower c = leb b'a' c && leb c b'z'

abbrev is_hex : ℕ → Bool
is_hex c = (leb b'0' c && leb c b'9') || (leb b'a' c && leb c b'f')

-- `[0-9a-f]{n}$`; a `$` also matches before a line feed at the end.
hex_tail : ℕ → List ℕ → Bool
hex_tail zero [] = true
hex_tail zero (c ∷ []) = nat_eq c 10
hex_tail zero (c ∷ d ∷ cs) = false
hex_tail (suc n) [] = false
hex_tail (suc n) (c ∷ cs) = is_hex c && hex_tail n cs

-- `[a-z]*_`, and the rest; the flag says that a letter was read.
prefix_then : Bool → List ℕ → Bool
unfolding hex_tail
prefix_then read [] = false
prefix_then read (c ∷ cs) =
    let rest = prefix_then true cs in
    if is_lower c then rest else read && nat_eq c b'_' && hex_tail 32 cs

-- ID_SHAPE.match(value)
unfoldable pub matches_shape : String → Bool
unfolding prefix_then
matches_shape value = prefix_then false (codes value)

-- A set of texts is a list of them without duplicates.
unfoldable pub add_id : String → List String → List String
add_id s out = if contains s out then out else s ∷ out

-- `id_leaves`: the text leaves that have the shape of an id.
unfoldable mutual
  unfolding add_id

  pub id_leaves : Json → List String → List String
  id_leaves (str s) out = if matches_shape s then add_id s out else out
  id_leaves (obj d) out = fields_leaves d out
  id_leaves (arr xs) out = items_leaves xs out
  id_leaves _ out = out

  pub fields_leaves : Fields → List String → List String
  fields_leaves end out = out
  fields_leaves (field k v d) out = fields_leaves d (id_leaves v out)

  pub items_leaves : Items → List String → List String
  items_leaves nil out = out
  items_leaves (cons v xs) out = items_leaves xs (id_leaves v out)
