-- ===== src/Provenance/Leaves.antt =====
-- provenance/__init__.py and index/provenance.py: the ids that are indexed are those that a scan
-- would find.
use epistemos.Common.{
  ◌≡◌, refl, sym, ap, ◌∙◌, inl, inr, String, Bool, true, false, List, ◌==◌, ◌&&◌, ◌||◌, arith,
  contains, eq_iff, if◌then◌else◌, Bool-cases,
}
use epistemos.Json.{
  Json, null, bool, num, negative, float, str, arr, obj, Items, nil, cons, Fields, end, field,
}
use epistemos.Provenance.Refs.{
  refs_id, fields_ref, items_ref, matches_shape, add_id, id_leaves, fields_leaves, items_leaves,
}

or-false : (a : Bool) → a || false ≡ a
or-false true = refl
or-false false = refl

or_both : (a b c d : Bool) → (a || (d && b)) || (d && c) ≡ a || (d && (b || c))
or_both a b c d = ground arith

contains-add_id :
    (i s : String) (out : List String) → contains i (add_id s out) ≡ contains i out || s == i
unfolding add_id
contains-add_id i s out = elim (Bool-cases (s == i)) [
  | inl same ↦ elim (Bool-cases (contains s out)) [
    | inl old ↦
        let e : s ≡ i = (eq_iff s i).0 same in
        rw (old, same) (ap (λ x. contains x out) (sym e) ∙ old ∙ sym (ground arith))
    | inr new ↦ rw (new, same) (ground arith)
  ]
  | inr other ↦ elim (Bool-cases (contains s out)) [
    | inl old ↦ rw (old, other) (ground arith)
    | inr new ↦ rw (new, other) (sym (or-false (contains i out)))
  ]
]

module _ (i : String) where
  contains-leaf :
      (s : String) (out : List String)
      → contains i (if matches_shape s then add_id s out else out)
        ≡ contains i out || (matches_shape i && s == i)
  contains-leaf s out = elim (Bool-cases (s == i)) [
    | inl same ↦
        let e : s ≡ i = (eq_iff s i).0 same in
        elim (Bool-cases (matches_shape s)) [
          | inl on ↦ rw (on, sym (ap matches_shape e) ∙ on) (contains-add_id i s out)
          | inr off ↦ rw (off, sym (ap matches_shape e) ∙ off) (sym (or-false (contains i out)))
        ]
    | inr other ↦ elim (Bool-cases (matches_shape s)) [
      | inl on ↦ rw on (contains-add_id i s out ∙ ground (arith, other))
      | inr off ↦ rw off (ground (arith, other))
    ]
  ]

  -- The ids collected from a value are those there were, and the text leaves with the shape of an id.
  mutual
    unfolding id_leaves refs_id

    pub contains-id_leaves :
        (v : Json) (out : List String)
        → contains i (id_leaves v out) ≡ contains i out || (matches_shape i && refs_id v i)
    contains-id_leaves null out = ground arith
    contains-id_leaves (bool b) out = ground arith
    contains-id_leaves (num n) out = ground arith
    contains-id_leaves (negative n) out = ground arith
    contains-id_leaves (float b) out = ground arith
    contains-id_leaves (str s) out = contains-leaf s out
    contains-id_leaves (obj d) out = contains-fields_leaves d out
    contains-id_leaves (arr xs) out = contains-items_leaves xs out

    pub contains-fields_leaves :
        (d : Fields) (out : List String)
        → contains i (fields_leaves d out) ≡ contains i out || (matches_shape i && fields_ref d i)
    contains-fields_leaves end out = ground arith
    contains-fields_leaves (field k v d) out =
        contains-fields_leaves d (id_leaves v out)
        ∙ ap (λ b. b || (matches_shape i && fields_ref d i)) (contains-id_leaves v out)
        ∙ or_both (contains i out) (refs_id v i) (fields_ref d i) (matches_shape i)

    pub contains-items_leaves :
        (xs : Items) (out : List String)
        → contains i (items_leaves xs out) ≡ contains i out || (matches_shape i && items_ref xs i)
    contains-items_leaves nil out = ground arith
    contains-items_leaves (cons v xs) out =
        contains-items_leaves xs (id_leaves v out)
        ∙ ap (λ b. b || (matches_shape i && items_ref xs i)) (contains-id_leaves v out)
        ∙ or_both (contains i out) (refs_id v i) (items_ref xs i) (matches_shape i)
