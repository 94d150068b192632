-- ===== src/Engine/Traverse/Edges.antt =====
-- core/__init__.py: what neighbors lets through, and the edges of it.
use epistemos.Common.{
  not, ◌≡◌, refl, sym, ap, ◌∙◌, String, Bool, true, false, Option, List, [], ◌∷◌, ◌++◌, All, arith,
  if◌then◌else◌, Bool-cases, Option-cases, inl, inr, ◌⊎◌, ◌==◌, ◌||◌, some, subst, eq_iff, Among,
  here, there, Among-All, Among-filter,
}
use epistemos.Result.{Error, not_found, Result, ok, err, bind-ok, ok_injective}
use epistemos.Json.{Json, str, Fields, end, field, is_str}
use epistemos.Json.Dict.{get, item, item-ok, or_null}
use epistemos.Host.{Host}
use epistemos.Identity.{Principal, require}
use epistemos.Storage.{Objects, objects, relations, get_object, in_scope}
use epistemos.Engine.Read.{can_read, ref_in_scope, get_object_at}
use epistemos.Engine.Traverse.{edge_of, edges_at, far_end, is_visible, visible_edges, neighbors}

if_kept :
    (b : Bool) (r : Result Bool)
    → (if not b then ok false else r) ≡ ok true
    → (b ≡ true) × (r ≡ ok true)
if_kept true r e = (refl, e)
if_kept false r e = cc e

if_let :
    {A : Type 0} (b : Bool) (x : Error) (r : Result A) {a : A}
    → (if not b then err x else r) ≡ ok a
    → (b ≡ true) × (r ≡ ok a)
if_let true x r e = (refl, e)
if_let false x r e = cc e

some_injective : {A : Type 0} {a b : A} → some a ≡ some b → a ≡ b
some_injective e = cc

str_is : (j : Json) (t : String) → is_str j t ≡ true → j ≡ str t
str_is (str s) t e = ap str ((eq_iff s t).0 e)
str_is Json.null t e = cc e
str_is (Json.bool b) t e = cc e
str_is (Json.num n) t e = cc e
str_is (Json.negative n) t e = cc e
str_is (Json.float n) t e = cc e
str_is (Json.arr xs) t e = cc e
str_is (Json.obj d) t e = cc e

Among-either : {A : Type 0} {x : A} (xs ys : List A) → Among x (xs ++ ys) → Among x xs ⊎ Among x ys
Among-either [] ys m = inr m
Among-either (z ∷ xs) ys m = elim m [
  | here at ↦ inl (here at)
  | there n ↦ elim (Among-either xs ys n) [ inl l ↦ inl (there l) | inr r ↦ inr r ]
]

among_if :
    {A : Type 0} {x : A} (b : Bool) (xs : List A) → Among x (if b then xs else []) → Among x xs
among_if true xs m = m
among_if false xs m = elim m [ ]

either_list :
    {A : Type 0} {x : A} (b c : Bool) (xs ys : List A)
    → Among x ((if b then xs else []) ++ (if c then ys else []))
    → Among x xs ⊎ Among x ys
either_list b c xs ys m = elim (Among-either (if b then xs else []) (if c then ys else []) m) [
  | inl l ↦ inl (among_if b xs l)
  | inr r ↦ inr (among_if c ys r)
]

module _ (h : Host) (p : Principal) (os : Objects) where
  abbrev CanRead : Fields → Type 0
  CanRead rel = can_read h p os rel ≡ ok true

  -- What stands at the id, if anything does, is readable.
  abbrev pub IsOpenAt : Json → Type 0
  IsOpenAt j = (o : Fields) → get_object_at j os ≡ some o → can_read h p os o ≡ ok true

  -- A stored relation of the principal's scope that it may read, as it may the objects at both ends.
  pub record IsSeen (rel : Fields) : Type 0 where
    pub among : Among rel (objects p.tenant p.namespace (some "relation") os)
    pub may : can_read h p os rel ≡ ok true
    pub source_open : IsOpenAt (get "source_entity" rel)
    pub target_open : IsOpenAt (get "target_entity" rel)

  -- The edge names the ends, the type and the id of such a relation.
  pub record IsReadableEdge (x : Fields) : Type 0 where
    pub relation : Fields
    pub seen : IsSeen relation
    pub edge :
        x
        ≡ field "source" (get "source_entity" relation) (
            field "target"
              (get "target_entity" relation)
              (field "rel_type" (get "rel_type" relation) (field "id" (get "id" relation) end)))

  item-get : (k : String) (o : Fields) (v : Json) → item k o ≡ ok v → v ≡ get k o
  item-get k o v e = sym (ap or_null (item-ok k o v e))

  pub edge_of-lem : (rel x : Fields) → edge_of rel ≡ ok x → IsSeen rel → IsReadableEdge x
  unfolding edge_of
  edge_of-lem rel x e seen =
      let (source, at_s, rest) = bind-ok (item "source_entity" rel) _ e in
      let (target, at_t, rest2) = bind-ok (item "target_entity" rel) _ rest in
      let (rel_type, at_r, rest3) = bind-ok (item "rel_type" rel) _ rest2 in
      let (id, at_i, last) = bind-ok (item "id" rel) _ rest3 in
      record {
        relation = rel;
        seen = seen;
        edge = sym (ok_injective last) ∙ (λ i.
            field "source" (item-get "source_entity" rel source at_s i) (
              field "target" (item-get "target_entity" rel target at_t i) (
                field "rel_type" (item-get "rel_type" rel rel_type at_r i)
                  (field "id" (item-get "id" rel id at_i i) end))));
      }

  far_end-lem :
      (node : String) (rel : Fields) (other : Json)
      → far_end node rel ≡ ok other
      → ((is_str (get "source_entity" rel) node ≡ true) × (other ≡ get "target_entity" rel))
        ⊎ ((is_str (get "source_entity" rel) node ≡ false) × (other ≡ get "source_entity" rel))
  unfolding far_end
  far_end-lem node rel other e =
      let (source, at, rest) = bind-ok (item "source_entity" rel) _ e in
      let same = item-get "source_entity" rel source at in
      elim (Bool-cases (is_str source node)) [
        | inl here' ↦ inl (
          ap (λ j. is_str j node) (sym same) ∙ here',
          item-get "target_entity" rel other (rw here' at rest),
        )
        | inr far ↦
            inr
              (ap (λ j. is_str j node) (sym same) ∙ far, sym (ok_injective (rw far at rest)) ∙ same)
      ]

  -- A visible relation, and what is at its far end.
  is_visible-lem :
      (node : String) (rel : Fields)
      → is_visible h p os node rel ≡ ok true
      → CanRead rel × ((other : Json) × (far_end node rel ≡ ok other) × IsOpenAt other)
  unfolding is_visible
  is_visible-lem node rel e =
      let (may, at, rest) = bind-ok (can_read h p os rel) _ e in
      let (yes', rest2) = if_kept may _ rest in
      let (other, far, last) = bind-ok (far_end node rel) _ rest2 in
      (at ∙ ap ok yes', (other, far, λ o found. rw found at last))

  visible_edges-Among :
      (node : String) (rels out : List Fields) (r : Fields)
      → visible_edges h p os node rels ≡ ok out
      → Among r out
      → Among r rels × (is_visible h p os node r ≡ ok true)
  unfolding visible_edges
  visible_edges-Among node [] out r e m = elim (rw (sym (ok_injective e)) at m) [ ]
  visible_edges-Among node (rel ∷ rels) out r e m =
      let (keep, tested, rest) = bind-ok (is_visible h p os node rel) _ e in
      let (more, ran, last) = bind-ok (visible_edges h p os node rels) _ rest in
      pick keep more tested (λ m'. visible_edges-Among node rels more r ran m')
        (subst (Among r) (sym (ok_injective last)) m)
    where
      pick :
          (keep : Bool) (more : List Fields)
          → is_visible h p os node rel ≡ ok keep
          → (Among r more → Among r rels × (is_visible h p os node r ≡ ok true))
          → Among r (if keep then rel ∷ more else more)
          → Among r (rel ∷ rels) × (is_visible h p os node r ≡ ok true)
      pick true more tested next m' = elim m' [
        | here at ↦ (here at, ap (is_visible h p os node) at ∙ tested)
        | there n ↦ let (among, on) = next n in (there among, on)
      ]
      pick false more tested next m' = let (among, on) = next m' in (there among, on)

  -- An edge at the node is a relation of the scope, with the node at one end.
  edges_at-Among :
      (node direction : String) (rel_type : Option String) (r : Fields)
      → Among r (edges_at p node direction rel_type os)
      → Among r (objects p.tenant p.namespace (some "relation") os)
        × ((is_str (get "source_entity" r) node ≡ true)
            ⊎ (is_str (get "target_entity" r) node ≡ true))
  unfolding relations
  edges_at-Among node direction rel_type r m =
      elim (either_list (direction == "out" || direction == "both")
        (direction == "in" || direction == "both") _ _ m) [
          | inl out ↦
              let (among, tests) = (Among-filter _ r _).0 out in
              (among, inl (ground (arith, tests)))
          | inr into ↦
              let (among, tests) = (Among-filter _ r _).0 into in
              (among, inr (ground (arith, tests)))
        ]

  start-IsOpenAt :
      (node : String) (start : Fields)
      → ref_in_scope p node os ≡ ok start
      → can_read h p os start ≡ ok true
      → (j : Json) → is_str j node ≡ true
      → IsOpenAt j
  unfolding ref_in_scope
  start-IsOpenAt node start e may j is o found = elim (Option-cases (get_object node os)) [
    | inl lost ↦ cc (rw (ref_in_scope, lost) at e)
    | inr (s, at) ↦
        let kept = if_scoped (in_scope p.tenant p.namespace s) (rw (ref_in_scope, at) at e) in
        let here' : get_object node os ≡ some o =
          subst (λ i. get_object_at i os ≡ some o) (str_is j node is) found in
        ap (can_read h p os) (some_injective (sym here' ∙ at) ∙ kept) ∙ may
  ]
    where
      if_scoped :
          {s : Fields} (b : Bool) → (if b then ok s else err not_found) ≡ ok start → s ≡ start
      if_scoped true e' = ok_injective e'
      if_scoped false e' = cc e'

  pub neighbors-IsSeen :
      (node direction : String) (rel_type : Option String) (rels : List Fields)
      → neighbors h p os node direction rel_type ≡ ok rels
      → All IsSeen rels
  unfolding neighbors
  neighbors-IsSeen node direction rel_type rels e =
      let (_, _, rest) = bind-ok (require p "read") _ e in
      let (start, found, rest') = bind-ok (ref_in_scope p node os) _ rest in
      let (may, tested, last) = bind-ok (can_read h p os start) _ rest' in
      let (yes', listed) = if_let may not_found _ last in
      let near = start-IsOpenAt node start found (tested ∙ ap ok yes') in
      Among-All IsSeen rels (λ r m.
        let (at_node, visible) = visible_edges-Among node _ rels r listed m in
        let (among, ends) = edges_at-Among node direction rel_type r at_node in
        let (may_r, (other, far, far_open)) = is_visible-lem node r visible in
        elim (far_end-lem node r other far) [
          | inl (source, target) ↦ record {
            among = among;
            may = may_r;
            source_open = near (get "source_entity" r) source;
            target_open = subst IsOpenAt target far_open;
          }
          | inr (not_source, source) ↦ record {
            among = among;
            may = may_r;
            source_open = subst IsOpenAt source far_open;
            target_open = elim ends [
              | inl is ↦ cc (is, not_source)
              | inr is ↦ near (get "target_entity" r) is
            ];
          }
        ])
