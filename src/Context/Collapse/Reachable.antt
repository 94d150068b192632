-- ===== src/Context/Collapse/Reachable.antt =====
-- context/builder.py: where the ids of the folded objects are.
use epistemos.Common.{
  ◌&&◌, subst, ℕ, ◌≡◌, refl, sym, ap, ◌∙◌, String, Bool, false, not, Option, List, [], ◌∷◌, ◌++◌,
  ◌==◌, ◌⊎◌, inl, inr, map, Among, here, there, Bool-cases, Option-cases, eq_iff, any, subst,
}
use epistemos.Json.{Fields}
use epistemos.Host.{Host}
use epistemos.Context.Describe.{
  Intent, id_of, is_contradiction, statement_key, may_collapse_history,
}
use epistemos.Context.Collapse.{
  RedundancyGroup, Grouped, Folded, add_to, group_by, others, fold_versions, fold_copies, fold_each,
  duplicate_key, collapse, fold_into,
}

-- In the left list or in the right one.
pub Among-left : {A : Type 0} {x : A} (xs ys : List A) → Among x xs → Among x (xs ++ ys)
Among-left [] ys m = elim m [ ]
Among-left (z ∷ xs) ys m = elim m [ here at ↦ here at | there m' ↦ there (Among-left xs ys m') ]

pub Among-right : {A : Type 0} {x : A} (xs ys : List A) → Among x ys → Among x (xs ++ ys)
Among-right [] ys m = m
Among-right (z ∷ xs) ys m = there (Among-right xs ys m)

-- The object stands in one of the groups.
pub data InGroup (o : Fields) : Grouped → Type 0 where
  first :
      {k : String} {os : List Fields} {groups : Grouped} → Among o os → InGroup o ((k, os) ∷ groups)
  later :
      {k : String} {os : List Fields} {groups : Grouped}
      → InGroup o groups
      → InGroup o ((k, os) ∷ groups)

add_to-new : (k : String) (o : Fields) (groups : Grouped) → InGroup o (add_to k o groups)
unfolding add_to
add_to-new k o [] = first (here refl)
add_to-new k o ((j, os) ∷ groups) = elim (Bool-cases (j == k)) [
  | inl same ↦ rw same (first (Among-right os (o ∷ []) (here refl)))
  | inr other ↦ rw other (later (add_to-new k o groups))
]

add_to-old :
    (k : String) (o p : Fields) (groups : Grouped)
    → InGroup p groups
    → InGroup p (add_to k o groups)
unfolding add_to
add_to-old k o p [] m = elim m [ ]
add_to-old k o p ((j, os) ∷ groups) m = elim (Bool-cases (j == k)) [
  | inl same ↦
      rw same (elim m [ first m' ↦ first (Among-left os (o ∷ []) m') | later m' ↦ later m' ])
  | inr other ↦
      rw other (elim m [ first m' ↦ first m' | later m' ↦ later (add_to-old k o p groups m') ])
]

-- Grouping loses no object.
abbrev Placed : Fields → Grouped × List Fields → Type 0
Placed o (groups, rest) = InGroup o groups ⊎ Among o rest

group_by-old :
    (key : Fields → Option String) (o : Fields) (os : List Fields) (groups : Grouped)
    (rest : List Fields)
    → Placed o (groups, rest)
    → Placed o (group_by key os groups rest)
unfolding group_by
group_by-old key o [] groups rest m = m
group_by-old key o (q ∷ os) groups rest m = elim (Option-cases (key q)) [
  | inl no_key ↦
      rw (group_by, no_key)
        (group_by-old key o os groups (rest ++ q ∷ [])
          (elim m [ inl g ↦ inl g | inr r ↦ inr (Among-left rest (q ∷ []) r) ]))
  | inr (k, at) ↦
      rw (group_by, at)
        (group_by-old key o os (add_to k q groups) rest
          (elim m [ inl g ↦ inl (add_to-old k q o groups g) | inr r ↦ inr r ]))
]

group_by-Placed :
    (key : Fields → Option String) (o : Fields) (os : List Fields) (groups : Grouped)
    (rest : List Fields)
    → Among o os
    → Placed o (group_by key os groups rest)
unfolding group_by
group_by-Placed key o [] groups rest m = elim m [ ]
group_by-Placed key o (q ∷ os) groups rest m = elim (Option-cases (key q)) [
  | inl no_key ↦
      rw (group_by, no_key)
        (elim m [
          | here at ↦
              group_by-old key o os groups (rest ++ q ∷ [])
                (inr (Among-right rest (q ∷ []) (here at)))
          | there m' ↦ group_by-Placed key o os groups (rest ++ q ∷ []) m'
        ])
  | inr (k, at_k) ↦
      rw (group_by, at_k)
        (elim m [
          | here at ↦
              group_by-old key o os (add_to k q groups) rest
                (inl (subst (λ x. InGroup x (add_to k q groups)) (sym at) (add_to-new k q groups)))
          | there m' ↦ group_by-Placed key o os (add_to k q groups) rest m'
        ])
]

-- The object's id is that of an object that is kept, or one that a group folds away.
pub record IsReachable (i : String) (keep : List Fields) (groups : List RedundancyGroup)
    : Type 0 where
  pub found :
      ((q : Fields) × Among q keep × (id_of q ≡ i))
      ⊎ ((g : RedundancyGroup) × Among g groups × Among i g.collapsed)

pub kept :
    {i : String} {groups : List RedundancyGroup} (keep : List Fields) (q : Fields)
    → Among q keep
    → id_of q ≡ i
    → IsReachable i keep groups
kept keep q m e = record { found = inl (q, m, e) }

-- More of either is no less.
widen :
    (i : String) (keep keep' : List Fields) (groups groups' : List RedundancyGroup)
    → ((q : Fields) → Among q keep → Among q keep')
    → ((g : RedundancyGroup) → Among g groups → Among g groups')
    → IsReachable i keep groups
    → IsReachable i keep' groups'
widen i keep keep' groups groups' into across r = elim r.found [
  | inl (q, m, e) ↦ record { found = inl (q, into q m, e) }
  | inr (g, m, n) ↦ record { found = inr (g, across g m, n) }
]

Among-others :
    (i : String) (o : Fields) (vs : List Fields)
    → id_of o == i ≡ false
    → Among o vs
    → Among (id_of o) (map id_of (others i vs))
Among-others i o [] other m = elim m [ ]
Among-others i o (v ∷ vs) other m = elim (Bool-cases (id_of v == i)) [
  | inl same ↦ rw same (elim m [
    | here at ↦ cc (sym other ∙ ap (λ x. id_of x == i) at ∙ same)
    | there m' ↦ Among-others i o vs other m'
  ])
  | inr differ ↦
      rw differ
        (elim m [ here at ↦ here (ap id_of at) | there m' ↦ there (Among-others i o vs other m') ])
]

abbrev Reaches : Fields → Folded → Type 0
Reaches o f = IsReachable (id_of o) f.keep f.groups

module _ (h : Host) (scored : String → ℕ) where
  fold_into-Reaches :
      (kind scheme : String) (reasons : List String) (q o : Fields) (vs : List Fields)
      → Among o vs
      → Reaches o (fold_into h scored kind scheme reasons q vs)
  fold_into-Reaches kind scheme reasons q o vs m = elim (Bool-cases (id_of o == id_of q)) [
    | inl same ↦ kept (q ∷ []) q (here refl) (sym ((eq_iff (id_of o) (id_of q)).0 same))
    | inr differ ↦ record { found = inr (_, here refl, Among-others (id_of q) o vs differ m) }
  ]

  fold_versions-Reaches :
      (hist : Bool) (vs : List Fields) (o : Fields)
      → Among o vs
      → Reaches o (fold_versions h scored hist vs)
  unfolding fold_versions
  fold_versions-Reaches hist [] o m = kept [] o m refl
  fold_versions-Reaches hist (v ∷ []) o m = kept (v ∷ []) o m refl
  fold_versions-Reaches hist (v ∷ w ∷ vs) o m =
      elim (Bool-cases (hist && not (any is_contradiction (v ∷ w ∷ vs)))) [
        | inl on ↦ rw on (
            fold_into-Reaches "collapsed_history" "history://" ("history_collapsed" ∷ []) _ o
              (v ∷ w ∷ vs) m)
        | inr off ↦ rw off (kept (v ∷ w ∷ vs) o m refl)
      ]

  fold_copies-Reaches :
      (ds : List Fields) (o : Fields) → Among o ds → Reaches o (fold_copies h scored ds)
  unfolding fold_copies
  fold_copies-Reaches [] o m = kept [] o m refl
  fold_copies-Reaches (d ∷ []) o m = kept (d ∷ []) o m refl
  fold_copies-Reaches (d ∷ e ∷ ds) o m =
      fold_into-Reaches "duplicate" "expand://" [] _ o (d ∷ e ∷ ds) m

  fold_each-Reaches :
      (fold : List Fields → Folded)
      → ((vs : List Fields) (o : Fields) → Among o vs → Reaches o (fold vs))
      → (groups : Grouped) (o : Fields) → InGroup o groups
      → Reaches o (fold_each h scored fold groups)
  unfolding fold_each
  fold_each-Reaches fold each [] o m = elim m [ ]
  fold_each-Reaches fold each ((k, vs) ∷ groups) o m =
      let rest = fold_each h scored fold groups in
      elim m [
        | first m' ↦
            widen (id_of o) _ _ _ _ (λ q n. Among-left (fold vs).keep rest.keep n)
              (λ g n. Among-left (fold vs).groups rest.groups n) (each vs o m')
        | later m' ↦
            widen (id_of o) _ _ _ _ (λ q n. Among-right (fold vs).keep rest.keep n)
              (λ g n. Among-right (fold vs).groups rest.groups n)
              (fold_each-Reaches fold each groups o m')
      ]

  -- Folding loses no id: each object that is given is kept, or one of the same id is, or its id is
  -- listed in a group that names it as folded.
  pub collapse-IsReachable :
      (objs : List Fields) (intent : Intent) (confident : Bool) (o : Fields)
      → Among o objs
      → IsReachable
          (id_of o)
          (collapse h scored objs intent confident).keep
          (collapse h scored objs intent confident).groups
  unfolding collapse
  collapse-IsReachable objs intent confident o m =
      let (by_stmt, rest) = group_by (statement_key h) objs [] [] in
      let first_pass =
        fold_each h scored (fold_versions h scored (may_collapse_history intent confident))
          by_stmt in
      let (by_content, final) = group_by (duplicate_key h scored) (first_pass.keep ++ rest) [] [] in
      let second_pass = fold_each h scored (fold_copies h scored) by_content in
      let stage : (q : Fields)
          → Among q (first_pass.keep ++ rest)
          → Reaches q (collapse h scored objs intent confident) =
        λ q n. elim (group_by-Placed (duplicate_key h scored) q (first_pass.keep ++ rest) [] [] n) [
          | inl g ↦
              widen (id_of q) _ _ _ _ (λ x k. Among-right final second_pass.keep k)
                (λ x k. Among-right first_pass.groups second_pass.groups k)
                (fold_each-Reaches (fold_copies h scored) fold_copies-Reaches by_content q g)
          | inr r ↦ kept (final ++ second_pass.keep) q (Among-left final second_pass.keep r) refl
        ] in
      elim (group_by-Placed (statement_key h) o objs [] [] m) [
        | inl g ↦
            elim (fold_each-Reaches (fold_versions h scored (may_collapse_history intent confident))
              (fold_versions-Reaches (may_collapse_history intent confident)) by_stmt o g).found [
                | inl (q, n, e) ↦
                    subst
                      (λ i.
                        IsReachable i (collapse h scored objs intent confident).keep
                          (collapse h scored objs intent confident).groups)
                      e (stage q (Among-left first_pass.keep rest n))
                | inr (g', n, k) ↦ record {
                  found = inr (g', Among-left first_pass.groups second_pass.groups n, k);
                }
              ]
        | inr r ↦ stage o (Among-right first_pass.keep rest r)
      ]
