-- ===== src/Context/Build/Honest.antt =====
-- context/builder.py: what an envelope says of the objects that it does not deliver.
use epistemos.Common.{
  contains, Option-cases, ◌≡◌, refl, sym, ap, ◌∙◌, subst, String, Bool, true, Option, List, [], ◌∷◌,
  ◌++◌, ◌⊎◌, inl, inr, Among, here, there, map, Bool-cases, eq_iff, sorted_set, insert_sorted,
  text_lt, ◌==◌, if◌then◌else◌,
}
use epistemos.Result.{ok, bind-ok, ok_injective}
use epistemos.Json.{Json, Fields}
use epistemos.Host.{Host}
use epistemos.Identity.{Principal}
use epistemos.Storage.{Objects}
use epistemos.Context.Describe.{provenance, Intent, id_of}
use epistemos.Context.Collapse.{RedundancyGroup, Folded}
use epistemos.Context.Collapse.Reachable.{
  IsReachable, kept, collapse-IsReachable, Among-left, Among-right,
}
use epistemos.Context.Pack.{EnvelopeItem, Packed, item_of, sort_items}
use epistemos.Context.Pack.Budget.{Among-sort_items, pack-Sorted, Sorted}
use epistemos.Context.Build.{
  EnvelopeConfig, ContextEnvelope, ids_of, folded_ids, reachable_ids, Scored, objects_of, score_of,
  authorized_hits, items_of, add_pins, folded_hits, packed, drop_reasons, finalize, build,
  intent_of, contradictions,
}
use epistemos.Context.Build.Hits.{IsHitOn, authorized_hits-Among}

Among-map : {A B : Type 0} (f : A → B) {x : A} (xs : List A) → Among x xs → Among (f x) (map f xs)
Among-map f [] m = elim m [ ]
Among-map f (y ∷ xs) m = elim m [ here at ↦ here (ap f at) | there n ↦ there (Among-map f xs n) ]

insert_sorted-here : (s : String) (ss : List String) → Among s (insert_sorted s ss)
unfolding insert_sorted
insert_sorted-here s [] = here refl
insert_sorted-here s (t ∷ ss) = elim (Bool-cases (s == t)) [
  | inl same ↦ rw same (here ((eq_iff s t).0 same))
  | inr differ ↦ elim (Bool-cases (text_lt s t)) [
    | inl less ↦ rw (differ, less) (here refl)
    | inr more ↦ rw (differ, more) (there (insert_sorted-here s ss))
  ]
]

insert_sorted-there : (s x : String) (ss : List String) → Among x ss → Among x (insert_sorted s ss)
unfolding insert_sorted
insert_sorted-there s x [] m = elim m [ ]
insert_sorted-there s x (t ∷ ss) m = elim (Bool-cases (s == t)) [
  | inl same ↦ rw same m
  | inr differ ↦ elim (Bool-cases (text_lt s t)) [
    | inl less ↦ rw (differ, less) (there m)
    | inr more ↦
        rw (differ, more)
          (elim m [ here at ↦ here at | there n ↦ there (insert_sorted-there s x ss n) ])
  ]
]

Among-sorted_set : (x : String) (ss : List String) → Among x ss → Among x (sorted_set ss)
unfolding sorted_set
Among-sorted_set x [] m = elim m [ ]
Among-sorted_set x (s ∷ ss) m = elim m [
  | here at ↦
      subst (λ y. Among y (insert_sorted s (sorted_set ss))) (sym at)
        (insert_sorted-here s (sorted_set ss))
  | there n ↦ insert_sorted-there s x (sorted_set ss) (Among-sorted_set x ss n)
]

Among-folded :
    (i : String) (g : RedundancyGroup) (groups : List RedundancyGroup)
    → Among g groups
    → Among i g.collapsed
    → Among i (folded_ids groups)
Among-folded i g [] m n = elim m [ ]
Among-folded i g (f ∷ groups) m n = elim m [
  | here at ↦
      Among-left f.collapsed (f.canonical ∷ folded_ids groups)
        (subst (λ x. Among i x.collapsed) at n)
  | there m' ↦
      Among-right f.collapsed (f.canonical ∷ folded_ids groups)
        (there (Among-folded i g groups m' n))
]

module _ (h : Host) (p : Principal) (os : Objects) where
  item_of-id : (o : Fields) (i : EnvelopeItem) → item_of h o ≡ ok i → i.object_id ≡ id_of o
  unfolding item_of
  item_of-id o i e =
      let (refs, _, last) = bind-ok (provenance h o) _ e in
      ap (λ (x : EnvelopeItem). x.object_id) (sym (ok_injective last))

  -- The item of an object that is kept carries its id.
  items_of-Among :
      (objs : List Fields) (items : List EnvelopeItem) (o : Fields)
      → items_of h p os objs ≡ ok items
      → Among o objs
      → (i : EnvelopeItem) × Among i items × (i.object_id ≡ id_of o)
  unfolding items_of
  items_of-Among [] items o e m = elim m [ ]
  items_of-Among (q ∷ objs) items o e m =
      let (i, at_q, rest) = bind-ok (item_of h q) _ e in
      let (more, ran, last) = bind-ok (items_of h p os objs) _ rest in
      rw (sym (ok_injective last)) (elim m [
        | here at ↦ (i, here refl, item_of-id q i at_q ∙ ap id_of (sym at))
        | there n ↦
            let (j, place, same) = items_of-Among objs more o ran n in (j, there place, same)
      ])

  add_pins-Among :
      (items all : List EnvelopeItem) (pins : List Fields) (i : EnvelopeItem)
      → add_pins h p os items pins ≡ ok all
      → Among i items
      → Among i all
  unfolding add_pins
  add_pins-Among items all [] i e m = subst (Among i) (ok_injective e) m
  add_pins-Among items all (o ∷ pins) i e m =
      elim (Bool-cases (contains (id_of o) (ids_of items))) [
        | inl present ↦ add_pins-Among items all pins i (rw present at e) m
        | inr absent ↦
            let (j, _, rest) = bind-ok (item_of h o) _ (rw absent at e) in
            add_pins-Among (items ++ j ∷ []) all pins i rest (Among-left items (j ∷ []) m)
      ]

  folded_hits-IsReachable :
      (cfg : EnvelopeConfig) (intent : Intent) (confident : Bool) (hits : Scored) (o : Fields)
      → Among o (objects_of hits)
      → IsReachable
          (id_of o)
          (folded_hits h p os cfg intent confident hits).keep
          (folded_hits h p os cfg intent confident hits).groups
  folded_hits-IsReachable cfg intent confident hits o m =
      elim (Bool-cases cfg.collapse_redundancy) [
        | inl on ↦
            rw on (collapse-IsReachable h (score_of hits) (objects_of hits) intent confident o m)
        | inr off ↦ rw off (kept (objects_of hits) o m refl)
      ]

  packed-Sorted :
      (cfg : EnvelopeConfig) (items : List EnvelopeItem) (pinned : List String) (i : EnvelopeItem)
      → Among i items
      → Sorted pinned i (packed h p os cfg items pinned)
  packed-Sorted cfg items pinned i m = elim (Bool-cases cfg.budget_pack) [
    | inl on ↦ elim (Option-cases cfg.token_budget) [
      | inl unlimited ↦ rw (on, unlimited) (inl m)
      | inr (b, limited) ↦ rw (on, limited) (pack-Sorted pinned items b cfg.continuation i m)
    ]
    | inr off ↦ rw off (inl m)
  ]

  -- Each id is reachable in the envelope, or the envelope says that the budget left something out.
  abbrev pub Honest : String → ContextEnvelope → Type 0
  Honest i env =
      Among i (reachable_ids env)
      ⊎ (Among "token_limit" env.incomplete_reasons × (env.context_incomplete ≡ true))

  module _ (query : Option String) (intent : Intent) (confident : Bool) (pinned : List String)
      (groups : List RedundancyGroup) (reasons : List String) (at_tx : Json)
      (continuation : Bool) where
    abbrev finalized : Packed → ContextEnvelope
    finalized out =
        finalize h p os query intent confident out pinned groups
          (reasons ++ drop_reasons h p os continuation out.dropped) at_tx

    finalized-chosen :
        (out : Packed) (i : EnvelopeItem)
        → Among i out.chosen
        → Among i.object_id (reachable_ids (finalized out))
    unfolding finalize reachable_ids
    finalized-chosen out i m = Among-left (ids_of (sort_items out.chosen)) (folded_ids groups) (
        Among-map (λ (x : EnvelopeItem). x.object_id) (sort_items out.chosen)
          ((Among-sort_items i out.chosen).1 m))

    finalized-folded :
        (out : Packed) (i : String)
        → Among i (folded_ids groups)
        → Among i (reachable_ids (finalized out))
    unfolding finalize reachable_ids
    finalized-folded out i m = Among-right (ids_of (sort_items out.chosen)) (folded_ids groups) m

    finalized-dropped :
        (chosen dropped : List EnvelopeItem) (i : EnvelopeItem)
        → Among i dropped
        → let env = finalized (record { chosen = chosen; dropped = dropped }) in
          Among "token_limit" env.incomplete_reasons × (env.context_incomplete ≡ true)
    unfolding finalize
    finalized-dropped chosen [] i m = elim m [ ]
    finalized-dropped chosen (d ∷ dropped) i m = (
      Among-sorted_set "token_limit" _ (
          Among-left (reasons ++ drop_reasons h p os continuation (d ∷ dropped)) _
            (Among-right reasons (drop_reasons h p os continuation (d ∷ dropped)) (here refl))),
      refl,
    )

    finalized-Honest :
        (out : Packed) (i : EnvelopeItem) → Sorted pinned i out → Honest i.object_id (finalized out)
    finalized-Honest out i sorted = elim sorted [
      | inl c ↦ inl (finalized-chosen out i c)
      | inr (d, _) ↦ inr (finalized-dropped out.chosen out.dropped i d)
    ]

  listed-Honest :
      (cfg : EnvelopeConfig) (query : Option String) (given : Option (Intent × Bool)) (at_tx : Json)
      (found : List Fields) (hits : Scored) (env : ContextEnvelope) (o : Fields)
      → authorized_hits h p os found ≡ ok hits
      → build h p os cfg query given at_tx found ≡ ok env
      → Among o (objects_of hits)
      → Honest (id_of o) env
  unfolding build
  listed-Honest cfg query given at_tx found hits env o listed built m =
      let (intent, confident) = intent_of h p os query given in
      let (hits', listed', rest) = bind-ok (authorized_hits h p os found) _ built in
      let folded : Scored → Folded = folded_hits h p os cfg intent confident in
      let (items, made, rest') = bind-ok (items_of h p os (folded hits').keep) _ rest in
      let (contra, _, rest2) =
        bind-ok (if cfg.pin_contradictions then contradictions h p os (objects_of hits') else ok [])
          _ rest' in
      let (all, added, last) = bind-ok (add_pins h p os items contra) _ rest2 in
      let pinned : List String = map id_of contra in
      let out = packed h p os cfg all pinned in
      let same : hits ≡ hits' = ok_injective (sym listed ∙ listed') in
      let among : Among o (objects_of hits') = subst (λ x. Among o (objects_of x)) same m in
      rw (sym (ok_injective last))
        (elim (folded_hits-IsReachable cfg intent confident hits' o among).found [
          | inl (q, kept_q, id_q) ↦
              let (i, place, id_i) = items_of-Among (folded hits').keep items q made kept_q in
              let sorted =
                packed-Sorted cfg all pinned i (add_pins-Among items all contra i added place) in
              subst
                (λ x. Honest x (
                  finalized query intent confident pinned (folded hits').groups
                    (folded hits').reasons at_tx cfg.continuation out))
                (id_i ∙ id_q)
                (finalized-Honest query intent confident pinned (folded hits').groups
                  (folded hits').reasons at_tx cfg.continuation out i sorted)
          | inr (g, in_groups, in_group) ↦ inl (
              finalized-folded query intent confident pinned (folded hits').groups
                (folded hits').reasons at_tx cfg.continuation out (id_of o)
                (Among-folded (id_of o) g (folded hits').groups in_groups in_group))
        ])

  -- An envelope hides nothing that it left out: the id of each stored object that a hit of the search
  -- is on and that the principal may read, no space, grant, dimension or microconnection, is reachable
  -- in the envelope, delivered or folded behind a handle, or the envelope is marked incomplete and
  -- gives the token limit as a reason.
  pub build-Honest :
      (cfg : EnvelopeConfig) (query : Option String) (given : Option (Intent × Bool)) (at_tx : Json)
      (found : List Fields) (env : ContextEnvelope) (hit o : Fields)
      → build h p os cfg query given at_tx found ≡ ok env
      → Among hit found
      → IsHitOn h p os hit o
      → Honest (id_of o) env
  unfolding build
  build-Honest cfg query given at_tx found env hit o built m on =
      let (hits, listed, _) = bind-ok (authorized_hits h p os found) _ built in
      listed-Honest cfg query given at_tx found hits env o listed built
        (authorized_hits-Among h p os found hits hit o listed m on)
