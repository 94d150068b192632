-- ===== src/Engine/Traverse/Bounded.antt =====
-- core/__init__.py: the nodes and the edges of a traversal.
use epistemos.Common.{
  ℕ, zero, suc, ◌≤◌, ◌≡◌, sym, String, Option, List, [], ◌∷◌, ◌++◌, All, arith, length, leb,
  contains, any, sorted_set, insert_sorted, Bool-cases, inl, inr,
}
use epistemos.Result.{Result, ok, bind-ok, ok_injective, ◌>>=◌}
use epistemos.Json.{Json, Fields}
use epistemos.Json.Dict.{get, item, json_eq}
use epistemos.Host.{Host, int_of}
use epistemos.Identity.{Principal, require}
use epistemos.Storage.{Objects}
use epistemos.Engine.Base.{Engine}
use epistemos.Engine.Read.{ref_in_scope}
use epistemos.Engine.Transfer.Records.{text}
use epistemos.Engine.Traverse.{
  Walk, Step, going, truncated, Graph, graph_of, dedup_edges, visit, and_then, edge_of, neighbors,
  follow, follow_all, expand, rounds, hops_of, query_graph,
}
use epistemos.Engine.Traverse.Edges.{IsSeen, IsReadableEdge, edge_of-lem, neighbors-IsSeen}

either_end :
    {A G : Type 0} (frontier : List String) (stop : A) (k : String → List String → A) {a : A}
    → (elim frontier [ [] ↦ stop | n ∷ ns ↦ k n ns ]) ≡ a
    → (stop ≡ a → G)
    → ((n : String) (ns : List String) → k n ns ≡ a → G)
    → G
either_end [] stop k e ended more = ended e
either_end (n ∷ ns) stop k e ended more = more n ns e

all_append : {A : Type 0} (P : A → Type 0) (xs ys : List A) → All P xs → All P ys → All P (xs ++ ys)
all_append P [] ys px py = py
all_append P (x ∷ xs) ys px py = (px.0, all_append P xs ys px.1 py)

module _ (h : Host) (p : Principal) (os : Objects) where
  module _ (max_nodes : ℕ) (one : 1 ≤ max_nodes) where
    record IsGood (w : Walk) : Type 0 where
      budget : length w.visited ≤ max_nodes
      readable : All (IsReadableEdge h p os) w.edges

    abbrev IsGoodStep : Step → Type 0
    IsGoodStep (going w) = IsGood w
    IsGoodStep (truncated w) = IsGood w

    visit-IsGoodStep : (nxt : String) (w : Walk) → IsGood w → IsGoodStep (visit max_nodes nxt w)
    unfolding visit
    visit-IsGoodStep nxt w g = elim (Bool-cases (contains nxt w.visited)) [
      | inl seen ↦ rw seen g
      | inr new ↦ elim (Bool-cases (leb max_nodes (length w.visited))) [
        | inl full ↦ rw (new, full) g
        | inr room ↦ rw (new, room) (record { budget = ground arith; readable = g.readable })
      ]
    ]

    then-IsGoodStep :
        (step : Step) (k : Walk → Result Step) {t : Step}
        → IsGoodStep step
        → ((w : Walk) → IsGood w → k w ≡ ok t → IsGoodStep t)
        → and_then step k ≡ ok t
        → IsGoodStep t
    then-IsGoodStep (going w) k g next e = next w g e
    then-IsGoodStep (truncated w) k g next e = rw (sym (ok_injective e)) g

    follow-IsGoodStep :
        (rel : Fields) (w : Walk) (t : Step)
        → IsSeen h p os rel
        → IsGood w
        → follow h p os max_nodes rel w ≡ ok t
        → IsGoodStep t
    unfolding follow
    follow-IsGoodStep rel w t may g e =
        let (edge, at, rest) = bind-ok (edge_of rel) _ e in
        let (source, _, rest') = bind-ok (item "source_entity" rel >>= text) _ rest in
        let (target, _, last) = bind-ok (item "target_entity" rel >>= text) _ rest' in
        then-IsGoodStep
          (visit max_nodes source
            (record { visited = w.visited; edges = w.edges ++ edge ∷ []; frontier = w.frontier }))
          (λ w'. ok (visit max_nodes target w'))
          (visit-IsGoodStep source _ (record {
            budget = g.budget;
            readable =
                all_append (IsReadableEdge h p os) w.edges (edge ∷ []) g.readable
                  (edge_of-lem h p os rel edge at may, tt);
          }))
          (λ w' g' e'. rw (sym (ok_injective e')) (visit-IsGoodStep target w' g')) last

    follow_all-IsGoodStep :
        (rels : List Fields) (w : Walk) (t : Step)
        → All (IsSeen h p os) rels
        → IsGood w
        → follow_all h p os max_nodes rels w ≡ ok t
        → IsGoodStep t
    unfolding follow_all
    follow_all-IsGoodStep [] w t may g e = rw (sym (ok_injective e)) g
    follow_all-IsGoodStep (rel ∷ rels) w t may g e =
        let (step, ran, rest) = bind-ok (follow h p os max_nodes rel w) _ e in
        then-IsGoodStep step (follow_all h p os max_nodes rels)
          (follow-IsGoodStep rel w step may.0 g ran)
          (λ w' g' e'. follow_all-IsGoodStep rels w' t may.1 g' e') rest

    module _ (direction : String) (rel_type : Option String) where
      expand-IsGoodStep :
          (nodes : List String) (w : Walk) (t : Step)
          → IsGood w
          → expand h p os max_nodes direction rel_type nodes w ≡ ok t
          → IsGoodStep t
      unfolding expand
      expand-IsGoodStep [] w t g e = rw (sym (ok_injective e)) g
      expand-IsGoodStep (node ∷ nodes) w t g e =
          let (rels, listed, rest) = bind-ok (neighbors h p os node direction rel_type) _ e in
          let (step, ran, last) = bind-ok (follow_all h p os max_nodes rels w) _ rest in
          then-IsGoodStep step (expand h p os max_nodes direction rel_type nodes)
            (follow_all-IsGoodStep rels w step
              (neighbors-IsSeen h p os node direction rel_type rels listed) g ran)
            (λ w' g' e'. expand-IsGoodStep nodes w' t g' e') last

      rounds-IsGoodStep :
          (hops : ℕ) (frontier : List String) (w : Walk) (t : Step)
          → IsGood w
          → rounds h p os max_nodes direction rel_type hops frontier w ≡ ok t
          → IsGoodStep t
      unfolding rounds
      rounds-IsGoodStep zero frontier w t g e = rw (sym (ok_injective e)) g
      rounds-IsGoodStep (suc hops) frontier w t g e =
          let start : Walk = record { visited = w.visited; edges = w.edges; frontier = [] } in
          let (step, ran, rest) =
            bind-ok (expand h p os max_nodes direction rel_type frontier start) _ e in
          then-IsGoodStep step _
            (expand-IsGoodStep frontier start step
              (record { budget = g.budget; readable = g.readable }) ran)
            (λ w' g' e'.
              either_end w'.frontier (ok (going w'))
                (λ n ns. rounds h p os max_nodes direction rel_type hops (n ∷ ns) w') e'
                (λ ended. rw (sym (ok_injective ended)) g')
                (λ n ns more. rounds-IsGoodStep hops (n ∷ ns) w' t g' more))
            rest

length-insert : (x : String) (ss : List String) → length (insert_sorted x ss) ≤ suc (length ss)
unfolding insert_sorted
length-insert x [] = omega arith
length-insert x (y ∷ ss) = ground (arith, length-insert x ss)

length-sorted_set : (ss : List String) → length (sorted_set ss) ≤ length ss
unfolding sorted_set
length-sorted_set [] = omega arith
length-sorted_set (x ∷ ss) = omega (arith, length-sorted_set ss, length-insert x (sorted_set ss))

dedup_edges-All :
    (P : Fields → Type 0) (seen : List Json) (edges : List Fields)
    → All P edges
    → All P (dedup_edges seen edges)
unfolding dedup_edges
dedup_edges-All P seen [] all = tt
dedup_edges-All P seen (e ∷ edges) all =
    elim (Bool-cases (any (λ i. json_eq i (get "id" e)) seen)) [
      | inl again ↦ rw again (dedup_edges-All P seen edges all.1)
      | inr first ↦ rw first (all.0, dedup_edges-All P (get "id" e ∷ seen) edges all.1)
    ]

module _ (e : Engine) (p : Principal) (os : Objects) where
  graph_of-lem :
      (one : 1 ≤ e.limits.max_graph_nodes) (start : String) (step : Step)
      → IsGoodStep e.host p os e.limits.max_graph_nodes one step
      → length (graph_of start step).nodes ≤ e.limits.max_graph_nodes
        × All (IsReadableEdge e.host p os) (graph_of start step).edges
  unfolding graph_of
  graph_of-lem one start (going w) g = (
    omega (arith, length-sorted_set w.visited, g.budget),
    dedup_edges-All _ [] w.edges g.readable,
  )
  graph_of-lem one start (truncated w) g = (
    omega (arith, length-sorted_set w.visited, g.budget),
    dedup_edges-All _ [] w.edges g.readable,
  )

  -- What a traversal returns has at most as many nodes as the engine's budget, which is at least one,
  -- and each of its edges is that of a stored relation of the principal's scope that the principal may
  -- read, and so it may the object at either end, where one stands there.
  pub query_graph_bounded :
      (start : String) (max_hops : Json) (rel_type : Option String) (direction : String) (g : Graph)
      → 1 ≤ e.limits.max_graph_nodes
      → query_graph e p start max_hops rel_type direction os ≡ ok g
      → length g.nodes ≤ e.limits.max_graph_nodes × All (IsReadableEdge e.host p os) g.edges
  unfolding query_graph
  query_graph_bounded start max_hops rel_type direction g one ran =
      let (_, _, rest) = bind-ok (require p "read") _ ran in
      let (_, _, rest') = bind-ok (ref_in_scope p start os) _ rest in
      let (n, _, rest'') = bind-ok (int_of e.host max_hops) _ rest' in
      let (hops, _, rest3) = bind-ok (hops_of e.limits.max_hops n) _ rest'' in
      let w : Walk = record { visited = start ∷ []; edges = []; frontier = [] } in
      let (step, walked, last) =
        bind-ok (rounds e.host p os e.limits.max_graph_nodes direction rel_type hops (start ∷ []) w)
          _ rest3 in
      rw (sym (ok_injective last)) (
        graph_of-lem one start step (
          rounds-IsGoodStep e.host p os e.limits.max_graph_nodes one direction rel_type hops
            (start ∷ []) w step (record { budget = one; readable = tt }) walked))
