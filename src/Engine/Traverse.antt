-- ===== src/Engine/Traverse.antt =====
-- core/__init__.py: the neighbours of an entity, and the bounded breadth-first traversal.
pub mod Bounded
pub mod Edges
use epistemos.Common.{
  ℕ, zero, suc, String, Bool, true, false, not, Option, none, some, List, [], ◌∷◌, ◌++◌, ◌==◌, ◌||◌,
  length, leb, contains, any, sorted_set, if◌then◌else◌,
}
use epistemos.Result.{Result, ok, err, validation, not_found, ◌>>=◌}
use epistemos.Json.{Json, Fields, end, field, is_str}
use epistemos.Json.Dict.{get, item, json_eq}
use epistemos.Host.{Host, ℤ, pos, negsuc, int_of}
use epistemos.Identity.{Principal, require}
use epistemos.Storage.{Objects, relations}
use epistemos.Engine.Base.{Engine}
use epistemos.Engine.Read.{get_object_at, ref_in_scope, can_read}
use epistemos.Engine.Transfer.Records.{text}

-- The endpoint that is not the entity.
unfoldable pub far_end : String → Fields → Result Json
far_end entity_id rel = do
  source ← item "source_entity" rel
  if is_str source entity_id then item "target_entity" rel else ok source

abbrev pub edges_at : Principal → String → String → Option String → Objects → List Fields
edges_at p entity_id direction rel_type os =
    (if direction == "out" || direction == "both"
      then relations p.tenant p.namespace (some entity_id) none rel_type os
      else [])
    ++ (if direction == "in" || direction == "both"
        then relations p.tenant p.namespace none (some entity_id) rel_type os
        else [])

-- An edge of the answer to a traversal.
unfoldable pub edge_of : Fields → Result Fields
edge_of rel = do
  source ← item "source_entity" rel
  target ← item "target_entity" rel
  rel_type ← item "rel_type" rel
  id ← item "id" rel
  ok (field "source" source (field "target" target (field "rel_type" rel_type (field "id" id end))))

-- What the loops keep.
pub record Walk : Type 0 where
  pub visited : List String
  pub edges : List Fields
  pub frontier : List String

-- The loops go on, or they return at once, out of nodes.
pub data Step : Type 0 where
  going truncated : Walk → Step

-- `_dedup_edges`: the first edge of each id, where `seen` are the ids so far.
unfoldable pub dedup_edges : List Json → List Fields → List Fields
dedup_edges seen [] = []
dedup_edges seen (e ∷ edges) =
    let again = dedup_edges seen edges in
    let first = e ∷ dedup_edges (get "id" e ∷ seen) edges in
    if any (λ i. json_eq i (get "id" e)) seen then again else first

pub record Graph : Type 0 where
  pub start : String
  pub nodes : List String
  pub edges : List Fields
  pub is_truncated : Bool

unfoldable pub graph_of : String → Step → Graph
unfolding dedup_edges
graph_of start (going w) = record {
  start = start;
  nodes = sorted_set w.visited;
  edges = dedup_edges [] w.edges;
  is_truncated = false;
}
graph_of start (truncated w) = record {
  start = start;
  nodes = sorted_set w.visited;
  edges = dedup_edges [] w.edges;
  is_truncated = true;
}

unfoldable pub visit : ℕ → String → Walk → Step
visit max_nodes nxt w =
    if contains nxt w.visited
    then going w
    else if leb max_nodes (length w.visited)
    then truncated w
    else going
        (record { visited = nxt ∷ w.visited; edges = w.edges; frontier = w.frontier ++ nxt ∷ [] })

abbrev pub and_then : Step → (Walk → Result Step) → Result Step
and_then (truncated w) k = ok (truncated w)
and_then (going w) k = k w

module _ (h : Host) (p : Principal) (os : Objects) where
  -- The relation and its far endpoint, where that is an object, are readable.
  unfoldable pub is_visible : String → Fields → Result Bool
  is_visible entity_id rel = do
    may ← can_read h p os rel
    if not may then ok false else (do
      other ← far_end entity_id rel
      elim (get_object_at other os) [ none ↦ ok true | some o ↦ can_read h p os o ])

  unfoldable pub visible_edges : String → List Fields → Result (List Fields)
  visible_edges entity_id [] = ok []
  visible_edges entity_id (rel ∷ rels) = do
    keep ← is_visible entity_id rel
    result ← visible_edges entity_id rels
    ok (if keep then rel ∷ result else result)

  unfoldable pub neighbors : String → String → Option String → Result (List Fields)
  neighbors entity_id direction rel_type = do
    _ ← require p "read"
    start ← ref_in_scope p entity_id os
    may ← can_read h p os start
    if not may
        then err not_found
        else visible_edges entity_id (edges_at p entity_id direction rel_type os)

  -- An endpoint that is no text is a TypeError here; in Python it is one when the nodes are sorted.
  unfoldable pub follow : ℕ → Fields → Walk → Result Step
  follow max_nodes rel w = do
    edge ← edge_of rel
    source ← item "source_entity" rel >>= text
    target ← item "target_entity" rel >>= text
    and_then
        (visit max_nodes source
          (record { visited = w.visited; edges = w.edges ++ edge ∷ []; frontier = w.frontier }))
        (λ w'. ok (visit max_nodes target w'))

  unfoldable pub follow_all : ℕ → List Fields → Walk → Result Step
  follow_all max_nodes [] w = ok (going w)
  follow_all max_nodes (rel ∷ rels) w = do
    step ← follow max_nodes rel w
    and_then step (follow_all max_nodes rels)

  module _ (max_nodes : ℕ) (direction : String) (rel_type : Option String) where
    unfoldable pub expand : List String → Walk → Result Step
    expand [] w = ok (going w)
    expand (node ∷ nodes) w = do
      rels ← neighbors node direction rel_type
      step ← follow_all max_nodes rels w
      and_then step (expand nodes)

    abbrev fresh : Walk → Walk
    fresh w = record { visited = w.visited; edges = w.edges; frontier = [] }

    -- One round for each hop.
    unfoldable pub rounds : ℕ → List String → Walk → Result Step
    rounds zero frontier w = ok (going w)
    rounds (suc hops) frontier w = do
      step ← expand frontier (fresh w)
      and_then step
          (λ w'. elim w'.frontier [ [] ↦ ok (going w') | n ∷ ns ↦ rounds hops (n ∷ ns) w' ])

-- min(int(max_hops), limit), refused if it is below 0
unfoldable pub hops_of : ℕ → ℤ → Result ℕ
hops_of limit (pos n) = ok (if leb n limit then n else limit)
hops_of limit (negsuc n) = err validation

module _ (e : Engine) (p : Principal) where
  unfoldable pub query_graph : String → Json → Option String → String → Objects → Result Graph
  query_graph start max_hops rel_type direction os = do
    _ ← require p "read"
    _ ← ref_in_scope p start os
    n ← int_of e.host max_hops
    hops ← hops_of e.limits.max_hops n
    let w : Walk = record { visited = start ∷ []; edges = []; frontier = [] }
    step ← rounds e.host p os e.limits.max_graph_nodes direction rel_type hops (start ∷ []) w
    ok (graph_of start step)
