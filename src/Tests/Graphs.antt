-- ===== src/Tests/Graphs.antt =====
-- core/__init__.py: a traversal of a small graph.
use epistemos.Common.{ℕ, ◌≤◌, ◌≡◌, refl, String, none, List, [], ◌∷◌, All, length, arith, false}
use epistemos.Result.{Result, ok, err}
use epistemos.Json.{num, str, Fields, end, field}
use epistemos.Storage.{Objects}
use epistemos.Engine.Traverse.{Graph, query_graph}
use epistemos.Engine.Traverse.Bounded.{query_graph_bounded}
use epistemos.Engine.Traverse.Edges.{IsReadableEdge}
use epistemos.Tests.Setup.{host, open_engine, alice}

abbrev object_of : String → String → Fields → Fields
object_of i kind more = field "id" (str i) (
    field "kind" (str kind) (
      field "tenant" (str "acme")
        (field "namespace" (str "hr") (field "owner" (str "alice") more))))

abbrev stored : Objects
stored =
    ("a", object_of "a" "entity" end)
    ∷ ("b", object_of "b" "entity" end)
    ∷ (
      "r",
      object_of "r" "relation" (
          field "source_entity" (str "a")
            (field "target_entity" (str "b") (field "rel_type" (str "knows") end))),
    )
    ∷ []

abbrev or_none : Result Graph → Graph
or_none (ok g) = g
or_none (err x) = record { start = ""; nodes = []; edges = []; is_truncated = false }

abbrev graph : Graph
graph = or_none (query_graph open_engine alice "a" (num 1) none "both" stored)

found : query_graph open_engine alice "a" (num 1) none "both" stored ≡ ok graph
unfolding query_graph epistemos.Identity.require epistemos.Engine.Read.ref_in_scope
    epistemos.Storage.get_object epistemos.Storage.lookup epistemos.Json.Dict.find
    epistemos.Host.int_of epistemos.Engine.Traverse.hops_of epistemos.Engine.Traverse.rounds
    epistemos.Engine.Traverse.expand epistemos.Engine.Traverse.neighbors
    epistemos.Engine.Read.can_read epistemos.Authz.can_read_object epistemos.Authz.placements
    epistemos.Engine.Traverse.visible_edges epistemos.Storage.relations
    epistemos.Engine.Traverse.is_visible epistemos.Authz.any_opens epistemos.Authz.opens
    epistemos.Common.insert_sorted epistemos.Common.sorted_set epistemos.Engine.Read.grant_id
    epistemos.Engine.Read.is_member epistemos.Engine.Read.space_of
    epistemos.Engine.Transfer.Records.text epistemos.Engine.Traverse.dedup_edges
    epistemos.Engine.Traverse.edge_of epistemos.Engine.Traverse.far_end
    epistemos.Engine.Traverse.follow epistemos.Engine.Traverse.follow_all
    epistemos.Engine.Traverse.graph_of epistemos.Engine.Traverse.visit epistemos.Json.Dict.json_eq
    epistemos.Json.iterate epistemos.Spaces.level epistemos.Spaces.of_level epistemos.Spaces.of_name
    epistemos.Spaces.resolve_visibility epistemos.Storage.objects
found = refl

room : 1 ≤ open_engine.limits.max_graph_nodes
room = omega arith

query_graph_bounded_example :
    length graph.nodes ≤ open_engine.limits.max_graph_nodes
    × All (IsReadableEdge host alice stored) graph.edges
query_graph_bounded_example =
    query_graph_bounded open_engine alice stored "a" (num 1) none "both" graph room found
