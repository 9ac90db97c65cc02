-- ===== src/SchemaGraph/State/Build.antt =====
-- `_build_graph` (control-plane/schema_graph.py) gives the graph of the foreign keys.
use pg_stress.Prelude.{
  String, Bool, false, Option, some, none, List, [], ◌∷◌, elem, if◌then◌else◌, ◌==◌, ◌&&◌, ◌||◌,
  ◌≡◌, refl, arith,
}
use pg_stress.Prelude.Dict.{Dict, keys}
use pg_stress.Floats.{Floats}
use pg_stress.SchemaGraph.Network.{DiGraph, Construction}
use pg_stress.SchemaGraph.Catalog.{TableInfo, Edge, EdgeData, SchemaData}
use pg_stress.SchemaGraph.State.{State, add_nodes, add_edges, build_graph}

module _ {fl : Floats} where
  abbrev joins : String → String → Edge fl → Bool
  joins u v e = e.parent == u && e.child == v

  abbrev attributes : Edge fl → EdgeData fl
  attributes e = record {
    fk_column = e.fk_column;
    parent_column = e.parent_column;
    ratio = e.ratio;
  }

  -- The attributes of the last foreign key from `v` to `u`, or `before`.
  abbrev pub last_key :
      String → String → List (Edge fl) → Option (EdgeData fl) → Option (EdgeData fl)
  last_key u v [] before = before
  last_key u v (e ∷ edges) before =
      last_key u v edges (if joins u v e then some (attributes e) else before)

  -- The text is an end of a foreign key.
  abbrev pub is_end : String → List (Edge fl) → Bool
  is_end n [] = false
  is_end n (e ∷ edges) = e.parent == n || (e.child == n || is_end n edges)

module _ (fl : Floats) (nx : DiGraph TableInfo (EdgeData fl)) (laws : Construction nx) where
  edge-add_edges :
      (edges : List (Edge fl)) (g : nx.Graph) (u v : String)
      → nx.edge (add_edges fl nx edges g) u v ≡ last_key u v edges (nx.edge g u v)
  unfolding add_edges
  edge-add_edges [] g u v = refl
  edge-add_edges (e ∷ edges) g u v =
      rw (edge-add_edges edges (nx.add_edge g e.parent e.child (attributes e)) u v)
        (rw (laws.edge-add_edge g e.parent e.child (attributes e) u v))

  edge-add_nodes :
      (tables : Dict TableInfo) (g : nx.Graph) (u v : String)
      → nx.edge (add_nodes fl nx tables g) u v ≡ nx.edge g u v
  unfolding add_nodes
  edge-add_nodes [] g u v = refl
  edge-add_nodes ((n, info) ∷ tables) g u v =
      rw (edge-add_nodes tables (nx.add_node g n info) u v) (laws.edge-add_node g n info u v)

  node-add_edges :
      (edges : List (Edge fl)) (g : nx.Graph) (n : String)
      → elem n (nx.nodes (add_edges fl nx edges g)) ≡ (elem n (nx.nodes g) || is_end n edges)
  unfolding add_edges
  node-add_edges [] g n = ground arith
  node-add_edges (e ∷ edges) g n =
      rw (node-add_edges edges (nx.add_edge g e.parent e.child (attributes e)) n)
        (ground (arith, laws.nodes-add_edge g e.parent e.child (attributes e) n))

  node-add_nodes :
      (tables : Dict TableInfo) (g : nx.Graph) (n : String)
      → elem n (nx.nodes (add_nodes fl nx tables g)) ≡ (elem n (nx.nodes g) || elem n (keys tables))
  unfolding add_nodes keys
  node-add_nodes [] g n = ground arith
  node-add_nodes ((m, info) ∷ tables) g n =
      rw (node-add_nodes tables (nx.add_node g m info) n)
        (ground (arith, laws.nodes-add_node g m info n))

  -- Whatever the object held before, the graph that `_build_graph` leaves has an edge from `u` to `v`
  -- exactly for the foreign keys from `v` to `u`, with the attributes of the last of them, and its
  -- nodes are the tables and the ends of the foreign keys.
  pub build_graph_lem :
      (d : SchemaData fl) (s : State fl nx) (u v : String)
      → (nx.edge (build_graph fl nx d s).graph u v ≡ last_key u v d.edges none)
        × (elem u (nx.nodes (build_graph fl nx d s).graph)
            ≡ (elem u (keys d.tables) || is_end u d.edges))
  unfolding build_graph
  build_graph_lem d s u v = (
    rw (edge-add_edges, edge-add_nodes, laws.edge-empty) refl,
    rw (node-add_edges, node-add_nodes, laws.nodes-empty) refl,
  )
