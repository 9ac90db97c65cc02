-- ===== src/SchemaGraph/Network.antt =====
-- `networkx.DiGraph`, a third-party package: the operations that control-plane/schema_graph.py calls,
-- and what its documentation says of them.
use pg_stress.Prelude.{
  ℕ, String, Option, some, none, List, true, false, ◌==◌, ◌&&◌, ◌||◌, if◌then◌else◌, ◌≡◌, elem,
  distinct,
}

-- `N` and `E` are the attributes of a node and of an edge.
pub record DiGraph (N E : Type 0) : Type 1 where
  pub Graph : Type 0
  pub empty : Graph
  pub add_node : Graph → String → N → Graph
  pub add_edge : Graph → String → String → E → Graph
  -- `list(G.nodes())`
  pub nodes : Graph → List String
  pub number_of_edges : Graph → ℕ
  -- `G[u][v]`; `none` is a KeyError
  pub edge : Graph → String → String → Option E
  -- `none` is a NetworkXError: the node is not in the graph
  pub successors : Graph → String → Option (List String)
  pub predecessors : Graph → String → Option (List String)
  pub in_degree : Graph → String → ℕ
  pub out_degree : Graph → String → ℕ
  -- the nodes of `nx.bfs_tree(G, source)`
  pub bfs_tree : Graph → String → Option (List String)
  -- `none` is a NetworkXNoPath
  pub shortest_path_length : Graph → String → String → Option ℕ
  -- `none` is NetworkXUnfeasible: the graph has a cycle
  pub topological_sort : Graph → Option (List String)

-- There is an edge from `u` to `v`.
abbrev pub HasEdge : {N E : Type 0} (nx : DiGraph N E) → nx.Graph → String → String → Type 0
HasEdge {E = E} nx g u v = (e : E) × (nx.edge g u v ≡ some e)

-- What the traversals rely on.
pub record Traversal {N E : Type 0} (nx : DiGraph N E) : Type 0 where
  pub nodes_distinct : (g : nx.Graph) → distinct (nx.nodes g) ≡ true
  -- a node has successors, and nothing else has
  pub successors_node :
      (g : nx.Graph) (u : String)
      → elem u (nx.nodes g) ≡ true
      → (cs : List String) × (nx.successors g u ≡ some cs)
  pub node_of_successors :
      (g : nx.Graph) (u : String) (cs : List String)
      → nx.successors g u ≡ some cs
      → elem u (nx.nodes g) ≡ true
  -- the successors are the ends of the edges, and are nodes
  pub edge_of_successor :
      (g : nx.Graph) (u v : String) (cs : List String)
      → nx.successors g u ≡ some cs
      → elem v cs ≡ true
      → HasEdge nx g u v
  pub successor_of_edge :
      (g : nx.Graph) (u v : String) (e : E) (cs : List String)
      → nx.edge g u v ≡ some e
      → nx.successors g u ≡ some cs
      → elem v cs ≡ true
  pub node_of_edge :
      (g : nx.Graph) (u v : String) (e : E) → nx.edge g u v ≡ some e → elem v (nx.nodes g) ≡ true

-- What `add_node` and `add_edge` do, as far as the construction of the graph relies on it.
pub record Construction {N E : Type 0} (nx : DiGraph N E) : Type 0 where
  pub edge-empty : (u v : String) → nx.edge nx.empty u v ≡ none
  pub edge-add_node :
      (g : nx.Graph) (n : String) (info : N) (u v : String)
      → nx.edge (nx.add_node g n info) u v ≡ nx.edge g u v
  -- a second edge between the same nodes replaces the attributes of the first
  pub edge-add_edge :
      (g : nx.Graph) (p c : String) (e : E) (u v : String)
      → nx.edge (nx.add_edge g p c e) u v ≡ (if p == u && c == v then some e else nx.edge g u v)
  pub nodes-empty : (n : String) → elem n (nx.nodes nx.empty) ≡ false
  pub nodes-add_node :
      (g : nx.Graph) (m : String) (info : N) (n : String)
      → elem n (nx.nodes (nx.add_node g m info)) ≡ (m == n || elem n (nx.nodes g))
  pub nodes-add_edge :
      (g : nx.Graph) (p c : String) (e : E) (n : String)
      → elem n (nx.nodes (nx.add_edge g p c e)) ≡ (p == n || c == n || elem n (nx.nodes g))
