-- ===== src/Samples/Listed.antt =====
-- A graph as the lists of its nodes and edges, newest first: enough of networkx to build one.
use pg_stress.Prelude.{
  String, Option, some, none, List, [], ◌∷◌, if◌then◌else◌, ◌==◌, ◌&&◌, refl, length, arith,
}
use pg_stress.SchemaGraph.Network.{DiGraph, Construction}
use pg_stress.SchemaGraph.Catalog.{TableInfo, EdgeData}
use pg_stress.Samples.Fixed.{hundredths}

abbrev pub Attributes : Type 0
Attributes = EdgeData hundredths

pub record Lists : Type 0 where
  pub named : List String
  pub joined : List ((String × String) × Attributes)

abbrev lookup : String → String → List ((String × String) × Attributes) → Option Attributes
lookup u v [] = none
lookup u v (((p, c), e) ∷ es) = if p == u && c == v then some e else lookup u v es

abbrev pub listed : DiGraph TableInfo Attributes
listed = record {
  Graph = Lists;
  empty = record { named = []; joined = [] };
  add_node = λ g n info. record g { named = n ∷ g.named };
  add_edge = λ g p c e. record { named = p ∷ c ∷ g.named; joined = ((p, c), e) ∷ g.joined };
  nodes = λ g. g.named;
  number_of_edges = λ g. length g.joined;
  edge = λ g u v. lookup u v g.joined;
  successors = λ g u. none;
  predecessors = λ g u. none;
  in_degree = λ g u. 0;
  out_degree = λ g u. 0;
  bfs_tree = λ g u. none;
  shortest_path_length = λ g u v. none;
  topological_sort = λ g. none;
}

pub listed-Construction : Construction listed
listed-Construction = record {
  edge-empty = λ u v. refl;
  edge-add_node = λ g n info u v. refl;
  edge-add_edge = λ g p c e u v. refl;
  nodes-empty = λ n. refl;
  nodes-add_node = λ g m info n. refl;
  nodes-add_edge = λ g p c e n. ground arith;
}
