-- ===== src/SchemaGraph/State/Views.antt =====
-- `cascade_tree` and `summary` (control-plane/schema_graph.py).
use pg_stress.Prelude.{ℕ, String, Option, none, List, [], length, ◌∷◌, if◌then◌else◌, ◌==◌}
use pg_stress.Prelude.Dict.{Dict, put}
use pg_stress.Prelude.Int.{ℤ, pos}
use pg_stress.Prelude.Result.{Result, ok, networkx_error, ◌>>=◌, or_raise}
use pg_stress.Floats.{Floats}
use pg_stress.SchemaGraph.Network.{DiGraph}
use pg_stress.SchemaGraph.Catalog.{TableInfo, Classification, EdgeData, rows_of}
use pg_stress.SchemaGraph.State.{State}

-- `self.tables.get(name, {}).get("classification", "?")`
unfoldable pub class_of : String → Dict TableInfo → Option Classification
class_of t [] = none
class_of t ((s, info) ∷ tables) = if s == t then info.classification else class_of t tables

pub record TreeEntry : Type 0 where
  pub classification : Option Classification
  pub rows : ℤ
  pub depth : ℕ

pub record TableSummary : Type 0 where
  pub classification : Option Classification
  pub row_count : ℤ
  pub size : String
  pub pk : List String
  pub unique_columns : List String
  pub fk_in : ℕ
  pub fk_out : ℕ
  pub children : List String
  pub parents : List String

pub record Summary : Type 0 where
  pub database : String
  pub table_count : ℕ
  pub edge_count : ℕ
  pub schema_hash : String
  pub tables : Dict TableSummary

module _ (fl : Floats) (nx : DiGraph TableInfo (EdgeData fl)) where
  -- `shortest_path_length(G, table, node) if node != table else 0`
  unfoldable pub depth_in : State fl nx → String → String → Result ℕ
  depth_in s table node =
      if node == table
      then ok 0
      else or_raise (nx.shortest_path_length s.graph table node) networkx_error

  unfoldable pub tree_entries :
      State fl nx → String → List String → Dict TreeEntry → Result (Dict TreeEntry)
  unfolding depth_in
  tree_entries s table [] result = ok result
  tree_entries s table (node ∷ rest) result = depth_in s table node >>= λ depth.
      tree_entries s table rest (
        put node
          (record {
            classification = class_of node s.tables;
            rows = rows_of (pos 0) node s.tables;
            depth = depth;
          })
          result)

  unfoldable pub cascade_tree : State fl nx → String → Result (Dict TreeEntry)
  unfolding tree_entries
  cascade_tree s table =
      or_raise (nx.bfs_tree s.graph table) networkx_error >>= λ tree. tree_entries s table tree []

  unfoldable pub table_summaries : State fl nx → Dict TableInfo → Result (Dict TableSummary)
  table_summaries s [] = ok []
  table_summaries s ((name, info) ∷ tables) =
      or_raise (nx.successors s.graph name) networkx_error >>= λ cs.
      or_raise (nx.predecessors s.graph name) networkx_error >>= λ ps.
      table_summaries s tables >>= λ rest. ok (
        (
          name,
          record {
            classification = info.classification;
            row_count = info.row_count;
            size = info.size;
            pk = info.pk;
            unique_columns = info.unique_columns;
            fk_in = nx.in_degree s.graph name;
            fk_out = nx.out_degree s.graph name;
            children = cs;
            parents = ps;
          },
        )
        ∷ rest)

  unfoldable pub summary : State fl nx → Result Summary
  unfolding table_summaries
  summary s = table_summaries s s.tables >>= λ tables. ok (record {
    database = s.database;
    table_count = length (nx.nodes s.graph);
    edge_count = nx.number_of_edges s.graph;
    schema_hash = s.schema_hash;
    tables = tables;
  })
