-- ===== src/SchemaGraph/State.antt =====
-- The class `SchemaGraph` and its SQLite cache (control-plane/schema_graph.py): loading, building,
-- refreshing, and the queries that need no walk of their own. PostgreSQL and SQLite may raise: what
-- they answered is an argument.
pub mod Build
pub mod Views
pub mod Agreement
use pg_stress.Prelude.{
  ℕ, ◌+◌, String, Bool, true, false, Option, some, none, List, [], ◌∷◌, map, length, if◌then◌else◌,
  ◌==◌,
}
use pg_stress.Prelude.Dict.{Dict}
use pg_stress.Prelude.Int.{ℤ, pos}
use pg_stress.Prelude.Result.{Result, ok, raise, key_error, networkx_error, ◌>>=◌, or_raise}
use pg_stress.Floats.{Floats}
use pg_stress.SchemaGraph.Network.{DiGraph}
use pg_stress.SchemaGraph.Catalog.{TableInfo, Classification, Edge, EdgeData, SchemaData, rows_of}

module _ (fl : Floats) (nx : DiGraph TableInfo (EdgeData fl)) where
  open nx use {
    Graph, empty, add_node, add_edge, nodes, edge, successors, predecessors, number_of_edges,
    in_degree, out_degree, topological_sort, bfs_tree, shortest_path_length,
  }

  -- The row of `schema_cache` of this database: its id is the name of the database.
  pub record CacheRow : Type 0 where
    pub schema_hash : String
    pub table_count : ℕ
    pub edge_count : ℕ
    -- `graph_json`, read back
    pub graph : SchemaData fl

  -- The object and the cache.
  pub record State : Type 0 where
    pub graph : Graph
    pub tables : Dict TableInfo
    pub database : String
    pub loaded : Bool
    pub schema_hash : String
    pub cache : Option CacheRow

  -- `__init__`, over the cache that is on disk
  unfoldable pub init : Option CacheRow → State
  init cache = record {
    graph = empty;
    tables = [];
    database = "";
    loaded = false;
    schema_hash = "";
    cache = cache;
  }

  unfoldable pub add_nodes : Dict TableInfo → Graph → Graph
  add_nodes [] g = g
  add_nodes ((name, info) ∷ tables) g = add_nodes tables (add_node g name info)

  unfoldable pub add_edges : List (Edge fl) → Graph → Graph
  add_edges [] g = g
  add_edges (e ∷ edges) g = add_edges edges (
      add_edge g e.parent e.child
        (record { fk_column = e.fk_column; parent_column = e.parent_column; ratio = e.ratio }))

  unfoldable pub build_graph : SchemaData fl → State → State
  unfolding add_nodes add_edges
  build_graph d s = record s {
    graph = add_edges d.edges (add_nodes d.tables empty);
    tables = d.tables;
    database = d.database;
    loaded = true;
  }

  -- The INSERT OR REPLACE into the cache; `false` is an exception of SQLite. `stored d` is what
  -- `json.loads` reads back of the text that `json.dumps(..., default=str)` makes of `d`.
  unfoldable pub save :
      (SchemaData fl → SchemaData fl) → Bool → String → SchemaData fl → State → State
  save stored false hash d s = s
  save stored true hash d s = record s {
    cache = some (record {
      schema_hash = hash;
      table_count = length d.tables;
      edge_count = length d.edges;
      graph = stored d;
    });
  }

  -- The lines under "Introspect."; an exception leaves what was done.
  unfoldable pub load_fresh :
      (SchemaData fl → SchemaData fl) → Bool → String → Result (SchemaData fl) → State → State
  unfolding build_graph save
  load_fresh stored saved hash (raise e) s = s
  load_fresh stored saved hash (ok d) s =
      save stored saved hash d (record (build_graph d s) { schema_hash = hash })

  -- `if cached and cached[1] == current_hash`
  unfoldable pub load_with :
      (SchemaData fl → SchemaData fl)
      → Bool
      → String
      → Result (SchemaData fl)
      → Option CacheRow
      → State
      → State
  unfolding load_fresh
  load_with stored saved hash fresh none s = load_fresh stored saved hash fresh s
  load_with stored saved hash fresh (some c) s =
      if c.schema_hash == hash then build_graph c.graph s else load_fresh stored saved hash fresh s

  -- `load()`: the arguments are the hash of the live schema, or the exception of the connection, what
  -- `_introspect` would return, and whether SQLite takes the row.
  unfoldable pub load :
      (SchemaData fl → SchemaData fl)
      → Result String
      → Result (SchemaData fl)
      → Bool
      → State
      → State
  unfolding load_with
  load stored (raise e) fresh saved s = s
  load stored (ok hash) fresh saved s = load_with stored saved hash fresh s.cache s

  -- `refresh()`: the schema is introspected before it is hashed.
  unfoldable pub refresh :
      (SchemaData fl → SchemaData fl)
      → Result (SchemaData fl)
      → Result String
      → Bool
      → State
      → State
  unfolding build_graph save
  refresh stored (raise e) hash saved s = s
  refresh stored (ok d) (raise e) saved s = build_graph d s
  refresh stored (ok d) (ok hash) saved s =
      save stored saved hash d (record (build_graph d s) { schema_hash = hash })

  pub record Child : Type 0 where
    pub table : String
    pub fk_column : String
    pub ratio : fl.Float
    pub rows : ℤ

  unfoldable pub child_entries : State → String → List String → Result (List Child)
  child_entries s table [] = ok []
  child_entries s table (child ∷ cs) = or_raise (edge s.graph table child) key_error >>= λ e.
      child_entries s table cs >>= λ rest. ok (
        record {
          table = child;
          fk_column = e.fk_column;
          ratio = e.ratio;
          rows = rows_of (pos 0) child s.tables;
        }
        ∷ rest)

  unfoldable pub children : State → String → Result (List Child)
  unfolding child_entries
  children s table =
      or_raise (successors s.graph table) networkx_error >>= λ cs. child_entries s table cs

  pub record Parent : Type 0 where
    pub table : String
    pub fk_column : String
    pub rows : ℤ

  unfoldable pub parent_entries : State → String → List String → Result (List Parent)
  parent_entries s table [] = ok []
  parent_entries s table (parent ∷ ps) = or_raise (edge s.graph parent table) key_error >>= λ e.
      parent_entries s table ps >>= λ rest. ok (
        record { table = parent; fk_column = e.fk_column; rows = rows_of (pos 0) parent s.tables }
        ∷ rest)

  unfoldable pub parents : State → String → Result (List Parent)
  unfolding parent_entries
  parents s table =
      or_raise (predecessors s.graph table) networkx_error >>= λ ps. parent_entries s table ps

  -- `try: topological_sort`, and on a cycle the nodes in their own order
  unfoldable pub insert_order : State → List String
  insert_order s = elim (topological_sort s.graph) [ some order ↦ order | none ↦ nodes s.graph ]

  unfoldable pub fk_count : State → String → ℕ
  fk_count s table = in_degree s.graph table + out_degree s.graph table
