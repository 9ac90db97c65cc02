-- ===== src/SchemaGraph/Catalog.antt =====
-- `_introspect` (control-plane/schema_graph.py): from the rows of the catalog queries to the tables,
-- the foreign keys with their ratios, and the class of each table. The queries themselves run in
-- PostgreSQL, and their rows are the argument.
use pg_stress.Prelude.{
  ℕ, String, Bool, false, Option, some, none, List, [], ◌∷◌, ◌++◌, map, elem, if◌then◌else◌, ◌==◌,
  ◌&&◌, ◌||◌, not,
}
use pg_stress.Prelude.Dict.{Dict, get_or, put}
use pg_stress.Prelude.Int.{ℤ, pos, max_ℤ, ltb_ℤ}
use pg_stress.Prelude.Text.{contains}
use pg_stress.Floats.{Floats}

pub record Column : Type 0 where
  pub name : String
  pub type : String
  pub nullable : Bool
  pub serial : Bool

pub data Classification : Type 0 where
  hierarchical entity transactional append_only lookup : Classification

-- A value of `tables`. PostgreSQL reports -1 rows for a table that was never analysed.
pub record TableInfo : Type 0 where
  pub row_count : ℤ
  pub size : String
  pub size_bytes : ℕ
  pub columns : List Column
  pub pk : List String
  pub unique_columns : List String
  pub classification : Option Classification

-- The rows of the five queries.
pub record TableRow : Type 0 where
  pub name : String
  pub row_count : ℤ
  pub size : String
  pub size_bytes : ℕ

pub record ColumnRow : Type 0 where
  pub table_name : String
  pub column_name : String
  pub data_type : String
  pub is_nullable : String
  pub column_default : Option String
  pub is_identity : String

pub record KeyRow : Type 0 where
  pub table_name : String
  pub column_name : String

pub record ForeignRow : Type 0 where
  pub child_table : String
  pub fk_column : String
  pub parent_table : String
  pub parent_column : String

pub record Rows : Type 0 where
  pub table_rows : List TableRow
  pub column_rows : List ColumnRow
  pub pk_rows : List KeyRow
  pub unique_rows : List KeyRow
  pub fk_rows : List ForeignRow

-- `tables[r["name"]] = {...}`
unfoldable pub read_tables : List TableRow → Dict TableInfo → Dict TableInfo
read_tables [] tables = tables
read_tables (r ∷ rows) tables = read_tables rows (
    put r.name
      (record {
        row_count = r.row_count;
        size = r.size;
        size_bytes = r.size_bytes;
        columns = [];
        pk = [];
        unique_columns = [];
        classification = none;
      })
      tables)

-- `bool(default and "nextval" in str(default))`
unfoldable pub is_serial : Option String → Bool
is_serial none = false
is_serial (some text) = not (text == "") && contains "nextval" text

unfoldable pub read_column : ColumnRow → Column
unfolding is_serial
read_column r = record {
  name = r.column_name;
  type = r.data_type;
  nullable = r.is_nullable == "YES";
  serial = is_serial r.column_default || r.is_identity == "YES";
}

-- `d.setdefault(k, []).append(v)`
unfoldable pub append_at {ℓ} : {V : Type ℓ} → String → V → Dict (List V) → Dict (List V)
append_at k v d = put k (get_or k [] d ++ v ∷ []) d

-- `d.setdefault(k, set()).add(v)`; the set is listed in the order of insertion
unfoldable pub add_at : String → String → Dict (List String) → Dict (List String)
add_at k v d = let old = get_or k [] d in put k (if elem v old then old else old ++ v ∷ []) d

unfoldable pub group_columns : List ColumnRow → Dict (List Column) → Dict (List Column)
unfolding append_at read_column
group_columns [] d = d
group_columns (r ∷ rows) d = group_columns rows (append_at r.table_name (read_column r) d)

unfoldable pub group_keys : List KeyRow → Dict (List String) → Dict (List String)
unfolding append_at
group_keys [] d = d
group_keys (r ∷ rows) d = group_keys rows (append_at r.table_name r.column_name d)

unfoldable pub group_unique : List KeyRow → Dict (List String) → Dict (List String)
unfolding add_at
group_unique [] d = d
group_unique (r ∷ rows) d = group_unique rows (add_at r.table_name r.column_name d)

-- The three loops `for t in tables` that fill in the columns and the keys.
unfoldable pub fill :
    Dict (List Column) → Dict (List String) → Dict (List String) → Dict TableInfo → Dict TableInfo
fill columns pks uniques [] = []
fill columns pks uniques ((t, info) ∷ tables) =
    (
      t,
      record info {
        columns = get_or t [] columns;
        pk = get_or t [] pks;
        unique_columns = get_or t [] uniques;
      },
    )
    ∷ fill columns pks uniques tables

-- `tables.get(t, {}).get("row_count", default)`
unfoldable pub rows_of : ℤ → String → Dict TableInfo → ℤ
rows_of default t [] = default
rows_of default t ((s, info) ∷ tables) = if s == t then info.row_count else rows_of default t tables

module _ (fl : Floats) where
  open fl use {Float, of_int, div, round}

  -- An item of `edges`: a foreign key, with the rows of the child per row of the parent.
  pub record Edge : Type 0 where
    pub parent : String
    pub child : String
    pub fk_column : String
    pub parent_column : String
    pub ratio : Float

  -- The attributes that an edge of the graph carries.
  pub record EdgeData : Type 0 where
    pub fk_column : String
    pub parent_column : String
    pub ratio : Float

  -- `round(child_rows / max(parent_rows, 1), 2)`
  unfoldable pub row_ratio : ℤ → ℤ → Float
  row_ratio child_rows parent_rows =
      round (div (of_int child_rows) (of_int (max_ℤ parent_rows (pos 1)))) 2

  unfoldable pub read_edges : Dict TableInfo → List ForeignRow → List Edge
  unfolding row_ratio rows_of
  read_edges tables [] = []
  read_edges tables (r ∷ rows) =
      record {
        parent = r.parent_table;
        child = r.child_table;
        fk_column = r.fk_column;
        parent_column = r.parent_column;
        ratio =
            row_ratio (rows_of (pos 0) r.child_table tables)
              (rows_of (pos 1) r.parent_table tables);
      }
      ∷ read_edges tables rows

-- `[c for c in names if c in wanted]` is not empty
unfoldable pub any_in : List String → List String → Bool
any_in [] names = false
any_in (w ∷ wanted) names = elem w names || any_in wanted names

abbrev pub column_names : TableInfo → List String
column_names info = map (λ c. c.name) info.columns

unfoldable pub has_timestamps : TableInfo → Bool
unfolding any_in
has_timestamps info = any_in ("created_at" ∷ "updated_at" ∷ "placed_at" ∷ []) (column_names info)

unfoldable pub has_status : TableInfo → Bool
unfolding any_in
has_status info = any_in ("status" ∷ "state" ∷ "type" ∷ "kind" ∷ []) (column_names info)

module _ {fl : Floats} where
  -- `[e for e in edges if e["parent"] == t]` is not empty
  unfoldable pub has_children : String → List (Edge fl) → Bool
  has_children t [] = false
  has_children t (e ∷ edges) = e.parent == t || has_children t edges

  unfoldable pub has_self_fk : String → List (Edge fl) → Bool
  has_self_fk t [] = false
  has_self_fk t (e ∷ edges) = (e.parent == t && e.child == t) || has_self_fk t edges

  -- The chain of tests of the loop "Classify tables".
  unfoldable pub classify : String → TableInfo → List (Edge fl) → Classification
  classify t info edges =
      if has_self_fk t edges
      then hierarchical
      else if has_children t edges && has_timestamps info
      then entity
      else if has_status info && has_timestamps info
      then transactional
      else if elem "created_at" (column_names info) && not (elem "updated_at" (column_names info))
      then append_only
      else if ltb_ℤ info.row_count (pos 10000) && not (has_children t edges)
      then lookup
      else entity

  unfoldable pub classify_all : List (Edge fl) → Dict TableInfo → Dict TableInfo
  unfolding classify
  classify_all edges [] = []
  classify_all edges ((t, info) ∷ tables) =
      (t, record info { classification = some (classify t info edges) }) ∷ classify_all edges tables

pub record SchemaData (fl : Floats) : Type 0 where
  pub database : String
  pub tables : Dict TableInfo
  pub edges : List (Edge fl)
  pub introspected_at : String

unfoldable pub introspect : (fl : Floats) → String → String → Rows → SchemaData fl
unfolding put get_or read_tables fill group_columns group_keys group_unique read_edges classify_all
introspect fl database now rows =
    let tables =
      fill (group_columns rows.column_rows []) (group_keys rows.pk_rows [])
        (group_unique rows.unique_rows []) (read_tables rows.table_rows []) in
    let edges = read_edges fl tables rows.fk_rows in
    record {
      database = database;
      tables = classify_all edges tables;
      edges = edges;
      introspected_at = now;
    }
