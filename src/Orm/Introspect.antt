-- ===== src/Orm/Introspect.antt =====
-- The profile of a live schema (load-generator-orm/introspect.py). SQLAlchemy's inspector and the
-- statistics of PostgreSQL are arguments: what they answered for each table.
pub mod Chains
pub mod Classify
pub mod Assemble
pub mod Printed
use pg_stress.Prelude.{
  ℕ, ◌+◌, String, Bool, true, false, Option, some, none, List, [], ◌∷◌, ◌++◌, if◌then◌else◌, ◌==◌,
  ◌||◌, ◌&&◌, elem,
}
use pg_stress.Prelude.Text.{contains_any, contains, join}

pub record ColumnInfo : Type 0 where
  pub name : String
  pub type : String
  pub nullable : Bool
  pub is_pk : Bool
  pub is_fk : Bool
  pub fk_target : Option String
  pub has_default : Bool
  pub is_serial : Bool

pub record IndexInfo : Type 0 where
  pub name : String
  pub columns : List String
  pub unique : Bool
  pub type : String

pub record ForeignKey : Type 0 where
  pub column : String
  pub target_table : String
  pub target_column : String

pub data Role : Type 0 where
  unknown entity transactional append_only lookup hierarchical : Role

pub record TableProfile : Type 0 where
  pub name : String
  pub row_count : ℕ
  pub size_bytes : ℕ
  pub size_pretty : String
  pub columns : List ColumnInfo
  pub pk_columns : List String
  pub foreign_keys : List ForeignKey
  pub indexes : List IndexInfo
  pub timestamp_columns : List String
  pub numeric_columns : List String
  pub text_columns : List String
  pub jsonb_columns : List String
  pub status_columns : List String
  pub role : Role
  pub dead_tuples : ℕ
  pub has_self_fk : Bool

-- A row of pg_stat_user_tables.
pub record StatRow : Type 0 where
  pub n_live_tup : ℕ
  pub n_dead_tup : ℕ
  pub size_bytes : ℕ
  pub size_pretty : String

-- A column, a foreign key and an index as the inspector describes them; `none` is a missing key.
pub record ColumnRow : Type 0 where
  pub name : String
  pub type : String
  pub nullable : Option Bool
  pub default : Option String

pub record ForeignRow : Type 0 where
  pub constrained_columns : List String
  pub referred_table : String
  pub referred_columns : List String

pub record IndexRow : Type 0 where
  pub name : String
  pub column_names : Option (List String)
  pub unique : Option Bool

-- What the inspector answers for one table. `pk_constraint` is in the order of `list(set(...))`.
pub record Answers : Type 0 where
  pub stats : Option StatRow
  pub pk_constraint : List String
  pub columns : List ColumnRow
  pub foreign_keys : List ForeignRow
  pub indexes : List IndexRow

unfoldable pub or_default {ℓ} : {A : Type ℓ} → A → Option A → A
or_default d none = d
or_default d (some x) = x

unfoldable pub is_some {ℓ} : {A : Type ℓ} → Option A → Bool
is_some none = false
is_some (some x) = true

unfoldable pub nextval_default : Option String → Bool
nextval_default none = false
nextval_default (some d) = contains "nextval" d

-- `list.append` under a test
unfoldable pub add_if : Bool → String → List String → List String
add_if b x xs = if b then xs ++ x ∷ [] else xs

unfoldable pub read_column : (String → String) → List String → ColumnRow → ColumnInfo
unfolding or_default is_some nextval_default
read_column lower pk_cols col = record {
  name = col.name;
  type = lower col.type;
  nullable = or_default true col.nullable;
  is_pk = elem col.name pk_cols;
  is_fk = false;
  fk_target = none;
  has_default = is_some col.default;
  is_serial = nextval_default col.default;
}

-- One round of the loop over the columns; `lower` is `str.lower`.
unfoldable pub add_column :
    (String → String) → List String → ColumnRow → TableProfile → TableProfile
unfolding read_column add_if
add_column lower pk_cols col tp =
    let col_type = lower col.type in
    record tp {
      columns = tp.columns ++ read_column lower pk_cols col ∷ [];
      timestamp_columns =
          add_if (contains "timestamp" col_type || contains "date" col_type) col.name
            tp.timestamp_columns;
      numeric_columns =
          add_if
            (contains_any ("int" ∷ "numeric" ∷ "decimal" ∷ "float" ∷ "double" ∷ "real" ∷ [])
              col_type)
            col.name tp.numeric_columns;
      text_columns =
          add_if (contains_any ("text" ∷ "varchar" ∷ "char" ∷ []) col_type) col.name
            tp.text_columns;
      jsonb_columns =
          add_if (contains "jsonb" col_type || contains "json" col_type) col.name tp.jsonb_columns;
      status_columns =
          add_if (elem col.name ("status" ∷ "state" ∷ "type" ∷ "kind" ∷ "role" ∷ [])) col.name
            tp.status_columns;
    }

unfoldable pub add_columns :
    (String → String) → List String → List ColumnRow → TableProfile → TableProfile
unfolding add_column
add_columns lower pk_cols [] tp = tp
add_columns lower pk_cols (c ∷ cs) tp = add_columns lower pk_cols cs (add_column lower pk_cols c tp)

-- `ci.is_fk = True` for the columns of this name
unfoldable pub mark_column : String → String → List ColumnInfo → List ColumnInfo
mark_column col target [] = []
mark_column col target (ci ∷ cs) =
    (if ci.name == col then record ci { is_fk = true; fk_target = some target } else ci)
    ∷ mark_column col target cs

-- One constrained column of a foreign key.
unfoldable pub add_key : String → String → String → TableProfile → TableProfile
unfolding mark_column
add_key col referred_table target_col tp = record tp {
  foreign_keys =
      tp.foreign_keys
      ++ record { column = col; target_table = referred_table; target_column = target_col } ∷ [];
  columns = mark_column col (join "" (referred_table ∷ "." ∷ target_col ∷ [])) tp.columns;
  has_self_fk = referred_table == tp.name || tp.has_self_fk;
}

-- The columns with the referred ones at the same index, or `id`.
unfoldable pub add_key_columns : String → List String → List String → TableProfile → TableProfile
unfolding add_key
add_key_columns referred_table [] referred tp = tp
add_key_columns referred_table (c ∷ cs) [] tp =
    add_key_columns referred_table cs [] (add_key c referred_table "id" tp)
add_key_columns referred_table (c ∷ cs) (r ∷ rs) tp =
    add_key_columns referred_table cs rs (add_key c referred_table r tp)

unfoldable pub add_keys : List ForeignRow → TableProfile → TableProfile
unfolding add_key_columns
add_keys [] tp = tp
add_keys (fk ∷ fks) tp =
    add_keys fks (add_key_columns fk.referred_table fk.constrained_columns fk.referred_columns tp)

unfoldable pub index_type : String → String
index_type name =
    if contains "_gin" name || contains "_trgm" name
    then "gin"
    else if contains "_gist" name
    then "gist"
    else "btree"

unfoldable pub read_index : IndexRow → IndexInfo
unfolding or_default index_type
read_index idx = record {
  name = idx.name;
  columns = or_default [] idx.column_names;
  unique = or_default false idx.unique;
  type = index_type idx.name;
}
