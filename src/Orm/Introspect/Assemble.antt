-- ===== src/Orm/Introspect/Assemble.antt =====
-- `introspect_schema` as a whole, and its dictionary (load-generator-orm/introspect.py).
pub mod Groups
use pg_stress.Prelude.{
  ℕ, ◌+◌, String, true, false, Option, none, List, [], ◌∷◌, ◌++◌, length, max, if◌then◌else◌, leb,
}
use pg_stress.Prelude.Dict.{Dict, put}
use pg_stress.Prelude.Text.{join}
use pg_stress.Orm.Introspect.{
  TableProfile, StatRow, Answers, ColumnInfo, ForeignKey, IndexInfo, IndexRow, Role, unknown,
  entity, transactional, append_only, lookup, hierarchical, add_columns, add_keys, read_index,
  or_default,
}
use pg_stress.Orm.Introspect.Chains.{
  Relationship, FkChain, build_relationships, group_children, find_chains,
}
use pg_stress.Orm.Introspect.Classify.{classify_table}

pub record SchemaProfile : Type 0 where
  pub database : String
  pub total_tables : ℕ
  pub total_rows : ℕ
  pub total_size_pretty : String
  pub tables : Dict TableProfile
  pub relationships : List Relationship
  pub fk_chains : List FkChain
  pub entity_tables : List String
  pub transactional_tables : List String
  pub append_only_tables : List String
  pub lookup_tables : List String
  pub hierarchical_tables : List String
  pub max_ids : Dict ℕ

unfoldable pub new_profile : String → Option StatRow → List String → TableProfile
unfolding or_default
new_profile tname stats pk_cols =
    let s =
      or_default
        (record { n_live_tup = 0; n_dead_tup = 0; size_bytes = 0; size_pretty = "0 bytes" })
        stats in
    record {
      name = tname;
      row_count = s.n_live_tup;
      size_bytes = s.size_bytes;
      size_pretty = s.size_pretty;
      columns = [];
      pk_columns = pk_cols;
      foreign_keys = [];
      indexes = [];
      timestamp_columns = [];
      numeric_columns = [];
      text_columns = [];
      jsonb_columns = [];
      status_columns = [];
      role = unknown;
      dead_tuples = s.n_dead_tup;
      has_self_fk = false;
    }

unfoldable pub read_indexes : List IndexRow → List IndexInfo
unfolding read_index
read_indexes [] = []
read_indexes (i ∷ is) = read_index i ∷ read_indexes is

-- One round of the loop over the table names.
unfoldable pub read_table : (String → String) → String → Answers → TableProfile
unfolding new_profile add_columns add_keys read_indexes
read_table lower tname a =
    let base = new_profile tname a.stats a.pk_constraint in
    let tp = add_keys a.foreign_keys (add_columns lower a.pk_constraint a.columns base) in
    record tp { indexes = tp.indexes ++ read_indexes a.indexes }

unfoldable pub read_tables :
    (String → String) → (String → Answers) → List String → Dict TableProfile → Dict TableProfile
unfolding read_table put
read_tables lower answers [] tables = tables
read_tables lower answers (tname ∷ names) tables =
    read_tables lower answers names (put tname (read_table lower tname (answers tname)) tables)

-- `profile.<role>_tables.append(tname)`
unfoldable pub file_under : Role → String → SchemaProfile → SchemaProfile
file_under entity t p = record p { entity_tables = p.entity_tables ++ t ∷ [] }
file_under transactional t p = record p { transactional_tables = p.transactional_tables ++ t ∷ [] }
file_under append_only t p = record p { append_only_tables = p.append_only_tables ++ t ∷ [] }
file_under lookup t p = record p { lookup_tables = p.lookup_tables ++ t ∷ [] }
file_under hierarchical t p = record p { hierarchical_tables = p.hierarchical_tables ++ t ∷ [] }
file_under unknown t p = p

-- `tp.role = _classify_table(tp, children_of)`
unfoldable pub set_roles : Dict (List String) → Dict TableProfile → Dict TableProfile
unfolding classify_table
set_roles children_of [] = []
set_roles children_of ((tname, tp) ∷ tables) =
    (tname, record tp { role = classify_table tp children_of }) ∷ set_roles children_of tables

unfoldable pub file_tables : Dict TableProfile → SchemaProfile → SchemaProfile
unfolding file_under
file_tables [] p = p
file_tables ((tname, tp) ∷ tables) p = file_tables tables (file_under tp.role tname p)

-- The loop that sets `max_ids` and `total_rows`.
unfoldable pub count_rows : Dict TableProfile → SchemaProfile → SchemaProfile
count_rows [] p = p
count_rows ((tname, tp) ∷ tables) p = count_rows tables (record p {
  max_ids = put tname (max tp.row_count 1) p.max_ids;
  total_rows = p.total_rows + tp.row_count;
})

-- The names, the answers for each, the name and the size of the database.
unfoldable pub introspect_schema :
    (String → String) → (String → Answers) → List String → String → String → SchemaProfile
unfolding read_tables build_relationships group_children find_chains set_roles file_tables
    count_rows
introspect_schema lower answers names database size =
    let tables = read_tables lower answers names [] in
    let relationships = build_relationships tables in
    let children_of = group_children relationships [] in
    let roles = set_roles children_of tables in
    count_rows roles (
      file_tables roles (record {
        database = database;
        total_tables = length names;
        total_rows = 0;
        total_size_pretty = size;
        tables = roles;
        relationships = relationships;
        fk_chains = find_chains tables children_of;
        entity_tables = [];
        transactional_tables = [];
        append_only_tables = [];
        lookup_tables = [];
        hierarchical_tables = [];
        max_ids = [];
      }))
