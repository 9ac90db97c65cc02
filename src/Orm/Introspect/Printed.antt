-- ===== src/Orm/Introspect/Printed.antt =====
-- The profile as it is written out (load-generator-orm/introspect.py: `profile_to_dict`), with the
-- dictionaries of fixed keys as records.
use pg_stress.Prelude.{ℕ, zero, suc, String, List, [], ◌∷◌, length, leb, if◌then◌else◌}
use pg_stress.Prelude.Dict.{Dict}
use pg_stress.Prelude.Text.{join}
use pg_stress.Orm.Introspect.{TableProfile, ForeignKey, Role}
use pg_stress.Orm.Introspect.Chains.{Relationship, FkChain}
use pg_stress.Orm.Introspect.Assemble.{SchemaProfile}

pub record KeyEntry : Type 0 where
  pub column : String
  pub references : String

pub record TableEntry : Type 0 where
  pub rows : ℕ
  pub size : String
  pub role : Role
  pub pk : List String
  pub columns : ℕ
  pub foreign_keys : List KeyEntry
  pub timestamps : List String
  pub numeric : List String
  pub status : List String
  pub jsonb : List String
  pub indexes : ℕ
  pub dead_tuples : ℕ

pub record Groups : Type 0 where
  pub entity : List String
  pub transactional : List String
  pub append_only : List String
  pub lookup : List String
  pub hierarchical : List String

pub record RelationshipEntry : Type 0 where
  pub parent : String
  pub child : String
  pub via : String

pub record ProfileEntry : Type 0 where
  pub database : String
  pub total_tables : ℕ
  pub total_rows : ℕ
  pub total_size : String
  pub classification : Groups
  pub tables : Dict TableEntry
  pub relationships : List RelationshipEntry
  pub fk_chains : List FkChain
  pub max_ids : Dict ℕ

unfoldable pub key_entries : List ForeignKey → List KeyEntry
key_entries [] = []
key_entries (fk ∷ fks) =
    record {
      column = fk.column;
      references = join "" (fk.target_table ∷ "." ∷ fk.target_column ∷ []);
    }
    ∷ key_entries fks

unfoldable pub table_entry : TableProfile → TableEntry
unfolding key_entries
table_entry tp = record {
  rows = tp.row_count;
  size = tp.size_pretty;
  role = tp.role;
  pk = tp.pk_columns;
  columns = length tp.columns;
  foreign_keys = key_entries tp.foreign_keys;
  timestamps = tp.timestamp_columns;
  numeric = tp.numeric_columns;
  status = tp.status_columns;
  jsonb = tp.jsonb_columns;
  indexes = length tp.indexes;
  dead_tuples = tp.dead_tuples;
}

-- `sorted(..., key=lambda x: -x[1].row_count)`, which keeps the order of equals
unfoldable pub insert_table : String × TableProfile → Dict TableProfile → Dict TableProfile
insert_table (t, tp) [] = (t, tp) ∷ []
insert_table (t, tp) ((u, up) ∷ tables) =
    let rest = insert_table (t, tp) tables in
    if leb up.row_count tp.row_count then (t, tp) ∷ (u, up) ∷ tables else (u, up) ∷ rest

unfoldable pub sort_tables : Dict TableProfile → Dict TableProfile
unfolding insert_table
sort_tables [] = []
sort_tables (t ∷ tables) = insert_table t (sort_tables tables)

unfoldable pub table_entries : Dict TableProfile → Dict TableEntry
unfolding table_entry
table_entries [] = []
table_entries ((t, tp) ∷ tables) = (t, table_entry tp) ∷ table_entries tables

unfoldable pub relationship_entries : List Relationship → List RelationshipEntry
relationship_entries [] = []
relationship_entries (r ∷ rs) =
    record { parent = r.parent_table; child = r.child_table; via = r.fk_column }
    ∷ relationship_entries rs

-- `chains[:n]`
unfoldable pub first_chains : ℕ → List FkChain → List FkChain
first_chains n [] = []
first_chains zero (c ∷ cs) = []
first_chains (suc n) (c ∷ cs) = c ∷ first_chains n cs

unfoldable pub profile_to_dict : SchemaProfile → ProfileEntry
unfolding sort_tables table_entries relationship_entries first_chains
profile_to_dict profile = record {
  database = profile.database;
  total_tables = profile.total_tables;
  total_rows = profile.total_rows;
  total_size = profile.total_size_pretty;
  classification = record {
    entity = profile.entity_tables;
    transactional = profile.transactional_tables;
    append_only = profile.append_only_tables;
    lookup = profile.lookup_tables;
    hierarchical = profile.hierarchical_tables;
  };
  tables = table_entries (sort_tables profile.tables);
  relationships = relationship_entries profile.relationships;
  fk_chains = first_chains 30 profile.fk_chains;
  max_ids = profile.max_ids;
}
