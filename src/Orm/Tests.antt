-- ===== src/Orm/Tests.antt =====
-- Runs of the ORM load generator on small inputs (load-generator-orm).
use pg_stress.Prelude.{ℕ, String, false, some, none, List, [], ◌∷◌, length, ◌≡◌, refl, arith, All}
use pg_stress.Prelude.Int.{ℤ, pos}
use pg_stress.Prelude.Dict.{Dict, keys, get_or}
use pg_stress.Orm.Introspect.{Answers, TableProfile, entity}
use pg_stress.Orm.Introspect.Chains.{FkChain, find_chains}
use pg_stress.Orm.Introspect.Chains.Simple.{IsChain, Descending, find_chains-IsChain}
use pg_stress.Orm.Introspect.Assemble.{introspect_schema}
use pg_stress.Orm.Introspect.Assemble.Groups.{
  grouped_count, row_sum, AtLeastOne, introspect_schema-counts,
}
use pg_stress.Orm.Operations.{pick_operation}
use pg_stress.Orm.Operations.Picking.{first, later, pick_operation-Share}

abbrev customer_answers : Answers
customer_answers = record {
  stats =
      some (record { n_live_tup = 50; n_dead_tup = 0; size_bytes = 8192; size_pretty = "8 kB" });
  pk_constraint = "id" ∷ [];
  columns =
      record { name = "created_at"; type = "TIMESTAMP"; nullable = none; default = none } ∷ [];
  foreign_keys = [];
  indexes = [];
}

abbrev below : Dict (List String)
below = ("customers", "orders" ∷ []) ∷ ("orders", "customers" ∷ "items" ∷ []) ∷ []

abbrev table_named : String → TableProfile
table_named name = record {
  name = name;
  row_count = 500;
  size_bytes = 8192;
  size_pretty = "8 kB";
  columns = [];
  pk_columns = "id" ∷ [];
  foreign_keys = [];
  indexes = [];
  timestamp_columns = [];
  numeric_columns = [];
  text_columns = [];
  jsonb_columns = [];
  status_columns = [];
  role = entity;
  dead_tuples = 0;
  has_self_fk = false;
}

abbrev three_tables : Dict TableProfile
three_tables =
    ("customers", table_named "customers")
    ∷ ("orders", table_named "orders")
    ∷ ("items", table_named "items")
    ∷ []

abbrev chain_of : List String → ℕ → FkChain
chain_of tables depth = record { tables = tables; depth = depth }

-- The chains of three tables, of which the first two refer to each other.
abbrev four_chains : List FkChain
four_chains =
    chain_of ("customers" ∷ "orders" ∷ "items" ∷ []) 3
    ∷ chain_of ("customers" ∷ "orders" ∷ []) 2
    ∷ chain_of ("orders" ∷ "customers" ∷ []) 2
    ∷ chain_of ("orders" ∷ "items" ∷ []) 2
    ∷ []

four_chains_found : find_chains three_tables below ≡ four_chains
unfolding find_chains keys get_or
four_chains_found = refl

find_chains-IsChain_example : All (IsChain below) four_chains × Descending four_chains
unfolding find_chains keys get_or
find_chains-IsChain_example = find_chains-IsChain three_tables below

introspect_schema-counts_example :
    let p = introspect_schema (λ s. s) (λ t. customer_answers) ("customers" ∷ []) "testdb" "9 MB" in
    (grouped_count p ≡ length p.tables) × (p.total_rows ≡ row_sum p.tables) × AtLeastOne p.max_ids
introspect_schema-counts_example =
    introspect_schema-counts (λ s. s) (λ t. customer_answers) ("customers" ∷ []) "testdb" "9 MB"

abbrev a_mix : Dict ℤ
a_mix = ("n_plus_1", pos 20) ∷ ("eager_load", pos 15) ∷ ("pagination", pos 10) ∷ []

pick_operation-Share_example : pick_operation a_mix (pos 21) ≡ "eager_load"
pick_operation-Share_example =
    pick_operation-Share a_mix 21 "eager_load" 21 35 (later (first refl refl)) (omega arith)
      (omega arith)
