-- ===== src/Orm/Running/Tests.antt =====
-- Runs of the operations and of the workers of the load generator (load-generator-orm/main.py).
use pg_stress.Prelude.{
  ℕ, ◌+◌, String, Bool, true, false, Option, some, none, List, [], ◌∷◌, if◌then◌else◌, ◌==◌, ◌≡◌,
  refl, sum,
}
use pg_stress.Prelude.Action.{Action}
use pg_stress.Prelude.Dict.{get, values}
use pg_stress.Prelude.Result.{ok, raise, database_error}
use pg_stress.Orm.Introspect.{ColumnInfo, TableProfile, entity}
use pg_stress.Orm.Introspect.Chains.{FkChain}
use pg_stress.Orm.Introspect.Assemble.{SchemaProfile}
use pg_stress.Orm.Operations.{OperationContext}
use pg_stress.Orm.Running.{Sqlalchemy, Draws}
use pg_stress.Orm.Running.Reading.{operation-reads}
use pg_stress.Orm.Running.Cloning.{clone_row, get-clone_row, is_stamp, skip_columns}
use pg_stress.Orm.Running.Worker.{operation, worker_turns, worker_turns-values}

-- A session in which the operation "aggregation" raises.
abbrev session_of : String → Action ℕ (Unit {0})
session_of name s = if name == "aggregation" then (raise database_error, s) else (ok tt, s + 1)

abbrev three_names : List String
three_names = "n_plus_1" ∷ "aggregation" ∷ "n_plus_1" ∷ []

worker_turns-values_example : sum (values (worker_turns session_of three_names 0 []).1) ≡ 3
unfolding values
worker_turns-values_example = worker_turns-values session_of three_names 0 []

counters_of_three_turns :
    (worker_turns session_of three_names 0 []).1 ≡ ("n_plus_1", 2) ∷ ("errors", 1) ∷ []
unfolding worker_turns
counters_of_three_turns = refl

abbrev a_column : String → Bool → ColumnInfo
a_column name is_serial = record {
  name = name;
  type = "TEXT";
  nullable = true;
  is_pk = is_serial;
  is_fk = false;
  fk_target = none;
  has_default = false;
  is_serial = is_serial;
}

abbrev events : TableProfile
events = record {
  name = "events";
  row_count = 500;
  size_bytes = 8192;
  size_pretty = "8 kB";
  columns = a_column "id" true ∷ a_column "kind" false ∷ a_column "logged_at" false ∷ [];
  pk_columns = "id" ∷ [];
  foreign_keys = [];
  indexes = [];
  timestamp_columns = "logged_at" ∷ [];
  numeric_columns = [];
  text_columns = "kind" ∷ [];
  jsonb_columns = [];
  status_columns = [];
  role = entity;
  dead_tuples = 0;
  has_self_fk = false;
}

abbrev source_field : String → Option String
source_field name = if name == "kind" then some "login" else some "old"

get-clone_row_example : get "kind" (clone_row events "now" source_field) ≡ some "login"
unfolding is_stamp skip_columns
get-clone_row_example = get-clone_row "now" source_field events "kind"

clone_of_an_event :
    clone_row events "now" source_field ≡ ("kind", "login") ∷ ("logged_at", "now") ∷ []
unfolding clone_row
clone_of_an_event = refl

-- A session that counts what it writes, on models that are named by their tables.
abbrev counting : Sqlalchemy ℕ String String String
counting = record {
  get_model = λ t. some t;
  attributes = λ m. ("items", some "items") ∷ [];
  run = λ q s. (ok ("a row" ∷ []), s);
  find = λ m k s. (ok (some "a row"), s);
  field = λ row name. some "old";
  has_field = λ row name. true;
  has_attribute = λ m name. true;
  is_text = λ v. true;
  now = λ s. "now";
  set_field = λ row name v s. (ok tt, s + 1);
  load = λ row name s. (ok tt, s);
  add_all = λ m rows s. (ok tt, s + 1);
  flush = λ s. (ok tt, s);
  commit = λ s. (ok tt, s);
}

abbrev a_chain : FkChain
a_chain = record { tables = "orders" ∷ "items" ∷ []; depth = 2 }

abbrev a_context : OperationContext
a_context = record {
  children_of = [];
  parent_of = [];
  fk_map = [];
  queryable = [];
  chains_2 = a_chain ∷ [];
  chains_3 = [];
  insertable = [];
  updatable = [];
  paginable = [];
  aggregable = [];
  has_rels = [];
}

abbrev a_profile : SchemaProfile
a_profile = record {
  database = "shop";
  total_tables = 0;
  total_rows = 0;
  total_size_pretty = "9 MB";
  tables = [];
  relationships = [];
  fk_chains = [];
  entity_tables = [];
  transactional_tables = [];
  append_only_tables = [];
  lookup_tables = [];
  hierarchical_tables = [];
  max_ids = [];
}

abbrev a_draw : Draws
a_draw = record { choice = 0; second_choice = 0; number = 1 }

operation-reads_example : (operation counting a_context a_profile "n_plus_1" a_draw 7).1 ≡ 7
operation-reads_example =
    operation-reads counting a_context a_profile (λ s. s ≡ 7) (λ q s p. p) (λ row name s p. p)
      "n_plus_1" a_draw refl refl 7 refl
