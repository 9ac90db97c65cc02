-- ===== src/ControlPlane/CascadeInject/Tests.antt =====
-- A cascade whose injects all fail, and the plan of the sample shop (control-plane/main.py).
use pg_stress.Prelude.{ℕ, ◌*◌, ◌/◌, true, some, none, List, [], ◌∷◌, ◌≡◌, refl}
use pg_stress.Prelude.Dict.{get}
use pg_stress.Prelude.Int.{pos, pos_part, ◌+ℤ◌}
use pg_stress.Prelude.Result.{ok, raise, database_error}
use pg_stress.Samples.Fixed.{hundredths}
use pg_stress.Samples.Shop.{shop, shop-Traversal}
use pg_stress.SchemaGraph.Cascade.{Step}
use pg_stress.ControlPlane.Containers.{Docker, returned}
use pg_stress.ControlPlane.Jobs.{Job, completed}
use pg_stress.ControlPlane.Inject.{Backend}
use pg_stress.ControlPlane.TestRuns.{Outside}
use pg_stress.ControlPlane.CascadeInject.{
  CascadeRequest, CascadeState, CascadeResult, CascadeWorld, plan_of, is_zero, is_empty_table,
  planned_rows, sort_steps, cascade_inject,
}
use pg_stress.ControlPlane.CascadeInject.Totals.{
  IsFilled, wanted_rows, cascade_inject-total, plan_of-sorted,
}

-- Every table has seven rows, and every INSERT raises.
abbrev read_only : Backend ℕ
read_only = record {
  clock = λ db. db;
  percent = λ a b. pos (pos_part a * 100 / pos_part b);
  text_of = λ e. "read-only transaction";
  estimate = λ t db. (ok (some (pos 7)), db);
  size_of = λ t db. (ok (some "8 kB"), db);
  serial_columns = λ t db. (ok [], db);
  unique_columns = λ t db. (ok [], db);
  all_columns = λ t db. (ok [], db);
  insert = λ t batch db. (raise database_error, db);
  analyze = λ t db. (ok tt, db);
}

read_only-IsFilled : IsFilled read_only
unfolding is_empty_table
read_only-IsFilled = record { estimated = λ t db. (pos 7, db, refl, refl) }

abbrev no_docker : Docker ℕ
no_docker = record {
  list_service = λ s d. (ok [], d);
  image_id = λ c d. (ok "sha", d);
  stop = λ c d. (ok tt, d);
  remove = λ c d. (ok tt, d);
  restart = λ c d. (ok tt, d);
  run = λ img name env net d. (ok tt, d);
  compose_up = λ profile service d. (returned 0, d);
}

abbrev unreadable : Outside ℕ
unreadable = record {
  docker = no_docker;
  database = "shop";
  text_of = λ e. "error";
  basename = λ p. p;
  table_rows = λ d. (raise database_error, d);
  size_rows = λ d. (ok [], d);
  pg_restore = λ path d. (ok tt, d);
  reset_statements = λ d. (ok tt, d);
  reset_stats = λ d. (ok tt, d);
  analyze = λ d. (ok tt, d);
}

abbrev customers_and_orders : List (Step hundredths)
customers_and_orders =
    record {
      table = "customers";
      count = pos 10;
      ratio = 100;
      depth = 0;
      fk_column = none;
      parent = none;
    }
    ∷ record {
      table = "orders";
      count = pos 20;
      ratio = 200;
      depth = 1;
      fk_column = some "customer_id";
      parent = some "customers";
    }
    ∷ []

abbrev nothing_yet : CascadeWorld hundredths read_only
nothing_yet = record { world = record { db = 0; jobs = [] }; cascades = [] }

cascade_inject-total_example :
    (j : Job (CascadeState hundredths) CascadeResult) × (r : CascadeResult) × (get "c1"
        (cascade_inject read_only unreadable "c1"
          (λ n. "i1")
          customers_and_orders
          nothing_yet).cascades
      ≡ some j)
    × (j.status ≡ completed)
    × (j.progress ≡ pos 100)
    × (j.result ≡ some r)
    × (r.total_rows ≡ pos (wanted_rows customers_and_orders))
unfolding planned_rows is_zero ◌+ℤ◌
cascade_inject-total_example =
    cascade_inject-total read_only read_only-IsFilled unreadable "c1" (λ n. "i1")
      customers_and_orders nothing_yet refl

abbrev customers : CascadeRequest
customers = record { table = "customers"; rows = pos 10; cascade = true }

plan_of-sorted_example :
    (plan : List (Step hundredths)) × (plan_of hundredths shop tt customers ≡ ok plan)
    × (sort_steps plan ≡ plan)
plan_of-sorted_example = plan_of-sorted shop shop-Traversal tt customers refl
