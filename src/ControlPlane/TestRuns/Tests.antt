-- ===== src/ControlPlane/TestRuns/Tests.antt =====
-- A test run on a small database (control-plane/main.py).
use pg_stress.Prelude.{ℕ, true, some, none, [], ◌∷◌, ◌≡◌, refl, arith}
use pg_stress.Prelude.Http.{http_error}
use pg_stress.Prelude.Int.{pos}
use pg_stress.Prelude.Result.{ok}
use pg_stress.ControlPlane.Containers.{Docker, returned, find_container}
use pg_stress.Dashboard.MetricsStore.{running, empty_store, active_test_run, has_run}
use pg_stress.ControlPlane.TestRuns.{
  Json, empty_object, Sent, Delivery, answered, StartTestRequest, Outside, World, Drawn, Started,
  start_test, stop_test, snapshot_db,
}
use pg_stress.ControlPlane.TestRuns.Lifecycle.{IsTracked, start_test-IsTracked, stop_test_twice}

abbrev no_containers : Docker ℕ
no_containers = record {
  list_service = λ s d. (ok [], d);
  image_id = λ c d. (ok "sha", d);
  stop = λ c d. (ok tt, d);
  remove = λ c d. (ok tt, d);
  restart = λ c d. (ok tt, d);
  run = λ img name env net d. (ok tt, d);
  compose_up = λ profile service d. (returned 0, d);
}

-- The state is the number of rows of one table.
abbrev one_table : Outside ℕ
one_table = record {
  docker = no_containers;
  database = "shop";
  text_of = λ e. "error";
  basename = λ p. p;
  table_rows = λ d. (
    ok (record { relname = "orders"; n_live_tup = pos d; n_dead_tup = pos 0; size = "8 kB" } ∷ []),
    d,
  );
  size_rows = λ d. (ok ("8 MB" ∷ []), d);
  pg_restore = λ path d. (ok tt, 100);
  reset_statements = λ d. (ok tt, d);
  reset_stats = λ d. (ok tt, d);
  analyze = λ d. (ok tt, d);
}

abbrev always : Sent → Delivery
always s = answered

abbrev drawn : Drawn
drawn = record { run = "r1"; baseline = "b1"; own = "c1" }

abbrev test_request : StartTestRequest
test_request = record { name = "soak"; intensity = "high"; baseline_dump = some "/dumps/base" }

abbrev before_test : World ℕ
before_test = record { outside = 7; store = empty_store Json }

abbrev answer_of_start : Started
answer_of_start = record {
  test_run_id = "c1";
  name = "soak";
  intensity = "high";
  baseline_reset = true;
  db_before = (snapshot_db one_table 100).0;
}

start_test-IsTracked_example :
    IsTracked drawn test_request answer_of_start
      (start_test one_table always 3 drawn test_request before_test).1.store
unfolding has_run start_test find_container
start_test-IsTracked_example =
    start_test-IsTracked one_table always 3 drawn test_request before_test answer_of_start refl refl
      refl

abbrev in_test : World ℕ
in_test = record {
  outside = 100;
  store = record (empty_store Json) {
    test_runs =
        record {
          id = "r1";
          name = "soak";
          baseline_id = "";
          intensity = "high";
          status = running;
          started_at = 3;
          stopped_at = none;
          db_before = empty_object;
          db_after = none;
          config = none;
        }
        ∷ [];
  };
}

stop_test_twice_example :
    (active_test_run (stop_test one_table always 5 in_test).1.store ≡ none)
    × (stop_test one_table always 9 (stop_test one_table always 5 in_test).1
        ≡ (http_error 400, (stop_test one_table always 5 in_test).1))
stop_test_twice_example = stop_test_twice one_table always 5 9 in_test (omega arith) refl refl
