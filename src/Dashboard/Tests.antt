-- ===== src/Dashboard/Tests.antt =====
-- Runs of the dashboard on small inputs (dashboard/app).
use pg_stress.Prelude.{◌+◌, ℕ, ◌-◌, ◌≤◌, String, some, none, List, [], ◌∷◌, ◌≡◌, refl, min, arith}
use pg_stress.Prelude.Result.{ok}
use pg_stress.Dashboard.MetricsStore.{
  Store, empty_store, active_test_run, active_test_run_id, start_test_run, stop_test_run, add,
  has_run, stop_running,
}
use pg_stress.Dashboard.MetricsStore.Runs.{
  Call, start, sample, calls, running_count, calls-one_running, start_test_run-active,
}
use pg_stress.Samples.Fixed.{hundredths}
use pg_stress.Dashboard.PgPoller.{Reading, sample_of}
use pg_stress.Dashboard.PgPoller.Connections.{sample_of-connections}
use pg_stress.Dashboard.SafetyMonitor.{Postgres, Watched, prune_rounds}
use pg_stress.Dashboard.SafetyMonitor.Pruning.{prune_rounds_exact}

abbrev three_calls : List (Call String)
three_calls =
    start "r1" "smoke" "" "low" "{}" none 1
    ∷ sample 2 "{}"
    ∷ start "r2" "load" "" "high" "{}" none 3
    ∷ []

calls-one_running_example : running_count (calls three_calls (empty_store String)).test_runs ≤ 1
calls-one_running_example = calls-one_running three_calls (empty_store String) (omega arith)

abbrev after_first : Store String
after_first = (start_test_run "r1" "smoke" "" "low" "{}" none 1 (empty_store String)).1

start_test_run-active_example :
    (active_test_run_id (start_test_run "r2" "load" "" "high" "{}" none 3 (empty_store String)).1
      ≡ some "r2")
    × ((add 4 "{}"
          (start_test_run "r2" "load" "" "high" "{}" none 3 (empty_store String)).1).samples
        ≡ record { test_run_id = some "r2"; timestamp = 4; content = "{}" } ∷ [])
    × (active_test_run (
          stop_test_run "r2" "{}" 5
            (add 4 "{}" (start_test_run "r2" "load" "" "high" "{}" none 3 (empty_store String)).1))
        ≡ none)
unfolding has_run stop_running
start_test_run-active_example =
    start_test_run-active "r2" "load" "" "high" "{}" none 3 (empty_store String) refl 4 5 "{}" "{}"

-- A table of `db` rows.
abbrev counted_table : Postgres ℕ
counted_table = record {
  clock = λ db. 0;
  database_size = λ db. (ok none, db);
  live_tuples = λ t db. (ok (some db), db);
  delete_oldest = λ t batch db. (ok (min batch db), db - min batch db);
}

abbrev watched : Watched {Db = ℕ} {Json = String} counted_table (λ e. e.detail)
watched = record { db = 40; store = empty_store String }

prune_rounds_exact_example :
    (w' : Watched {Db = ℕ} {Json = String} counted_table (λ e. e.detail)) × (prune_rounds
        counted_table
        (λ e. e.detail)
        26
        "audit_log"
        10
        25
        0
        watched
      ≡ (ok 25, w'))
    × (w'.db ≡ 15)
    × (w'.store ≡ empty_store String)
prune_rounds_exact_example =
    prune_rounds_exact counted_table (λ e. e.detail) "audit_log"
      (record { size = λ db. db; deleted = λ batch db. (db - min batch db, refl, refl) }) 26 10 25 0
      watched (omega arith) (omega arith)

abbrev a_reading : Reading
a_reading = record {
  database = none;
  activity =
      record { state = some "active"; cnt = 4 }
      ∷ record { state = some "idle"; cnt = 9 }
      ∷ record { state = none; cnt = 2 }
      ∷ [];
  size = some 8192;
  locks = none;
  tables = [];
}

sample_of-connections_example :
    let c = (sample_of hundredths none 7 a_reading).connections in
    (c.total_connections ≡ 15)
    × (c.active_connections + c.idle_connections + c.idle_in_transaction ≤ c.total_connections)
sample_of-connections_example = sample_of-connections hundredths none 7 a_reading
