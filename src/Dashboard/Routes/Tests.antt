-- ===== src/Dashboard/Routes/Tests.antt =====
-- Requests to the dashboard (dashboard/app/main.py).
use pg_stress.Prelude.{String, some, none, List, [], ◌∷◌, ◌≡◌, refl, arith}
use pg_stress.Dashboard.MetricsStore.{empty_store, active_test_run_id, has_run}
use pg_stress.Dashboard.Routes.{DashboardState, StartData}
use pg_stress.Dashboard.Routes.Refinement.{
  Request, start, stop, sample, specs, handles, Fresh, handles-specs,
}

abbrev run_data : StartData String
run_data = record {
  name = some "soak";
  baseline_id = none;
  intensity = some "high";
  db_before = none;
}

abbrev a_day : List (Request String)
a_day = start "r1" run_data 1 ∷ sample 2 "{}" ∷ stop none 3 ∷ []

abbrev fresh_state : DashboardState String
fresh_state = record { store = empty_store String; start_time = 0 }

new_ids : Fresh "{}" a_day fresh_state
unfolding has_run Fresh
new_ids = (refl, tt)

handles-specs_example :
    active_test_run_id (handles "{}" a_day fresh_state).store
    ≡ specs a_day (active_test_run_id fresh_state.store)
handles-specs_example = handles-specs "{}" a_day fresh_state (omega arith) new_ids
