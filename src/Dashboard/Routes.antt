-- ===== src/Dashboard/Routes.antt =====
-- The routes of the dashboard for resets, test runs and baselines (dashboard/app/main.py). The clock and
-- the drawn ids are arguments.
pub mod Refinement
mod Tests
use pg_stress.Prelude.{ℕ, String, Bool, Option, some, none}
use pg_stress.Prelude.Action.{Action}
use pg_stress.Prelude.Int.{ℤ, pos}
use pg_stress.Prelude.Result.{Result, ok, raise}
use pg_stress.Dashboard.MetricsStore.{
  Store, TestRun, RunStatus, running, completed, active_test_run, start_test_run, stop_test_run,
  save_baseline, clear_samples,
}

unfoldable pub or_value {ℓ} : {A : Type ℓ} → A → Option A → A
or_value default none = default
or_value default (some a) = a

-- The store, and the global `start_time`.
pub record DashboardState (Json : Type 0) : Type 0 where
  pub store : Store Json
  pub start_time : ℕ

-- The JSON bodies of the requests; a key may be missing.
pub record StartData (Json : Type 0) : Type 0 where
  pub name : Option String
  pub baseline_id : Option String
  pub intensity : Option String
  pub db_before : Option Json

pub record BaselineData (Json : Type 0) : Type 0 where
  pub name : Option String
  pub dump_path : Option String
  pub tables : Option Json
  pub total_rows : Option ℤ
  pub db_size : Option String

pub data StopAnswer : Type 0 where
  no_active_test : StopAnswer
  stopped_run : String → StopAnswer

module _ {Json : Type 0} where
  unfoldable pub api_reset : ℕ → DashboardState Json → DashboardState Json
  unfolding clear_samples
  api_reset now d = record { store = clear_samples d.store; start_time = now }

  unfoldable pub api_test_run : Store Json → Option (TestRun Json)
  unfolding active_test_run
  api_test_run s = active_test_run s

  -- `empty` is the JSON object `{}`.
  unfoldable pub api_start_test_run :
      Json → String → StartData Json → ℕ → Action (Store Json) String
  unfolding or_value start_test_run
  api_start_test_run empty rid data_ now s =
      start_test_run rid (or_value "unnamed" data_.name) (or_value "" data_.baseline_id)
        (or_value "medium" data_.intensity) (or_value empty data_.db_before) none now s

  unfoldable pub stop_found :
      Json → Option (TestRun Json) → ℕ → Store Json → StopAnswer × Store Json
  unfolding stop_test_run
  stop_found db_after none now s = (no_active_test, s)
  stop_found db_after (some run) now s = (stopped_run run.id, stop_test_run run.id db_after now s)

  unfoldable pub api_stop_test_run : Json → Option Json → ℕ → Store Json → StopAnswer × Store Json
  unfolding or_value stop_found active_test_run
  api_stop_test_run empty db_after now s =
      stop_found (or_value empty db_after) (active_test_run s) now s

  unfoldable pub api_save_baseline :
      Json → String → BaselineData Json → ℕ → Action (Store Json) String
  unfolding or_value save_baseline
  api_save_baseline empty bid data_ now s =
      save_baseline
        (record {
          id = bid;
          name = or_value "unnamed" data_.name;
          dump_path = or_value "" data_.dump_path;
          created_at = now;
          tables = or_value empty data_.tables;
          total_rows = or_value (pos 0) data_.total_rows;
          db_size = or_value "?" data_.db_size;
        })
        s
