-- ===== src/Dashboard/Routes/Refinement.antt =====
-- The routes implement a machine that holds at most one id (dashboard/app/main.py).
use pg_stress.Prelude.{
  ℕ, ◌≤◌, String, true, false, Option, some, none, List, [], ◌∷◌, ◌≡◌, refl, ap, ◌∙◌, arith, eq_iff,
  Bool-cases, inl, inr,
}
use pg_stress.Dashboard.MetricsStore.{
  Baseline, TestRun, Store, is_running, run_id, latest_running, later_run, active_test_run,
  active_test_run_id, has_run, stop_running, start_test_run, complete_run, stop_test_run,
  save_baseline, add, clear_samples,
}
use pg_stress.Dashboard.MetricsStore.Runs.{
  running_count, running_count-complete_run, running_count-stop_running, running_count-append,
  latest_running-none, started_run, start_test_run-active,
}
use pg_stress.Dashboard.Routes.{
  or_value, StartData, BaselineData, DashboardState, api_reset, api_start_test_run, stop_found,
  api_stop_test_run, api_save_baseline,
}

-- A request of a route that writes, or a sample of the poller.
pub data Request (Json : Type 0) : Type 0 where
  start : String → StartData Json → ℕ → Request Json
  stop : Option Json → ℕ → Request Json
  baseline : String → BaselineData Json → ℕ → Request Json
  reset : ℕ → Request Json
  sample : ℕ → Json → Request Json

-- What the requests promise: the id of the run that is active.
pub spec : {Json : Type 0} → Request Json → Option String → Option String
spec (start rid d now) active = some rid
spec (stop db_after now) active = none
spec (baseline bid d now) active = active
spec (reset now) active = active
spec (sample now content) active = active

pub specs : {Json : Type 0} → List (Request Json) → Option String → Option String
specs [] active = active
specs (r ∷ rs) active = specs rs (spec r active)

module _ {Json : Type 0} (empty : Json) where
  unfoldable pub handle : Request Json → DashboardState Json → DashboardState Json
  handle (start rid d now) s = record s { store = (api_start_test_run empty rid d now s.store).1 }
  handle (stop db_after now) s = record s {
    store = (api_stop_test_run empty db_after now s.store).1;
  }
  handle (baseline bid d now) s = record s { store = (api_save_baseline empty bid d now s.store).1 }
  handle (reset now) s = api_reset now s
  handle (sample now content) s = record s { store = add now content s.store }

  pub handles : List (Request Json) → DashboardState Json → DashboardState Json
  handles [] s = s
  handles (r ∷ rs) s = handles rs (handle r s)

  -- Each start draws an id that no run has.
  unfoldable pub Fresh : List (Request Json) → DashboardState Json → Type 0
  Fresh [] s = Unit
  Fresh (start rid d now ∷ rs) s =
      (has_run rid s.store.test_runs ≡ false) × Fresh rs (handle (start rid d now) s)
  Fresh (stop db_after now ∷ rs) s = Fresh rs (handle (stop db_after now) s)
  Fresh (baseline bid d now ∷ rs) s = Fresh rs (handle (baseline bid d now) s)
  Fresh (reset now ∷ rs) s = Fresh rs (handle (reset now) s)
  Fresh (sample now content ∷ rs) s = Fresh rs (handle (sample now content) s)

pub has_run-stop_running :
    {Json : Type 0} (rid : String) (now : ℕ) (rs : List (TestRun Json))
    → has_run rid (stop_running now rs) ≡ has_run rid rs
unfolding has_run stop_running
has_run-stop_running rid now [] = refl
has_run-stop_running rid now (r ∷ rs) = ground (arith, has_run-stop_running rid now rs)

pub has_run-complete_run :
    {Json : Type 0} (rid other : String) (db_after : Json) (now : ℕ) (rs : List (TestRun Json))
    → has_run rid (complete_run other db_after now rs) ≡ has_run rid rs
unfolding has_run complete_run
has_run-complete_run rid other db_after now [] = refl
has_run-complete_run rid other db_after now (r ∷ rs) =
    ground (arith, has_run-complete_run rid other db_after now rs)

only_running :
    {Json : Type 0} (q : TestRun Json) (rs : List (TestRun Json)) (r : TestRun Json)
    → running_count (q ∷ rs) ≤ 1
    → latest_running (q ∷ rs) ≡ some r
    → is_running q.status ≡ true
    → q ≡ r
unfolding latest_running later_run
only_running q rs r h e a = ground (arith, h, e, a, latest_running-none rs)

-- The one running run is no longer running when it is completed.
pub complete_run_only :
    {Json : Type 0} (db_after : Json) (now : ℕ) (rs : List (TestRun Json)) (r : TestRun Json)
    → running_count rs ≤ 1
    → latest_running rs ≡ some r
    → running_count (complete_run r.id db_after now rs) ≡ 0
unfolding complete_run latest_running later_run
complete_run_only db_after now [] r h e = refl
complete_run_only {Json} db_after now (q ∷ rs) r h e = elim (Bool-cases (is_running q.status)) [
  | inl a ↦ ground (
    arith,
    a,
    latest_running-none rs,
    running_count-complete_run r.id db_after now rs,
    eq_iff q.id r.id,
    only_running q rs r h e a,
  )
  | inr b ↦ ground (arith, b, e, complete_run_only db_after now rs r)
]

-- After a start under a new id one run is running, and it has that id.
start_test_run-one :
    {Json : Type 0} (rid name baseline_id intensity : String) (db_before : Json)
    → (config : Option Json) (now : ℕ) (s : Store Json) → has_run rid s.test_runs ≡ false
    → (running_count
          (start_test_run rid name baseline_id intensity db_before config now s).1.test_runs
        ≤ 1)
      × (active_test_run_id (start_test_run rid name baseline_id intensity db_before config now s).1
          ≡ some rid)
unfolding start_test_run
start_test_run-one rid name baseline_id intensity db_before config now s new = (
  rw (has_run-stop_running rid now s.test_runs, new)
      (ground (
        arith,
        running_count-stop_running now s.test_runs,
        running_count-append (stop_running now s.test_runs)
            (started_run rid name baseline_id intensity db_before config now ∷ []),
      )),
  (start_test_run-active rid name baseline_id intensity db_before config now s
      (has_run-stop_running rid now s.test_runs ∙ new) 0 0 db_before db_before).0,
)

-- The stop route ends the one run.
pub stop_found-none :
    {Json : Type 0} (db_after : Json) (o : Option (TestRun Json)) (now : ℕ) (s : Store Json)
    → running_count s.test_runs ≤ 1
    → latest_running s.test_runs ≡ o
    → (running_count (stop_found db_after o now s).1.test_runs ≤ 1)
      × (latest_running (stop_found db_after o now s).1.test_runs ≡ none)
unfolding stop_found stop_test_run
stop_found-none db_after none now s h e = (h, e)
stop_found-none db_after (some r) now s h e =
    let z = complete_run_only db_after now s.test_runs r h e in
    (omega (arith, z), latest_running-none (complete_run r.id db_after now s.test_runs) z)

-- A change that leaves the test runs alone.
pub save_baseline-runs :
    {Json : Type 0} (b : Baseline Json) (s : Store Json)
    → (save_baseline b s).1.test_runs ≡ s.test_runs
unfolding save_baseline
save_baseline-runs b s = ground arith

module _ {Json : Type 0} (empty : Json) where
  handle-spec :
      (r : Request Json) (rs : List (Request Json)) (s : DashboardState Json)
      → running_count s.store.test_runs ≤ 1
      → Fresh empty (r ∷ rs) s
      → (running_count (handle empty r s).store.test_runs ≤ 1)
        × (active_test_run_id (handle empty r s).store ≡ spec r (active_test_run_id s.store))
        × Fresh empty rs (handle empty r s)
  unfolding handle spec Fresh api_start_test_run api_stop_test_run api_save_baseline api_reset
      clear_samples add active_test_run_id active_test_run run_id
  handle-spec (start rid d now) rs s h f =
      let o =
        start_test_run-one rid (or_value "unnamed" d.name) (or_value "" d.baseline_id)
          (or_value "medium" d.intensity) (or_value empty d.db_before) none now s.store f.0 in
      (o.0, o.1, f.1)
  handle-spec (stop db_after now) rs s h f =
      let o =
        stop_found-none (or_value empty db_after) (latest_running s.store.test_runs) now s.store h
          refl in
      (o.0, rw o.1 refl, f)
  handle-spec (baseline bid d now) rs s h f =
      (rw (save_baseline-runs _ s.store) h, rw (save_baseline-runs _ s.store) refl, f)
  handle-spec (reset now) rs s h f = (h, refl, f)
  handle-spec (sample now content) rs s h f = (h, refl, f)

  -- From a store in which at most one run is running, and if each start draws an id that no run has,
  -- the id of the active run is after any requests what the machine with one id holds after them: a start
  -- sets it, a stop clears it, and baselines, resets and samples leave it.
  pub handles-specs :
      (rs : List (Request Json)) (s : DashboardState Json)
      → running_count s.store.test_runs ≤ 1
      → Fresh empty rs s
      → active_test_run_id (handles empty rs s).store ≡ specs rs (active_test_run_id s.store)
  unfolding handles specs
  handles-specs [] s h f = refl
  handles-specs (r ∷ rs) s h f =
      let one = handle-spec r rs s h f in
      handles-specs rs (handle empty r s) one.0 one.2 ∙ ap (specs rs) one.1
