-- ===== src/Dashboard/MetricsStore/Runs.antt =====
-- At most one test run is running (dashboard/app/metrics_store.py).
use pg_stress.Prelude.{
  ℕ, ◌+◌, ◌≤◌, String, false, Option, some, none, List, [], ◌∷◌, ◌++◌, if◌then◌else◌, ◌≡◌, refl,
  arith, eq_self,
}
use pg_stress.Dashboard.MetricsStore.{
  is_running, running, TestRun, Store, latest_running, active_test_run, active_test_run_id, has_run,
  stop_running, start_test_run, complete_run, stop_test_run, add, clear, clear_samples,
  add_safety_event,
}

-- A call of a method that writes.
pub data Call (Json : Type 0) : Type 0 where
  start : String → String → String → String → Json → Option Json → ℕ → Call Json
  stop : String → Json → ℕ → Call Json
  sample safety : ℕ → Json → Call Json
  wipe wipe_samples : Call Json

module _ {Json : Type 0} where
  abbrev pub running_count : List (TestRun Json) → ℕ
  running_count [] = 0
  running_count (r ∷ rs) = (if is_running r.status then 1 else 0) + running_count rs

  pub running_count-append :
      (rs qs : List (TestRun Json)) → running_count (rs ++ qs) ≡ running_count rs + running_count qs
  running_count-append [] qs = omega arith
  running_count-append (r ∷ rs) qs = omega (arith, running_count-append rs qs)

  pub running_count-stop_running :
      (now : ℕ) (rs : List (TestRun Json)) → running_count (stop_running now rs) ≡ 0
  unfolding stop_running
  running_count-stop_running now [] = refl
  running_count-stop_running now (r ∷ rs) = ground (arith, running_count-stop_running now rs)

  pub running_count-complete_run :
      (rid : String) (db_after : Json) (now : ℕ) (rs : List (TestRun Json))
      → running_count (complete_run rid db_after now rs) ≤ running_count rs
  unfolding complete_run
  running_count-complete_run rid db_after now [] = omega arith
  running_count-complete_run rid db_after now (r ∷ rs) =
      ground (arith, running_count-complete_run rid db_after now rs)

  pub latest_running-none :
      (rs : List (TestRun Json)) → running_count rs ≡ 0 → latest_running rs ≡ none
  unfolding latest_running
  latest_running-none [] h = refl
  latest_running-none (r ∷ rs) h = ground (arith, latest_running-none rs)

  pub latest_running_last :
      (rs : List (TestRun Json)) (r : TestRun Json)
      → running_count rs ≡ 0
      → r.status ≡ running
      → latest_running (rs ++ r ∷ []) ≡ some r
  unfolding latest_running
  latest_running_last [] r h e = ground arith
  latest_running_last (q ∷ rs) r h e = ground (arith, latest_running_last rs r)

  abbrev pub started_run : String → String → String → String → Json → Option Json → ℕ → TestRun Json
  started_run rid name baseline_id intensity db_before config now = record {
    id = rid;
    name = name;
    baseline_id = baseline_id;
    intensity = intensity;
    status = running;
    started_at = now;
    stopped_at = none;
    db_before = db_before;
    db_after = none;
    config = config;
  }

  pub call : Call Json → Store Json → Store Json
  call (start rid name baseline_id intensity db_before config now) s =
      (start_test_run rid name baseline_id intensity db_before config now s).1
  call (stop rid db_after now) s = stop_test_run rid db_after now s
  call (sample timestamp content) s = add timestamp content s
  call (safety timestamp content) s = add_safety_event timestamp content s
  call wipe s = clear s
  call wipe_samples s = clear_samples s

  pub calls : List (Call Json) → Store Json → Store Json
  calls [] s = s
  calls (c ∷ cs) s = calls cs (call c s)

  call-one_running :
      (c : Call Json) (s : Store Json)
      → running_count s.test_runs ≤ 1
      → running_count (call c s).test_runs ≤ 1
  unfolding call start_test_run stop_test_run add add_safety_event clear clear_samples
  call-one_running (start rid name baseline_id intensity db_before config now) s h = ground (
    arith,
    running_count-stop_running now s.test_runs,
    running_count-append (stop_running now s.test_runs)
        (started_run rid name baseline_id intensity db_before config now ∷ []),
  )
  call-one_running (stop rid db_after now) s h =
      omega (arith, running_count-complete_run rid db_after now s.test_runs)
  call-one_running (sample timestamp content) s h = h
  call-one_running (safety timestamp content) s h = h
  call-one_running wipe s h = h
  call-one_running wipe_samples s h = h

  -- From a store with at most one running test run, whatever methods are called in whatever order, at
  -- most one test run is running.
  pub calls-one_running :
      (cs : List (Call Json)) (s : Store Json)
      → running_count s.test_runs ≤ 1
      → running_count (calls cs s).test_runs ≤ 1
  unfolding calls
  calls-one_running [] s h = h
  calls-one_running (c ∷ cs) s h = calls-one_running cs (call c s) (call-one_running c s h)

  complete_run_absent :
      (rid : String) (db_after : Json) (now : ℕ) (rs : List (TestRun Json)) (r : TestRun Json)
      → running_count rs ≡ 0
      → r.id ≡ rid
      → running_count (complete_run rid db_after now (rs ++ r ∷ [])) ≡ 0
  unfolding complete_run
  complete_run_absent rid db_after now [] r h e = ground (arith, e, eq_self rid)
  complete_run_absent rid db_after now (q ∷ rs) r h e =
      ground (arith, complete_run_absent rid db_after now rs r)

  module _ (rid name baseline_id intensity : String) (db_before : Json) (config : Option Json)
      (now : ℕ) (s : Store Json) (new : has_run rid (stop_running now s.test_runs) ≡ false) where
    abbrev started : Store Json
    started = (start_test_run rid name baseline_id intensity db_before config now s).1

    abbrev the_run : TestRun Json
    the_run = started_run rid name baseline_id intensity db_before config now

    started_runs : started.test_runs ≡ stop_running now s.test_runs ++ the_run ∷ []
    unfolding start_test_run
    started_runs = ground (arith, new)

    started_samples : started.samples ≡ s.samples
    unfolding start_test_run
    started_samples = ground (arith, new)

    started_active : active_test_run_id started ≡ some rid
    unfolding active_test_run_id
    started_active = rw started_runs (
        rw (
          latest_running_last (stop_running now s.test_runs) the_run
            (running_count-stop_running now s.test_runs) refl))

    -- Whatever ran before, a test run that is started under a new id is the active one, the next sample
    -- carries its id, and when it is then stopped no test run is active.
    pub start_test_run-active :
        (timestamp later : ℕ) (content db_after : Json)
        → (active_test_run_id started ≡ some rid)
          × ((add timestamp content started).samples
              ≡ s.samples
                ++ record { test_run_id = some rid; timestamp = timestamp; content = content } ∷ [])
          × (active_test_run (stop_test_run rid db_after later (add timestamp content started))
              ≡ none)
    unfolding add stop_test_run active_test_run
    start_test_run-active timestamp later content db_after = (
      started_active,
      rw (started_samples, started_active),
      rw started_runs (
          latest_running-none
            (complete_run rid db_after later (stop_running now s.test_runs ++ the_run ∷ []))
            (complete_run_absent rid db_after later (stop_running now s.test_runs) the_run
              (running_count-stop_running now s.test_runs) refl)),
    )
