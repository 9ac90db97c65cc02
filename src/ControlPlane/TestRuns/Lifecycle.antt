-- ===== src/ControlPlane/TestRuns/Lifecycle.antt =====
-- A test run from its start to its stop, across the control plane and the dashboard
-- (control-plane/main.py, dashboard/app/main.py, dashboard/app/metrics_store.py).
use pg_stress.Prelude.{
  ℕ, ◌≤◌, String, Bool, true, false, Option, some, none, List, [], ◌∷◌, ◌≡◌, refl, sym, ap, arith,
  Option-cases,
}
use pg_stress.Prelude.Http.{http_error, replied, replied_inj}
use pg_stress.Prelude.Result.{Result, ok, raise}
use pg_stress.Dashboard.MetricsStore.{
  Store, TestRun, is_running, later_run, latest_running, active_test_run, has_run, stop_running,
  start_test_run, stop_test_run,
}
use pg_stress.Dashboard.MetricsStore.Runs.{
  running_count, running_count-stop_running, latest_running_last, started_run,
}
use pg_stress.Dashboard.Routes.{
  BaselineData, or_value, api_test_run, api_start_test_run, stop_found, api_stop_test_run,
  api_save_baseline,
}
use pg_stress.Dashboard.Routes.Refinement.{
  has_run-stop_running, has_run-complete_run, save_baseline-runs, stop_found-none,
}
use pg_stress.ControlPlane.TestRuns.{
  Json, empty_object, Sent, Delivery, answered, answer_lost, not_sent, get_run, post_stop,
  post_start, post_baseline, StartTestRequest, Outside, World, Drawn, Started, dump_path,
  active_run, fetch_active, notify_stop, notify_start, send_baseline, stop_previous, save_state,
  reset_to, begin_run, start_test, stop_active, stop_test, snapshot_db, reset_db_from_dump,
}

-- The request reached the dashboard.
abbrev pub is_carried : Delivery → Bool
is_carried not_sent = false
is_carried answered = true
is_carried answer_lost = true

has_run-stop_found :
    (rid : String) (db_after : Json) (o : Option (TestRun Json)) (now : ℕ) (s : Store Json)
    → has_run rid (stop_found db_after o now s).1.test_runs ≡ has_run rid s.test_runs
unfolding stop_found stop_test_run
has_run-stop_found rid db_after none now s = refl
has_run-stop_found rid db_after (some r) now s =
    has_run-complete_run rid r.id db_after now s.test_runs

has_run-notify_stop :
    (rid : String) (d : Delivery) (db_after : Json) (now : ℕ) (s : Store Json)
    → has_run rid (notify_stop d db_after now s).test_runs ≡ has_run rid s.test_runs
unfolding notify_stop api_stop_test_run
has_run-notify_stop rid not_sent db_after now s = refl
has_run-notify_stop rid answered db_after now s = has_run-stop_found rid db_after _ now s
has_run-notify_stop rid answer_lost db_after now s = has_run-stop_found rid db_after _ now s

send_baseline-runs :
    (d : Delivery) (bid : String) (b : BaselineData Json) (now : ℕ) (s : Store Json)
    → (send_baseline d bid b now s).1.test_runs ≡ s.test_runs
unfolding send_baseline api_save_baseline
send_baseline-runs not_sent bid b now s = refl
send_baseline-runs answered bid b now s = save_baseline-runs _ s
send_baseline-runs answer_lost bid b now s = save_baseline-runs _ s

module _ {D : Type 0} (out : Outside D) (reach : Sent → Delivery) (now : ℕ) where
  has_run-stop_previous :
      (rid : String) (o : Option (TestRun Json)) (w : World D)
      → has_run rid (stop_previous out reach now o w).store.test_runs
        ≡ has_run rid w.store.test_runs
  unfolding stop_previous
  has_run-stop_previous rid none w = refl
  has_run-stop_previous rid (some r) w = has_run-notify_stop rid (reach post_stop) _ now w.store

  save_state-runs :
      (bid path : String) (x : Result (Unit {0}) × D) (s : Store Json)
      → (save_state out reach now bid path x s).1.store.test_runs ≡ s.test_runs
  unfolding save_state
  save_state-runs bid path (raise e, d) s = refl
  save_state-runs bid path (ok u, d) s = send_baseline-runs (reach post_baseline) bid _ now s

  reset_to-runs :
      (bid : String) (path : Option String) (w : World D)
      → (reset_to out reach now bid path w).1.store.test_runs ≡ w.store.test_runs
  unfolding reset_to
  reset_to-runs bid none w = refl
  reset_to-runs bid (some path) w =
      save_state-runs bid path (reset_db_from_dump out path w.outside) w.store

-- The run of a start: it is the active one, and has the id that the dashboard drew.
pub record IsTracked (drawn : Drawn) (req : StartTestRequest) (a : Started) (s : Store Json)
    : Type 0 where
  pub run : TestRun Json
  pub active : active_test_run s ≡ some run
  pub id : run.id ≡ drawn.run
  pub name : run.name ≡ req.name
  pub intensity : run.intensity ≡ req.intensity
  pub db_before : run.db_before ≡ a.db_before
  pub replied_id : a.test_run_id ≡ drawn.own

api_start-active :
    (rid : String) (req : StartTestRequest) (baseline_id : String) (db_before : Json) (now : ℕ)
    → (s : Store Json) → has_run rid s.test_runs ≡ false
    → active_test_run
        (api_start_test_run empty_object rid
          (record {
            name = some req.name;
            baseline_id = some baseline_id;
            intensity = some req.intensity;
            db_before = some db_before;
          })
          now
          s).1
      ≡ some (started_run rid req.name baseline_id req.intensity db_before none now)
unfolding api_start_test_run start_test_run active_test_run or_value
api_start-active rid req baseline_id db_before now s new =
    rw (has_run-stop_running rid now s.test_runs, new)
      (latest_running_last (stop_running now s.test_runs)
        (started_run rid req.name baseline_id req.intensity db_before none now)
        (running_count-stop_running now s.test_runs) refl)

notify_start-active :
    (d : Delivery) (rid : String) (req : StartTestRequest) (baseline_id : String) (db_before : Json)
    → (now : ℕ) (s : Store Json) → is_carried d ≡ true
    → has_run rid s.test_runs ≡ false
    → active_test_run (notify_start d rid req baseline_id db_before now s)
      ≡ some (started_run rid req.name baseline_id req.intensity db_before none now)
unfolding notify_start
notify_start-active not_sent rid req baseline_id db_before now s c new = absurd (cc)
notify_start-active answered rid req baseline_id db_before now s c new =
    api_start-active rid req baseline_id db_before now s new
notify_start-active answer_lost rid req baseline_id db_before now s c new =
    api_start-active rid req baseline_id db_before now s new

begin_run-IsTracked :
    {D : Type 0} (out : Outside D) (reach : Sent → Delivery) (now : ℕ) (drawn : Drawn)
    → (req : StartTestRequest) (x : Result String × World D) (a : Started)
    → is_carried (reach post_start) ≡ true
    → has_run drawn.run x.1.store.test_runs ≡ false
    → (begin_run out reach now drawn req x).0 ≡ replied a
    → IsTracked drawn req a (begin_run out reach now drawn req x).1.store
unfolding begin_run
begin_run-IsTracked out reach now drawn req (raise e, w) a c new h = absurd (cc)
begin_run-IsTracked out reach now drawn req (ok baseline_id, w) a c new h =
    let e = replied_inj _ a h in
    record {
      run =
          started_run drawn.run req.name baseline_id req.intensity (snapshot_db out w.outside).0
            none now;
      active =
          notify_start-active (reach post_start) drawn.run req baseline_id
            (snapshot_db out w.outside).0 now w.store c new;
      id = refl;
      name = refl;
      intensity = refl;
      db_before = ap (λ r. r.db_before) e;
      replied_id = ap (λ r. r.test_run_id) (sym e);
    }

-- If start_test replies, its request to start reaches the dashboard, and the dashboard draws an id that
-- no run has, then the active run has that id and the name, the intensity and the state of the database
-- of the reply; the id of the reply is another one, drawn by the control plane.
pub start_test-IsTracked :
    {D : Type 0} (out : Outside D) (reach : Sent → Delivery) (now : ℕ) (drawn : Drawn)
    → (req : StartTestRequest) (w : World D) (a : Started) → is_carried (reach post_start) ≡ true
    → has_run drawn.run w.store.test_runs ≡ false
    → (start_test out reach now drawn req w).0 ≡ replied a
    → IsTracked drawn req a (start_test out reach now drawn req w).1.store
unfolding start_test
start_test-IsTracked out reach now drawn req w a c new h =
    begin_run-IsTracked out reach now drawn req _ a c
      (rw
        (
          reset_to-runs out reach now drawn.baseline (dump_path req.baseline_dump)
              (stop_previous out reach now (fetch_active (reach get_run) w.store) w),
          has_run-stop_previous out reach now drawn.run (fetch_active (reach get_run) w.store) w,
        )
        new)
      h

latest_running-running :
    (rs : List (TestRun Json)) (r : TestRun Json)
    → latest_running rs ≡ some r
    → is_running r.status ≡ true
unfolding latest_running later_run
latest_running-running [] r h = absurd (cc)
latest_running-running (q ∷ rs) r h =
    ground (arith, h, latest_running-running rs r, Option-cases (latest_running rs))

active_run-latest :
    (rs : List (TestRun Json)) (o : Option (TestRun Json))
    → latest_running rs ≡ o
    → active_run o ≡ o
unfolding active_run
active_run-latest rs none e = refl
active_run-latest rs (some r) e = rw (latest_running-running rs r e) refl

fetch_latest :
    (d : Delivery) (s : Store Json) → d ≡ answered → fetch_active d s ≡ latest_running s.test_runs
unfolding fetch_active api_test_run active_test_run
fetch_latest not_sent s e = absurd (cc)
fetch_latest answer_lost s e = absurd (cc)
fetch_latest answered s e = active_run-latest s.test_runs (latest_running s.test_runs) refl

notify_stop-none :
    (d : Delivery) (db_after : Json) (now : ℕ) (s : Store Json)
    → is_carried d ≡ true
    → running_count s.test_runs ≤ 1
    → latest_running (notify_stop d db_after now s).test_runs ≡ none
unfolding notify_stop api_stop_test_run active_test_run or_value
notify_stop-none not_sent db_after now s c one = absurd (cc)
notify_stop-none answered db_after now s c one =
    (stop_found-none db_after (latest_running s.test_runs) now s one refl).1
notify_stop-none answer_lost db_after now s c one =
    (stop_found-none db_after (latest_running s.test_runs) now s one refl).1

stop_active-none :
    {D : Type 0} (out : Outside D) (reach : Sent → Delivery) (now : ℕ) (w : World D)
    → (o : Option (TestRun Json)) → running_count w.store.test_runs ≤ 1
    → is_carried (reach post_stop) ≡ true
    → latest_running w.store.test_runs ≡ o
    → latest_running (stop_active out reach now o w).1.store.test_runs ≡ none
unfolding stop_active
stop_active-none out reach now w none one c e = e
stop_active-none out reach now w (some r) one c e =
    notify_stop-none (reach post_stop) _ now w.store c one

nothing_to_stop :
    {D : Type 0} (out : Outside D) (reach : Sent → Delivery) (later : ℕ) (w : World D)
    → reach get_run ≡ answered
    → latest_running w.store.test_runs ≡ none
    → stop_test out reach later w ≡ (http_error 400, w)
unfolding stop_test stop_active
nothing_to_stop out reach later w g e = rw (fetch_latest (reach get_run) w.store g, e) refl

-- If at most one run is running, and stop_test reaches the dashboard with both requests, then afterwards
-- no run is active, and another stop_test answers with the status 400 and changes nothing.
pub stop_test_twice :
    {D : Type 0} (out : Outside D) (reach : Sent → Delivery) (now later : ℕ) (w : World D)
    → running_count w.store.test_runs ≤ 1
    → reach get_run ≡ answered
    → is_carried (reach post_stop) ≡ true
    → (active_test_run (stop_test out reach now w).1.store ≡ none)
      × (stop_test out reach later (stop_test out reach now w).1
          ≡ (http_error 400, (stop_test out reach now w).1))
unfolding stop_test active_test_run
stop_test_twice out reach now later w one g c =
    let stopped : latest_running (stop_test out reach now w).1.store.test_runs ≡ none =
      rw (fetch_latest (reach get_run) w.store g)
        (stop_active-none out reach now w (latest_running w.store.test_runs) one c refl) in
    (stopped, nothing_to_stop out reach later _ g stopped)
