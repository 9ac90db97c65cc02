-- ===== src/ControlPlane/TestRuns.antt =====
-- Test runs of the control plane (control-plane/main.py). The dashboard is modelled with it: a request to
-- it runs the route of the dashboard on its store, and is delivered or not as `reach` says. Docker,
-- PostgreSQL and `pg_restore` share one state.
pub mod Lifecycle
mod Tests
use pg_stress.Prelude.{
  ℕ, ◌+◌, String, Bool, true, false, Option, some, none, List, [], ◌∷◌, map, not, nat_eq,
  if◌then◌else◌, ◌==◌,
}
use pg_stress.Prelude.Action.{Action, pure, ◌>>=◌, ◌>>◌}
use pg_stress.Prelude.Dict.{Dict, put}
use pg_stress.Prelude.Http.{Reply, http_error, crash, replied}
use pg_stress.Prelude.Int.{ℤ, pos, ◌+ℤ◌}
use pg_stress.Prelude.Result.{Result, Error, ok, raise}
use pg_stress.ControlPlane.Containers.{Container, Docker, find_container}
use pg_stress.Dashboard.MetricsStore.{Store, TestRun, is_running}
use pg_stress.Dashboard.Routes.{
  StartData, BaselineData, api_test_run, api_start_test_run, api_stop_test_run, api_save_baseline,
}

pub record SnapshotRow : Type 0 where
  pub relname : String
  pub n_live_tup : ℤ
  pub n_dead_tup : ℤ
  pub size : String

pub record TableState : Type 0 where
  pub n_live_tup : ℤ
  pub n_dead_tup : ℤ
  pub size : String

pub record DbState : Type 0 where
  pub database : String
  pub total_rows : ℤ
  pub db_size : String
  pub tables : Dict TableState

-- The JSON objects that are sent: `{}`, a snapshot, its error, or its tables.
pub data Json : Type 0 where
  empty_object : Json
  db_state : DbState → Json
  error_object : String → Json
  tables_object : Dict TableState → Json

pub record StartTestRequest : Type 0 where
  pub name : String
  pub intensity : String
  pub baseline_dump : Option String

-- The requests to the dashboard, and how one went: answered, carried out with the answer lost, or not
-- carried out.
pub data Sent : Type 0 where
  get_run post_stop post_baseline post_start : Sent

pub data Delivery : Type 0 where
  answered answer_lost not_sent : Delivery

pub record Outside (D : Type 0) : Type 0 where
  pub docker : Docker D
  pub database : String
  -- `str(e)`
  pub text_of : Error → String
  pub basename : String → String
  pub table_rows : Action D (List SnapshotRow)
  pub size_rows : Action D (List String)
  pub pg_restore : String → Action D (Unit {0})
  pub reset_statements : Action D (Unit {0})
  pub reset_stats : Action D (Unit {0})
  pub analyze : Action D (Unit {0})

pub record World (D : Type 0) : Type 0 where
  pub outside : D
  pub store : Store Json

-- The ids that are drawn: of the dashboard for the run, of the dashboard for the baseline, and of the
-- control plane for the run.
pub record Drawn : Type 0 where
  pub run : String
  pub baseline : String
  pub own : String

pub record Started : Type 0 where
  pub test_run_id : String
  pub name : String
  pub intensity : String
  pub baseline_reset : Bool
  pub db_before : Json

pub record Stopped : Type 0 where
  pub test_run_id : String
  pub name : String
  pub db_after : Json

-- `if req.baseline_dump`
unfoldable pub dump_path : Option String → Option String
dump_path none = none
dump_path (some path) = if path == "" then none else some path

unfoldable pub has_dump : Option String → Bool
has_dump none = false
has_dump (some path) = true

unfoldable pub first_size : List String → String
first_size [] = "?"
first_size (s ∷ ss) = s

unfoldable pub table_states : List SnapshotRow → Dict TableState → Dict TableState
table_states [] tables = tables
table_states (r ∷ rows) tables = table_states rows (
    put r.relname (record { n_live_tup = r.n_live_tup; n_dead_tup = r.n_dead_tup; size = r.size })
      tables)

unfoldable pub total_rows : List SnapshotRow → ℤ → ℤ
total_rows [] total = total
total_rows (r ∷ rows) total = total_rows rows (total +ℤ r.n_live_tup)

-- `snap.get("tables", {})`, `snap.get("total_rows", 0)` and `snap.get("db_size", "?")`
unfoldable pub baseline_data : String → String → Json → BaselineData Json
baseline_data name path (db_state s) = record {
  name = some name;
  dump_path = some path;
  tables = some (tables_object s.tables);
  total_rows = some s.total_rows;
  db_size = some s.db_size;
}
baseline_data name path _ = record {
  name = some name;
  dump_path = some path;
  tables = some empty_object;
  total_rows = some (pos 0);
  db_size = some "?";
}

-- The `status` of the answer of /api/test-run is `running`.
unfoldable pub active_run : Option (TestRun Json) → Option (TestRun Json)
active_run none = none
active_run (some r) = if is_running r.status then some r else none

-- The active run, as far as the dashboard answers.
unfoldable pub fetch_active : Delivery → Store Json → Option (TestRun Json)
unfolding active_run api_test_run
fetch_active answered s = active_run (api_test_run s)
fetch_active answer_lost s = none
fetch_active not_sent s = none

-- `_notify_dashboard_test_run("stop", …)`
unfoldable pub notify_stop : Delivery → Json → ℕ → Store Json → Store Json
unfolding api_stop_test_run
notify_stop not_sent db_after now s = s
notify_stop answered db_after now s = (api_stop_test_run empty_object (some db_after) now s).1
notify_stop answer_lost db_after now s = (api_stop_test_run empty_object (some db_after) now s).1

-- `_notify_dashboard_test_run("start", …)`
unfoldable pub notify_start :
    Delivery → String → StartTestRequest → String → Json → ℕ → Store Json → Store Json
unfolding api_start_test_run
notify_start not_sent rid req baseline_id db_before now s = s
notify_start answered rid req baseline_id db_before now s =
    (api_start_test_run empty_object rid
      (record {
        name = some req.name;
        baseline_id = some baseline_id;
        intensity = some req.intensity;
        db_before = some db_before;
      })
      now s).1
notify_start answer_lost rid req baseline_id db_before now s =
    (api_start_test_run empty_object rid
      (record {
        name = some req.name;
        baseline_id = some baseline_id;
        intensity = some req.intensity;
        db_before = some db_before;
      })
      now s).1

-- `r.json().get("id", "")`, and `""` after an exception or an error answer
unfoldable pub id_answer : Delivery → Result String → String
id_answer answered (ok bid) = bid
id_answer answered (raise e) = ""
id_answer answer_lost r = ""
id_answer not_sent r = ""

unfoldable pub send_baseline :
    Delivery → String → BaselineData Json → ℕ → Store Json → String × Store Json
unfolding id_answer api_save_baseline
send_baseline not_sent bid b now s = ("", s)
send_baseline answered bid b now s =
    let (r, s') = api_save_baseline empty_object bid b now s in (id_answer answered r, s')
send_baseline answer_lost bid b now s =
    let (r, s') = api_save_baseline empty_object bid b now s in (id_answer answer_lost r, s')

module _ {D : Type 0} (out : Outside D) where
  unfoldable pub snapshot_body : Action D DbState
  unfolding table_states total_rows first_size
  snapshot_body = out.table_rows >>= λ rows. out.size_rows >>= λ sizes. pure (record {
    database = out.database;
    total_rows = total_rows rows (pos 0);
    db_size = first_size sizes;
    tables = table_states rows [];
  })

  unfoldable pub snapshot_answer : Result DbState → Json
  snapshot_answer (ok s) = db_state s
  snapshot_answer (raise e) = error_object (out.text_of e)

  -- `_snapshot_db()`
  unfoldable pub snapshot_db : D → Json × D
  unfolding snapshot_body snapshot_answer
  snapshot_db d = let (r, d') = snapshot_body d in (snapshot_answer r, d')

  unfoldable pub stop_if_up : Option Container → Action D (Unit {0})
  stop_if_up none = pure tt
  stop_if_up (some c) = if c.status == "running" then out.docker.stop c else pure tt

  unfoldable pub stop_generators : List String → Action D (Unit {0})
  unfolding stop_if_up
  stop_generators [] = pure tt
  stop_generators (svc ∷ svcs) = λ d.
      let (c, d') = find_container out.docker svc d in (stop_if_up c >> stop_generators svcs) d'

  -- `try: execute(…)` and `except Exception: pass`
  abbrev ignored : Action D (Unit {0}) → Action D (Unit {0})
  ignored m d = (ok tt, (m d).1)

  -- `_reset_db_from_dump(dump_path)`
  unfoldable pub reset_db_from_dump : String → Action D (Unit {0})
  unfolding stop_generators
  reset_db_from_dump path =
      stop_generators ("load-generator" ∷ "load-generator-orm" ∷ "pgbench-runner" ∷ [])
      >> out.pg_restore path
      >> ignored out.reset_statements
      >> ignored out.reset_stats
      >> out.analyze

  -- `for svc in [...]: c = find_container(svc)`, `c.restart` in a `try`
  unfoldable pub restart_found : Option Container → D → D
  restart_found none d = d
  restart_found (some c) d = (out.docker.restart c d).1

  unfoldable pub restart_generators : List String → D → D
  unfolding restart_found
  restart_generators [] d = d
  restart_generators (svc ∷ svcs) d =
      let (c, d') = find_container out.docker svc d in restart_generators svcs (restart_found c d')

  -- "If there's a running test, stop it first."
  unfoldable pub stop_previous : (Sent → Delivery) → ℕ → Option (TestRun Json) → World D → World D
  unfolding snapshot_db notify_stop
  stop_previous reach now none w = w
  stop_previous reach now (some run) w =
      let (after_snap, d) = snapshot_db w.outside in
      record { outside = d; store = notify_stop (reach post_stop) after_snap now w.store }

  -- The reset from the dump, and the id of the baseline.
  unfoldable pub save_state :
      (Sent → Delivery)
      → ℕ
      → String
      → String
      → Result (Unit {0}) × D
      → Store Json
      → Result String × World D
  unfolding snapshot_db send_baseline baseline_data
  save_state reach now bid path (raise e, d) s = (raise e, record { outside = d; store = s })
  save_state reach now bid path (ok u, d) s =
      let (snap, d') = snapshot_db d in
      let (baseline_id, s') =
        send_baseline (reach post_baseline) bid (baseline_data (out.basename path) path snap) now
          s in
      (ok baseline_id, record { outside = d'; store = s' })

  unfoldable pub reset_to :
      (Sent → Delivery) → ℕ → String → Option String → World D → Result String × World D
  unfolding reset_db_from_dump save_state
  reset_to reach now bid none w = (ok "", w)
  reset_to reach now bid (some path) w =
      save_state reach now bid path (reset_db_from_dump path w.outside) w.store

  -- From the id of the baseline on. The handler imports `_set_intensity` from `main`, which has no such
  -- name, inside a `try` that ignores the exception: nothing happens there.
  unfoldable pub begin_run :
      (Sent → Delivery)
      → ℕ
      → Drawn
      → StartTestRequest
      → Result String × World D
      → Reply Started × World D
  unfolding snapshot_db notify_start restart_generators has_dump dump_path
  begin_run reach now drawn req (raise e, w) = (crash e, w)
  begin_run reach now drawn req (ok baseline_id, w) =
      let (db_before, d) = snapshot_db w.outside in
      (
        replied (record {
          test_run_id = drawn.own;
          name = req.name;
          intensity = req.intensity;
          baseline_reset = has_dump (dump_path req.baseline_dump);
          db_before = db_before;
        }),
        record {
          outside = restart_generators ("load-generator" ∷ "load-generator-orm" ∷ []) d;
          store = notify_start (reach post_start) drawn.run req baseline_id db_before now w.store;
        },
      )

  unfoldable pub start_test :
      (Sent → Delivery) → ℕ → Drawn → StartTestRequest → World D → Reply Started × World D
  unfolding fetch_active stop_previous reset_to begin_run dump_path
  start_test reach now drawn req w =
      let w' = stop_previous reach now (fetch_active (reach get_run) w.store) w in
      begin_run reach now drawn req
        (reset_to reach now drawn.baseline (dump_path req.baseline_dump) w')

  unfoldable pub stop_active :
      (Sent → Delivery) → ℕ → Option (TestRun Json) → World D → Reply Stopped × World D
  unfolding snapshot_db notify_stop
  stop_active reach now none w = (http_error 400, w)
  stop_active reach now (some run) w =
      let (db_after, d) = snapshot_db w.outside in
      (
        replied (record { test_run_id = run.id; name = run.name; db_after = db_after }),
        record { outside = d; store = notify_stop (reach post_stop) db_after now w.store },
      )

  unfoldable pub stop_test : (Sent → Delivery) → ℕ → World D → Reply Stopped × World D
  unfolding fetch_active stop_active
  stop_test reach now w = stop_active reach now (fetch_active (reach get_run) w.store) w
