-- ===== src/Dashboard/MetricsStore.antt =====
-- The store of test runs, events and samples (dashboard/app/metrics_store.py). The tables of SQLite are
-- lists in the order of insertion, which is that of the row ids. Times are numbers, ids are drawn by the
-- caller, and a JSON column holds a value of the type `Json`.
pub mod Runs
use pg_stress.Prelude.{
  ℕ, suc, String, Bool, true, false, Option, some, none, List, [], ◌∷◌, ◌++◌, map, length, keep_if,
  ltb, leb, nat_eq, if◌then◌else◌, ◌==◌, ◌&&◌, ◌||◌,
}
use pg_stress.Prelude.Action.{Action}
use pg_stress.Prelude.Result.{ok, raise, database_error}
use pg_stress.Prelude.Int.{ℤ}
use pg_stress.Prelude.Text.{join}

pub data RunStatus : Type 0 where
  running stopped completed : RunStatus

abbrev pub is_running : RunStatus → Bool
is_running running = true
is_running _ = false

pub record Event : Type 0 where
  pub test_run_id : String
  pub timestamp : ℕ
  pub type : String
  pub detail : String

module _ (Json : Type 0) where
  pub record Baseline : Type 0 where
    pub id : String
    pub name : String
    pub dump_path : String
    pub created_at : ℕ
    pub tables : Json
    pub total_rows : ℤ
    pub db_size : String

  pub record TestRun : Type 0 where
    pub id : String
    pub name : String
    pub baseline_id : String
    pub intensity : String
    pub status : RunStatus
    pub started_at : ℕ
    pub stopped_at : Option ℕ
    pub db_before : Json
    pub db_after : Option Json
    pub config : Option Json

  pub record Sample : Type 0 where
    pub test_run_id : Option String
    pub timestamp : ℕ
    pub content : Json

  pub record Store : Type 0 where
    pub baselines : List Baseline
    pub test_runs : List TestRun
    pub events : List Event
    pub samples : List Sample
    pub safety_events : List (ℕ × Json)

  abbrev pub empty_store : Store
  empty_store = record {
    baselines = [];
    test_runs = [];
    events = [];
    samples = [];
    safety_events = [];
  }

-- The samples that carry the run's id.
unfoldable pub tagged : String → Option String → Bool
tagged rid none = false
tagged rid (some j) = j == rid

-- `test_run_id or self.active_test_run_id()`
unfoldable pub wanted_run : Option String → Option String → Option String
wanted_run none active = active
wanted_run (some rid) active = if rid == "" then active else some rid

-- one clause of the WHERE
unfoldable pub of_run : Option String → Option String → Bool
unfolding tagged
of_run none tag = true
of_run (some rid) tag = if rid == "" then true else tagged rid tag

unfoldable pub not_before : Option ℕ → ℕ → Bool
not_before none t = true
not_before (some from) t = leb from t

unfoldable pub not_after : Option ℕ → ℕ → Bool
not_after none t = true
not_after (some to) t = leb t to

unfoldable pub last_of {ℓ} : {A : Type ℓ} → List A → Option A
last_of [] = none
last_of (x ∷ []) = some x
last_of (x ∷ y ∷ ys) = last_of (y ∷ ys)

module _ {Json : Type 0} where
  -- ORDER BY started_at DESC LIMIT 1; of two runs that started together, the one stored last
  unfoldable pub later_run : TestRun Json → Option (TestRun Json) → Option (TestRun Json)
  later_run r none = some r
  later_run r (some q) = if ltb q.started_at r.started_at then some r else some q

  -- SELECT … FROM test_runs WHERE status='running' ORDER BY started_at DESC LIMIT 1
  unfoldable pub latest_running : List (TestRun Json) → Option (TestRun Json)
  unfolding later_run
  latest_running [] = none
  latest_running (r ∷ rs) =
      let best = latest_running rs in if is_running r.status then later_run r best else best

  unfoldable pub active_test_run : Store Json → Option (TestRun Json)
  unfolding latest_running
  active_test_run s = latest_running s.test_runs

  unfoldable pub run_id : Option (TestRun Json) → Option String
  run_id none = none
  run_id (some r) = some r.id

  unfoldable pub active_test_run_id : Store Json → Option String
  unfolding active_test_run run_id
  active_test_run_id s = run_id (active_test_run s)

  unfoldable pub has_baseline : String → List (Baseline Json) → Bool
  has_baseline bid [] = false
  has_baseline bid (b ∷ bs) = b.id == bid || has_baseline bid bs

  -- A second row of one id breaks the primary key.
  unfoldable pub save_baseline : Baseline Json → Action (Store Json) String
  save_baseline b s =
      if has_baseline b.id s.baselines
      then (raise database_error, s)
      else (ok b.id, record s { baselines = s.baselines ++ b ∷ [] })

  unfoldable pub get_baseline : String → List (Baseline Json) → Option (Baseline Json)
  get_baseline bid [] = none
  get_baseline bid (b ∷ bs) = if b.id == bid then some b else get_baseline bid bs

  unfoldable pub has_run : String → List (TestRun Json) → Bool
  has_run rid [] = false
  has_run rid (r ∷ rs) = r.id == rid || has_run rid rs

  -- UPDATE test_runs SET status='stopped', stopped_at=now WHERE status='running'
  unfoldable pub stop_running : ℕ → List (TestRun Json) → List (TestRun Json)
  stop_running now [] = []
  stop_running now (r ∷ rs) =
      (if is_running r.status then record r { status = stopped; stopped_at = some now } else r)
      ∷ stop_running now rs

  unfoldable pub add_event : String → ℕ → String → String → Store Json → Store Json
  add_event run_id now event_type detail s = record s {
    events =
        s.events
        ++ record { test_run_id = run_id; timestamp = now; type = event_type; detail = detail }
          ∷ [];
  }

  -- `rid` is the uuid that the method draws. The UPDATE stays if the INSERT raises.
  unfoldable pub start_test_run :
      String → String → String → String → Json → Option Json → ℕ → Action (Store Json) String
  unfolding stop_running add_event
  start_test_run rid name baseline_id intensity db_before config now s =
      let halted = stop_running now s.test_runs in
      if has_run rid halted then (raise database_error, record s { test_runs = halted }) else (
        ok rid,
        add_event rid now "test_started"
            (join "" ("Started '" ∷ name ∷ "' at " ∷ intensity ∷ " intensity" ∷ []))
            (record s {
              test_runs =
                  halted
                  ++ record {
                    id = rid;
                    name = name;
                    baseline_id = baseline_id;
                    intensity = intensity;
                    status = running;
                    started_at = now;
                    stopped_at = none;
                    db_before = db_before;
                    db_after = none;
                    config = config;
                  }
                    ∷ [];
            }),
      )

  -- UPDATE test_runs SET status='completed', … WHERE id=run_id
  unfoldable pub complete_run : String → Json → ℕ → List (TestRun Json) → List (TestRun Json)
  complete_run rid db_after now [] = []
  complete_run rid db_after now (r ∷ rs) =
      (if r.id == rid
        then record r { status = completed; stopped_at = some now; db_after = some db_after }
        else r)
      ∷ complete_run rid db_after now rs

  unfoldable pub stop_test_run : String → Json → ℕ → Store Json → Store Json
  unfolding complete_run add_event
  stop_test_run rid db_after now s =
      add_event rid now "test_stopped" "Test completed"
        (record s { test_runs = complete_run rid db_after now s.test_runs })

  unfoldable pub get_test_run : String → List (TestRun Json) → Option (TestRun Json)
  get_test_run rid [] = none
  get_test_run rid (r ∷ rs) = if r.id == rid then some r else get_test_run rid rs

  unfoldable pub sample_count : String → List (Sample Json) → ℕ
  unfolding tagged
  sample_count rid [] = 0
  sample_count rid (x ∷ xs) =
      let n = sample_count rid xs in if tagged rid x.test_run_id then suc n else n

  -- `add(sample)`
  unfoldable pub add : ℕ → Json → Store Json → Store Json
  unfolding active_test_run_id
  add timestamp content s = record s {
    samples =
        s.samples
        ++ record { test_run_id = active_test_run_id s; timestamp = timestamp; content = content }
          ∷ [];
  }

  unfoldable pub add_safety_event : ℕ → Json → Store Json → Store Json
  add_safety_event timestamp content s = record s {
    safety_events = s.safety_events ++ (timestamp, content) ∷ [];
  }

  unfoldable pub selected : Option String → Option ℕ → Option ℕ → Sample Json → Bool
  unfolding of_run not_before not_after
  selected rid from to x =
      of_run rid x.test_run_id && (not_before from x.timestamp && not_after to x.timestamp)

  -- ORDER BY timestamp ASC
  unfoldable pub insert_sample : Sample Json → List (Sample Json) → List (Sample Json)
  insert_sample x [] = x ∷ []
  insert_sample x (y ∷ ys) =
      if leb x.timestamp y.timestamp then x ∷ y ∷ ys else y ∷ insert_sample x ys

  unfoldable pub sort_samples : List (Sample Json) → List (Sample Json)
  unfolding insert_sample
  sort_samples [] = []
  sort_samples (x ∷ xs) = insert_sample x (sort_samples xs)

  unfoldable pub query : Option ℕ → Option ℕ → Option String → Store Json → List (Sample Json)
  unfolding active_test_run_id wanted_run selected sort_samples
  query from to test_run_id s =
      sort_samples
        (keep_if (selected (wanted_run test_run_id (active_test_run_id s)) from to) s.samples)

  -- SELECT data FROM samples ORDER BY id DESC LIMIT 1
  unfoldable pub latest : Store Json → Option (Sample Json)
  unfolding last_of
  latest s = last_of s.samples

  unfoldable pub clear : Store Json → Store Json
  clear s = record s { samples = []; safety_events = []; events = [] }

  -- `store.samples.clear()` of `_SamplesProxy`, which POST /api/reset calls
  unfoldable pub clear_samples : Store Json → Store Json
  clear_samples s = record s { samples = []; safety_events = [] }
