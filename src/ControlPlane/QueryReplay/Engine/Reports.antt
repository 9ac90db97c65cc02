-- ===== src/ControlPlane/QueryReplay/Engine/Reports.antt =====
-- What a replay reports and saves (control-plane/query_replay.py: `stop`, `snapshot`,
-- `get_replay_results`).
use pg_stress.Prelude.{ℕ, String, Bool, true, false, List, [], ◌∷◌, max, ltb, if◌then◌else◌, ◌==◌}
use pg_stress.Prelude.Int.{ℤ}
use pg_stress.Floats.{Floats}
use pg_stress.ControlPlane.QueryReplay.Engine.{Stat, Config, Engine, int_float, max_float}

module _ (fl : Floats) where
  -- A row of `replay_results`, and of the answer of `snapshot`.
  pub record StatRow : Type 0 where
    pub test_run_id : String
    pub query_id : ℕ
    pub query_text : String
    pub query_name : String
    pub executions : ℕ
    pub total_ms : fl.Float
    pub avg_ms : fl.Float
    pub min_ms : fl.Float
    pub max_ms : fl.Float
    pub total_rows : ℤ
    pub errors : ℕ

  pub record Totals : Type 0 where
    pub elapsed_s : ℤ
    pub total_executions : ℕ
    pub total_errors : ℕ
    pub qps : fl.Float

  pub data StopReply : Type 0 where
    not_running : StopReply
    stopped : Totals → StopReply

  pub record Snapshot : Type 0 where
    pub running : Bool
    pub totals : Totals
    pub config : Config fl
    pub queries : List StatRow

module _ {fl : Floats} where
  -- `s["total_ms"] / max(1, s["executions"])`, and the fields rounded
  unfoldable pub stat_row : String → ℕ × Stat fl → StatRow fl
  unfolding int_float
  stat_row test_run_id (qid, s) = record {
    test_run_id = test_run_id;
    query_id = qid;
    query_text = s.query;
    query_name = s.name;
    executions = s.executions;
    total_ms = fl.round s.total_ms 1;
    avg_ms = fl.round (fl.div s.total_ms (int_float fl (max 1 s.executions))) 2;
    min_ms = if fl.lt s.min_ms (int_float fl 999999) then fl.round s.min_ms 2 else int_float fl 0;
    max_ms = fl.round s.max_ms 2;
    total_rows = s.rows;
    errors = s.errors;
  }

  unfoldable pub stat_rows : String → List (ℕ × Stat fl) → List (StatRow fl)
  unfolding stat_row
  stat_rows test_run_id [] = []
  stat_rows test_run_id (s ∷ stats) = stat_row test_run_id s ∷ stat_rows test_run_id stats

  unfoldable pub totals_of : fl.Float → Engine fl → Totals fl
  unfolding int_float
  totals_of elapsed e = record {
    elapsed_s = fl.trunc elapsed;
    total_executions = e.total_executions;
    total_errors = e.total_errors;
    qps =
        fl.round (fl.div (int_float fl e.total_executions) (max_float fl (int_float fl 1) elapsed))
          1;
  }

  -- The reply, the engine, and the rows that are saved.
  unfoldable pub stop : fl.Float → Engine fl → StopReply fl × (Engine fl × List (StatRow fl))
  unfolding totals_of stat_rows
  stop now e =
      if e.running
      then (
        stopped (totals_of (fl.sub now e.start_time) e),
        (record e { running = false; stop_event = true }, stat_rows e.config.test_run_id e.stats),
      )
      else (not_running, (e, []))

  -- `sorted(results, key=executions, reverse=True)`, which keeps the order of equals
  unfoldable pub insert_row : StatRow fl → List (StatRow fl) → List (StatRow fl)
  insert_row r [] = r ∷ []
  insert_row r (s ∷ ss) = if ltb r.executions s.executions then s ∷ insert_row r ss else r ∷ s ∷ ss

  unfoldable pub sort_rows : List (StatRow fl) → List (StatRow fl)
  unfolding insert_row
  sort_rows [] = []
  sort_rows (r ∷ rs) = insert_row r (sort_rows rs)

  unfoldable pub snapshot : fl.Float → Engine fl → Snapshot fl
  unfolding totals_of stat_rows sort_rows
  snapshot now e =
      let elapsed = if e.running then fl.sub now e.start_time else int_float fl 0 in
      let totals = totals_of elapsed e in
      record {
        running = e.running;
        totals = record totals {
          qps = if fl.lt (int_float fl 0) elapsed then totals.qps else int_float fl 0;
        };
        config = e.config;
        queries = sort_rows (stat_rows e.config.test_run_id e.stats);
      }

  -- SELECT … FROM replay_results WHERE test_run_id = ? ORDER BY executions DESC
  unfoldable pub get_replay_results : String → List (StatRow fl) → List (StatRow fl)
  unfolding sort_rows
  get_replay_results test_run_id [] = []
  get_replay_results test_run_id (r ∷ rs) =
      let rest = get_replay_results test_run_id rs in
      if r.test_run_id == test_run_id then insert_row r rest else rest
