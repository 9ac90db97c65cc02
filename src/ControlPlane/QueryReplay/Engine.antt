-- ===== src/ControlPlane/QueryReplay/Engine.antt =====
-- The class `ReplayEngine` (control-plane/query_replay.py). A turn of a worker is one step: the workers'
-- turns come in any order. What PostgreSQL answers, the clock and the draws are arguments.
pub mod Reports
pub mod Balance
use pg_stress.Prelude.{
  ℕ, zero, suc, ◌+◌, ◌%◌, String, Bool, true, false, Option, some, none, List, [], ◌∷◌, ◌++◌,
  length, max, leb, ltb, nat_eq, if◌then◌else◌, ◌==◌, ◌&&◌, ◌||◌, not,
}
use pg_stress.Prelude.Action.{Action, pure}
use pg_stress.Prelude.Int.{ℤ, pos, pos_part, max_ℤ, ltb_ℤ, ◌+ℤ◌}
use pg_stress.Prelude.Result.{Result, ok, raise, key_error, index_error}
use pg_stress.Floats.{Floats}
use pg_stress.ControlPlane.QueryReplay.{Query, QueryStore, of_set}

module _ (fl : Floats) where
  -- An entry of `stats`; `query` is the start of its text.
  pub record Stat : Type 0 where
    pub name : String
    pub query : String
    pub executions : ℕ
    pub total_ms : fl.Float
    pub min_ms : fl.Float
    pub max_ms : fl.Float
    pub rows : ℤ
    pub errors : ℕ

  pub record Config : Type 0 where
    pub query_set_id : String
    pub concurrency : ℕ
    pub duration_s : ℕ
    pub test_run_id : String
    pub query_count : ℕ

  -- `weighted` is the list that the workers draw from.
  pub record Engine : Type 0 where
    pub running : Bool
    pub stop_event : Bool
    pub stats : List (ℕ × Stat)
    pub total_executions : ℕ
    pub total_errors : ℕ
    pub start_time : fl.Float
    pub config : Config
    pub weighted : List (Query fl)

  -- What a query does: it returns after some milliseconds with a row count, or raises.
  pub data Outcome : Type 0 where
    returned : fl.Float → ℤ → Outcome
    failed : Outcome

  pub data StartReply : Type 0 where
    already_running : StartReply
    no_queries : String → StartReply
    started : ℕ → ℕ → StartReply

module _ (fl : Floats) where
  unfoldable pub int_float : ℕ → fl.Float
  int_float n = fl.of_int (pos n)

  abbrev pub min_float : fl.Float → fl.Float → fl.Float
  min_float a b = if fl.lt b a then b else a

  abbrev pub max_float : fl.Float → fl.Float → fl.Float
  max_float a b = if fl.lt a b then b else a

module _ {fl : Floats} where
  -- ORDER BY source_calls DESC
  unfoldable pub insert_by_calls : Query fl → List (Query fl) → List (Query fl)
  insert_by_calls q [] = q ∷ []
  insert_by_calls q (r ∷ rs) =
      if ltb_ℤ q.source_calls r.source_calls then r ∷ insert_by_calls q rs else q ∷ r ∷ rs

  unfoldable pub sort_by_calls : List (Query fl) → List (Query fl)
  unfolding insert_by_calls
  sort_by_calls [] = []
  sort_by_calls (q ∷ qs) = insert_by_calls q (sort_by_calls qs)

  unfoldable pub get_queries : String → QueryStore fl → List (Query fl)
  unfolding sort_by_calls
  get_queries set_id st = sort_by_calls (of_set set_id st.queries)

  -- `[q] * n`
  unfoldable pub repeat_query : ℕ → Query fl → List (Query fl)
  repeat_query zero q = []
  repeat_query (suc n) q = q ∷ repeat_query n q

  -- `weighted.extend([q] * max(1, q["weight"]))`
  unfoldable pub weighted_list : List (Query fl) → List (Query fl)
  unfolding repeat_query
  weighted_list [] = []
  weighted_list (q ∷ qs) = repeat_query (pos_part (max_ℤ (pos 1) q.weight)) q ++ weighted_list qs

  unfoldable pub put_stat : ℕ → Stat fl → List (ℕ × Stat fl) → List (ℕ × Stat fl)
  put_stat k s [] = (k, s) ∷ []
  put_stat k s ((j, t) ∷ stats) = if nat_eq j k then (j, s) ∷ stats else (j, t) ∷ put_stat k s stats

  unfoldable pub get_stat : ℕ → List (ℕ × Stat fl) → Option (Stat fl)
  get_stat k [] = none
  get_stat k ((j, t) ∷ stats) = if nat_eq j k then some t else get_stat k stats

  -- The entry of a query before its first run; `prefix` is `query[:100]`.
  unfoldable pub new_stat : (String → String) → Query fl → Stat fl
  unfolding int_float
  new_stat prefix q = record {
    name = q.name;
    query = prefix q.query;
    executions = 0;
    total_ms = int_float fl 0;
    min_ms = int_float fl 999999;
    max_ms = int_float fl 0;
    rows = pos 0;
    errors = 0;
  }

  unfoldable pub new_stats :
      (String → String) → List (Query fl) → List (ℕ × Stat fl) → List (ℕ × Stat fl)
  unfolding new_stat put_stat
  new_stats prefix [] stats = stats
  new_stats prefix (q ∷ qs) stats = new_stats prefix qs (put_stat q.id (new_stat prefix q) stats)

  -- The lines after the guards of `start`.
  unfoldable pub start_queries :
      (String → String) → Config fl → List (Query fl) → fl.Float → Engine fl → Engine fl
  unfolding weighted_list new_stats
  start_queries prefix config queries now e = record e {
    running = true;
    stop_event = false;
    stats = new_stats prefix queries [];
    total_executions = 0;
    total_errors = 0;
    start_time = now;
    config = config;
    weighted = weighted_list queries;
  }

  unfoldable pub start_with :
      (String → String)
      → String
      → ℕ
      → ℕ
      → String
      → List (Query fl)
      → fl.Float
      → Engine fl
      → StartReply fl × Engine fl
  unfolding start_queries
  start_with prefix set_id concurrency duration_s test_run_id [] now e = (no_queries set_id, e)
  start_with prefix set_id concurrency duration_s test_run_id (q ∷ qs) now e =
      let config : Config fl = record {
        query_set_id = set_id;
        concurrency = concurrency;
        duration_s = duration_s;
        test_run_id = test_run_id;
        query_count = length (q ∷ qs);
      } in
      (started (length (q ∷ qs)) concurrency, start_queries prefix config (q ∷ qs) now e)

  unfoldable pub start :
      (String → String)
      → String
      → ℕ
      → ℕ
      → String
      → QueryStore fl
      → fl.Float
      → Engine fl
      → StartReply fl × Engine fl
  unfolding start_with get_queries
  start prefix set_id concurrency duration_s test_run_id st now e =
      if e.running
      then (already_running, e)
      else start_with prefix set_id concurrency duration_s test_run_id (get_queries set_id st) now e

  unfoldable pub count_run : fl.Float → ℤ → Stat fl → Stat fl
  count_run elapsed_ms rows s = record s {
    executions = s.executions + 1;
    total_ms = fl.add s.total_ms elapsed_ms;
    min_ms = min_float fl s.min_ms elapsed_ms;
    max_ms = max_float fl s.max_ms elapsed_ms;
    rows = s.rows +ℤ rows;
  }

  unfoldable pub count_error : Stat fl → Stat fl
  count_error s = record s { errors = s.errors + 1 }

  -- One query of a worker; a query that is not in `stats` ends the worker.
  unfoldable pub record_outcome : ℕ → Outcome fl → Action (Engine fl) (Unit {0})
  unfolding count_run count_error put_stat get_stat
  record_outcome qid outcome e = elim (get_stat qid e.stats) [
    | none ↦ (raise key_error, e)
    | some s ↦ elim outcome [
      | returned elapsed_ms rows ↦ (
        ok tt,
        record e {
          stats = put_stat qid (count_run elapsed_ms rows s) e.stats;
          total_executions = e.total_executions + 1;
        },
      )
      | failed ↦ (
        ok tt,
        record e {
          stats = put_stat qid (count_error s) e.stats;
          total_errors = e.total_errors + 1;
        },
      )
    ]
  ]

  unfoldable pub nth_query : ℕ → List (Query fl) → Option (Query fl)
  nth_query n [] = none
  nth_query zero (q ∷ qs) = some q
  nth_query (suc n) (q ∷ qs) = nth_query n qs

  -- `duration_s > 0 and (time.time() - self.start_time) > duration_s`
  unfoldable pub timed_out : fl.Float → Engine fl → Bool
  unfolding int_float
  timed_out now e =
      ltb 0 e.config.duration_s
      && fl.lt (int_float fl e.config.duration_s) (fl.sub now e.start_time)

  -- A turn of the loop; `random.choice` takes the query at `pick`, and raises on an empty list.
  unfoldable pub worker_turn : fl.Float → ℕ → Outcome fl → Action (Engine fl) (Unit {0})
  unfolding timed_out nth_query record_outcome
  worker_turn now pick outcome e =
      if e.stop_event || timed_out now e then (ok tt, e) else elim (nth_query pick e.weighted) [
        | none ↦ (raise index_error, e)
        | some q ↦ record_outcome q.id outcome e
      ]
