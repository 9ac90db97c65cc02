-- ===== src/ControlPlane/Tests.antt =====
-- Runs of the control plane on small inputs (control-plane/main.py, control-plane/query_replay.py).
use pg_stress.Prelude.{
  ℕ, ◌+◌, ◌-◌, ◌*◌, ◌/◌, map, false, some, none, List, [], ◌∷◌, ◌≡◌, ◌<◌, refl, min, arith,
}
use pg_stress.Prelude.Dict.{Dict, get}
use pg_stress.Prelude.Int.{pos, pos_part}
use pg_stress.Prelude.Result.{ok, raise, out_of_fuel}
use pg_stress.Samples.Fixed.{hundredths}
use pg_stress.ControlPlane.Jobs.{Job, running, completed, failed, complete_job}
use pg_stress.ControlPlane.Jobs.Lifecycle.{
  Call, create, update, complete, calls, AllSound, calls-AllSound, complete_job_on_error,
}
use pg_stress.ControlPlane.Inject.{
  Backend, InjectRequest, Progress, World, TableSnapshot, InjectResult,
}
use pg_stress.ControlPlane.Inject.Rounds.{
  Inserts, Ends, inject_rounds_exact, inject_rounds_conflicts,
}
use pg_stress.ControlPlane.BulkUpdate.{BulkBackend, BulkRequest, BulkWorld, bulk_rounds}
use pg_stress.ControlPlane.BulkUpdate.Rounds.{Rematches, bulk_rounds_endless, bulk_rounds_exact}
use pg_stress.ControlPlane.QueryReplay.{
  Texts, QueryStore, ManualRow, given, absent, refused, open_set,
}
use pg_stress.ControlPlane.QueryReplay.Importing.{import_sql_text, import_row}
use pg_stress.ControlPlane.QueryReplay.Engine.{Engine, returned, failed}
use pg_stress.ControlPlane.QueryReplay.Engine.Balance.{Balances, calls-Balances}
use pg_stress.ControlPlane.QueryReplay.Imports.{
  Counted, OthersCounted, call-Counted, call-OthersCounted,
}
use pg_stress.ControlPlane.QueryReplay.Engine.Balance
use pg_stress.ControlPlane.QueryReplay.Growth.{size_in}
use pg_stress.ControlPlane.QueryReplay.Imports

abbrev two_calls : List (Call TableSnapshot InjectResult)
two_calls =
    create "a1" "inject" none 5
    ∷ update "a1" (some (pos 250)) (some "Injected") 6
    ∷ complete (λ r. some r.after) "a1" none (some "disk full") 7
    ∷ []

calls-AllSound_example : AllSound (calls two_calls [])
calls-AllSound_example = calls-AllSound two_calls

abbrev started_job : Job TableSnapshot InjectResult
started_job = record {
  id = "a1";
  type = "inject";
  status = running;
  started_at = 5;
  completed_at = none;
  elapsed_s = 0;
  progress = pos 40;
  progress_msg = "Starting...";
  before = none;
  after = none;
  result = none;
  error = none;
}

abbrev tracked : Dict (Job TableSnapshot InjectResult)
tracked = ("a1", started_job) ∷ []

complete_job_on_error_example :
    (j' : Job TableSnapshot InjectResult) × (get "a1"
        (complete_job (λ r. some r.after) "a1" none (some "") 9 tracked)
      ≡ some j')
    × (j'.status ≡ completed)
    × (j'.progress ≡ pos 100)
    × (j'.before ≡ none)
    × (j'.started_at ≡ 5)
unfolding get
complete_job_on_error_example =
    complete_job_on_error (λ r. some r.after) "a1" "" 9 tracked started_job refl

-- A database that counts the rows of one table; every INSERT takes the whole batch.
abbrev counting : Backend ℕ
counting = record {
  clock = λ db. 0;
  text_of = λ e. "error";
  percent = λ a b. pos (pos_part a * 100 / pos_part b);
  estimate = λ t db. (ok (some (pos db)), db);
  size_of = λ t db. (ok (some "8 kB"), db);
  serial_columns = λ t db. (ok [], db);
  unique_columns = λ t db. (ok [], db);
  all_columns = λ t db. (ok [], db);
  insert = λ t batch db. (ok batch, db + batch);
  analyze = λ t db. (ok tt, db);
}

-- The same, and no INSERT takes a row.
abbrev refusing : Backend ℕ
refusing = record counting { insert = λ t batch db. (ok 0, db) }

abbrev request : InjectRequest
request = record { table = "orders"; rows = 25; template = none }

abbrev first_round : Progress
first_round = record { remaining = 25; total_inserted = 0; skipped = 0 }

abbrev before_rounds : World counting
before_rounds = record { db = 100; jobs = [] }

abbrev before_refusal : World refusing
before_refusal = record { db = 100; jobs = [] }

takes_all : Inserts counting (λ batch n. 0 < n)
takes_all = record { inserted = λ t batch db h. (batch, db + batch, refl, omega arith, h) }

takes_none : Inserts refusing (λ batch n. n ≡ 0)
takes_none = record { inserted = λ t batch db h. (0, db, refl, omega arith, refl) }

inject_rounds_exact_example :
    Ends counting "a1" "INSERT" request 10
      (omega arith)
      26
      first_round
      before_rounds
      (λ p'. p'.total_inserted + p'.skipped ≡ 25)
inject_rounds_exact_example =
    inject_rounds_exact counting "a1" "INSERT" request 10 (omega arith) takes_all 26 first_round
      before_rounds (omega arith)

inject_rounds_conflicts_example :
    Ends refusing "a1" "INSERT" request 10
      (omega arith)
      26
      first_round
      before_refusal
      (λ p'. (p'.total_inserted ≡ 25) × (p'.skipped ≡ 25))
inject_rounds_conflicts_example =
    inject_rounds_conflicts refusing "a1" "INSERT" request 10 (omega arith) takes_none 26
      first_round before_refusal (omega arith)

-- A table of `db` rows that all match, whatever is set.
abbrev matching_all : BulkBackend ℕ
matching_all = record {
  clock = λ db. 0;
  text_of = λ e. "error";
  live_dead = λ t db. (ok none, db);
  update = λ t set_clause where_ batch db. (ok (min db batch), db);
  analyze = λ t db. (ok tt, db);
}

abbrev bulk_request : BulkRequest
bulk_request = record {
  table = "orders";
  set_clause = "status = 'x'";
  where_clause = none;
  batch_size = 10;
}

rematches : Rematches matching_all bulk_request ""
rematches = record { matching = λ db. db; rows_updated = λ db. (db, refl, refl) }

abbrev bulk_start : ℕ → BulkWorld matching_all
bulk_start rows = record { db = rows; jobs = [] }

bulk_rounds_endless_example :
    (bulk_rounds matching_all 1000 "a1" bulk_request "" 0 0 (bulk_start 10)).0 ≡ raise out_of_fuel
bulk_rounds_endless_example =
    bulk_rounds_endless matching_all "a1" "" bulk_request
      (record { matching = λ db. db; rows_updated = λ db. (db, refl, refl) }) 1000 0 0
      (bulk_start 10) (omega arith)

-- A table in which the UPDATE leaves its rows not matching; `db` counts those that match.
abbrev matching_once : BulkBackend ℕ
matching_once = record matching_all {
  update = λ t set_clause where_ batch db. (ok (min db batch), db - min db batch);
}

abbrev once_start : BulkWorld matching_once
once_start = record { db = 27; jobs = [] }

bulk_rounds_exact_example :
    (w' : BulkWorld matching_once) × (bulk_rounds matching_once 28 "a1" bulk_request "" 0 0
        once_start
      ≡ (ok 27, w'))
    × (w'.db ≡ 0)
bulk_rounds_exact_example =
    bulk_rounds_exact matching_once "a1" "" bulk_request
      (record { matching = λ db. db; rows_updated = λ db. (db - min db 10, refl, refl) }) 28 0 0
      once_start (omega arith) (omega arith)

-- Texts that are taken as they are.
abbrev plain : Texts
plain = record {
  strip = λ s. s;
  upper = λ s. s;
  startswith = λ s p. false;
  null_parameters = λ s. s;
  statements = λ s. s ∷ [];
  lines = λ s. s ∷ [];
}

abbrev no_queries_yet : QueryStore hundredths
no_queries_yet = record { query_sets = []; queries = []; next_id = 1 }

abbrev two_rows : List ManualRow
two_rows =
    record { query = given "SELECT 1"; name = absent; weight = given (pos 3) }
    ∷ record { query = absent; name = absent; weight = absent }
    ∷ []

abbrev filled : QueryStore hundredths
filled = (Imports.call hundredths plain (Imports.manual "s1" "smoke" two_rows) no_queries_yet).1

call-Counted_example : Counted hundredths plain filled
unfolding Imports.call import_sql_text open_set import_row
call-Counted_example =
    call-Counted hundredths plain (Imports.manual "s1" "smoke" two_rows) no_queries_yet refl tt 1
      refl

-- The second query is null.
abbrev null_row : List ManualRow
null_row =
    record { query = given "SELECT 2"; name = absent; weight = absent }
    ∷ record { query = refused; name = absent; weight = absent }
    ∷ []

abbrev half_filled : QueryStore hundredths
half_filled = (Imports.call hundredths plain (Imports.manual "s2" "half" null_row) filled).1

call-OthersCounted_example : OthersCounted hundredths plain "s2" half_filled
call-OthersCounted_example =
    call-OthersCounted hundredths plain (Imports.manual "s2" "half" null_row) filled
      call-Counted_example

-- The set of the import that raised stores no queries, and has one.
half_filled_sets :
    (map (λ s. s.query_count) half_filled.query_sets ≡ 1 ∷ 0 ∷ [])
    × (size_in "s2" half_filled.queries ≡ 1)
unfolding Imports.call import_sql_text open_set import_row
half_filled_sets = (refl, refl)

abbrev idle : Engine hundredths
idle = record {
  running = false;
  stop_event = false;
  stats = [];
  total_executions = 0;
  total_errors = 0;
  start_time = 0;
  config = record {
    query_set_id = "";
    concurrency = 0;
    duration_s = 0;
    test_run_id = "";
    query_count = 0;
  };
  weighted = [];
}

abbrev a_replay : List (Balance.Call hundredths)
a_replay =
    Balance.begin "s1" 2 0 "run" 0
    ∷ Balance.turn 5 0 (returned 3 (pos 1))
    ∷ Balance.turn 6 1 failed
    ∷ Balance.finish 9
    ∷ []

calls-Balances_example : Balances (Balance.calls (λ s. s) filled a_replay idle)
calls-Balances_example =
    calls-Balances (λ s. s) filled a_replay idle (record { executions = refl; errors = refl })
