-- ===== src/ControlPlane/QueryReplay/Importing.antt =====
-- The three imports of queries (control-plane/query_replay.py). An import that raises leaves what it has
-- done so far: the transaction of the shared connection stays open.
use pg_stress.Prelude.{ℕ, ◌+◌, String, Bool, true, false, List, [], ◌∷◌, keep_if, ◌==◌, ◌||◌, not}
use pg_stress.Prelude.Action.{Action, pure, ◌>>=◌, ◌>>◌}
use pg_stress.Prelude.Decimal.{decimal}
use pg_stress.Prelude.Int.{ℤ, pos, max_ℤ, ◌+ℤ◌}
use pg_stress.Prelude.Result
use pg_stress.Prelude.Result.{Result, Error, ok, raise, type_error, attribute_error, database_error}
use pg_stress.Prelude.Text.{concat, join}
use pg_stress.Floats.{Floats}
use pg_stress.ControlPlane.QueryReplay.{
  Texts, StatementRow, QueryStore, ManualRow, SqlFile, Field, absent, given, refused, open_set,
  insert_counted, close_set,
}

-- `row.get(key, default)`, and the exception of its use
unfoldable pub or_field {ℓ} : {A : Type ℓ} → A → Field A → Error → Result A
or_field d absent e = ok d
or_field d (given x) e = ok x
or_field d refused e = raise e

-- `f"query_{count + 1}"`
abbrev pub numbered : ℕ → String
numbered count = concat "query_" (decimal (count + 1))

unfoldable pub starts_any : Texts → List String → String → Bool
starts_any py [] s = false
starts_any py (kw ∷ kws) s = py.startswith s kw || starts_any py kws s

-- A statement that the import leaves out.
unfoldable pub is_utility : Texts → String → Bool
unfolding starts_any
is_utility py q =
    q == ""
    || (py.startswith q "--"
        || starts_any py
            ("SET " ∷ "RESET " ∷ "BEGIN" ∷ "COMMIT" ∷ "ROLLBACK" ∷ "COPY " ∷ "VACUUM" ∷ "ANALYZE"
              ∷ [])
            (py.upper q))

module _ (fl : Floats) (py : Texts) where
  -- `continue`, where the row is left out
  abbrev pub unless_skipped : Bool → ℕ → Action (QueryStore fl) ℕ → Action (QueryStore fl) ℕ
  unless_skipped true count m = pure count
  unless_skipped false count m = m

  abbrev pub lift {ℓ} : {A : Type ℓ} → Result A → Action (QueryStore fl) A
  lift r st = (r, st)

  -- `sum(r.get("calls", 1) for r in data)`
  unfoldable pub total_calls : List (StatementRow fl) → Result ℤ
  unfolding or_field
  total_calls [] = ok (pos 0)
  total_calls (r ∷ data_) =
      Result.◌>>=◌ (or_field (pos 1) r.calls type_error)
        (λ c. Result.◌>>=◌ (total_calls data_) (λ t. ok (c +ℤ t)))

  -- `max(1, int(calls / max(1, total) * 100))`
  unfoldable pub statement_weight : ℤ → ℤ → ℤ
  statement_weight total calls = max_ℤ (pos 1) (
      fl.trunc
        (fl.mul (fl.div (fl.of_int calls) (fl.of_int (max_ℤ (pos 1) total))) (fl.of_int (pos 100))))

  -- `row.get("mean_exec_time", row.get("mean_time", 0))`
  unfoldable pub mean_field : Field fl.Float → Field fl.Float → Field fl.Float
  mean_field absent mean_time = mean_time
  mean_field (given x) mean_time = given x
  mean_field refused mean_time = refused

  -- The INSERT of a statement: its arguments are computed, and then bound.
  unfoldable pub insert_statement :
      String → Result ℤ → StatementRow fl → String → ℕ → Action (QueryStore fl) ℕ
  unfolding or_field statement_weight mean_field insert_counted
  insert_statement set_id total row q count =
      lift (or_field (pos 1) row.calls type_error) >>= λ calls. lift total >>= λ sum_of_calls.
      lift (or_field (pos 0) row.calls database_error) >>= λ stored.
      lift (or_field (numbered count) row.name database_error) >>= λ name.
      lift
        (or_field (fl.of_int (pos 0)) (mean_field row.mean_exec_time row.mean_time) database_error)
      >>= λ mean. lift (or_field (pos 0) row.rows database_error) >>= λ rows.
          insert_counted fl py set_id (py.null_parameters q) name stored mean rows
            (statement_weight sum_of_calls calls) count

  unfoldable pub import_statement :
      String → Result ℤ → StatementRow fl → ℕ → Action (QueryStore fl) ℕ
  unfolding is_utility insert_statement or_field
  import_statement set_id total row count = lift (or_field "" row.query attribute_error) >>= λ text.
      unless_skipped (is_utility py (py.strip text)) count
        (insert_statement set_id total row (py.strip text) count)

  unfoldable pub import_statements :
      String → Result ℤ → List (StatementRow fl) → ℕ → Action (QueryStore fl) ℕ
  unfolding import_statement
  import_statements set_id total [] count = pure count
  import_statements set_id total (row ∷ rows) count =
      import_statement set_id total row count >>= λ count'.
      import_statements set_id total rows count'

  unfoldable pub import_pg_stat_statements :
      String → String → String → List (StatementRow fl) → Action (QueryStore fl) ℕ
  unfolding open_set import_statements close_set total_calls
  import_pg_stat_statements set_id now name data_ =
      open_set fl py set_id name "pg_stat_statements" now
      >> import_statements set_id (total_calls data_) data_ 0
      >>= close_set fl py set_id

  -- A statement of a file without its comment lines.
  unfoldable pub uncommented : String → String
  unfolding join
  uncommented stmt =
      py.strip (
        join "\n" (keep_if (λ l. not (py.startswith (py.strip l) "--")) (py.lines (py.strip stmt))))

  unfoldable pub import_file_statements :
      String → String → List String → ℕ → Action (QueryStore fl) ℕ
  unfolding uncommented insert_counted
  import_file_statements set_id stem [] count = pure count
  import_file_statements set_id stem (s ∷ ss) count =
      unless_skipped (uncommented s == "") count (
        insert_counted fl py set_id (uncommented s) stem (pos 0) (fl.of_int (pos 0)) (pos 0) (pos 1)
          count)
      >>= λ count'. import_file_statements set_id stem ss count'

  unfoldable pub import_files : String → List SqlFile → ℕ → Action (QueryStore fl) ℕ
  unfolding import_file_statements
  import_files set_id [] count = pure count
  import_files set_id (f ∷ fs) count = lift f.content >>= λ content.
      import_file_statements set_id f.stem (py.statements (py.strip content)) count >>= λ count'.
      import_files set_id fs count'

  unfoldable pub import_sql_files :
      String → String → String → String → List SqlFile → Action (QueryStore fl) ℕ
  unfolding open_set import_files close_set
  import_sql_files set_id now name sql_dir files =
      open_set fl py set_id name (concat "sql_files:" sql_dir) now
      >> import_files set_id files 0
      >>= close_set fl py set_id

  unfoldable pub insert_manual : String → ManualRow → String → ℕ → Action (QueryStore fl) ℕ
  unfolding or_field insert_counted
  insert_manual set_id q text count =
      lift (or_field (numbered count) q.name database_error) >>= λ name.
      lift (or_field (pos 1) q.weight database_error) >>= λ weight.
      insert_counted fl py set_id text name (pos 0) (fl.of_int (pos 0)) (pos 0) weight count

  unfoldable pub import_row : String → ManualRow → ℕ → Action (QueryStore fl) ℕ
  unfolding or_field insert_manual
  import_row set_id q count = lift (or_field "" q.query attribute_error) >>= λ text.
      unless_skipped (py.strip text == "") count (insert_manual set_id q (py.strip text) count)

  unfoldable pub import_rows : String → List ManualRow → ℕ → Action (QueryStore fl) ℕ
  unfolding import_row
  import_rows set_id [] count = pure count
  import_rows set_id (q ∷ qs) count =
      import_row set_id q count >>= λ count'. import_rows set_id qs count'

  unfoldable pub import_sql_text :
      String → String → String → List ManualRow → Action (QueryStore fl) ℕ
  unfolding open_set import_rows close_set
  import_sql_text set_id now name rows =
      open_set fl py set_id name "manual" now
      >> import_rows set_id rows 0
      >>= close_set fl py set_id
