-- ===== src/ControlPlane/Inject.antt =====
-- The inject job of the control plane (control-plane/main.py: `_do_inject`, `inject_rows`). Each call
-- of the database is an operation of `Backend`; the number of rows is a natural number, since a negative
-- request enters no round of the loop, like zero.
pub mod Template
pub mod Rounds
use pg_stress.Prelude.{
  ℕ, zero, suc, ◌+◌, ◌-◌, ◌*◌, ◌/◌, ◌≤◌, String, Bool, true, false, Option, some, none, List, [],
  ◌∷◌, ltb, nat_eq, if◌then◌else◌, ◌==◌, min,
}
use pg_stress.Prelude.Action.{Action, pure, fail, recover_from, ◌>>=◌, ◌>>◌}
use pg_stress.Prelude.Decimal.{decimal, grouped}
use pg_stress.Prelude.Dict.{Dict, get, put}
use pg_stress.Prelude.Int.{ℤ, pos, negsuc}
use pg_stress.Prelude.Result.{Result, Error, ok, raise, key_error, out_of_fuel}
use pg_stress.Prelude.Text.{concat, join}
use pg_stress.ControlPlane.Jobs.{Job, new_job, update_job, complete_job}
use pg_stress.ControlPlane.Inject.Template.{UniqueRow, ColumnRow, template_of}

-- `{"rows": ..., "size": ...}`
pub record TableSnapshot : Type 0 where
  -- an estimate, and -1 for a table that was never analyzed
  pub rows : ℤ
  pub size : String

pub record InjectResult : Type 0 where
  pub table : String
  pub rows_inserted : ℕ
  pub after : TableSnapshot

pub record InjectRequest : Type 0 where
  pub table : String
  pub rows : ℕ
  pub template : Option String

abbrev pub Jobs : Type 0
Jobs = Dict (Job TableSnapshot InjectResult)

-- PostgreSQL behind `query` and `execute`, on a state of its own.
pub record Backend (Db : Type 0) : Type 0 where
  pub clock : Db → ℕ
  -- `int(a / b * 100)`, in floats, for `b` other than zero
  pub percent : ℤ → ℤ → ℤ
  -- `str(e)`
  pub text_of : Error → String
  -- the row estimate of a table, and the text of its size; no row for an unknown table
  pub estimate : String → Action Db (Option ℤ)
  pub size_of : String → Action Db (Option String)
  pub serial_columns : String → Action Db (List String)
  pub unique_columns : String → Action Db (List UniqueRow)
  pub all_columns : String → Action Db (List ColumnRow)
  -- the INSERT of the template at this batch size; the row count, which PostgreSQL gives for an INSERT
  pub insert : String → ℕ → Action Db ℕ
  pub analyze : String → Action Db (Unit {0})

-- The variables of the loop.
pub record Progress : Type 0 where
  pub remaining : ℕ
  pub total_inserted : ℕ
  pub skipped : ℕ

-- One round, on the row count of its INSERT.
unfoldable pub advance : ℕ → ℕ → Progress → Progress
advance batch actual p = record {
  remaining = p.remaining - batch;
  total_inserted = p.total_inserted + (if nat_eq actual 0 then batch else actual);
  skipped = p.skipped + (if ltb actual batch then batch - actual else 0);
}

-- `f" (skipped {skipped:,} conflicts)" if skipped else ""`
unfoldable pub skip_msg : ℕ → String
skip_msg skipped =
    if nat_eq skipped 0 then "" else concat " (skipped " (concat (grouped skipped) " conflicts)")

unfoldable pub round_msg : InjectRequest → Progress → String
unfolding skip_msg
round_msg req p = join "" (
    "Injected "
    ∷ grouped p.total_inserted
    ∷ " / "
    ∷ grouped req.rows
    ∷ " into "
    ∷ req.table
    ∷ skip_msg p.skipped
    ∷ [])

-- `f"{n:,}"`
unfoldable pub grouped_int : ℤ → String
grouped_int (pos n) = grouped n
grouped_int (negsuc n) = concat "-" (grouped (suc n))

unfoldable pub or_zero : Option ℤ → ℤ
or_zero none = pos 0
or_zero (some n) = n

unfoldable pub or_unknown : Option String → String
or_unknown none = "?"
or_unknown (some s) = s

module _ {Db : Type 0} (pg : Backend Db) where
  -- The database, and the global `jobs`.
  pub record World : Type 0 where
    pub db : Db
    pub jobs : Jobs

  abbrev in_db : {A : Type 0} → Result A × Db → Jobs → Result A × World
  in_db (r, db) jobs = (r, record { db = db; jobs = jobs })

  abbrev pub database : {A : Type 0} → Action Db A → Action World A
  database m w = in_db (m w.db) w.jobs

  unfoldable pub note : String → Option ℤ → String → Action World (Unit {0})
  note job_id progress msg w =
      (ok tt, record w { jobs = update_job job_id progress (some msg) (pg.clock w.db) w.jobs })

  -- `jobs[job_id]["before"] = snapshot`
  unfoldable pub set_before : String → TableSnapshot → Action World (Unit {0})
  set_before job_id snapshot w = elim (get job_id w.jobs) [
    | none ↦ (raise key_error, w)
    | some j ↦ (ok tt, record w { jobs = put job_id (record j { before = some snapshot }) w.jobs })
  ]

  -- `complete_job(job_id, result)`
  unfoldable pub finish : String → InjectResult → Action World (Unit {0})
  finish job_id r w = (
    ok tt,
    record w {
      jobs = complete_job (λ x. some x.after) job_id (some r) none (pg.clock w.db) w.jobs;
    },
  )

  -- `while remaining > 0:`
  unfoldable pub inject_rounds :
      ℕ → String → InjectRequest → String → ℕ → Progress → Action World Progress
  unfolding advance
  inject_rounds zero job_id req template batch_size p = fail out_of_fuel
  inject_rounds (suc fuel) job_id req template batch_size p = elim (nat_eq p.remaining 0) [
    | true ↦ pure p
    | false ↦
        let batch = min p.remaining batch_size in
        database (pg.insert template batch) >>= λ actual.
        let p' = advance batch actual p in
        note job_id (some (pg.percent (pos (req.rows - p'.remaining)) (pos req.rows)))
          (round_msg req p')
        >> inject_rounds fuel job_id req template batch_size p'
  ]

  unfoldable pub snapshot_of : String → Action World TableSnapshot
  snapshot_of table = database (pg.estimate table) >>= λ rows.
      database (pg.size_of table) >>= λ size.
      pure (record { rows = or_zero rows; size = or_unknown size })

  unfoldable pub catalog_template : InjectRequest → Action World String
  catalog_template req = database (pg.serial_columns req.table) >>= λ serial.
      database (pg.unique_columns req.table) >>= λ unique.
      database (pg.all_columns req.table) >>= λ columns.
      pure (template_of req.table serial unique columns)

  -- `if req.template:`, or the template that the catalog gives
  unfoldable pub choose_template : InjectRequest → Option String → Action World String
  unfolding catalog_template
  choose_template req none = catalog_template req
  choose_template req (some t) = if t == "" then catalog_template req else pure t

  -- The `try` block.
  unfoldable pub inject_body : String → InjectRequest → Action World (Unit {0})
  unfolding snapshot_of choose_template grouped_int
  inject_body job_id req = snapshot_of req.table >>= λ before.
      set_before job_id before
      >> note job_id (some (pos 0)) (
          join ""
            ("Starting inject into " ∷ req.table ∷ " (" ∷ grouped_int before.rows ∷ " rows)" ∷ []))
      >> choose_template req req.template
      >>= λ template.
          inject_rounds (suc req.rows) job_id req template (min req.rows 500000)
            (record { remaining = req.rows; total_inserted = 0; skipped = 0 })
          >>= λ p.
              note job_id (some (pos 95)) (join "" ("Running ANALYZE on " ∷ req.table ∷ "..." ∷ []))
              >> database (pg.analyze req.table)
              >> snapshot_of req.table
              >>= λ after.
                  finish job_id
                    (record { table = req.table; rows_inserted = p.total_inserted; after = after })

  -- `except Exception as e: complete_job(job_id, error=str(e))`
  unfoldable pub inject_failed : String → Error → World → World
  inject_failed job_id e w = record w {
    jobs =
        complete_job (λ r. some r.after) job_id none (some (pg.text_of e)) (pg.clock w.db) w.jobs;
  }

  unfoldable pub do_inject : String → InjectRequest → World → World
  unfolding inject_body inject_failed
  do_inject job_id req w = recover_from (inject_failed job_id) (inject_body job_id req w)

  -- The handler of POST /inject, and the background task that it adds. The id is drawn by the caller.
  unfoldable pub inject_rows : String → InjectRequest → World → World
  unfolding do_inject
  inject_rows job_id req w =
      do_inject job_id req (record w { jobs = new_job job_id "inject" none (pg.clock w.db) w.jobs })
