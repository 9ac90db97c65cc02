-- ===== src/ControlPlane/BulkUpdate.antt =====
-- The bulk update job of the control plane (control-plane/main.py: `_do_bulk_update`, `bulk_update`).
-- The `while True` loop has no bound of its own: it takes fuel, and the fuel is the caller's.
pub mod Rounds
use pg_stress.Prelude.{
  ℕ, zero, suc, ◌+◌, String, true, false, Option, some, none, [], ◌∷◌, ltb, ◌==◌, if◌then◌else◌,
}
use pg_stress.Prelude.Action.{Action, pure, fail, recover_from, ◌>>=◌, ◌>>◌}
use pg_stress.Prelude.Decimal.{decimal, grouped}
use pg_stress.Prelude.Int.{ℤ, pos}
use pg_stress.Prelude.Dict.{Dict, get, put}
use pg_stress.Prelude.Result.{Result, Error, ok, raise, key_error, out_of_fuel}
use pg_stress.Prelude.Text.{join}
use pg_stress.ControlPlane.Jobs.{Job, new_job, update_job, complete_job}

-- `{"rows": ..., "dead": ...}`
pub record LiveDead : Type 0 where
  pub rows : ℕ
  pub dead : ℕ

pub record BulkResult : Type 0 where
  pub table : String
  pub rows_updated : ℕ
  pub after : LiveDead

pub record BulkRequest : Type 0 where
  pub table : String
  pub set_clause : String
  pub where_clause : Option String
  pub batch_size : ℕ

pub record BulkBackend (Db : Type 0) : Type 0 where
  pub clock : Db → ℕ
  pub text_of : Error → String
  pub live_dead : String → Action Db (Option LiveDead)
  -- UPDATE … WHERE ctid IN (SELECT ctid FROM table `where` LIMIT batch); the row count
  pub update : String → String → String → ℕ → Action Db ℕ
  pub analyze : String → Action Db (Unit {0})

unfoldable pub or_zeros : Option LiveDead → LiveDead
or_zeros none = record { rows = 0; dead = 0 }
or_zeros (some s) = s

-- `f"WHERE {req.where_clause}" if req.where_clause else ""`
unfoldable pub where_text : Option String → String
where_text none = ""
where_text (some c) = if c == "" then "" else join "" ("WHERE " ∷ c ∷ [])

unfoldable pub batch_msg : BulkRequest → ℕ → ℕ → String
batch_msg req total batch_num = join "" (
    "Updated "
    ∷ grouped total
    ∷ " rows in "
    ∷ req.table
    ∷ " (batch "
    ∷ decimal batch_num
    ∷ ")"
    ∷ [])

module _ {Db : Type 0} (pg : BulkBackend Db) where
  pub record BulkWorld : Type 0 where
    pub db : Db
    pub jobs : Dict (Job LiveDead BulkResult)

  abbrev in_db :
      {A : Type 0} → Result A × Db → Dict (Job LiveDead BulkResult) → Result A × BulkWorld
  in_db (r, db) jobs = (r, record { db = db; jobs = jobs })

  abbrev pub bulk_database : {A : Type 0} → Action Db A → Action BulkWorld A
  bulk_database m w = in_db (m w.db) w.jobs

  unfoldable pub bulk_note : String → Option ℤ → String → Action BulkWorld (Unit {0})
  bulk_note job_id progress msg w =
      (ok tt, record w { jobs = update_job job_id progress (some msg) (pg.clock w.db) w.jobs })

  unfoldable pub bulk_before : String → LiveDead → Action BulkWorld (Unit {0})
  bulk_before job_id snapshot w = elim (get job_id w.jobs) [
    | none ↦ (raise key_error, w)
    | some j ↦ (ok tt, record w { jobs = put job_id (record j { before = some snapshot }) w.jobs })
  ]

  -- `while True:`, over `total_updated` and `batch_num`
  unfoldable pub bulk_rounds : ℕ → String → BulkRequest → String → ℕ → ℕ → Action BulkWorld ℕ
  bulk_rounds zero job_id req where_ total batch_num = fail out_of_fuel
  bulk_rounds (suc fuel) job_id req where_ total batch_num =
      bulk_database (pg.update req.table req.set_clause where_ req.batch_size) >>= λ rows.
      bulk_note job_id none (batch_msg req (total + rows) (batch_num + 1))
      >> (let more = bulk_rounds fuel job_id req where_ (total + rows) (batch_num + 1) in
          if ltb rows req.batch_size then pure (total + rows) else more)

  unfoldable pub bulk_finish : String → BulkResult → Action BulkWorld (Unit {0})
  bulk_finish job_id r w = (
    ok tt,
    record w {
      jobs = complete_job (λ x. some x.after) job_id (some r) none (pg.clock w.db) w.jobs;
    },
  )

  unfoldable pub bulk_body : ℕ → String → BulkRequest → Action BulkWorld (Unit {0})
  unfolding bulk_rounds
  bulk_body fuel job_id req = bulk_database (pg.live_dead req.table) >>= λ before.
      bulk_before job_id (or_zeros before)
      >> bulk_note job_id (some (pos 0)) (join "" ("Starting bulk update on " ∷ req.table ∷ []))
      >> bulk_rounds fuel job_id req (where_text req.where_clause) 0 0
      >>= λ total.
          bulk_note job_id (some (pos 95))
            (join "" ("Running ANALYZE on " ∷ req.table ∷ "..." ∷ []))
          >> bulk_database (pg.analyze req.table)
          >> bulk_database (pg.live_dead req.table)
          >>= λ after.
              bulk_finish job_id
                (record { table = req.table; rows_updated = total; after = or_zeros after })

  unfoldable pub bulk_failed : String → Error → BulkWorld → BulkWorld
  bulk_failed job_id e w = record w {
    jobs =
        complete_job (λ r. some r.after) job_id none (some (pg.text_of e)) (pg.clock w.db) w.jobs;
  }

  unfoldable pub do_bulk_update : ℕ → String → BulkRequest → BulkWorld → BulkWorld
  unfolding bulk_body bulk_failed
  do_bulk_update fuel job_id req w = recover_from (bulk_failed job_id) (bulk_body fuel job_id req w)

  unfoldable pub bulk_update : ℕ → String → BulkRequest → BulkWorld → BulkWorld
  unfolding do_bulk_update
  bulk_update fuel job_id req w =
      do_bulk_update fuel job_id req
        (record w { jobs = new_job job_id "bulk_update" none (pg.clock w.db) w.jobs })
