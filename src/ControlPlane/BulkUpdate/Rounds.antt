-- ===== src/ControlPlane/BulkUpdate/Rounds.antt =====
-- When the loop of `_do_bulk_update` ends (control-plane/main.py).
use pg_stress.Prelude.{
  ℕ, zero, suc, ◌+◌, ◌-◌, ◌≤◌, ◌<◌, Bool-cases, inl, inr, String, false, none, ltb, ◌≡◌, refl, min,
  arith,
}
use pg_stress.Prelude.Result.{ok, raise, out_of_fuel}
use pg_stress.ControlPlane.BulkUpdate.{
  BulkBackend, BulkRequest, BulkWorld, bulk_note, bulk_rounds, batch_msg,
}

-- What PostgreSQL does with an UPDATE that leaves its rows matching the WHERE clause: it changes as
-- many of the matching rows as the LIMIT allows, and as many match afterwards.
pub record Rematches {Db : Type 0} (pg : BulkBackend Db) (req : BulkRequest) (where_ : String)
    : Type 0 where
  pub matching : Db → ℕ
  pub rows_updated :
      (db : Db)
      → (db' : Db) × (pg.update req.table req.set_clause where_ req.batch_size db
          ≡ (ok (min (matching db) req.batch_size), db'))
        × (matching db' ≡ matching db)

module _ {Db : Type 0} (pg : BulkBackend Db) (job_id where_ : String) (req : BulkRequest)
    (law : Rematches pg req where_) where
  -- If updated rows still match, and as many match as one batch holds, the loop uses up any fuel.
  pub bulk_rounds_endless :
      (fuel total batch_num : ℕ) (w : BulkWorld pg)
      → req.batch_size ≤ law.matching w.db
      → (bulk_rounds pg fuel job_id req where_ total batch_num w).0 ≡ raise out_of_fuel
  unfolding bulk_rounds bulk_note
  bulk_rounds_endless zero total batch_num w h = refl
  bulk_rounds_endless (suc fuel) total batch_num w h =
      let (db', ran, same) = law.rows_updated w.db in
      let full : ltb (min (law.matching w.db) req.batch_size) req.batch_size ≡ false =
        ground arith in
      rw (ran, full)
        (bulk_rounds_endless fuel (total + min (law.matching w.db) req.batch_size) (batch_num + 1)
          (bulk_note pg job_id none
            (batch_msg req (total + min (law.matching w.db) req.batch_size) (batch_num + 1))
            (record w { db = db' })).1
          (omega arith))

-- What PostgreSQL does with an UPDATE after which its rows no longer match the WHERE clause: it changes
-- as many of the matching rows as the LIMIT allows, and those no longer match.
pub record Unmatches {Db : Type 0} (pg : BulkBackend Db) (req : BulkRequest) (where_ : String)
    : Type 0 where
  pub matching : Db → ℕ
  pub rows_updated :
      (db : Db)
      → (db' : Db) × (pg.update req.table req.set_clause where_ req.batch_size db
          ≡ (ok (min (matching db) req.batch_size), db'))
        × (matching db' ≡ matching db - min (matching db) req.batch_size)

module _ {Db : Type 0} (pg : BulkBackend Db) (job_id where_ : String) (req : BulkRequest)
    (law : Unmatches pg req where_) where
  -- With a positive batch size and more fuel than rows match, if every UPDATE returns, changes as many
  -- of the matching rows as a batch holds, and leaves these not matching, the loop returns, no row
  -- matches any more, and each row that matched is counted once.
  pub bulk_rounds_exact :
      (fuel total batch_num : ℕ) (w : BulkWorld pg)
      → 0 < req.batch_size
      → law.matching w.db < fuel
      → (w' : BulkWorld pg) × (bulk_rounds pg fuel job_id req where_ total batch_num w
          ≡ (ok (total + law.matching w.db), w'))
        × (law.matching w'.db ≡ 0)
  unfolding bulk_rounds bulk_note
  bulk_rounds_exact zero total batch_num w positive h = absurd (omega arith)
  bulk_rounds_exact (suc fuel) total batch_num w positive h =
      let (db', ran, left) = law.rows_updated w.db in
      let n = min (law.matching w.db) req.batch_size in
      let next =
        (bulk_note pg job_id none (batch_msg req (total + n) (batch_num + 1))
          (record w { db = db' })).1 in
      elim (Bool-cases (ltb n req.batch_size)) [
        | inl short ↦
            let t : total + n ≡ total + law.matching w.db = ground arith in
            (next, rw (ran, short, ← t) refl, ground arith)
        | inr full ↦
            let (w', run, done) =
              bulk_rounds_exact fuel (total + n) (batch_num + 1) next positive (ground arith) in
            let t : total + n + law.matching db' ≡ total + law.matching w.db = ground arith in
            (w', rw (ran, full, ← t) run, done)
      ]
