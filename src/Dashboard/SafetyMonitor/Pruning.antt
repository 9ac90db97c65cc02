-- ===== src/Dashboard/SafetyMonitor/Pruning.antt =====
-- What a pruning deletes (dashboard/app/safety_monitor.py).
use pg_stress.Prelude.{
  ℕ, zero, suc, ◌+◌, ◌-◌, ◌<◌, String, ◌≡◌, refl, min, nat_eq, arith, Bool-cases, inl, inr,
}
use pg_stress.Prelude.Result.{ok}
use pg_stress.Dashboard.SafetyMonitor.{SafetyEvent, Postgres, Watched, prune_rounds}

-- A DELETE with a LIMIT returns, deletes as many rows as the table has, up to the limit, and says so.
pub record Deletes {Db : Type 0} (pg : Postgres Db) (table : String) : Type 0 where
  pub size : Db → ℕ
  pub deleted :
      (batch : ℕ) (db : Db)
      → (db' : Db) × (pg.delete_oldest table batch db ≡ (ok (min batch (size db)), db'))
        × (size db' ≡ size db - min batch (size db))

module _ {Db Json : Type 0} (pg : Postgres Db) (to_json : SafetyEvent → Json) (table : String)
    (law : Deletes pg table) where
  -- With a positive batch size and more fuel than rows to delete, if every DELETE returns and takes as
  -- many rows as the table has, up to its limit, the loop returns, and has deleted and counted exactly
  -- the rows asked for, or all rows if the table has fewer; the store is as it was.
  pub prune_rounds_exact :
      (fuel batch_size rows total : ℕ) (w : Watched pg to_json)
      → 0 < batch_size
      → rows < fuel
      → (w' : Watched pg to_json) × (prune_rounds pg to_json fuel table batch_size rows total w
          ≡ (ok (total + min rows (law.size w.db)), w'))
        × (law.size w'.db ≡ law.size w.db - min rows (law.size w.db))
        × (w'.store ≡ w.store)
  unfolding prune_rounds
  prune_rounds_exact zero batch_size rows total w positive h = absurd (omega arith)
  prune_rounds_exact (suc fuel) batch_size rows total w positive h =
      elim (Bool-cases (nat_eq rows 0)) [
        | inl e ↦
            let z : min rows (law.size w.db) ≡ 0 = ground arith in
            let t : total + min rows (law.size w.db) ≡ total = ground arith in
            (w, rw (t, e, prune_rounds) refl, ground arith, refl)
        | inr e ↦
            let batch = min rows batch_size in
            let (db', ran, left) = law.deleted batch w.db in
            elim (Bool-cases (nat_eq (min batch (law.size w.db)) 0)) [
              | inl n ↦
                  let t : total + min batch (law.size w.db) ≡ total + min rows (law.size w.db) =
                    ground arith in
                  (record w { db = db' }, rw (e, prune_rounds, ran, n, t) refl, ground arith, refl)
              | inr n ↦
                  let (w', run, sized, kept) =
                    prune_rounds_exact fuel batch_size (rows - batch)
                      (total + min batch (law.size w.db)) (record w { db = db' }) positive
                      (ground arith) in
                  let t : total + min batch (law.size w.db) + min (rows - batch) (law.size db')
                      ≡ total + min rows (law.size w.db) =
                    ground arith in
                  (w', rw (e, prune_rounds, ran, n) (rw (← t) run), ground arith, kept)
            ]
      ]
