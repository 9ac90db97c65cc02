-- ===== src/Dashboard/Prune/Bounds.antt =====
-- How much the pruning route deletes (dashboard/app/main.py).
use pg_stress.Prelude.{
  ℕ, ◌+◌, ◌-◌, ◌≤◌, String, Bool, true, false, some, leb, min, ◌≡◌, arith, Bool-cases, inl, inr,
}
use pg_stress.Prelude.Dict.{get}
use pg_stress.Prelude.Result.{ok}
use pg_stress.Dashboard.Prune.{
  Limits, table_limits, Tables, target_of, delete_down, prune_counted, answer, prune_limited,
  api_prune,
}

-- What PostgreSQL promises of the two statements, for one table without other writers: the count is that
-- of the rows, and the DELETE takes as many of them as it was asked for, or all.
pub record IsCounted {Db : Type 0} (pg : Tables Db) (table : String) : Type 0 where
  pub rows : Db → ℕ
  pub counted : (d : Db) → pg.count table d ≡ (ok (rows d), d)
  pub deleted :
      (n : ℕ) (d : Db)
      → (d' : Db) × (pg.delete_oldest table n d ≡ (ok (min n (rows d)), d'))
        × (rows d' + min n (rows d) ≡ rows d)

-- Between the target and the old count, and at most a batch is gone.
pub record IsBounded (old target batch new : ℕ) : Type 0 where
  pub above_target : min old target ≤ new
  pub no_growth : new ≤ old
  pub one_batch : old ≤ new + batch

module _ {Db : Type 0} (pg : Tables Db) (table : String) (law : IsCounted pg table) where
  kept_bound : (target batch n : ℕ) → IsBounded n target batch n
  kept_bound target batch n = record {
    above_target = omega arith;
    no_growth = omega arith;
    one_batch = omega arith;
  }

  counted_bound :
      (s : Limits) (target : ℕ) (d : Db)
      → IsBounded
          (law.rows d)
          target
          s.prune_batch_size
          (law.rows (answer pg (prune_counted pg s table target (law.rows d) d)).1)
  unfolding prune_counted delete_down answer
  counted_bound s target d = elim (Bool-cases (leb (law.rows d) target)) [
    | inl e ↦ rw e (kept_bound target s.prune_batch_size (law.rows d))
    | inr e ↦
        let (d', gone, left) = law.deleted (min (law.rows d - target) s.prune_batch_size) d in
        rw (e, gone)
          (record {
            above_target = omega (arith, left);
            no_growth = omega (arith, left);
            one_batch = omega (arith, left);
          })
  ]

  limited_bound :
      (s : Limits) (ready : Bool) (limit : ℕ) (d : Db)
      → IsBounded
          (law.rows d)
          (target_of s limit)
          s.prune_batch_size
          (law.rows (prune_limited pg s ready table (some limit) d).1)
  unfolding prune_limited
  limited_bound s false limit d = kept_bound (target_of s limit) s.prune_batch_size (law.rows d)
  limited_bound s true limit d = rw (law.counted d) (counted_bound s (target_of s limit) d)

  -- For a table with a limit, if the count is that of its rows and the DELETE takes as many rows as it is
  -- asked for, or all, then api_prune leaves no fewer rows than the target or than there were, and
  -- deletes at most a batch.
  pub api_prune-IsBounded :
      (s : Limits) (ready : Bool) (limit : ℕ) (d : Db)
      → get table (table_limits s) ≡ some limit
      → IsBounded
          (law.rows d)
          (target_of s limit)
          s.prune_batch_size
          (law.rows (api_prune pg s ready table d).1)
  unfolding api_prune
  api_prune-IsBounded s ready limit d h = rw h (limited_bound s ready limit d)
