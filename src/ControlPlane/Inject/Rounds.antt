-- ===== src/ControlPlane/Inject/Rounds.antt =====
-- What the loop of `_do_inject` counts (control-plane/main.py).
use pg_stress.Prelude.{
  ℕ, zero, suc, ◌+◌, ◌-◌, ◌≤◌, ◌<◌, String, true, false, nat_eq, ◌≡◌, ◌∙◌, some, min, arith,
  Bool-cases, inl, inr,
}
use pg_stress.Prelude.Int.{pos}
use pg_stress.Prelude.Result.{ok}
use pg_stress.ControlPlane.Inject.{
  Backend, InjectRequest, Progress, World, advance, note, round_msg, inject_rounds,
}

-- Every INSERT of one row or more returns, and its row count is at most the batch. `Counts batch n` is
-- what more is known of it.
pub record Inserts {Db : Type 0} (pg : Backend Db) (Counts : ℕ → ℕ → Type 0) : Type 0 where
  pub inserted :
      (template : String) (batch : ℕ) (db : Db)
      → 0 < batch
      → (n : ℕ) × (db' : Db) × (pg.insert template batch db ≡ (ok n, db'))
        × (n ≤ batch)
        × Counts batch n

module _ {Db : Type 0} (pg : Backend Db) (job_id template : String) (req : InjectRequest)
    (batch_size : ℕ) (positive : 0 < batch_size) where
  -- The world after a round whose INSERT returned `n` and left `db'`.
  abbrev after_round : ℕ → Progress → World pg → Db → World pg
  after_round n p w db' =
      let p' = advance (min p.remaining batch_size) n p in
      (note pg job_id (some (pg.percent (pos (req.rows - p'.remaining)) (pos req.rows)))
        (round_msg req p') (record w { db = db' })).1

  inject_round :
      (fuel n : ℕ) (p : Progress) (w : World pg) (db' : Db)
      → nat_eq p.remaining 0 ≡ false
      → pg.insert template (min p.remaining batch_size) w.db ≡ (ok n, db')
      → inject_rounds pg (suc fuel) job_id req template batch_size p w
        ≡ inject_rounds pg fuel job_id req template batch_size
            (advance (min p.remaining batch_size) n p)
            (after_round n p w db')
  unfolding inject_rounds note
  inject_round fuel n p w db' more ran = rw (more, inject_rounds, ran)

  inject_done :
      (fuel : ℕ) (p : Progress) (w : World pg)
      → nat_eq p.remaining 0 ≡ true
      → inject_rounds pg (suc fuel) job_id req template batch_size p w ≡ (ok p, w)
  unfolding inject_rounds
  inject_done fuel p w e = rw (e, inject_rounds)

  -- The loop returns, with nothing left to insert.
  pub record Ends (fuel : ℕ) (p : Progress) (w : World pg) (Post : Progress → Type 0) : Type 0 where
    pub progress : Progress
    pub world : World pg
    pub runs : inject_rounds pg fuel job_id req template batch_size p w ≡ (ok progress, world)
    pub empty : progress.remaining ≡ 0
    pub post : Post progress

  -- With a positive batch size and more fuel than rows left, if every INSERT of one row or more returns,
  -- and takes at least one row and no more than its batch, the loop returns with nothing left, and has
  -- counted every row once: as inserted, or as skipped.
  pub inject_rounds_exact :
      (law : Inserts pg (λ batch n. 0 < n)) (fuel : ℕ) (p : Progress) (w : World pg)
      → p.remaining < fuel
      → Ends fuel p w
          (λ p'. p'.total_inserted + p'.skipped ≡ p.total_inserted + p.skipped + p.remaining)
  unfolding advance
  inject_rounds_exact law zero p w h = absurd (omega arith)
  inject_rounds_exact law (suc fuel) p w h = elim (Bool-cases (nat_eq p.remaining 0)) [
    | inl e ↦ record {
      progress = p;
      world = w;
      runs = inject_done fuel p w e;
      empty = ground arith;
      post = ground arith;
    }
    | inr e ↦
        let (n, db', ran, le, some_rows) =
          law.inserted template (min p.remaining batch_size) w.db (ground arith) in
        let next =
          inject_rounds_exact law fuel (advance (min p.remaining batch_size) n p)
            (after_round n p w db') (ground arith) in
        record {
          progress = next.progress;
          world = next.world;
          runs = inject_round fuel n p w db' e ran ∙ next.runs;
          empty = next.empty;
          post = ground (arith, next.post);
        }
  ]

  -- With a positive batch size and more fuel than rows left, if every INSERT returns and takes no row,
  -- the loop returns, and has counted all rows as inserted, and all as skipped too.
  pub inject_rounds_conflicts :
      (law : Inserts pg (λ batch n. n ≡ 0)) (fuel : ℕ) (p : Progress) (w : World pg)
      → p.remaining < fuel
      → Ends fuel p w (λ p'.
        (p'.total_inserted ≡ p.total_inserted + p.remaining)
        × (p'.skipped ≡ p.skipped + p.remaining))
  unfolding advance
  inject_rounds_conflicts law zero p w h = absurd (omega arith)
  inject_rounds_conflicts law (suc fuel) p w h = elim (Bool-cases (nat_eq p.remaining 0)) [
    | inl e ↦ record {
      progress = p;
      world = w;
      runs = inject_done fuel p w e;
      empty = ground arith;
      post = (ground arith, ground arith);
    }
    | inr e ↦
        let (n, db', ran, le, nothing) =
          law.inserted template (min p.remaining batch_size) w.db (ground arith) in
        let next =
          inject_rounds_conflicts law fuel (advance (min p.remaining batch_size) n p)
            (after_round n p w db') (ground arith) in
        record {
          progress = next.progress;
          world = next.world;
          runs = inject_round fuel n p w db' e ran ∙ next.runs;
          empty = next.empty;
          post = (ground (arith, next.post), ground (arith, next.post));
        }
  ]
