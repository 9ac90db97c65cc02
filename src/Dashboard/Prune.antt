-- ===== src/Dashboard/Prune.antt =====
-- The pruning route and the limits of the dashboard (dashboard/app/main.py: `api_prune`,
-- dashboard/app/config.py).
pub mod Bounds
mod Tests
use pg_stress.Prelude.{
  ℕ, ◌-◌, ◌*◌, ◌/◌, String, Bool, true, false, Option, some, none, List, [], ◌∷◌, leb, min,
  if◌then◌else◌, not,
}
use pg_stress.Prelude.Action.{Action, pure, ◌>>=◌}
use pg_stress.Prelude.Dict.{Dict, get}
use pg_stress.Prelude.Http.{Reply, http_error, crash, replied}
use pg_stress.Prelude.Result.{Result, ok, raise}

pub record Limits : Type 0 where
  pub limit_search_log : ℕ
  pub limit_audit_log : ℕ
  pub limit_price_history : ℕ
  pub limit_cart_items : ℕ
  pub limit_reviews : ℕ
  pub prune_to_pct : ℕ
  pub prune_batch_size : ℕ

-- `settings.table_limits`
unfoldable pub table_limits : Limits → Dict ℕ
table_limits s =
    ("search_log", s.limit_search_log)
    ∷ ("audit_log", s.limit_audit_log)
    ∷ ("price_history", s.limit_price_history)
    ∷ ("cart_items", s.limit_cart_items)
    ∷ ("reviews", s.limit_reviews)
    ∷ []

-- The count of a table, and the DELETE of its oldest rows with the number of rows it deleted.
pub record Tables (Db : Type 0) : Type 0 where
  pub count : String → Action Db ℕ
  pub delete_oldest : String → ℕ → Action Db ℕ

pub data PruneAnswer : Type 0 where
  no_prune_needed : ℕ → ℕ → PruneAnswer
  pruned : ℕ → ℕ → ℕ → PruneAnswer

-- `int(limit * settings.prune_to_pct / 100)`
unfoldable pub target_of : Limits → ℕ → ℕ
target_of s limit = limit * s.prune_to_pct / 100

module _ {Db : Type 0} (pg : Tables Db) where
  unfoldable pub delete_down : Limits → String → ℕ → ℕ → Action Db PruneAnswer
  delete_down s table target count =
      pg.delete_oldest table (min (count - target) s.prune_batch_size) >>= λ deleted.
      pure (pruned deleted count target)

  -- From the count on.
  unfoldable pub prune_counted : Limits → String → ℕ → ℕ → Action Db PruneAnswer
  unfolding delete_down
  prune_counted s table target count d =
      if leb count target
      then (ok (no_prune_needed count target), d)
      else delete_down s table target count d

  unfoldable pub answer : Result PruneAnswer × Db → Reply PruneAnswer × Db
  answer (ok a, d) = (replied a, d)
  answer (raise e, d) = (crash e, d)

  -- A table with a limit; `ready` says that the monitor was made.
  unfoldable pub prune_limited : Limits → Bool → String → Option ℕ → Db → Reply PruneAnswer × Db
  unfolding prune_counted answer target_of
  prune_limited s ready table none d = (http_error 400, d)
  prune_limited s false table (some limit) d = (http_error 503, d)
  prune_limited s true table (some limit) d =
      answer ((pg.count table >>= λ count. prune_counted s table (target_of s limit) count) d)

  unfoldable pub api_prune : Limits → Bool → String → Db → Reply PruneAnswer × Db
  unfolding prune_limited table_limits get
  api_prune s ready table d = prune_limited s ready table (get table (table_limits s)) d
