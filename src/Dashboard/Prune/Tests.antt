-- ===== src/Dashboard/Prune/Tests.antt =====
-- Pruning a table of a hundred rows (dashboard/app/main.py).
use pg_stress.Prelude.{ℕ, ◌-◌, min, true, refl, arith}
use pg_stress.Prelude.Dict.{get}
use pg_stress.Prelude.Result.{ok}
use pg_stress.Dashboard.Prune.{Limits, Tables, table_limits, target_of, api_prune}
use pg_stress.Dashboard.Prune.Bounds.{IsCounted, IsBounded, api_prune-IsBounded}

abbrev small_limits : Limits
small_limits = record {
  limit_search_log = 50;
  limit_audit_log = 50;
  limit_price_history = 50;
  limit_cart_items = 50;
  limit_reviews = 50;
  prune_to_pct = 70;
  prune_batch_size = 30;
}

-- The state is the number of rows.
abbrev row_counter : Tables ℕ
row_counter = record {
  count = λ t d. (ok d, d);
  delete_oldest = λ t n d. (ok (min n d), d - min n d);
}

row_counter-IsCounted : IsCounted row_counter "reviews"
row_counter-IsCounted = record {
  rows = λ d. d;
  counted = λ d. refl;
  deleted = λ n d. (d - min n d, refl, omega arith);
}

api_prune-IsBounded_example :
    IsBounded 100
      (target_of small_limits 50)
      30
      (api_prune row_counter small_limits true "reviews" 100).1
unfolding get table_limits row_counter-IsCounted
api_prune-IsBounded_example =
    api_prune-IsBounded row_counter "reviews" row_counter-IsCounted small_limits true 50 100 refl
