-- ===== src/Dashboard/SafetyMonitor.antt =====
-- The safety monitor (dashboard/app/safety_monitor.py). PostgreSQL is an argument; an event goes into
-- the store as the text `to_json` of it. A limit times a percentage is computed in whole numbers, which
-- is what the division of Python and `int` give below 2^53.
pub mod Pruning
use pg_stress.Prelude.{
  ℕ, zero, suc, ◌+◌, ◌-◌, ◌*◌, ◌/◌, String, Bool, true, false, Option, some, none, List, [], ◌∷◌,
  ltb, leb, nat_eq, min, if◌then◌else◌, ◌&&◌, not,
}
use pg_stress.Prelude.Action.{Action, pure, fail, ◌>>=◌, ◌>>◌}
use pg_stress.Prelude.Decimal.{grouped}
use pg_stress.Prelude.Dict.{Dict}
use pg_stress.Prelude.Int.{ℤ, pos, ◌-ℤ◌}
use pg_stress.Prelude.Result.{Result, ok, out_of_fuel}
use pg_stress.Prelude.Text.{join}
use pg_stress.Dashboard.MetricsStore.{Store, add_safety_event}

pub record SafetyEvent : Type 0 where
  pub table : String
  pub action : String
  pub rows_before : ℕ
  pub rows_after : ℤ
  pub limit : ℕ
  pub detail : String

pub record Settings : Type 0 where
  pub max_database_size_bytes : ℕ
  pub prune_to_pct : ℕ
  pub prune_batch_size : ℕ
  pub table_limits : Dict ℕ

pub record Postgres (Db : Type 0) : Type 0 where
  pub clock : Db → ℕ
  pub database_size : Action Db (Option ℕ)
  -- `n_live_tup`; no row for an unknown table
  pub live_tuples : String → Action Db (Option ℕ)
  -- DELETE … ORDER BY created_at ASC LIMIT batch; the row count
  pub delete_oldest : String → ℕ → Action Db ℕ

-- `if db_size and db_size > limit`
unfoldable pub too_large : Option ℕ → ℕ → Bool
too_large none limit = false
too_large (some n) limit = not (nat_eq n 0) && ltb limit n

unfoldable pub size_detail : Option ℕ → ℕ → String
size_detail none limit = ""
size_detail (some n) limit =
    join "" ("Database size " ∷ grouped n ∷ " bytes exceeds limit " ∷ grouped limit ∷ [])

module _ {Db Json : Type 0} (pg : Postgres Db) (to_json : SafetyEvent → Json) where
  pub record Watched : Type 0 where
    pub db : Db
    pub store : Store Json

  abbrev in_db : {A : Type 0} → Result A × Db → Store Json → Result A × Watched
  in_db (r, db) store = (r, record { db = db; store = store })

  abbrev pub ask : {A : Type 0} → Action Db A → Action Watched A
  ask m w = in_db (m w.db) w.store

  unfoldable pub add_event : SafetyEvent → Action Watched (Unit {0})
  unfolding add_safety_event
  add_event e w = (ok tt, record w { store = add_safety_event (pg.clock w.db) (to_json e) w.store })

  -- `while rows_to_delete > 0:`; the rows deleted
  unfoldable pub prune_rounds : ℕ → String → ℕ → ℕ → ℕ → Action Watched ℕ
  prune_rounds zero table batch_size rows_to_delete total_deleted = fail out_of_fuel
  prune_rounds (suc fuel) table batch_size rows_to_delete total_deleted =
      elim (nat_eq rows_to_delete 0) [
        | true ↦ pure total_deleted
        | false ↦
            let batch = min rows_to_delete batch_size in
            ask (pg.delete_oldest table batch) >>= λ deleted.
            let more =
              prune_rounds fuel table batch_size (rows_to_delete - batch)
                (total_deleted + deleted) in
            if nat_eq deleted 0 then pure (total_deleted + deleted) else more
      ]

  unfoldable pub target_of : Settings → ℕ → ℕ
  target_of settings limit = limit * settings.prune_to_pct / 100

  -- The body of the loop over the tables, from the estimate on.
  unfoldable pub prune_table : Settings → String → ℕ → Option ℕ → Action Watched (Unit {0})
  unfolding prune_rounds target_of add_event
  prune_table settings table limit none = pure tt
  prune_table settings table limit (some estimate) =
      if leb estimate limit
      then pure tt
      else prune_rounds (suc (estimate - target_of settings limit)) table settings.prune_batch_size
          (estimate - target_of settings limit) 0
        >>= λ total_deleted. add_event (record {
          table = table;
          action = "prune";
          rows_before = estimate;
          rows_after = pos estimate -ℤ pos total_deleted;
          limit = limit;
          detail = join "" ("Pruned " ∷ grouped total_deleted ∷ " oldest rows" ∷ []);
        })

  unfoldable pub prune_tables : Settings → Dict ℕ → Action Watched (Unit {0})
  unfolding prune_table
  prune_tables settings [] = pure tt
  prune_tables settings ((table, limit) ∷ limits) = ask (pg.live_tuples table) >>= λ row.
      prune_table settings table limit row >> prune_tables settings limits

  unfoldable pub warn_size : Settings → Option ℕ → Action Watched (Unit {0})
  unfolding add_event
  warn_size settings db_size =
      if too_large db_size settings.max_database_size_bytes
      then add_event (record {
        table = "database";
        action = "warning";
        rows_before = 0;
        rows_after = pos 0;
        limit = settings.max_database_size_bytes;
        detail = size_detail db_size settings.max_database_size_bytes;
      })
      else pure tt

  unfoldable pub check_and_prune : Settings → Action Watched (Unit {0})
  unfolding prune_tables warn_size
  check_and_prune settings = ask pg.database_size >>= λ db_size.
      warn_size settings db_size >> prune_tables settings settings.table_limits
