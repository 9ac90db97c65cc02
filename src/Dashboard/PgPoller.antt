-- ===== src/Dashboard/PgPoller.antt =====
-- The poller of the statistics views (dashboard/app/pg_poller.py, dashboard/app/models.py). The rows of
-- PostgreSQL's views are arguments; a poll leaves its sample as the previous one of the next poll.
pub mod Connections
use pg_stress.Prelude.{ℕ, ◌+◌, String, Option, some, none, List, [], ◌∷◌, if◌then◌else◌, ◌==◌}
use pg_stress.Prelude.Dict.{Dict, put}
use pg_stress.Prelude.Int.{ℤ, pos, ◌+ℤ◌, ◌-ℤ◌, ltb_ℤ}
use pg_stress.Floats.{Floats}
use pg_stress.Dashboard.MetricsStore.{Store, add}

-- A row of pg_stat_database; `none` is NULL.
pub record DatabaseRow : Type 0 where
  pub xact_commit : Option ℤ
  pub xact_rollback : Option ℤ
  pub tup_inserted : Option ℤ
  pub tup_updated : Option ℤ
  pub tup_deleted : Option ℤ
  pub tup_returned : Option ℤ
  pub tup_fetched : Option ℤ
  pub blks_read : Option ℤ
  pub blks_hit : Option ℤ
  pub temp_files : Option ℤ
  pub temp_bytes : Option ℤ
  pub deadlocks : Option ℤ

-- A row of pg_stat_activity: a state and its count.
pub record ActivityRow : Type 0 where
  pub state : Option String
  pub cnt : ℕ

pub record LockRow : Type 0 where
  pub total : ℕ
  pub waiting : ℕ

pub record TableRow : Type 0 where
  pub relname : String
  pub live : ℕ
  pub dead : ℕ
  pub size_bytes : ℕ

-- What one poll reads.
pub record Reading : Type 0 where
  pub database : Option DatabaseRow
  pub activity : List ActivityRow
  pub size : Option ℕ
  pub locks : Option LockRow
  pub tables : List TableRow

pub record Counters : Type 0 where
  pub xact_commit : ℤ
  pub xact_rollback : ℤ
  pub tup_inserted : ℤ
  pub tup_updated : ℤ
  pub tup_deleted : ℤ
  pub tup_returned : ℤ
  pub tup_fetched : ℤ
  pub blks_read : ℤ
  pub blks_hit : ℤ
  pub temp_files : ℤ
  pub temp_bytes : ℤ
  pub deadlocks : ℤ

pub record ConnectionCounts : Type 0 where
  pub total_connections : ℕ
  pub active_connections : ℕ
  pub idle_connections : ℕ
  pub idle_in_transaction : ℕ

pub record TableCounts : Type 0 where
  pub table_rows : Dict ℕ
  pub table_dead_tuples : Dict ℕ
  pub table_size_bytes : Dict ℕ

-- `x or 0`
unfoldable pub or_none : Option ℤ → ℤ
or_none none = pos 0
or_none (some n) = n

unfoldable pub or_nothing : Option ℕ → ℕ
or_nothing none = 0
or_nothing (some n) = n

unfoldable pub read_counters : Option DatabaseRow → Counters
unfolding or_none
read_counters none = record {
  xact_commit = pos 0;
  xact_rollback = pos 0;
  tup_inserted = pos 0;
  tup_updated = pos 0;
  tup_deleted = pos 0;
  tup_returned = pos 0;
  tup_fetched = pos 0;
  blks_read = pos 0;
  blks_hit = pos 0;
  temp_files = pos 0;
  temp_bytes = pos 0;
  deadlocks = pos 0;
}
read_counters (some row) = record {
  xact_commit = or_none row.xact_commit;
  xact_rollback = or_none row.xact_rollback;
  tup_inserted = or_none row.tup_inserted;
  tup_updated = or_none row.tup_updated;
  tup_deleted = or_none row.tup_deleted;
  tup_returned = or_none row.tup_returned;
  tup_fetched = or_none row.tup_fetched;
  blks_read = or_none row.blks_read;
  blks_hit = or_none row.blks_hit;
  temp_files = or_none row.temp_files;
  temp_bytes = or_none row.temp_bytes;
  deadlocks = or_none row.deadlocks;
}

-- `r["state"] or "unknown"`
unfoldable pub state_name : Option String → String
state_name none = "unknown"
state_name (some s) = if s == "" then "unknown" else s

-- One round of the loop over the states.
unfoldable pub count_state : ActivityRow → ConnectionCounts → ConnectionCounts
unfolding state_name
count_state r c =
    let state = state_name r.state in
    let more : ConnectionCounts = record c { total_connections = c.total_connections + r.cnt } in
    if state == "active"
    then record more { active_connections = r.cnt }
    else if state == "idle"
    then record more { idle_connections = r.cnt }
    else if state == "idle in transaction"
    then record more { idle_in_transaction = r.cnt }
    else more

unfoldable pub count_states : List ActivityRow → ConnectionCounts → ConnectionCounts
unfolding count_state
count_states [] c = c
count_states (r ∷ rs) c = count_states rs (count_state r c)

abbrev pub no_connections : ConnectionCounts
no_connections = record {
  total_connections = 0;
  active_connections = 0;
  idle_connections = 0;
  idle_in_transaction = 0;
}

unfoldable pub read_locks : Option LockRow → LockRow
read_locks none = record { total = 0; waiting = 0 }
read_locks (some row) = row

unfoldable pub read_sizes : List TableRow → TableCounts → TableCounts
unfolding put
read_sizes [] t = t
read_sizes (r ∷ rs) t = read_sizes rs (record {
  table_rows = put r.relname r.live t.table_rows;
  table_dead_tuples = put r.relname r.dead t.table_dead_tuples;
  table_size_bytes = put r.relname r.size_bytes t.table_size_bytes;
})

module _ (fl : Floats) where
  pub record Rates : Type 0 where
    pub txn_per_sec : fl.Float
    pub tup_inserted_per_sec : fl.Float
    pub tup_updated_per_sec : fl.Float
    pub tup_deleted_per_sec : fl.Float
    pub blks_read_per_sec : fl.Float
    pub blks_hit_per_sec : fl.Float
    pub cache_hit_ratio : fl.Float

  -- `timestamp` in microseconds, the resolution of a datetime
  pub record MetricsSample : Type 0 where
    pub timestamp : ℕ
    pub counters : Counters
    pub rates : Rates
    pub connections : ConnectionCounts
    pub database_size_bytes : ℕ
    pub locks : LockRow
    pub tables : TableCounts

  unfoldable pub no_rates : Rates
  no_rates =
      let zero_ : fl.Float = fl.of_int (pos 0) in
      record {
        txn_per_sec = zero_;
        tup_inserted_per_sec = zero_;
        tup_updated_per_sec = zero_;
        tup_deleted_per_sec = zero_;
        blks_read_per_sec = zero_;
        blks_hit_per_sec = zero_;
        cache_hit_ratio = zero_;
      }

  -- `cache_hit_ratio`, from the counters now and before
  unfoldable pub hit_ratio : Counters → Counters → fl.Float
  hit_ratio now before =
      let total_blks = now.blks_read +ℤ now.blks_hit in
      let delta_total = total_blks -ℤ (before.blks_read +ℤ before.blks_hit) in
      let delta_hit = now.blks_hit -ℤ before.blks_hit in
      if ltb_ℤ (pos 0) delta_total
      then fl.div (fl.of_int delta_hit) (fl.of_int delta_total)
      else if ltb_ℤ (pos 0) total_blks
      then fl.div (fl.of_int now.blks_hit) (fl.of_int total_blks)
      else fl.of_int (pos 1)

  -- `total_seconds()` of a difference in microseconds
  abbrev total_seconds : ℤ → fl.Float
  total_seconds elapsed = fl.div (fl.of_int elapsed) (fl.of_int (pos 1000000))

  abbrev per_second : ℤ → ℤ → ℤ → fl.Float
  per_second now before elapsed = fl.div (fl.of_int (now -ℤ before)) (total_seconds elapsed)

  -- `if elapsed > 0`
  unfoldable pub rates_over : ℤ → Counters → Counters → Rates
  unfolding hit_ratio no_rates
  rates_over elapsed now before =
      let rates : Rates = record {
        txn_per_sec =
            fl.div
              (fl.of_int (
                (now.xact_commit -ℤ before.xact_commit)
                +ℤ (now.xact_rollback -ℤ before.xact_rollback)))
              (total_seconds elapsed);
        tup_inserted_per_sec = per_second now.tup_inserted before.tup_inserted elapsed;
        tup_updated_per_sec = per_second now.tup_updated before.tup_updated elapsed;
        tup_deleted_per_sec = per_second now.tup_deleted before.tup_deleted elapsed;
        blks_read_per_sec = per_second now.blks_read before.blks_read elapsed;
        blks_hit_per_sec = per_second now.blks_hit before.blks_hit elapsed;
        cache_hit_ratio = hit_ratio now before;
      } in
      if ltb_ℤ (pos 0) elapsed then rates else no_rates

  -- `if self._prev:`
  unfoldable pub rates_since : Option MetricsSample → ℕ → Counters → Rates
  unfolding rates_over no_rates
  rates_since none now counters = no_rates
  rates_since (some prev) now counters =
      rates_over (pos now -ℤ pos prev.timestamp) counters prev.counters

  unfoldable pub sample_of : Option MetricsSample → ℕ → Reading → MetricsSample
  unfolding read_counters count_states read_locks read_sizes rates_since or_nothing
  sample_of prev now reading =
      let counters = read_counters reading.database in
      record {
        timestamp = now;
        counters = counters;
        rates = rates_since prev now counters;
        connections = count_states reading.activity no_connections;
        database_size_bytes = or_nothing reading.size;
        locks = read_locks reading.locks;
        tables =
            read_sizes reading.tables
              (record { table_rows = []; table_dead_tuples = []; table_size_bytes = [] });
      }

  -- The sample becomes `_prev`, and goes into the store as the text `to_json` of it.
  unfoldable pub poll_once :
      {Json : Type 0}
      → (MetricsSample → Json)
      → ℕ
      → Reading
      → Option MetricsSample × Store Json
      → Option MetricsSample × Store Json
  unfolding sample_of add
  poll_once to_json now reading (prev, store) =
      let sample = sample_of prev now reading in (some sample, add now (to_json sample) store)
