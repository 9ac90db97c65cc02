-- ===== src/Dashboard/PgPoller/Connections.antt =====
-- The connections of a sample (dashboard/app/pg_poller.py).
use pg_stress.Prelude.{ℕ, ◌+◌, ◌≤◌, Option, List, [], ◌∷◌, ◌≡◌, arith}
use pg_stress.Floats.{Floats}
use pg_stress.Dashboard.PgPoller.{
  ActivityRow, ConnectionCounts, MetricsSample, Reading, count_state, count_states, sample_of,
}

abbrev pub all_connections : List ActivityRow → ℕ
all_connections [] = 0
all_connections (r ∷ rs) = r.cnt + all_connections rs

abbrev named_connections : ConnectionCounts → ℕ
named_connections c = c.active_connections + c.idle_connections + c.idle_in_transaction

count_state-total :
    (r : ActivityRow) (c : ConnectionCounts)
    → (count_state r c).total_connections ≡ c.total_connections + r.cnt
unfolding count_state
count_state-total r c = ground arith

count_state-named :
    (r : ActivityRow) (c : ConnectionCounts)
    → named_connections c ≤ c.total_connections
    → named_connections (count_state r c) ≤ (count_state r c).total_connections
unfolding count_state
count_state-named r c h = ground arith

count_states-total :
    (rows : List ActivityRow) (c : ConnectionCounts)
    → (count_states rows c).total_connections ≡ c.total_connections + all_connections rows
unfolding count_states
count_states-total [] c = omega arith
count_states-total (r ∷ rs) c =
    omega (arith, count_states-total rs (count_state r c), count_state-total r c)

count_states-named :
    (rows : List ActivityRow) (c : ConnectionCounts)
    → named_connections c ≤ c.total_connections
    → named_connections (count_states rows c) ≤ (count_states rows c).total_connections
unfolding count_states
count_states-named [] c h = h
count_states-named (r ∷ rs) c h = count_states-named rs (count_state r c) (count_state-named r c h)

-- Whatever rows a poll reads, and even if a state comes twice, the total of the sample is the sum of the
-- counts of all states, and the active, the idle and the idle in transaction together are no more.
pub sample_of-connections :
    (fl : Floats) (prev : Option (MetricsSample fl)) (now : ℕ) (reading : Reading)
    → let c = (sample_of fl prev now reading).connections in
      (c.total_connections ≡ all_connections reading.activity)
      × (c.active_connections + c.idle_connections + c.idle_in_transaction ≤ c.total_connections)
unfolding sample_of
sample_of-connections fl prev now reading = (
  omega (arith, count_states-total reading.activity _),
  count_states-named reading.activity _ (omega arith),
)
