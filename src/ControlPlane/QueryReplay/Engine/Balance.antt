-- ===== src/ControlPlane/QueryReplay/Engine/Balance.antt =====
-- The totals of a replay are the sums over its queries (control-plane/query_replay.py).
use pg_stress.Prelude.{
  ℕ, ◌+◌, String, Bool, true, false, some, List, [], ◌∷◌, nat_eq, if◌then◌else◌, ◌||◌, ◌≡◌, refl,
  arith, Bool-cases, Option-cases, inl, inr,
}
use pg_stress.Floats.{Floats}
use pg_stress.ControlPlane.QueryReplay.{Query, QueryStore}
use pg_stress.ControlPlane.QueryReplay.Engine.{
  Stat, Engine, Outcome, returned, failed, StartReply, already_running, put_stat, get_stat,
  new_stat, new_stats, start_queries, start_with, start, get_queries, count_run, count_error,
  record_outcome, nth_query, timed_out, worker_turn,
}
use pg_stress.ControlPlane.QueryReplay.Engine.Reports.{stop}

-- A call on the engine: a start, a turn of a worker, a stop.
pub data Call (fl : Floats) : Type 0 where
  begin : String → ℕ → ℕ → String → fl.Float → Call fl
  turn : fl.Float → ℕ → Outcome fl → Call fl
  finish : fl.Float → Call fl

module _ {fl : Floats} where
  abbrev pub executions_sum : List (ℕ × Stat fl) → ℕ
  executions_sum [] = 0
  executions_sum ((k, s) ∷ stats) = s.executions + executions_sum stats

  abbrev pub errors_sum : List (ℕ × Stat fl) → ℕ
  errors_sum [] = 0
  errors_sum ((k, s) ∷ stats) = s.errors + errors_sum stats

  pub record Balances (e : Engine fl) : Type 0 where
    pub executions : e.total_executions ≡ executions_sum e.stats
    pub errors : e.total_errors ≡ errors_sum e.stats

  sums_put :
      (k : ℕ) (s t : Stat fl) (stats : List (ℕ × Stat fl))
      → get_stat k stats ≡ some s
      → (executions_sum (put_stat k t stats) + s.executions ≡ executions_sum stats + t.executions)
        × (errors_sum (put_stat k t stats) + s.errors ≡ errors_sum stats + t.errors)
  unfolding put_stat get_stat
  sums_put k s t [] h = absurd (cc)
  sums_put k s t ((j, u) ∷ stats) h = elim (Bool-cases (nat_eq j k)) [
    | inl e ↦
        let same : u ≡ s = ground arith in (rw (e, same) (omega arith), rw (e, same) (omega arith))
    | inr e ↦
        let (x, y) = sums_put k s t stats (ground arith) in (rw e (omega arith), rw e (omega arith))
  ]

  sums_put_new :
      (k : ℕ) (t : Stat fl) (stats : List (ℕ × Stat fl))
      → executions_sum stats ≡ 0
      → errors_sum stats ≡ 0
      → t.executions ≡ 0
      → t.errors ≡ 0
      → (executions_sum (put_stat k t stats) ≡ 0) × (errors_sum (put_stat k t stats) ≡ 0)
  unfolding put_stat
  sums_put_new k t [] a b c d = (omega arith, omega arith)
  sums_put_new k t ((j, u) ∷ stats) a b c d = elim (Bool-cases (nat_eq j k)) [
    | inl e ↦ (rw e (omega arith), rw e (omega arith))
    | inr e ↦
        let (x, y) = sums_put_new k t stats (omega arith) (omega arith) c d in
        (rw e (omega arith), rw e (omega arith))
  ]

  sums_new :
      (prefix : String → String) (qs : List (Query fl)) (stats : List (ℕ × Stat fl))
      → executions_sum stats ≡ 0
      → errors_sum stats ≡ 0
      → (executions_sum (new_stats prefix qs stats) ≡ 0)
        × (errors_sum (new_stats prefix qs stats) ≡ 0)
  unfolding new_stats new_stat
  sums_new prefix [] stats a b = (a, b)
  sums_new prefix (q ∷ qs) stats a b =
      let (x, y) = sums_put_new q.id (new_stat prefix q) stats a b refl refl in
      sums_new prefix qs (put_stat q.id (new_stat prefix q) stats) x y

  start_with-Balances :
      (prefix : String → String) (set_id test_run_id : String) (c d : ℕ) (qs : List (Query fl))
      → (now : fl.Float) (e : Engine fl) → Balances e
      → Balances (start_with prefix set_id c d test_run_id qs now e).1
  unfolding start_with start_queries
  start_with-Balances prefix set_id test_run_id c d [] now e h = h
  start_with-Balances prefix set_id test_run_id c d (q ∷ qs) now e h =
      let (x, y) = sums_new prefix (q ∷ qs) [] refl refl in
      record { executions = omega arith; errors = omega arith }

  record_outcome-Balances :
      (qid : ℕ) (outcome : Outcome fl) (e : Engine fl)
      → Balances e
      → Balances (record_outcome qid outcome e).1
  unfolding record_outcome count_run count_error
  record_outcome-Balances qid (returned ms rows) e h = elim (Option-cases (get_stat qid e.stats)) [
    | inl n ↦ rw (n, record_outcome) h
    | inr (s, n) ↦
        let (x, y) = sums_put qid s (count_run ms rows s) e.stats n in
        rw (n, record_outcome)
          (record { executions = omega (arith, h.executions); errors = omega (arith, h.errors) })
  ]
  record_outcome-Balances qid failed e h = elim (Option-cases (get_stat qid e.stats)) [
    | inl n ↦ rw (n, record_outcome) h
    | inr (s, n) ↦
        let (x, y) = sums_put qid s (count_error s) e.stats n in
        rw (n, record_outcome)
          (record { executions = omega (arith, h.executions); errors = omega (arith, h.errors) })
  ]

  worker_turn-Balances :
      (now : fl.Float) (pick : ℕ) (outcome : Outcome fl) (e : Engine fl)
      → Balances e
      → Balances (worker_turn now pick outcome e).1
  unfolding worker_turn
  worker_turn-Balances now pick outcome e h = elim (Bool-cases (e.stop_event || timed_out now e)) [
    | inl b ↦ rw b h
    | inr b ↦ elim (Option-cases (nth_query pick e.weighted)) [
      | inl n ↦ rw (b, n, worker_turn) h
      | inr (q, n) ↦ rw (b, n, worker_turn) (record_outcome-Balances q.id outcome e h)
    ]
  ]

  guard-Balances :
      (busy : Bool) {e : Engine fl} (next : StartReply fl × Engine fl)
      → Balances e
      → Balances next.1
      → Balances (if busy then (already_running, e) else next).1
  guard-Balances true next h k = h
  guard-Balances false next h k = k

  module _ (prefix : String → String) (st : QueryStore fl) where
    pub call : Call fl → Engine fl → Engine fl
    call (begin set_id c d test_run_id now) e = (start prefix set_id c d test_run_id st now e).1
    call (turn now pick outcome) e = (worker_turn now pick outcome e).1
    call (finish now) e = (stop now e).1.0

    pub calls : List (Call fl) → Engine fl → Engine fl
    calls [] e = e
    calls (c ∷ cs) e = calls cs (call c e)

    call-Balances : (c : Call fl) (e : Engine fl) → Balances e → Balances (call c e)
    unfolding call start stop
    call-Balances (begin set_id c d test_run_id now) e h =
        guard-Balances e.running
          (start_with prefix set_id c d test_run_id (get_queries set_id st) now e) h
          (start_with-Balances prefix set_id test_run_id c d (get_queries set_id st) now e h)
    call-Balances (turn now pick outcome) e h = worker_turn-Balances now pick outcome e h
    call-Balances (finish now) e h = elim (Bool-cases e.running) [
      | inl r ↦ rw r (record { executions = h.executions; errors = h.errors })
      | inr r ↦ rw r (record { executions = h.executions; errors = h.errors })
    ]

    -- If the totals of the engine are the sums of the executions and of the errors over its queries, they
    -- are so after any starts, turns of the workers and stops, in whatever order.
    pub calls-Balances : (cs : List (Call fl)) (e : Engine fl) → Balances e → Balances (calls cs e)
    unfolding calls
    calls-Balances [] e h = h
    calls-Balances (c ∷ cs) e h = calls-Balances cs (call c e) (call-Balances c e h)
