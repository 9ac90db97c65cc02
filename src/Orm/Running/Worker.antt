-- ===== src/Orm/Running/Worker.antt =====
-- The workers of the load generator (load-generator-orm/main.py: `worker`): the counters of their turns.
use pg_stress.Prelude.{
  ℕ, ◌+◌, String, List, [], ◌∷◌, ◌≡◌, refl, arith, sum, length, if◌then◌else◌, ◌==◌,
}
use pg_stress.Prelude.Action.{Action, fail, ◌>>◌}
use pg_stress.Prelude.Dict.{Dict, get_or, put, values}
use pg_stress.Prelude.Result.{Result, ok, raise, key_error}
use pg_stress.Orm.Introspect.Assemble.{SchemaProfile}
use pg_stress.Orm.Operations.{OperationContext, inc}
use pg_stress.Orm.Running.{
  Sqlalchemy, Draws, op_n_plus_1, op_eager_join, op_eager_subquery, op_eager_selectin,
}
use pg_stress.Orm.Running.Writing.{op_bulk_insert, op_orm_update}
use pg_stress.Orm.Running.Queries.{
  op_pagination, op_aggregation, op_exists_filter, op_relationship_filter,
}

module _ {S Model Row Value : Type 0} (sa : Sqlalchemy S Model Row Value) (ctx : OperationContext)
    (profile : SchemaProfile) where
  -- `OPERATIONS[name]`; the names of `MIX` are these ten
  unfoldable pub operation : String → Draws → Action S (Unit {0})
  operation name d =
      if name == "n_plus_1"
      then op_n_plus_1 sa ctx d
      else if name == "eager_join"
      then op_eager_join sa ctx d
      else if name == "eager_subquery"
      then op_eager_subquery sa ctx d
      else if name == "eager_selectin"
      then op_eager_selectin sa ctx d
      else if name == "bulk_insert"
      then op_bulk_insert sa ctx profile d
      else if name == "orm_update"
      then op_orm_update sa ctx profile d
      else if name == "pagination"
      then op_pagination sa ctx profile d
      else if name == "aggregation"
      then op_aggregation sa ctx profile d
      else if name == "exists_filter"
      then op_exists_filter sa ctx profile d
      else if name == "relationship"
      then op_relationship_filter sa ctx profile d
      else fail key_error

  -- `fn(session, ctx)` and `session.commit()`
  unfoldable pub session_of : (String → Draws) → String → Action S (Unit {0})
  unfolding operation
  session_of draws name = operation name (draws name) >> sa.commit

-- What a turn of a worker ended with.
unfoldable pub counted_as {ℓ} : {A : Type ℓ} → String → Result A → String
counted_as name (ok a) = name
counted_as name (raise e) = "errors"

-- One turn of `worker`: the operation and its commit, and the counter that is incremented.
unfoldable pub worker_turn :
    {S : Type 0} → (String → Action S (Unit {0})) → String → S → Dict ℕ → S × Dict ℕ
unfolding counted_as inc
worker_turn session_of name s counters =
    let (r, s') = session_of name s in (s', inc (counted_as name r) counters)

-- The turns of a worker, with the names that `pick_operation` draws.
unfoldable pub worker_turns :
    {S : Type 0} → (String → Action S (Unit {0})) → List String → S → Dict ℕ → S × Dict ℕ
unfolding worker_turn
worker_turns session_of [] s counters = (s, counters)
worker_turns session_of (name ∷ names) s counters =
    let (s', counters') = worker_turn session_of name s counters in
    worker_turns session_of names s' counters'

inc-values :
    (key : String) (counters : Dict ℕ) → sum (values (inc key counters)) ≡ sum (values counters) + 1
unfolding inc get_or put values
inc-values key [] = refl
inc-values key ((k, n) ∷ d) = ground (arith, inc-values key d)

-- Any turns of a worker, of any operations, whether they succeed or raise, raise the sum of all
-- counters by exactly the number of turns.
pub worker_turns-values :
    {S : Type 0} (session_of : String → Action S (Unit {0})) (names : List String) (s : S)
    (counters : Dict ℕ)
    → sum (values (worker_turns session_of names s counters).1)
      ≡ sum (values counters) + length names
unfolding worker_turns worker_turn
worker_turns-values session_of [] s counters = omega arith
worker_turns-values session_of (name ∷ names) s counters =
    let (r, s') = session_of name s in
    omega (
      arith,
      worker_turns-values session_of names s' (inc (counted_as name r) counters),
      inc-values (counted_as name r) counters,
    )
