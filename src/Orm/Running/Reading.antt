-- ===== src/Orm/Running/Reading.antt =====
-- Which operations of the load generator only read (load-generator-orm/main.py).
use pg_stress.Prelude.{
  ℕ, String, Bool, true, false, not, map, ◌==◌, if◌then◌else◌, Option, some, none, List, [], ◌∷◌,
  ◌≡◌,
}
use pg_stress.Prelude.Action.{Action, pure, fail, ◌>>=◌, continue}
use pg_stress.Prelude.Result.{Result, Error, ok, raise, key_error}
use pg_stress.Orm.Introspect.Chains.{FkChain}
use pg_stress.Orm.Introspect.Assemble.{SchemaProfile}
use pg_stress.Orm.Operations.{OperationContext}
use pg_stress.Orm.Running.{
  Sqlalchemy, Draws, Statement, when_some, with_item, when_text, when_true, ignore, tail_of,
  attr_to, on_chain, profile_of, load_each, load_all, op_n_plus_1, op_eager_join, op_eager_subquery,
  op_eager_selectin,
}
use pg_stress.Orm.Running.Worker.{operation}
use pg_stress.Orm.Running.Queries.{
  op_pagination, op_aggregation, op_exists_filter, op_relationship_filter,
}

-- An action keeps a property of the state, whether it returns or raises.
unfoldable pub IsKeptBy {ℓ} : {S : Type 0} {A : Type ℓ} → (S → Type 0) → Action S A → Type 0
IsKeptBy {S = S} P m = (s : S) → P s → P (m s).1

module _ {S : Type 0} (P : S → Type 0) where
  when_some-IsKeptBy {ℓ} :
      {A : Type ℓ} (o : Option A) (f : A → Action S (Unit {0}))
      → ((a : A) → IsKeptBy P (f a))
      → IsKeptBy P (when_some o f)
  unfolding IsKeptBy when_some
  when_some-IsKeptBy none f h s p = p
  when_some-IsKeptBy (some a) f h s p = h a s p

  with_item-IsKeptBy {ℓ} :
      {A : Type ℓ} (o : Option A) (e : Error) (f : A → Action S (Unit {0}))
      → ((a : A) → IsKeptBy P (f a))
      → IsKeptBy P (with_item o e f)
  unfolding IsKeptBy with_item
  with_item-IsKeptBy none e f h s p = p
  with_item-IsKeptBy (some a) e f h s p = h a s p

  continue-IsKept {ℓ κ} :
      {A : Type ℓ} {B : Type κ} (r : Result A × S) (f : A → Action S B)
      → ((a : A) → IsKeptBy P (f a))
      → P r.1
      → P (continue r f).1
  unfolding IsKeptBy
  continue-IsKept (ok a, s) f h p = h a s p
  continue-IsKept (raise e, s) f h p = p

  bind-IsKeptBy {ℓ κ} :
      {A : Type ℓ} {B : Type κ} (m : Action S A) (f : A → Action S B)
      → IsKeptBy P m
      → ((a : A) → IsKeptBy P (f a))
      → IsKeptBy P (m >>= f)
  unfolding IsKeptBy
  bind-IsKeptBy m f hm hf s p = continue-IsKept (m s) f hf (hm s p)

  when_true-IsKeptBy :
      (b : Bool) (m : Action S (Unit {0})) → IsKeptBy P m → IsKeptBy P (when_true b m)
  unfolding IsKeptBy when_true
  when_true-IsKeptBy false m h s p = p
  when_true-IsKeptBy true m h s p = h s p

  when_text-IsKeptBy :
      (o : Option String) (f : String → Action S (Unit {0}))
      → ((t : String) → IsKeptBy P (f t))
      → IsKeptBy P (when_text o f)
  unfolding IsKeptBy when_text when_true
  when_text-IsKeptBy none f h = λ s p. p
  when_text-IsKeptBy (some t) f h = when_true-IsKeptBy (not (t == "")) (f t) (h t)

  ignore-IsKeptBy : {A : Type 0} (m : Action S A) → IsKeptBy P m → IsKeptBy P (ignore m)
  unfolding IsKeptBy ignore
  ignore-IsKeptBy m h = bind-IsKeptBy m (λ a. pure tt) h (λ a s p. p)

  fail-IsKeptBy : (e : Error) → IsKeptBy P (fail {A = Unit {0}} e)
  unfolding IsKeptBy
  fail-IsKeptBy e s p = p

module _ {S Model Row Value : Type 0} (sa : Sqlalchemy S Model Row Value) (ctx : OperationContext)
    (profile : SchemaProfile) (P : S → Type 0)
    (keeps_run : (q : Statement Model) (s : S) → P s → P (sa.run q s).1)
    (keeps_load : (row : Row) (name : String) (s : S) → P s → P (sa.load row name s).1) where
  load_each-IsKeptBy :
      (row : Row) (rels : List (Option String)) → IsKeptBy P (load_each sa ctx row rels)
  unfolding load_each IsKeptBy
  load_each-IsKeptBy row [] = λ s p. p
  load_each-IsKeptBy row (none ∷ rels) = load_each-IsKeptBy row rels
  load_each-IsKeptBy row (some rel ∷ rels) =
      bind-IsKeptBy P (sa.load row rel) _ (keeps_load row rel) (λ u. load_each-IsKeptBy row rels)

  load_all-IsKeptBy :
      (rels : List (Option String)) (rows : List Row) → IsKeptBy P (load_all sa ctx rels rows)
  unfolding load_all IsKeptBy
  load_all-IsKeptBy rels [] = λ s p. p
  load_all-IsKeptBy rels (row ∷ rows) =
      bind-IsKeptBy P (load_each sa ctx row rels) _ (load_each-IsKeptBy row rels)
        (λ u. load_all-IsKeptBy rels rows)

  run-IsKeptBy : (q : Statement Model) → IsKeptBy P (sa.run q)
  unfolding IsKeptBy
  run-IsKeptBy q s p = keeps_run q s p

  op_n_plus_1-IsKeptBy : (d : Draws) → IsKeptBy P (op_n_plus_1 sa ctx d)
  unfolding op_n_plus_1
  op_n_plus_1-IsKeptBy d = when_some-IsKeptBy P _ _ (λ c. with_item-IsKeptBy P _ _ _ (λ root.
      when_some-IsKeptBy P _ _ (λ model.
        let rels = map (λ t. attr_to t (sa.attributes model)) (tail_of c.tables) in
        bind-IsKeptBy P (sa.run _) (load_all sa ctx rels) (run-IsKeptBy _)
          (load_all-IsKeptBy rels))))

  on_chain-IsKeptBy :
      (chains : List FkChain) (n : ℕ) (f : Model → String → Action S (Unit {0}))
      → ((model : Model) (rel : String) → IsKeptBy P (f model rel))
      → IsKeptBy P (on_chain sa ctx chains n f)
  unfolding on_chain
  on_chain-IsKeptBy chains n f h = when_some-IsKeptBy P _ _ (λ c.
      with_item-IsKeptBy P _ _ _ (λ root. when_some-IsKeptBy P _ _ (λ model.
        with_item-IsKeptBy P _ _ _ (λ child. when_some-IsKeptBy P _ _ (λ rel. h model rel)))))

  query-IsKeptBy : (q : Statement Model) → IsKeptBy P (ignore (sa.run q))
  query-IsKeptBy q = ignore-IsKeptBy P (sa.run q) (run-IsKeptBy q)

  op_eager_join-IsKeptBy : (d : Draws) → IsKeptBy P (op_eager_join sa ctx d)
  unfolding op_eager_join
  op_eager_join-IsKeptBy d = on_chain-IsKeptBy _ _ _ (λ model rel. query-IsKeptBy _)

  op_eager_subquery-IsKeptBy : (d : Draws) → IsKeptBy P (op_eager_subquery sa ctx d)
  unfolding op_eager_subquery
  op_eager_subquery-IsKeptBy d = on_chain-IsKeptBy _ _ _ (λ model rel. query-IsKeptBy _)

  op_eager_selectin-IsKeptBy : (d : Draws) → IsKeptBy P (op_eager_selectin sa ctx d)
  unfolding op_eager_selectin
  op_eager_selectin-IsKeptBy d = on_chain-IsKeptBy _ _ _ (λ model rel. query-IsKeptBy _)

  op_pagination-IsKeptBy : (d : Draws) → IsKeptBy P (op_pagination sa ctx profile d)
  unfolding op_pagination profile_of
  op_pagination-IsKeptBy d = when_some-IsKeptBy P _ _ (λ t. when_some-IsKeptBy P _ _ (λ model.
      with_item-IsKeptBy P _ _ _ (λ tp.
        when_some-IsKeptBy P _ _
          (λ column. when_some-IsKeptBy P _ _ (λ page_size. query-IsKeptBy _)))))

  op_aggregation-IsKeptBy : (d : Draws) → IsKeptBy P (op_aggregation sa ctx profile d)
  unfolding op_aggregation profile_of
  op_aggregation-IsKeptBy d = when_some-IsKeptBy P _ _ (λ t. when_some-IsKeptBy P _ _ (λ model.
      with_item-IsKeptBy P _ _ _
        (λ tp. with_item-IsKeptBy P _ _ _ (λ num. when_true-IsKeptBy P _ _ (query-IsKeptBy _)))))

  op_exists_filter-IsKeptBy : (d : Draws) → IsKeptBy P (op_exists_filter sa ctx profile d)
  unfolding op_exists_filter
  op_exists_filter-IsKeptBy d = when_some-IsKeptBy P _ _ (λ parent.
      when_some-IsKeptBy P _ _ (λ model. with_item-IsKeptBy P _ _ _ (λ child.
        when_text-IsKeptBy P _ _ (λ column. when_some-IsKeptBy P _ _ (λ rel. query-IsKeptBy _)))))

  op_relationship_filter-IsKeptBy :
      (d : Draws) → IsKeptBy P (op_relationship_filter sa ctx profile d)
  unfolding op_relationship_filter
  op_relationship_filter-IsKeptBy d = when_some-IsKeptBy P _ _ (λ c.
      with_item-IsKeptBy P _ _ _ (λ root. with_item-IsKeptBy P _ _ _ (λ child.
        when_some-IsKeptBy P _ _ (λ model.
          when_some-IsKeptBy P _ _
            (λ child_model. when_some-IsKeptBy P _ _ (λ rel. query-IsKeptBy _))))))

  else-IsKeptBy :
      (b : Bool) (m n : Action S (Unit {0}))
      → b ≡ false
      → IsKeptBy P n
      → IsKeptBy P (if b then m else n)
  else-IsKeptBy false m n e h = h
  else-IsKeptBy true m n e h = absurd (cc)

  if-IsKeptBy :
      (b : Bool) (m n : Action S (Unit {0}))
      → IsKeptBy P m
      → IsKeptBy P n
      → IsKeptBy P (if b then m else n)
  if-IsKeptBy true m n hm hn = hm
  if-IsKeptBy false m n hm hn = hn

  operation-IsKeptBy :
      (name : String) (d : Draws)
      → (name == "bulk_insert") ≡ false
      → (name == "orm_update") ≡ false
      → IsKeptBy P (operation sa ctx profile name d)
  unfolding operation
  operation-IsKeptBy name d b u = if-IsKeptBy (name == "n_plus_1") _ _ (op_n_plus_1-IsKeptBy d) (
      if-IsKeptBy (name == "eager_join") _ _ (op_eager_join-IsKeptBy d) (
        if-IsKeptBy (name == "eager_subquery") _ _ (op_eager_subquery-IsKeptBy d) (
          if-IsKeptBy (name == "eager_selectin") _ _ (op_eager_selectin-IsKeptBy d) (
            else-IsKeptBy (name == "bulk_insert") _ _ b (
              else-IsKeptBy (name == "orm_update") _ _ u (
                if-IsKeptBy (name == "pagination") _ _ (op_pagination-IsKeptBy d) (
                  if-IsKeptBy (name == "aggregation") _ _ (op_aggregation-IsKeptBy d) (
                    if-IsKeptBy (name == "exists_filter") _ _ (op_exists_filter-IsKeptBy d) (
                      if-IsKeptBy (name == "relationship") _ _ (op_relationship_filter-IsKeptBy d)
                        (fail-IsKeptBy P key_error))))))))))

  -- A property of the state that every query and every lazy load keeps is kept by each operation other
  -- than bulk_insert and orm_update, with any draws, whether it returns or raises.
  pub operation-reads :
      (name : String) (d : Draws)
      → (name == "bulk_insert") ≡ false
      → (name == "orm_update") ≡ false
      → (s : S) → P s
      → P (operation sa ctx profile name d s).1
  unfolding IsKeptBy
  operation-reads name d b u s p = operation-IsKeptBy name d b u s p
