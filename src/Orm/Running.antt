-- ===== src/Orm/Running.antt =====
-- The operations of the load generator and its workers (load-generator-orm/main.py). SQLAlchemy is a
-- record of calls on the state of a session; what `random` draws is an argument.
pub mod Cloning
pub mod Writing
pub mod Queries
pub mod Worker
pub mod Reading
mod Tests
use pg_stress.Prelude.{
  ℕ, zero, suc, ◌+◌, ◌*◌, String, Bool, true, false, Option, some, none, List, [], ◌∷◌, ◌++◌, elem,
  map, not, keep_if, if◌then◌else◌, ◌==◌, ◌&&◌, ◌||◌,
}
use pg_stress.Prelude.Action.{Action, pure, fail, ◌>>=◌, ◌>>◌}
use pg_stress.Prelude.Dict.{Dict, get, get_or, put}
use pg_stress.Prelude.Result.{Result, Error, ok, raise, index_error, key_error}
use pg_stress.Orm.Introspect.{ColumnInfo, ForeignKey, TableProfile}
use pg_stress.Orm.Introspect.Chains.{FkChain}
use pg_stress.Orm.Introspect.Assemble.{SchemaProfile}
use pg_stress.Orm.Operations.{OperationContext, max_id, inc}

-- The statements that the operations run, on a mapped model.
pub data Statement (Model : Type 0) : Type 0 where
  first_rows : Model → ℕ → Statement Model
  joined_load subquery_load selectin_load : Model → String → ℕ → Statement Model
  where_any join_on : Model → String → ℕ → Statement Model
  random_rows : Model → ℕ → Statement Model
  page : Model → String → ℕ → ℕ → Statement Model
  grouped_sums : Model → String → String → Statement Model
  sums : Model → String → Statement Model

pub record Sqlalchemy (S Model Row Value : Type 0) : Type 0 where
  pub get_model : String → Option Model
  -- the public attributes of a model, with the table that a relationship leads to
  pub attributes : Model → List (String × Option String)
  pub run : Statement Model → Action S (List Row)
  -- `session.get(Model, key)`
  pub find : Model → ℕ → Action S (Option Row)
  -- `getattr(row, name, None)`, and whether the row has the attribute
  pub field : Row → String → Option Value
  pub has_field : Row → String → Bool
  -- `hasattr(Model, name)`
  pub has_attribute : Model → String → Bool
  -- `current and isinstance(current, str)`
  pub is_text : Value → Bool
  pub now : S → Value
  pub set_field : Row → String → Value → Action S (Unit {0})
  -- a lazy load of a relationship of a row
  pub load : Row → String → Action S (Unit {0})
  pub add_all : Model → List (Dict Value) → Action S (Unit {0})
  pub flush : Action S (Unit {0})
  pub commit : Action S (Unit {0})

-- What an operation draws: the places of its choices, and its numbers.
pub record Draws : Type 0 where
  pub choice : ℕ
  pub second_choice : ℕ
  pub number : ℕ

-- `random.choice(xs)`, with the place that it draws; past the end, it is the last item
unfoldable pub chosen {ℓ} : {A : Type ℓ} → ℕ → List A → Option A
chosen n [] = none
chosen zero (x ∷ xs) = some x
chosen (suc n) (x ∷ []) = some x
chosen (suc n) (x ∷ y ∷ xs) = chosen n (y ∷ xs)

-- `xs[n]`
unfoldable pub item_at {ℓ} : {A : Type ℓ} → ℕ → List A → Option A
item_at n [] = none
item_at zero (x ∷ xs) = some x
item_at (suc n) (x ∷ xs) = item_at n xs

-- The first of the names that passes a test.
unfoldable pub first_named : (String → Bool) → List String → Option String
first_named p [] = none
first_named p (n ∷ ns) = if p n then some n else first_named p ns

-- `chain.tables[1:]`
abbrev pub tail_of : List String → List String
tail_of [] = []
tail_of (x ∷ xs) = xs

-- `get_relationship_attr`
unfoldable pub attr_to : String → List (String × Option String) → Option String
attr_to table [] = none
attr_to table ((name, none) ∷ attrs) = attr_to table attrs
attr_to table ((name, some target) ∷ attrs) =
    if target == table then some name else attr_to table attrs

module _ {S : Type 0} where
  -- `if not x: return`
  unfoldable pub when_some {ℓ} :
      {A : Type ℓ} → Option A → (A → Action S (Unit {0})) → Action S (Unit {0})
  when_some none f = pure tt
  when_some (some a) f = f a

  -- `if not b: return`
  unfoldable pub when_true : Bool → Action S (Unit {0}) → Action S (Unit {0})
  when_true false m = pure tt
  when_true true m = m

  -- `if not name: return`, where the name may also be empty
  unfoldable pub when_text : Option String → (String → Action S (Unit {0})) → Action S (Unit {0})
  unfolding when_true
  when_text none f = pure tt
  when_text (some t) f = when_true (not (t == "")) (f t)

  -- An item that has to be there.
  unfoldable pub with_item {ℓ} :
      {A : Type ℓ} → Option A → Error → (A → Action S (Unit {0})) → Action S (Unit {0})
  with_item none e f = fail e
  with_item (some a) e f = f a

  -- `ctx.profile.tables[table_name]`
  unfoldable pub profile_of :
      SchemaProfile → String → (TableProfile → Action S (Unit {0})) → Action S (Unit {0})
  profile_of profile t f = with_item (get t profile.tables) key_error f

  unfoldable pub ignore {ℓ} : {A : Type ℓ} → Action S A → Action S (Unit {0})
  ignore m = m >>= λ rows. pure tt

module _ {S Model Row Value : Type 0} (sa : Sqlalchemy S Model Row Value)
    (ctx : OperationContext) where
  -- The chain that is drawn, the model of its first table, and the relationship to its second.
  unfoldable pub on_chain :
      List FkChain → ℕ → (Model → String → Action S (Unit {0})) → Action S (Unit {0})
  on_chain chains n f = when_some (chosen n chains) (λ c.
      with_item (item_at 0 c.tables) index_error (λ root. when_some (sa.get_model root) (λ model.
        with_item (item_at 1 c.tables) index_error
          (λ child. when_some (attr_to child (sa.attributes model)) (λ rel. f model rel)))))

  unfoldable pub load_each : Row → List (Option String) → Action S (Unit {0})
  load_each row [] = pure tt
  load_each row (none ∷ rels) = load_each row rels
  load_each row (some rel ∷ rels) = sa.load row rel >> load_each row rels

  unfoldable pub load_all : List (Option String) → List Row → Action S (Unit {0})
  unfolding load_each
  load_all rels [] = pure tt
  load_all rels (row ∷ rows) = load_each row rels >> load_all rels rows

  unfoldable pub op_n_plus_1 : Draws → Action S (Unit {0})
  unfolding chosen item_at attr_to load_all
  op_n_plus_1 d = when_some (chosen d.choice ctx.chains_2) (λ c.
      with_item (item_at 0 c.tables) index_error (λ root. when_some (sa.get_model root) (λ model.
        sa.run (first_rows model 10)
        >>= load_all (map (λ t. attr_to t (sa.attributes model)) (tail_of c.tables)))))

  unfoldable pub op_eager_join : Draws → Action S (Unit {0})
  unfolding chosen item_at attr_to
  op_eager_join d =
      on_chain ctx.chains_2 d.choice (λ model rel. ignore (sa.run (joined_load model rel 5)))

  unfoldable pub op_eager_subquery : Draws → Action S (Unit {0})
  unfolding chosen item_at attr_to
  op_eager_subquery d =
      on_chain ctx.chains_2 d.choice (λ model rel. ignore (sa.run (subquery_load model rel 10)))

  unfoldable pub op_eager_selectin : Draws → Action S (Unit {0})
  unfolding chosen item_at attr_to
  op_eager_selectin d =
      on_chain ctx.chains_2 d.choice (λ model rel. ignore (sa.run (selectin_load model rel 20)))
