-- ===== src/Orm/Running/Queries.antt =====
-- The operations of the load generator that page, add up and filter (load-generator-orm/main.py).
use pg_stress.Prelude.{
  ◌*◌, String, Bool, Option, some, none, List, [], ◌∷◌, not, if◌then◌else◌, ◌==◌, ◌&&◌,
}
use pg_stress.Prelude.Action.{Action}
use pg_stress.Prelude.Dict.{get, get_or}
use pg_stress.Prelude.Result.{index_error}
use pg_stress.Orm.Introspect.{ForeignKey, TableProfile}
use pg_stress.Orm.Introspect.Assemble.{SchemaProfile}
use pg_stress.Orm.Introspect.Printed.{first_chains}
use pg_stress.Orm.Operations.{OperationContext}
use pg_stress.Orm.Running.{
  Sqlalchemy, Draws, Statement, page, grouped_sums, sums, where_any, join_on, chosen, item_at,
  first_named, attr_to, when_some, profile_of, when_text, when_true, with_item, ignore,
}

unfoldable pub fk_between : String → String → List ((String × String) × String) → Option String
fk_between child parent [] = none
fk_between child parent (((c, p), column) ∷ m) =
    if c == child && p == parent then some column else fk_between child parent m

module _ {S Model Row Value : Type 0} (sa : Sqlalchemy S Model Row Value) (ctx : OperationContext)
    (profile : SchemaProfile) where
  abbrev first_of : Option String → Option String → Option String
  first_of none o = o
  first_of (some a) o = some a

  abbrev key_column : Model → List String → Option String
  key_column model [] = none
  key_column model (pk ∷ pks) =
      if not (pk == "") && sa.has_attribute model pk then some pk else none

  -- The column that a page is ordered by.
  unfoldable pub order_column : Model → TableProfile → Option String
  unfolding first_named
  order_column model tp =
      first_of
        (first_named (sa.has_attribute model)
          ("created_at" ∷ "placed_at" ∷ "logged_at" ∷ "recorded_at" ∷ []))
        (key_column model tp.pk_columns)

  -- The second choice is the size of a page, and the number is the page.
  unfoldable pub op_pagination : Draws → Action S (Unit {0})
  unfolding chosen order_column get
  op_pagination d = when_some (chosen d.choice ctx.paginable) (λ t.
      when_some (sa.get_model t) (λ model. profile_of profile t (λ tp.
        when_some (order_column model tp) (λ column.
          when_some (chosen d.second_choice (10 ∷ 20 ∷ 25 ∷ 50 ∷ []))
            (λ page_size. ignore (sa.run (page model column page_size (d.number * page_size))))))))

  -- `for fk in tp.foreign_keys:`
  unfoldable pub group_column : (String → Bool) → List ForeignKey → Option String
  group_column p [] = none
  group_column p (fk ∷ fks) = if p fk.column then some fk.column else group_column p fks

  abbrev sums_of : Model → String → Option String → Statement Model
  sums_of model num none = sums model num
  sums_of model num (some fk) = if fk == "" then sums model num else grouped_sums model fk num

  unfoldable pub op_aggregation : Draws → Action S (Unit {0})
  unfolding chosen group_column get
  op_aggregation d = when_some (chosen d.choice ctx.aggregable) (λ t.
      when_some (sa.get_model t) (λ model. profile_of profile t (λ tp.
        with_item (chosen d.second_choice tp.numeric_columns) index_error (λ num.
          when_true (sa.has_attribute model num) (
            ignore (
              sa.run
                (sums_of model num (group_column (sa.has_attribute model) tp.foreign_keys))))))))

  unfoldable pub op_exists_filter : Draws → Action S (Unit {0})
  unfolding chosen attr_to fk_between get_or
  op_exists_filter d = when_some (chosen d.choice ctx.has_rels) (λ parent.
      when_some (sa.get_model parent) (λ model.
        with_item (chosen d.second_choice (get_or parent [] ctx.children_of)) index_error (λ child.
          when_text (fk_between child parent ctx.fk_map) (λ column.
            when_some (attr_to child (sa.attributes model))
              (λ rel. ignore (sa.run (where_any model rel 20)))))))

  unfoldable pub op_relationship_filter : Draws → Action S (Unit {0})
  unfolding chosen item_at attr_to first_chains
  op_relationship_filter d = when_some (chosen d.choice (first_chains 10 ctx.chains_2)) (λ c.
      with_item (item_at 0 c.tables) index_error (λ root.
        with_item (item_at 1 c.tables) index_error (λ child. when_some (sa.get_model root) (λ model.
          when_some (sa.get_model child) (λ child_model.
            when_some (attr_to child (sa.attributes model))
              (λ rel. ignore (sa.run (join_on model rel 20))))))))
