-- ===== src/Orm/Running/Writing.antt =====
-- The operations of the load generator that write (load-generator-orm/main.py).
use pg_stress.Prelude.{String, List, [], ◌∷◌, map, if◌then◌else◌}
use pg_stress.Prelude.Action.{Action, pure, ◌>>=◌, ◌>>◌}
use pg_stress.Prelude.Dict.{get}
use pg_stress.Prelude.Result.{ok}
use pg_stress.Orm.Introspect.{TableProfile}
use pg_stress.Orm.Introspect.Assemble.{SchemaProfile}
use pg_stress.Orm.Operations.{OperationContext}
use pg_stress.Orm.Running.{
  Sqlalchemy, Draws, random_rows, chosen, item_at, first_named, when_some, profile_of, when_text,
}
use pg_stress.Orm.Running.Cloning.{clone_row}

module _ {S Model Row Value : Type 0} (sa : Sqlalchemy S Model Row Value) (ctx : OperationContext)
    (profile : SchemaProfile) where
  abbrev add_rows : Model → TableProfile → List Row → Action S (Unit {0})
  add_rows model tp [] s = (ok tt, s)
  add_rows model tp (row ∷ rows) s =
      (sa.add_all model (map (λ r. clone_row tp (sa.now s) (sa.field r)) (row ∷ rows)) >> sa.flush)
        s

  unfoldable pub op_bulk_insert : Draws → Action S (Unit {0})
  unfolding chosen clone_row get
  op_bulk_insert d = when_some (chosen d.choice ctx.insertable) (λ t.
      when_some (sa.get_model t) (λ model.
        profile_of profile t (λ tp. sa.run (random_rows model d.number) >>= add_rows model tp)))

  -- The first timestamp column that the row has is set.
  abbrev touch_time : Row → Action S (Unit {0})
  touch_time row s =
      when_some
        (first_named (sa.has_field row)
          ("updated_at" ∷ "modified_at" ∷ "last_active" ∷ "last_login" ∷ "changed_at" ∷ []))
        (λ ts. sa.set_field row ts (sa.now s)) s

  abbrev touch_status : Row → List String → Action S (Unit {0})
  touch_status row [] = pure tt
  touch_status row (c ∷ cs) =
      when_some (sa.field row c) (λ v. if sa.is_text v then sa.set_field row c v else pure tt)

  unfoldable pub op_orm_update : Draws → Action S (Unit {0})
  unfolding chosen item_at first_named get
  op_orm_update d = when_some (chosen d.choice ctx.updatable) (λ t.
      when_some (sa.get_model t) (λ model. profile_of profile t (λ tp.
        when_text (item_at 0 tp.pk_columns) (λ pk. sa.find model d.number >>= λ found.
        when_some found
          (λ row. touch_time row >> touch_status row tp.status_columns >> sa.flush)))))
