-- ===== src/Orm/Introspect/Classify.antt =====
-- The role of a table (load-generator-orm/introspect.py: `_classify_table`).
use pg_stress.Prelude.{
  String, Bool, true, false, List, [], ◌∷◌, if◌then◌else◌, ◌&&◌, ◌||◌, not, elem, ltb,
}
use pg_stress.Prelude.Dict.{Dict, get_or}
use pg_stress.Orm.Introspect.{
  TableProfile, Role, entity, transactional, append_only, lookup, hierarchical,
}

-- `len(xs) > 0`
abbrev pub has_any {ℓ} : {A : Type ℓ} → List A → Bool
has_any [] = false
has_any (x ∷ xs) = true

abbrev any_of : List String → List String → Bool
any_of [] names = false
any_of (c ∷ cs) names = elem c names || any_of cs names

-- `has_updated_at`
unfoldable pub has_updated : TableProfile → Bool
has_updated tp = any_of ("updated_at" ∷ "modified_at" ∷ "changed_at" ∷ []) tp.timestamp_columns

-- `has_only_created`
unfoldable pub only_created : TableProfile → Bool
unfolding has_updated
only_created tp =
    has_any tp.timestamp_columns
    && (not (has_updated tp)
        && any_of ("created_at" ∷ "logged_at" ∷ "recorded_at" ∷ "redeemed_at" ∷ [])
            tp.timestamp_columns)

unfoldable pub classify_table : TableProfile → Dict (List String) → Role
unfolding has_updated only_created
classify_table tp children_of =
    let has_children = has_any (get_or tp.name [] children_of) in
    let has_fks = has_any tp.foreign_keys in
    let has_timestamps = has_any tp.timestamp_columns in
    let has_status = has_any tp.status_columns in
    if tp.has_self_fk
    then hierarchical
    else if ltb tp.row_count 10000 && (has_children && not has_fks)
    then lookup
    else if only_created tp && (not has_status && not has_children)
    then append_only
    else if has_status && has_updated tp
    then transactional
    else if has_children && has_timestamps
    then entity
    else if has_fks && not has_children
    then (if has_updated tp then transactional else append_only)
    else if has_children
    then entity
    else if has_timestamps
    then transactional
    else lookup
