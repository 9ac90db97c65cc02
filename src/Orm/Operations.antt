-- ===== src/Orm/Operations.antt =====
-- What the operations of the load generator run on (load-generator-orm/main.py: `OperationContext`,
-- `Stats`, `pick_operation`). `has_table` is the test of the mapped models.
pub mod Picking
use pg_stress.Prelude.{
  ℕ, ◌+◌, String, Bool, true, false, List, [], ◌∷◌, ◌++◌, if◌then◌else◌, ◌==◌, ◌&&◌, ◌||◌, leb, ltb,
}
use pg_stress.Prelude.Int.{ℤ, pos, ◌+ℤ◌, leb_ℤ}
use pg_stress.Prelude.Dict.{Dict, get, get_or, put}
use pg_stress.Orm.Introspect.{TableProfile, Role, transactional, entity}
use pg_stress.Orm.Introspect.Chains.{Relationship, FkChain, group_children}
use pg_stress.Orm.Introspect.Classify.{has_any}
use pg_stress.Orm.Introspect.Assemble.{SchemaProfile}

pub record OperationContext : Type 0 where
  pub children_of : Dict (List String)
  pub parent_of : Dict (List String)
  -- (child, parent) → fk_column
  pub fk_map : List ((String × String) × String)
  pub queryable : List String
  pub chains_2 : List FkChain
  pub chains_3 : List FkChain
  pub insertable : List String
  pub updatable : List String
  pub paginable : List String
  pub aggregable : List String
  pub has_rels : List String

-- `self.parent_of[rel.child_table].append(rel.parent_table)`
unfoldable pub group_parents : List Relationship → Dict (List String) → Dict (List String)
unfolding get_or put
group_parents [] parent_of = parent_of
group_parents (rel ∷ rels) parent_of =
    group_parents rels
      (put rel.child_table (get_or rel.child_table [] parent_of ++ rel.parent_table ∷ []) parent_of)

unfoldable pub put_key :
    String × String → String → List ((String × String) × String) → List ((String × String) × String)
put_key k v [] = (k, v) ∷ []
put_key (c, p) v (((d, q), w) ∷ m) =
    let rest = put_key (c, p) v m in
    if d == c && q == p then ((d, q), v) ∷ m else ((d, q), w) ∷ rest

-- `self.fk_map[(rel.child_table, rel.parent_table)] = rel.fk_column`
unfoldable pub map_keys :
    List Relationship → List ((String × String) × String) → List ((String × String) × String)
unfolding put_key
map_keys [] m = m
map_keys (rel ∷ rels) m =
    map_keys rels (put_key (rel.child_table, rel.parent_table) rel.fk_column m)

-- `[t for t, tp in profile.tables.items() if p(t, tp)]`
unfoldable pub tables_where : (String → TableProfile → Bool) → Dict TableProfile → List String
tables_where p [] = []
tables_where p ((t, tp) ∷ tables) =
    let rest = tables_where p tables in if p t tp then t ∷ rest else rest

unfoldable pub all_mapped : (String → Bool) → List String → Bool
all_mapped has_table [] = true
all_mapped has_table (t ∷ ts) = has_table t && all_mapped has_table ts

unfoldable pub chains_from : (String → Bool) → ℕ → List FkChain → List FkChain
unfolding all_mapped
chains_from has_table depth [] = []
chains_from has_table depth (c ∷ cs) =
    let rest = chains_from has_table depth cs in
    if leb depth c.depth && all_mapped has_table c.tables then c ∷ rest else rest

-- `profile.tables[t].row_count > 0`; the groups name tables of the profile.
unfoldable pub row_count_in : String → Dict TableProfile → ℕ
row_count_in t [] = 0
row_count_in t ((u, tp) ∷ tables) = if u == t then tp.row_count else row_count_in t tables

unfoldable pub insertable_in : (String → Bool) → Dict TableProfile → List String → List String
unfolding row_count_in
insertable_in has_table tables [] = []
insertable_in has_table tables (t ∷ ts) =
    let rest = insertable_in has_table tables ts in
    if has_table t && ltb 0 (row_count_in t tables) then t ∷ rest else rest

abbrev is_updated_role : Role → Bool
is_updated_role transactional = true
is_updated_role entity = true
is_updated_role _ = false

-- `OperationContext(models, profile)`
unfoldable pub operation_context : (String → Bool) → SchemaProfile → OperationContext
unfolding group_children group_parents map_keys tables_where chains_from insertable_in get_or
operation_context has_table profile =
    let children_of = group_children profile.relationships [] in
    record {
      children_of = children_of;
      parent_of = group_parents profile.relationships [];
      fk_map = map_keys profile.relationships [];
      queryable = tables_where (λ t tp. leb 100 tp.row_count && has_table t) profile.tables;
      chains_2 = chains_from has_table 2 profile.fk_chains;
      chains_3 = chains_from has_table 3 profile.fk_chains;
      insertable =
          insertable_in has_table profile.tables
            (profile.append_only_tables ++ profile.transactional_tables);
      updatable =
          tables_where
            (λ t tp.
              has_any tp.timestamp_columns
              && (has_table t && (leb 100 tp.row_count && is_updated_role tp.role)))
            profile.tables;
      paginable =
          tables_where
            (λ t tp. leb 1000 tp.row_count && (has_any tp.timestamp_columns && has_table t))
            profile.tables;
      aggregable =
          tables_where
            (λ t tp.
              has_any tp.numeric_columns
              && (has_any tp.foreign_keys && (leb 1000 tp.row_count && has_table t)))
            profile.tables;
      has_rels =
          tables_where
            (λ t tp. has_any (get_or t [] children_of) && (has_table t && leb 100 tp.row_count))
            profile.tables;
    }

-- `max_id`
unfoldable pub max_id : SchemaProfile → String → ℕ
unfolding get_or
max_id profile table = get_or table 1000 profile.max_ids

-- `Stats.inc`
unfoldable pub inc : String → Dict ℕ → Dict ℕ
unfolding get_or put
inc key counters = put key (get_or key 0 counters + 1) counters

-- The loop over `MIX` that builds `_thresholds`, from the sum of the weights before.
unfoldable pub thresholds : ℤ → Dict ℤ → List (ℤ × String)
thresholds cumulative [] = []
thresholds cumulative ((name, weight) ∷ mix) =
    (cumulative +ℤ weight, name) ∷ thresholds (cumulative +ℤ weight) mix

-- `_total_weight`
unfoldable pub total_weight : Dict ℤ → ℤ
total_weight [] = pos 0
total_weight ((name, weight) ∷ mix) = weight +ℤ total_weight mix

-- `return _thresholds[-1][1]`
unfoldable pub last_name : String → List (ℤ × String) → String
last_name fallback [] = fallback
last_name fallback ((t, name) ∷ ts) = last_name name ts

-- The loop of `pick_operation`; `fallback` is the last name.
unfoldable pub first_within : ℤ → String → List (ℤ × String) → String
first_within r fallback [] = fallback
first_within r fallback ((threshold, name) ∷ ts) =
    if leb_ℤ r threshold then name else first_within r fallback ts

-- `pick_operation`, with the number that `random.randint(1, _total_weight)` draws
unfoldable pub pick_operation : Dict ℤ → ℤ → String
unfolding thresholds last_name first_within
pick_operation mix r = let ts = thresholds (pos 0) mix in first_within r (last_name "" ts) ts
