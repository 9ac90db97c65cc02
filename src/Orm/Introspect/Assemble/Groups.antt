-- ===== src/Orm/Introspect/Assemble/Groups.antt =====
-- The counts of a profile (load-generator-orm/introspect.py).
use pg_stress.Prelude.{
  ℕ, ◌+◌, ◌≤◌, ◌∙◌, inl, inr, Bool-cases, Bool, false, String, true, some, List, [], ◌∷◌, length,
  max, ◌≡◌, refl, arith, length-append, ◌==◌,
}
use pg_stress.Prelude.Dict.{Dict, put, get, get-put}
use pg_stress.Orm.Introspect.{
  TableProfile, Answers, Role, unknown, entity, transactional, append_only, lookup, hierarchical,
}
use pg_stress.Orm.Introspect.Chains.{build_relationships, group_children}
use pg_stress.Orm.Introspect.Classify.{classify_table}
use pg_stress.Orm.Introspect.Assemble.{
  SchemaProfile, read_tables, file_under, set_roles, file_tables, count_rows, introspect_schema,
}

-- The tables of the five groups together.
abbrev pub grouped_count : SchemaProfile → ℕ
grouped_count p =
    length p.entity_tables
    + length p.transactional_tables
    + length p.append_only_tables
    + length p.lookup_tables
    + length p.hierarchical_tables

abbrev pub row_sum : Dict TableProfile → ℕ
row_sum [] = 0
row_sum ((t, tp) ∷ tables) = tp.row_count + row_sum tables

-- Every id is at least one.
abbrev pub AtLeastOne : Dict ℕ → Type 0
AtLeastOne d = (t : String) (n : ℕ) → get t d ≡ some n → 1 ≤ n

-- One of the roles that a group is for.
abbrev is_known : Role → Bool
is_known unknown = false
is_known _ = true

classify_table-known :
    (tp : TableProfile) (children_of : Dict (List String))
    → is_known (classify_table tp children_of) ≡ true
unfolding classify_table
classify_table-known tp children_of = ground arith

file_under-grouped :
    (r : Role) (t : String) (p : SchemaProfile)
    → is_known r ≡ true
    → grouped_count (file_under r t p) ≡ 1 + grouped_count p
unfolding file_under
file_under-grouped unknown t p h = absurd (cc)
file_under-grouped entity t p h = omega (arith, length-append p.entity_tables (t ∷ []))
file_under-grouped transactional t p h =
    omega (arith, length-append p.transactional_tables (t ∷ []))
file_under-grouped append_only t p h = omega (arith, length-append p.append_only_tables (t ∷ []))
file_under-grouped lookup t p h = omega (arith, length-append p.lookup_tables (t ∷ []))
file_under-grouped hierarchical t p h = omega (arith, length-append p.hierarchical_tables (t ∷ []))

file_tables-grouped :
    (children_of : Dict (List String)) (tables : Dict TableProfile) (p : SchemaProfile)
    → grouped_count (file_tables (set_roles children_of tables) p) ≡ length tables + grouped_count p
unfolding file_tables set_roles
file_tables-grouped children_of [] p = omega arith
file_tables-grouped children_of ((t, tp) ∷ tables) p =
    let r = classify_table tp children_of in
    omega (
      arith,
      file_tables-grouped children_of tables (file_under r t p),
      file_under-grouped r t p (classify_table-known tp children_of),
    )

count_rows-total :
    (tables : Dict TableProfile) (p : SchemaProfile)
    → (count_rows tables p).total_rows ≡ p.total_rows + row_sum tables
unfolding count_rows
count_rows-total [] p = omega arith
count_rows-total ((t, tp) ∷ tables) p = omega (arith, count_rows-total tables _)

count_rows-kept :
    (tables : Dict TableProfile) (p : SchemaProfile)
    → (grouped_count (count_rows tables p) ≡ grouped_count p)
      × ((count_rows tables p).tables ≡ p.tables)
unfolding count_rows
count_rows-kept [] p = (refl, refl)
count_rows-kept ((t, tp) ∷ tables) p = let (g, k) = count_rows-kept tables _ in (g, k)

file_under-kept :
    (r : Role) (t : String) (p : SchemaProfile)
    → ((file_under r t p).tables ≡ p.tables)
      × ((file_under r t p).total_rows ≡ p.total_rows)
      × ((file_under r t p).max_ids ≡ p.max_ids)
unfolding file_under
file_under-kept unknown t p = (refl, refl, refl)
file_under-kept entity t p = (refl, refl, refl)
file_under-kept transactional t p = (refl, refl, refl)
file_under-kept append_only t p = (refl, refl, refl)
file_under-kept lookup t p = (refl, refl, refl)
file_under-kept hierarchical t p = (refl, refl, refl)

file_tables-kept :
    (tables : Dict TableProfile) (p : SchemaProfile)
    → ((file_tables tables p).tables ≡ p.tables)
      × ((file_tables tables p).total_rows ≡ p.total_rows)
      × ((file_tables tables p).max_ids ≡ p.max_ids)
unfolding file_tables
file_tables-kept [] p = (refl, refl, refl)
file_tables-kept ((t, tp) ∷ tables) p =
    let (a, b, c) = file_tables-kept tables (file_under tp.role t p) in
    let (x, y, z) = file_under-kept tp.role t p in (a ∙ x, b ∙ y, c ∙ z)

AtLeastOne-put : (t : String) (n : ℕ) (d : Dict ℕ) → AtLeastOne d → AtLeastOne (put t (max n 1) d)
AtLeastOne-put t n d h u m e = elim (Bool-cases (t == u)) [
  | inl q ↦ ground (arith, get-put t u (max n 1) d)
  | inr q ↦ h u m (ground (arith, get-put t u (max n 1) d))
]

count_rows-AtLeastOne :
    (tables : Dict TableProfile) (p : SchemaProfile)
    → AtLeastOne p.max_ids
    → AtLeastOne (count_rows tables p).max_ids
unfolding count_rows
count_rows-AtLeastOne [] p h = h
count_rows-AtLeastOne ((t, tp) ∷ tables) p h =
    count_rows-AtLeastOne tables _ (AtLeastOne-put t tp.row_count p.max_ids h)

none_named : AtLeastOne []
unfolding get
none_named t n e = absurd (cc)

length-set_roles :
    (children_of : Dict (List String)) (tables : Dict TableProfile)
    → length (set_roles children_of tables) ≡ length tables
unfolding set_roles
length-set_roles children_of [] = refl
length-set_roles children_of ((t, tp) ∷ tables) = omega (arith, length-set_roles children_of tables)

-- The last steps of the introspection, from a profile whose groups and counts are still empty.
filed_counts :
    (children_of : Dict (List String)) (tables : Dict TableProfile) (p : SchemaProfile)
    → p.tables ≡ set_roles children_of tables
    → grouped_count p ≡ 0
    → p.total_rows ≡ 0
    → p.max_ids ≡ []
    → let roles = set_roles children_of tables in
      let q = count_rows roles (file_tables roles p) in
      (grouped_count q ≡ length q.tables) × (q.total_rows ≡ row_sum q.tables) × AtLeastOne q.max_ids
filed_counts children_of tables p e g r m =
    let roles = set_roles children_of tables in
    let filed = file_tables roles p in
    let (same, rows, ids) = file_tables-kept roles p in
    let (kept, there) = count_rows-kept roles filed in
    let all : (count_rows roles filed).tables ≡ roles = there ∙ same ∙ e in
    let none_yet : AtLeastOne filed.max_ids = rw (ids, m) none_named in
    (
      rw all (
          omega (
            arith,
            kept,
            file_tables-grouped children_of tables p,
            length-set_roles children_of tables,
          )),
      rw all (omega (arith, count_rows-total roles filed)),
      count_rows-AtLeastOne roles filed none_yet,
    )

-- Whatever the inspector answers, the five groups of the profile have as many names as it has tables,
-- its row total is the sum over its tables, and every highest id is at least one.
pub introspect_schema-counts :
    (lower : String → String) (answers : String → Answers) (names : List String)
    → (database size : String)
    → let p = introspect_schema lower answers names database size in
      (grouped_count p ≡ length p.tables) × (p.total_rows ≡ row_sum p.tables) × AtLeastOne p.max_ids
unfolding introspect_schema get
introspect_schema-counts lower answers names database size =
    let tables = read_tables lower answers names [] in
    filed_counts (group_children (build_relationships tables) []) tables _ refl refl refl refl
