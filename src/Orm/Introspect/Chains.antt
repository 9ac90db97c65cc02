-- ===== src/Orm/Introspect/Chains.antt =====
-- The relationships of a profile and the chains of foreign keys (load-generator-orm/introspect.py).
pub mod Simple
pub mod Complete
use pg_stress.Prelude.{
  ℕ, zero, suc, String, Bool, true, false, List, [], ◌∷◌, ◌++◌, if◌then◌else◌, ◌==◌, ◌&&◌, ◌||◌,
  elem, length, leb, not,
}
use pg_stress.Prelude.Dict.{Dict, get_or, put, keys}
use pg_stress.Orm.Introspect.{TableProfile, ForeignKey}

pub record Relationship : Type 0 where
  pub parent_table : String
  pub child_table : String
  pub fk_column : String
  pub parent_column : String

pub record FkChain : Type 0 where
  pub tables : List String
  pub depth : ℕ

-- The foreign keys of one table, without those to the table itself.
unfoldable pub table_relationships : String → List ForeignKey → List Relationship
table_relationships tname [] = []
table_relationships tname (fk ∷ fks) =
    let rest = table_relationships tname fks in
    if fk.target_table == tname
    then rest
    else record {
      parent_table = fk.target_table;
      child_table = tname;
      fk_column = fk.column;
      parent_column = fk.target_column;
    }
      ∷ rest

unfoldable pub build_relationships : Dict TableProfile → List Relationship
unfolding table_relationships
build_relationships [] = []
build_relationships ((tname, tp) ∷ tables) =
    table_relationships tname tp.foreign_keys ++ build_relationships tables

-- `children_of[rel.parent_table].append(rel.child_table)`, over a `defaultdict(list)`
unfoldable pub group_children : List Relationship → Dict (List String) → Dict (List String)
group_children [] children_of = children_of
group_children (rel ∷ rels) children_of = group_children rels (
    put rel.parent_table (get_or rel.parent_table [] children_of ++ rel.child_table ∷ [])
      children_of)

-- `if len(new_chain) >= 2`
unfoldable pub record_chain : List String → List FkChain
record_chain tables =
    if leb 2 (length tables) then record { tables = tables; depth = length tables } ∷ [] else []

-- `walk_chains(table, chain, depth, max_depth)`, with `max_depth - depth` in place of the two depths, on
-- the children of the table that are left.
unfoldable pub walk_chains : Dict (List String) → ℕ → List String → List String → List FkChain
unfolding record_chain
walk_chains children_of zero chain cs = []
walk_chains children_of (suc left) chain [] = []
walk_chains children_of (suc left) chain (child ∷ cs) =
    let rest = walk_chains children_of (suc left) chain cs in
    let below = walk_chains children_of left (chain ++ child ∷ []) (get_or child [] children_of) in
    if elem child chain then rest else record_chain (chain ++ child ∷ []) ++ (below ++ rest)

-- `for root in profile.tables: walk_chains(root, [root], 0)`
unfoldable pub walk_roots : Dict (List String) → List String → List FkChain
unfolding walk_chains
walk_roots children_of [] = []
walk_roots children_of (root ∷ roots) =
    walk_chains children_of 4 (root ∷ []) (get_or root [] children_of)
    ++ walk_roots children_of roots

unfoldable pub same_tables : List String → List String → Bool
same_tables [] [] = true
same_tables [] (y ∷ ys) = false
same_tables (x ∷ xs) [] = false
same_tables (x ∷ xs) (y ∷ ys) = x == y && same_tables xs ys

unfoldable pub is_seen : List String → List (List String) → Bool
unfolding same_tables
is_seen key [] = false
is_seen key (k ∷ seen) = same_tables k key || is_seen key seen

-- `if key not in seen`
unfoldable pub unique_chains : List (List String) → List FkChain → List FkChain
unfolding is_seen
unique_chains seen [] = []
unique_chains seen (c ∷ cs) =
    let skipped = unique_chains seen cs in
    let kept = unique_chains (c.tables ∷ seen) cs in
    if is_seen c.tables seen then skipped else c ∷ kept

-- `sorted(..., key=lambda c: -c.depth)`, which keeps the order of chains of one depth
unfoldable pub insert_chain : FkChain → List FkChain → List FkChain
insert_chain c [] = c ∷ []
insert_chain c (d ∷ ds) = if leb d.depth c.depth then c ∷ d ∷ ds else d ∷ insert_chain c ds

unfoldable pub sort_chains : List FkChain → List FkChain
unfolding insert_chain
sort_chains [] = []
sort_chains (c ∷ cs) = insert_chain c (sort_chains cs)

unfoldable pub find_chains : Dict TableProfile → Dict (List String) → List FkChain
unfolding walk_roots unique_chains sort_chains
find_chains tables children_of =
    sort_chains (unique_chains [] (walk_roots children_of (keys tables)))
