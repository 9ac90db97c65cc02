-- ===== src/SchemaGraph/State/Agreement.antt =====
-- `cascade_tree` and `cascade_plan` (control-plane/schema_graph.py) measure depth in two ways: by
-- networkx, and by a walk of their own.
use pg_stress.Prelude.{
  ℕ, ◌≤◌, String, some, List, [], ◌∷◌, ◌==◌, ◌≡◌, eq_iff, inl, inr, Bool-cases, Option-cases, arith,
}
use pg_stress.Prelude.Dict.{Dict, get, put, get-put}
use pg_stress.Prelude.Int.{ℤ, pos}
use pg_stress.Prelude.Result.{ok, networkx_error, or_raise, bind-eq-ok}
use pg_stress.Floats.{Floats}
use pg_stress.SchemaGraph.Network.{DiGraph, Traversal}
use pg_stress.SchemaGraph.Catalog.{TableInfo, EdgeData, rows_of}
use pg_stress.SchemaGraph.Cascade.{Step, cascade_plan}
use pg_stress.SchemaGraph.Cascade.Plans.{depth_of}
use pg_stress.SchemaGraph.Cascade.Plan.{Descends, here, depth_of-shortest}
use pg_stress.SchemaGraph.State.{State}
use pg_stress.SchemaGraph.State.Views.{TreeEntry, class_of, depth_in, tree_entries, cascade_tree}

-- `v` lies `d` foreign keys below `start`, and not fewer.
abbrev pub IsShortest : {N E : Type 0} (nx : DiGraph N E) → nx.Graph → String → String → ℕ → Type 0
IsShortest nx g start v d = Descends nx g start v d × ((n : ℕ) → Descends nx g start v n → d ≤ n)

-- networkx: the length of a shortest path.
pub record ShortestPaths {N E : Type 0} (nx : DiGraph N E) : Type 0 where
  pub least :
      (g : nx.Graph) (u v : String) (d : ℕ)
      → nx.shortest_path_length g u v ≡ some d
      → IsShortest nx g u v d

module _ (fl : Floats) (nx : DiGraph TableInfo (EdgeData fl)) (paths : ShortestPaths nx)
    (s : State fl nx) (table : String) where
  depth_in-IsShortest :
      (node : String) (d : ℕ)
      → depth_in fl nx s table node ≡ ok d
      → IsShortest nx s.graph table node d
  unfolding depth_in
  depth_in-IsShortest node d e = elim (Bool-cases (node == table)) [
    | inl q ↦ let z : d ≡ 0 = ground arith in (here ((eq_iff node table).0 q) z, λ n w. omega arith)
    | inr q ↦ elim (Option-cases (nx.shortest_path_length s.graph table node)) [
      | inl none_ ↦ absurd (ground arith)
      | inr (n, found) ↦
          let same : n ≡ d = ground arith in rw same at (paths.least s.graph table node n found)
    ]
  ]

  abbrev AllShortest : Dict TreeEntry → Type 0
  AllShortest r =
      (v : String) (e : TreeEntry) → get v r ≡ some e → IsShortest nx s.graph table v e.depth

  abbrev entry : String → ℕ → TreeEntry
  entry node d = record {
    classification = class_of node s.tables;
    rows = rows_of (pos 0) node s.tables;
    depth = d;
  }

  AllShortest-put :
      (node : String) (d : ℕ) (before : Dict TreeEntry)
      → IsShortest nx s.graph table node d
      → AllShortest before
      → AllShortest (put node (entry node d) before)
  AllShortest-put node d before k h v e q = elim (Bool-cases (node == v)) [
    | inl same ↦
        let there : e.depth ≡ d = ground (arith, get-put node v (entry node d) before) in
        rw (there, ← (eq_iff node v).0 same) k
    | inr other ↦ h v e (ground (arith, get-put node v (entry node d) before))
  ]

  tree_entries-AllShortest :
      (tree : List String) (before r : Dict TreeEntry)
      → AllShortest before
      → tree_entries fl nx s table tree before ≡ ok r
      → AllShortest r
  unfolding tree_entries
  tree_entries-AllShortest [] before r h e = λ v x q. h v x (ground arith)
  tree_entries-AllShortest (node ∷ rest) before r h e =
      let (d, there, run) = bind-eq-ok (depth_in fl nx s table node) _ e in
      tree_entries-AllShortest rest (put node (entry node d) before) r
        (AllShortest-put node d before (depth_in-IsShortest node d there) h) run

  module _ (laws : Traversal nx) (count : ℤ) (plan : List (Step fl))
      (made : cascade_plan fl nx s.graph table count ≡ ok plan) where
    -- Every entry of the cascade tree of a table has the depth that the cascade plan of the same table
    -- gives it.
    pub cascade_tree-plan :
        (tree : Dict TreeEntry) (v : String) (e : TreeEntry)
        → cascade_tree fl nx s table ≡ ok tree
        → get v tree ≡ some e
        → depth_of v plan ≡ some e.depth
    unfolding cascade_tree get
    cascade_tree-plan tree v e run found =
        let (nodes, bfs, entries) =
          bind-eq-ok (or_raise (nx.bfs_tree s.graph table) networkx_error) _ run in
        (depth_of-shortest fl nx laws s.graph table count plan made v e.depth).1 (
          tree_entries-AllShortest nodes [] tree (λ u x q. absurd (ground arith)) entries v e found)
