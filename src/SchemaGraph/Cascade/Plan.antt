-- ===== src/SchemaGraph/Cascade/Plan.antt =====
-- What `cascade_plan` returns: a breadth-first plan of everything below the start table.
use pg_stress.Prelude.{
  ℕ, zero, suc, ◌≤◌, String, true, false, some, List, [], ◌∷◌, append-nil, length, elem, distinct,
  All, ◌≡◌, refl, inl, inr, arith, eq_self, Option-cases, Bool-cases, ◌↔◌,
}
use pg_stress.Prelude.Int.{ℤ, pos}
use pg_stress.Prelude.Result.{ok, raise, networkx_error}
use pg_stress.Floats.{Floats}
use pg_stress.SchemaGraph.Network.{DiGraph, HasEdge, Traversal}
use pg_stress.SchemaGraph.Catalog.{EdgeData}
use pg_stress.SchemaGraph.Cascade.{Step, child_step, root_step, search, cascade_plan}
use pg_stress.SchemaGraph.Cascade.Visit.{tables}
use pg_stress.SchemaGraph.Cascade.Plans.{depth_of, Sorted, entry_of}
use pg_stress.SchemaGraph.Cascade.Walk.{IsLinked, IsClosed, Good, search-Good}

-- A way down of `n` foreign keys from the start table to `v`.
pub data Descends {N E : Type 0} (nx : DiGraph N E) (g : nx.Graph) (start : String)
    : String → ℕ → Type 0 where
  here : {v : String} {n : ℕ} → v ≡ start → n ≡ 0 → Descends nx g start v n
  down :
      {u v : String} {m n : ℕ}
      → Descends nx g start u m
      → HasEdge nx g u v
      → n ≡ suc m
      → Descends nx g start v n

module _ (fl : Floats) (table : String) (count : ℤ) where
  abbrev pub root : Step fl
  root = root_step fl (fl.of_int (pos 1)) table count

module _ (fl : Floats) {N : Type 0} (nx : DiGraph N (EdgeData fl)) (laws : Traversal nx)
    (g : nx.Graph) (table : String) (count : ℤ) where
  -- The entries of the plan, and their order.
  pub record IsBreadthFirst (plan : List (Step fl)) : Type 0 where
    pub starts : (below : List (Step fl)) × (plan ≡ root fl table count ∷ below)
    pub once : distinct (tables plan) ≡ true
    pub ordered : Sorted plan
    pub linked : All (IsLinked fl nx laws g count (root fl table count) plan) plan
    pub closed : IsClosed fl nx laws g count (root fl table count) plan plan

  start_Good :
      elem table (nx.nodes g) ≡ true
      → Good fl nx laws g count (root fl table count) [] (root fl table count ∷ []) 0
  unfolding root_step
  start_Good known = record {
    starts = ([], refl);
    once = refl;
    known = (known, tt);
    behind = tt;
    ahead = ((omega arith, omega arith), tt);
    ordered = (tt, tt);
    linked = (inl refl, tt);
    closed = λ u v d e. absurd (cc);
  }

  -- If the start table is in the graph, the plan is made: it starts with that table, names no table
  -- twice, never goes back to a smaller depth, each later entry is the child step of a planned table
  -- that has a foreign key from it, and each child of a planned table is planned, at most one deeper.
  pub cascade_plan_total :
      elem table (nx.nodes g) ≡ true
      → (plan : List (Step fl)) × (cascade_plan fl nx g table count ≡ ok plan) × IsBreadthFirst plan
  unfolding cascade_plan root_step
  cascade_plan_total known =
      let (plan, run, last, good) =
        search-Good fl nx laws g count (root fl table count) (suc (length (nx.nodes g))) []
          (root fl table count ∷ []) 0 (omega arith) (start_Good known) in
      (
        plan,
        run,
        record {
          starts = rw append-nil at good.starts;
          once = rw append-nil at good.once;
          ordered = rw append-nil at good.ordered;
          linked = rw append-nil at good.linked;
          closed = rw append-nil at good.closed;
        },
      )

  -- If the start table is not in the graph, planning raises the error of networkx.
  pub cascade_plan_absent :
      elem table (nx.nodes g) ≡ false → cascade_plan fl nx g table count ≡ raise networkx_error
  unfolding cascade_plan search
  cascade_plan_absent absent = elim (Option-cases (nx.successors g table)) [
    | inl e ↦ rw e
    | inr (cs, e) ↦ absurd (cc (laws.node_of_successors g table cs e))
  ]

  module _ (plan : List (Step fl)) (h : IsBreadthFirst plan) where
    start_depth : depth_of table plan ≡ some 0
    unfolding root_step
    start_depth = rw h.starts.1 (rw eq_self)

    -- Everything below the start table is planned, no deeper than it lies.
    depth_of_descent :
        {v : String} {n : ℕ}
        → Descends nx g table v n
        → (d : ℕ) × (depth_of v plan ≡ some d) × (d ≤ n)
    depth_of_descent (here e z) = (0, rw e start_depth, omega arith)
    depth_of_descent {v} (down {u = u} up edge k) =
        let (du, e, b) = depth_of_descent up in
        let (d, q, c) = h.closed u v du e edge in (d, q, omega arith)

    -- The depth of a planned table is the length of a way down to it.
    descent_of_depth : (d : ℕ) (v : String) → depth_of v plan ≡ some d → Descends nx g table v d
    unfolding root_step child_step
    descent_of_depth zero v e =
        let (s, link, t, k) = entry_of v zero plan h.linked e in
        elim link [
          | inl q ↦ here (ground arith) refl
          | inr (u, m, p, (a, found, q)) ↦ absurd (ground arith)
        ]
    descent_of_depth (suc d) v e =
        let (s, link, t, k) = entry_of v (suc d) plan h.linked e in
        elim link [
          | inl q ↦ absurd (ground arith)
          | inr (u, m, p, (a, found, q)) ↦
              down (descent_of_depth d u (ground arith)) (a, rw t at found) refl
        ]

  module _ (plan : List (Step fl)) (made : cascade_plan fl nx g table count ≡ ok plan) where
    known_of_plan : elem table (nx.nodes g) ≡ true
    known_of_plan = elim (Bool-cases (elem table (nx.nodes g))) [
      | inl e ↦ e
      | inr e ↦ absurd (cc (cascade_plan_absent e))
    ]

    plan-IsBreadthFirst : IsBreadthFirst plan
    plan-IsBreadthFirst =
        let (made', q, b) = cascade_plan_total known_of_plan in
        let same : made' ≡ plan = cc in rw same at b

    -- A table is planned at depth `d` exactly when `d` is the least number of foreign keys on a way
    -- from the start table down to it.
    pub depth_of-shortest :
        (v : String) (d : ℕ)
        → (depth_of v plan ≡ some d)
          ↔ (Descends nx g table v d × ((n : ℕ) → Descends nx g table v n → d ≤ n))
    depth_of-shortest v d = (
      (λ e. (
        descent_of_depth plan plan-IsBreadthFirst d v e,
        λ n w. let (m, q, b) = depth_of_descent plan plan-IsBreadthFirst w in ground arith,
      )),
      λ w.
          let (m, q, b) = depth_of_descent plan plan-IsBreadthFirst w.0 in
          let le : d ≤ m = w.1 m (descent_of_depth plan plan-IsBreadthFirst m v q) in
          let same : m ≡ d = omega arith in rw (← same) q,
    )
