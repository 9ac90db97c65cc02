-- ===== src/SchemaGraph/Cascade/Walk.antt =====
-- The invariant of the walk of `cascade_plan`: the plan is what has left the queue, then the queue.
use pg_stress.Prelude.{
  ℕ, zero, suc, ◌+◌, ◌≤◌, String, true, some, List, [], ◌∷◌, ◌++◌, append-nil, append_assoc, length,
  length-append, elem, distinct, All, All-append, All-map, All-and, All-right, distinct-left, ◌≡◌,
  ◌⊎◌, refl, inl, inr, arith,
}
use pg_stress.Prelude.Distinct.{length-le_of_distinct}
use pg_stress.Prelude.Int.{ℤ}
use pg_stress.Prelude.Result.{ok}
use pg_stress.Floats.{Floats}
use pg_stress.SchemaGraph.Network.{DiGraph, HasEdge, Traversal}
use pg_stress.SchemaGraph.Catalog.{EdgeData}
use pg_stress.SchemaGraph.Cascade.{Step, child_step, search}
use pg_stress.SchemaGraph.Cascade.Visit.{
  tables, tables-append, keys, keys-append, IsChild, Turn, visit-Turn,
}
use pg_stress.SchemaGraph.Cascade.Plans.{
  depth_of, Sorted, Sorted-append, Sorted-right, depth_of_last, Sorted-of_level, depth_of_left,
  depth_of-elem, depth_of-snoc,
}

module _ (fl : Floats) {N : Type 0} (nx : DiGraph N (EdgeData fl)) (laws : Traversal nx)
    (g : nx.Graph) (count : ℤ) (root : Step fl) where
  -- The entry is the first one, or that of a child of a table of the list.
  abbrev pub IsLinked : List (Step fl) → Step fl → Type 0
  IsLinked done s =
      (s ≡ root)
      ⊎ ((u : String) × (d : ℕ) × (depth_of u done ≡ some d) × IsChild fl nx g count u d s)

  -- Each child of a processed table is planned, at most one level deeper.
  abbrev pub IsClosed : List (Step fl) → List (Step fl) → Type 0
  IsClosed done plan =
      (u v : String) (d : ℕ)
      → depth_of u done ≡ some d
      → HasEdge nx g u v
      → (dv : ℕ) × (depth_of v plan ≡ some dv) × (dv ≤ d + 1)

  pub record Good (done pending : List (Step fl)) (level : ℕ) : Type 0 where
    pub starts : (below : List (Step fl)) × (done ++ pending ≡ root ∷ below)
    pub once : distinct (tables (done ++ pending)) ≡ true
    pub known : All (λ t. elem t (nx.nodes g) ≡ true) (tables (done ++ pending))
    pub behind : All (λ s. s.depth ≤ level) done
    pub ahead : All (λ s. (level ≤ s.depth) × (s.depth ≤ level + 1)) pending
    pub ordered : Sorted (done ++ pending)
    pub linked : All (IsLinked done) (done ++ pending)
    pub closed : IsClosed done (done ++ pending)

  IsLinked-grow :
      (done ys : List (Step fl)) (s : Step fl) → IsLinked done s → IsLinked (done ++ ys) s
  IsLinked-grow done ys s (inl e) = inl e
  IsLinked-grow done ys s (inr (u, d, e, c)) = inr (u, d, depth_of_left u d done ys e, c)

  IsChild-depth : (u : String) (d : ℕ) (s : Step fl) → IsChild fl nx g count u d s → s.depth ≡ d + 1
  unfolding child_step
  IsChild-depth u d s (e, found, q) = ground arith

  children_level :
      (u : String) (d : ℕ) (new : List (Step fl))
      → All (IsChild fl nx g count u d) new
      → All (λ s. s.depth ≡ d + 1) new
  children_level u d new =
      All-map (IsChild fl nx g count u d) (λ s. s.depth ≡ d + 1) new (IsChild-depth u d)

  children_known :
      (u : String) (d : ℕ) (new : List (Step fl))
      → All (IsChild fl nx g count u d) new
      → All (λ t. elem t (nx.nodes g) ≡ true) (tables new)
  children_known u d [] h = tt
  children_known u d (s ∷ new) h =
      (laws.node_of_edge g u s.table h.0.0 h.0.1, children_known u d new h.1)

  length-tables : (xs : List (Step fl)) → length (tables xs) ≡ length xs
  length-tables [] = refl
  length-tables (x ∷ xs) = omega (arith, length-tables xs)

  -- No plan is longer than the list of the graph's nodes.
  pub Good-length :
      (done pending : List (Step fl)) (level : ℕ)
      → Good done pending level
      → length done + length pending ≤ length (nx.nodes g)
  Good-length done pending level h = omega (
    arith,
    length-le_of_distinct (tables (done ++ pending)) (nx.nodes g) h.once h.known,
    length-tables (done ++ pending),
    length-append {A = Step fl} done pending,
  )

  module _ (done rest : List (Step fl)) (s : Step fl) (level : ℕ) (cs : List String)
      (found : nx.successors g s.table ≡ some cs) (h : Good done (s ∷ rest) level)
      (t : Turn fl nx g count s.table s.depth cs (done ++ s ∷ rest) (keys rest)) where
    turn_regroup : (done ++ s ∷ []) ++ (rest ++ t.added) ≡ (done ++ s ∷ rest) ++ t.added
    turn_regroup = simp append_assoc

    turn_levels : All (λ e. e.depth ≡ s.depth + 1) t.added
    turn_levels = children_level s.table s.depth t.added t.children

    turn_behind : All (λ e. e.depth ≤ s.depth) (done ++ s ∷ [])
    turn_behind =
        All-append (λ e. e.depth ≤ s.depth) done (s ∷ [])
          (All-map (λ e. e.depth ≤ level) (λ e. e.depth ≤ s.depth) done
            (λ e b. omega (arith, h.ahead.0.0)) h.behind)
          (omega arith, tt)

    turn_rest : All (λ e. e.depth ≤ s.depth + 1) rest
    turn_rest =
        All-map (λ e. (level ≤ e.depth) × (e.depth ≤ level + 1)) (λ e. e.depth ≤ s.depth + 1) rest
          (λ e b. omega (arith, h.ahead.0.0)) h.ahead.1

    turn_bound : All (λ e. e.depth ≤ s.depth + 1) (done ++ s ∷ rest)
    turn_bound =
        All-append (λ e. e.depth ≤ s.depth + 1) done (s ∷ rest)
          (All-map (λ e. e.depth ≤ level) (λ e. e.depth ≤ s.depth + 1) done
            (λ e b. omega (arith, h.ahead.0.0)) h.behind)
          (omega arith, turn_rest)

    turn_ahead : All (λ e. (s.depth ≤ e.depth) × (e.depth ≤ s.depth + 1)) (rest ++ t.added)
    turn_ahead =
        All-append (λ e. (s.depth ≤ e.depth) × (e.depth ≤ s.depth + 1)) rest t.added
          (All-and (λ e. s.depth ≤ e.depth) (λ e. e.depth ≤ s.depth + 1) rest
            (Sorted-right done (s ∷ rest) h.ordered).0 turn_rest)
          (All-map (λ e. e.depth ≡ s.depth + 1) (λ e. (s.depth ≤ e.depth) × (e.depth ≤ s.depth + 1))
            t.added (λ e q. (omega arith, omega arith)) turn_levels)

    turn_ordered : Sorted ((done ++ s ∷ rest) ++ t.added)
    turn_ordered =
        Sorted-append (s.depth + 1) (done ++ s ∷ rest) t.added h.ordered
          (Sorted-of_level (s.depth + 1) t.added turn_levels) turn_bound
          (All-map (λ e. e.depth ≡ s.depth + 1) (λ e. s.depth + 1 ≤ e.depth) t.added
            (λ e q. omega arith) turn_levels)

    turn_known : All (λ n. elem n (nx.nodes g) ≡ true) (tables ((done ++ s ∷ rest) ++ t.added))
    turn_known = rw tables-append (
        All-append (λ n. elem n (nx.nodes g) ≡ true) (tables (done ++ s ∷ rest)) (tables t.added)
          h.known (children_known s.table s.depth t.added t.children))

    turn_place : depth_of s.table (done ++ s ∷ []) ≡ some s.depth
    turn_place =
        depth_of_last s done
          (distinct-left s.table (tables done) (tables rest) (rw tables-append at h.once))

    turn-IsLinked : All (IsLinked (done ++ s ∷ [])) ((done ++ s ∷ rest) ++ t.added)
    turn-IsLinked =
        All-append (IsLinked (done ++ s ∷ [])) (done ++ s ∷ rest) t.added
          (All-map (IsLinked done) (IsLinked (done ++ s ∷ [])) (done ++ s ∷ rest)
            (IsLinked-grow done (s ∷ [])) h.linked)
          (All-map (IsChild fl nx g count s.table s.depth) (IsLinked (done ++ s ∷ [])) t.added
            (λ e c. inr (s.table, s.depth, turn_place, c)) t.children)

    turn_all : All (λ e. e.depth ≤ s.depth + 1) ((done ++ s ∷ rest) ++ t.added)
    turn_all =
        All-append (λ e. e.depth ≤ s.depth + 1) (done ++ s ∷ rest) t.added turn_bound
          (All-map (λ e. e.depth ≡ s.depth + 1) (λ e. e.depth ≤ s.depth + 1) t.added
            (λ e q. omega arith) turn_levels)

    turn-IsClosed : IsClosed (done ++ s ∷ []) ((done ++ s ∷ rest) ++ t.added)
    turn-IsClosed u v d e edge = elim (depth_of-snoc u d done s e) [
      | inl old ↦
          let (dv, q, b) = h.closed u v d old edge in
          (dv, depth_of_left v dv (done ++ s ∷ rest) t.added q, b)
      | inr (p, q) ↦
          let there = laws.successor_of_edge g u v edge.0 cs edge.1 (rw p at found) in
          let (dv, r, b) =
            depth_of-elem v (s.depth + 1) ((done ++ s ∷ rest) ++ t.added) (t.covered v there)
              turn_all in
          (dv, r, omega arith)
    ]

    -- One turn of the loop keeps the invariant, with the processed table behind.
    pub Good-turn : Good (done ++ s ∷ []) (rest ++ t.added) s.depth
    Good-turn = record {
      starts = (h.starts.0 ++ t.added, rw (turn_regroup, h.starts.1));
      once = rw turn_regroup t.once;
      known = rw turn_regroup turn_known;
      behind = turn_behind;
      ahead = turn_ahead;
      ordered = rw turn_regroup turn_ordered;
      linked = rw turn_regroup turn-IsLinked;
      closed = rw turn_regroup turn-IsClosed;
    }

  -- With fuel above the number of nodes that are still to be processed, the loop ends by its test.
  pub search-Good :
      (fuel : ℕ) (done pending : List (Step fl)) (level : ℕ)
      → length (nx.nodes g) + 1 ≤ fuel + length done
      → Good done pending level
      → (plan : List (Step fl)) × (search fl nx fuel g count
            (done ++ pending)
            (tables (done ++ pending))
            (keys pending)
          ≡ ok plan)
        × (last : ℕ) × Good plan [] last
  unfolding search
  search-Good zero done pending level f h = absurd (omega (arith, Good-length done pending level h))
  search-Good (suc fuel) done [] level f h = (done, rw append-nil, level, h)
  search-Good (suc fuel) done (s ∷ rest) level f h =
      let known : elem s.table (nx.nodes g) ≡ true =
        (All-right (λ n. elem n (nx.nodes g) ≡ true) (tables done) (tables (s ∷ rest))
          (rw tables-append at h.known)).0 in
      let (cs, found) = laws.successors_node g s.table known in
      let t =
        visit-Turn fl nx g count s.table s.depth cs (done ++ s ∷ rest) (keys rest)
          (λ c m. laws.edge_of_successor g s.table c cs found m) h.once in
      let (plan, run, last, good) =
        search-Good fuel (done ++ s ∷ []) (rest ++ t.added) s.depth
          (omega (arith, length-append {A = Step fl} done (s ∷ [])))
          (Good-turn done rest s level cs found h t) in
      (
        plan,
        rw (found, t.result)
            (rw (← turn_regroup done rest s level cs found h t, ← keys-append rest t.added) run),
        last,
        good,
      )
