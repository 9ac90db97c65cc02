-- ===== src/Samples/Shop.antt =====
-- A schema of three tables, `customers` above `orders` above `items`, as a networkx graph.
use pg_stress.Prelude.{
  ℕ, ◌≤◌, String, true, false, Option, some, none, List, [], ◌∷◌, elem, if◌then◌else◌, ◌==◌, ◌&&◌,
  ◌≡◌, refl, eq_iff, Bool-cases, eq-cases, inl, inr, arith,
}
use pg_stress.SchemaGraph.Network.{DiGraph, Traversal, HasEdge}
use pg_stress.SchemaGraph.Catalog.{TableInfo, EdgeData}
use pg_stress.SchemaGraph.Cascade.Plan.{Descends, here, down}
use pg_stress.SchemaGraph.State.Agreement.{ShortestPaths, IsShortest}
use pg_stress.Samples.Fixed.{hundredths}

-- Two orders per customer, three items per order.
abbrev pub two : EdgeData hundredths
two = record { fk_column = "customer_id"; parent_column = "id"; ratio = 200 }

abbrev pub three : EdgeData hundredths
three = record { fk_column = "order_id"; parent_column = "id"; ratio = 300 }

abbrev shop_edge : String → String → Option (EdgeData hundredths)
shop_edge u v =
    if "customers" == u && "orders" == v
    then some two
    else if "orders" == u && "items" == v
    then some three
    else none

abbrev below : String → Option (List String)
below u =
    if "customers" == u
    then some ("orders" ∷ [])
    else if "orders" == u
    then some ("items" ∷ [])
    else if "items" == u
    then some []
    else none

abbrev distance : String → String → Option ℕ
distance u v =
    if "customers" == u && "orders" == v
    then some 1
    else if "orders" == u && "items" == v
    then some 1
    else if "customers" == u && "items" == v
    then some 2
    else none

abbrev pub shop : DiGraph TableInfo (EdgeData hundredths)
shop = record {
  Graph = Unit {0};
  empty = tt;
  add_node = λ g n info. g;
  add_edge = λ g p c e. g;
  nodes = λ g. "customers" ∷ "orders" ∷ "items" ∷ [];
  number_of_edges = λ g. 2;
  edge = λ g u v. shop_edge u v;
  successors = λ g u. below u;
  predecessors = λ g u. none;
  in_degree = λ g u. 0;
  out_degree = λ g u. 0;
  bfs_tree = λ g u. some ("customers" ∷ "orders" ∷ "items" ∷ []);
  shortest_path_length = λ g u v. distance u v;
  topological_sort = λ g. some ("customers" ∷ "orders" ∷ "items" ∷ []);
}

-- A text is not two different texts.
apart : (s t u : String) → (s == t) ≡ false → (s == u) ≡ true → (t == u) ≡ false
apart s t u n h = ground (arith, eq_iff s t, eq_iff s u, eq_iff t u)

tables_cases :
    (u : String)
    → elem u ("customers" ∷ "orders" ∷ "items" ∷ []) ≡ true
    → (cs : List String) × (below u ≡ some cs)
tables_cases u h = elim (Bool-cases ("customers" == u)) [
  | inl a ↦ ("orders" ∷ [], rw a)
  | inr a ↦ elim (Bool-cases ("orders" == u)) [
    | inl b ↦ ("items" ∷ [], rw (a, b))
    | inr b ↦ elim (Bool-cases ("items" == u)) [
      | inl c ↦ ([], rw (a, b, c))
      | inr c ↦ absurd (ground arith)
    ]
  ]
]

edge_cases :
    (u v : String) (cs : List String) → below u ≡ some cs → elem v cs ≡ true → HasEdge shop tt u v
edge_cases u v cs e m = elim (Bool-cases ("customers" == u)) [
  | inl a ↦ (two, ground arith)
  | inr a ↦ elim (Bool-cases ("orders" == u)) [
    | inl b ↦ (three, ground arith)
    | inr b ↦ absurd (ground arith)
  ]
]

pub shop-Traversal : Traversal shop
shop-Traversal = record {
  nodes_distinct = λ g. refl;
  successors_node = λ g u. tables_cases u;
  node_of_successors = λ g u cs e. ground arith;
  edge_of_successor = λ g u v cs. edge_cases u v cs;
  successor_of_edge = λ g u v e cs p q. ground (arith, apart "customers" "orders" u refl);
  node_of_edge = λ g u v e p. ground arith;
}

module _ {start : String} where
  one_below : {v : String} {n : ℕ} → Descends shop tt start v n → (start == v) ≡ false → 1 ≤ n
  one_below {v} (here e z) apart_ = absurd (ground (arith, eq_iff start v))
  one_below (down up edge k) apart_ = omega arith

  two_below :
      {v : String} {n : ℕ}
      → Descends shop tt start v n
      → (start == v) ≡ false
      → shop_edge start v ≡ none
      → 2 ≤ n
  two_below {v} (here e z) other no_edge = absurd (ground (arith, eq_iff start v))
  two_below {v} (down {u = u} up edge k) other no_edge = elim (eq-cases start u) [
    | inl same ↦
        let there : shop_edge u v ≡ some edge.0 = edge.1 in
        let gone : shop_edge u v ≡ none = rw (← same) no_edge in absurd (cc)
    | inr below_ ↦ omega (arith, one_below up below_)
  ]

orders_below : Descends shop tt "customers" "orders" 1
orders_below = down (here refl refl) (two, refl) refl

IsShortest-cases : (u v : String) (d : ℕ) → distance u v ≡ some d → IsShortest shop tt u v d
IsShortest-cases u v d e = elim (Bool-cases ("customers" == u && "orders" == v)) [
  | inl a ↦
      let uu : "customers" ≡ u = (eq_iff "customers" u).0 (ground arith) in
      let vv : "orders" ≡ v = (eq_iff "orders" v).0 (ground arith) in
      let dd : d ≡ 1 = ground arith in rw (← uu, ← vv, dd) (orders_below, λ n w. one_below w refl)
  | inr a ↦ elim (Bool-cases ("orders" == u && "items" == v)) [
    | inl b ↦
        let uu : "orders" ≡ u = (eq_iff "orders" u).0 (ground arith) in
        let vv : "items" ≡ v = (eq_iff "items" v).0 (ground arith) in
        let dd : d ≡ 1 = ground arith in
        rw (← uu, ← vv, dd) (down (here refl refl) (three, refl) refl, λ n w. one_below w refl)
    | inr b ↦ elim (Bool-cases ("customers" == u && "items" == v)) [
      | inl c ↦
          let uu : "customers" ≡ u = (eq_iff "customers" u).0 (ground arith) in
          let vv : "items" ≡ v = (eq_iff "items" v).0 (ground arith) in
          let dd : d ≡ 2 = ground arith in
          rw (← uu, ← vv, dd) (down orders_below (three, refl) refl, λ n w. two_below w refl refl)
      | inr c ↦ absurd (ground arith)
    ]
  ]
]

pub shop-ShortestPaths : ShortestPaths shop
shop-ShortestPaths = record { least = λ g u v d e. IsShortest-cases u v d e }
