-- ===== src/SchemaGraph/Cascade/Plans.antt =====
-- Plans as lists of entries: the depth that a plan gives to a table, and the order of its entries.
use pg_stress.Prelude.{
  ℕ, ◌≤◌, String, true, false, Option, some, none, List, [], ◌∷◌, ◌++◌, elem, All, All-append,
  All-map, if◌then◌else◌, Bool-cases, eq_self, eq_iff, ◌==◌, ◌≡◌, ◌⊎◌, inl, inr, arith,
}
use pg_stress.Floats.{Floats}
use pg_stress.SchemaGraph.Cascade.{Step}
use pg_stress.SchemaGraph.Cascade.Visit.{tables}

module _ {fl : Floats} where
  -- The depth of the first entry of the table.
  abbrev pub depth_of : String → List (Step fl) → Option ℕ
  depth_of v [] = none
  depth_of v (s ∷ r) = if s.table == v then some s.depth else depth_of v r

  -- The depths do not fall along the list.
  abbrev pub Sorted : List (Step fl) → Type 0
  Sorted [] = Unit
  Sorted (s ∷ r) = All (λ t. s.depth ≤ t.depth) r × Sorted r

  pub Sorted-append :
      (m : ℕ) (xs ys : List (Step fl))
      → Sorted xs
      → Sorted ys
      → All (λ s. s.depth ≤ m) xs
      → All (λ s. m ≤ s.depth) ys
      → Sorted (xs ++ ys)
  Sorted-append m [] ys p q h k = q
  Sorted-append m (x ∷ xs) ys p q h k = (
    All-append (λ t. x.depth ≤ t.depth) xs ys p.0
        (All-map (λ t. m ≤ t.depth) (λ t. x.depth ≤ t.depth) ys (λ t j. omega (arith, h.0)) k),
    Sorted-append m xs ys p.1 q h.1 k,
  )

  pub Sorted-right : (xs ys : List (Step fl)) → Sorted (xs ++ ys) → Sorted ys
  Sorted-right [] ys h = h
  Sorted-right (x ∷ xs) ys h = Sorted-right xs ys h.1

  -- Entries of one depth are in order.
  pub Sorted-of_level : (n : ℕ) (xs : List (Step fl)) → All (λ s. s.depth ≡ n) xs → Sorted xs
  Sorted-of_level n [] h = tt
  Sorted-of_level n (x ∷ xs) h = (
    All-map (λ t. t.depth ≡ n) (λ t. x.depth ≤ t.depth) xs (λ t e. omega (arith, h.0)) h.1,
    Sorted-of_level n xs h.1,
  )

  pub depth_of_left :
      (v : String) (d : ℕ) (xs ys : List (Step fl))
      → depth_of v xs ≡ some d
      → depth_of v (xs ++ ys) ≡ some d
  depth_of_left v d [] ys h = cc
  depth_of_left v d (x ∷ xs) ys h = ground (arith, depth_of_left v d xs ys)

  -- The entry of a table is one of the plan's.
  pub entry_of :
      {P : Step fl → Type 0} (v : String) (d : ℕ) (xs : List (Step fl))
      → All P xs
      → depth_of v xs ≡ some d
      → (s : Step fl) × P s × (s.table ≡ v) × (s.depth ≡ d)
  entry_of v d [] h e = absurd (cc)
  entry_of v d (x ∷ xs) h e = elim (Bool-cases (x.table == v)) [
    | inl q ↦ (x, h.0, (eq_iff x.table v).0 q, ground arith)
    | inr q ↦ entry_of v d xs h.1 (ground arith)
  ]

  -- A planned table has a depth.
  pub depth_of-elem :
      (v : String) (m : ℕ) (xs : List (Step fl))
      → elem v (tables xs) ≡ true
      → All (λ s. s.depth ≤ m) xs
      → (d : ℕ) × (depth_of v xs ≡ some d) × (d ≤ m)
  depth_of-elem v m [] h k = absurd (cc)
  depth_of-elem v m (x ∷ xs) h k = elim (Bool-cases (x.table == v)) [
    | inl q ↦ (x.depth, rw q, k.0)
    | inr q ↦ let (d, e, b) = depth_of-elem v m xs (ground arith) k.1 in (d, rw q e, b)
  ]

  pub elem-depth_of :
      (v : String) (d : ℕ) (xs : List (Step fl))
      → depth_of v xs ≡ some d
      → elem v (tables xs) ≡ true
  elem-depth_of v d [] h = cc
  elem-depth_of v d (x ∷ xs) h = ground (arith, elem-depth_of v d xs)

  -- A table of the list with one more entry is a table of the list, or that entry.
  pub depth_of-snoc :
      (v : String) (d : ℕ) (xs : List (Step fl)) (s : Step fl)
      → depth_of v (xs ++ s ∷ []) ≡ some d
      → (depth_of v xs ≡ some d) ⊎ ((s.table ≡ v) × (s.depth ≡ d))
  depth_of-snoc v d [] s h = elim (Bool-cases (s.table == v)) [
    | inl q ↦ inr ((eq_iff s.table v).0 q, ground arith)
    | inr q ↦ absurd (ground arith)
  ]
  depth_of-snoc v d (x ∷ xs) s h = elim (Bool-cases (x.table == v)) [
    | inl q ↦ inl (ground arith)
    | inr q ↦ rw q (depth_of-snoc v d xs s (ground arith))
  ]

  pub depth_of_last :
      (s : Step fl) (xs : List (Step fl))
      → elem s.table (tables xs) ≡ false
      → depth_of s.table (xs ++ s ∷ []) ≡ some s.depth
  depth_of_last s [] h = rw eq_self
  depth_of_last s (x ∷ xs) h = ground (arith, depth_of_last s xs)
