-- ===== src/Orm/Introspect/Chains/Simple.antt =====
-- What the chains of foreign keys are (load-generator-orm/introspect.py).
use pg_stress.Prelude.{
  ℕ, zero, suc, ◌+◌, ◌≤◌, String, true, List, [], ◌∷◌, ◌++◌, elem, elem-append, eq_self,
  append_assoc, sym, ◌∙◌, length, leb, distinct, distinct-snoc, length-append, leb→le, All-map, All,
  All-append, ◌≡◌, refl, arith, Bool-cases, inl, inr,
}
use pg_stress.Prelude.Dict.{Dict, get_or, keys}
use pg_stress.Orm.Introspect.{TableProfile}
use pg_stress.Orm.Introspect.Chains.{
  FkChain, record_chain, walk_chains, walk_roots, unique_chains, is_seen, insert_chain, sort_chains,
  find_chains,
}

-- Each table after the first is a child of the one before it.
abbrev pub Linked : Dict (List String) → List String → Type 0
Linked children_of [] = Unit
Linked children_of (t ∷ []) = Unit
Linked children_of (t ∷ u ∷ ts) =
    (elem u (get_or t [] children_of) ≡ true) × Linked children_of (u ∷ ts)

-- A way down of two to five tables, none of them twice.
pub record IsChain (children_of : Dict (List String)) (c : FkChain) : Type 0 where
  pub once : distinct c.tables ≡ true
  pub linked : Linked children_of c.tables
  pub measured : c.depth ≡ length c.tables
  pub at_least : 2 ≤ c.depth
  pub at_most : c.depth ≤ 5

-- No chain is longer than one before it.
abbrev pub Descending : List FkChain → Type 0
Descending [] = Unit
Descending (c ∷ cs) = All (λ d. d.depth ≤ c.depth) cs × Descending cs

abbrev last_table : String → List String → String
last_table t [] = t
last_table t (u ∷ us) = last_table u us

module _ (children_of : Dict (List String)) where
  Linked-snoc :
      (t child : String) (ts : List String)
      → Linked children_of (t ∷ ts)
      → elem child (get_or (last_table t ts) [] children_of) ≡ true
      → Linked children_of (t ∷ ts ++ child ∷ [])
  Linked-snoc t child [] h e = (e, tt)
  Linked-snoc t child (u ∷ ts) h e = (h.0, Linked-snoc u child ts h.1 e)

  last_table-snoc : (t child : String) (ts : List String) → last_table t (ts ++ child ∷ []) ≡ child
  last_table-snoc t child [] = refl
  last_table-snoc t child (u ∷ ts) = last_table-snoc u child ts

  -- The children that the loop has left are children of the last table.
  abbrev AreChildren : String → List String → Type 0
  AreChildren t cs = All (λ c. elem c (get_or t [] children_of) ≡ true) cs

  record_chain-IsChain :
      (t : String) (ts : List String)
      → distinct (t ∷ ts) ≡ true
      → Linked children_of (t ∷ ts)
      → length (t ∷ ts) ≤ 5
      → All (IsChain children_of) (record_chain (t ∷ ts))
  unfolding record_chain
  record_chain-IsChain t [] d l h = tt
  record_chain-IsChain t (u ∷ ts) d l h = elim (Bool-cases (leb 2 (length (t ∷ u ∷ ts)))) [
    | inl e ↦
        rw e (
          record { once = d; linked = l; measured = refl; at_least = omega arith; at_most = h },
          tt,
        )
    | inr e ↦ rw e tt
  ]

  all_children :
      (t : String) (pre cs : List String) → get_or t [] children_of ≡ pre ++ cs → AreChildren t cs
  all_children t pre [] e = tt
  all_children t pre (c ∷ cs) e = (
    rw e (ground (arith, elem-append c pre (c ∷ cs), eq_self c)),
    all_children t (pre ++ c ∷ []) cs (e ∙ sym (append_assoc pre (c ∷ []) cs)),
  )

  walk_chains-IsChain :
      (left : ℕ) (t : String) (ts cs : List String)
      → distinct (t ∷ ts) ≡ true
      → Linked children_of (t ∷ ts)
      → length (t ∷ ts) + left ≤ 5
      → AreChildren (last_table t ts) cs
      → All (IsChain children_of) (walk_chains children_of left (t ∷ ts) cs)
  unfolding walk_chains
  walk_chains-IsChain zero t ts cs d l h k = tt
  walk_chains-IsChain (suc left) t ts [] d l h k = tt
  walk_chains-IsChain (suc left) t ts (c ∷ cs) d l h k =
      let rest = walk_chains-IsChain (suc left) t ts cs d l h k.1 in
      elim (Bool-cases (elem c (t ∷ ts))) [
        | inl e ↦ rw e rest
        | inr e ↦
            let d' = distinct-snoc c (t ∷ ts) d e in
            let l' = Linked-snoc t c ts l k.0 in
            let n = length-append ts (c ∷ []) in
            let below =
              walk_chains-IsChain left t (ts ++ c ∷ []) (get_or c [] children_of) d' l'
                (omega arith)
                (rw (last_table-snoc t c ts) (all_children c [] (get_or c [] children_of) refl)) in
            rw e (
              All-append (IsChain children_of) (record_chain (t ∷ ts ++ c ∷ [])) _
                (record_chain-IsChain t (ts ++ c ∷ []) d' l' (omega arith))
                (All-append (IsChain children_of) _ _ below rest))
      ]

  walk_roots-IsChain :
      (roots : List String) → All (IsChain children_of) (walk_roots children_of roots)
  unfolding walk_roots
  walk_roots-IsChain [] = tt
  walk_roots-IsChain (root ∷ roots) =
      All-append (IsChain children_of) _ _
        (walk_chains-IsChain 4 root [] (get_or root [] children_of) refl tt (omega arith)
          (all_children root [] (get_or root [] children_of) refl))
        (walk_roots-IsChain roots)

module _ (P : FkChain → Type 0) where
  All-unique_chains :
      (seen : List (List String)) (cs : List FkChain) → All P cs → All P (unique_chains seen cs)
  unfolding unique_chains
  All-unique_chains seen [] h = tt
  All-unique_chains seen (c ∷ cs) h = elim (Bool-cases (is_seen c.tables seen)) [
    | inl e ↦ rw e (All-unique_chains seen cs h.1)
    | inr e ↦ rw e (h.0, All-unique_chains (c.tables ∷ seen) cs h.1)
  ]

  All-insert_chain : (c : FkChain) (ds : List FkChain) → P c → All P ds → All P (insert_chain c ds)
  unfolding insert_chain
  All-insert_chain c [] p h = (p, tt)
  All-insert_chain c (d ∷ ds) p h = elim (Bool-cases (leb d.depth c.depth)) [
    | inl e ↦ rw e (p, h)
    | inr e ↦ rw e (h.0, All-insert_chain c ds p h.1)
  ]

  All-sort_chains : (cs : List FkChain) → All P cs → All P (sort_chains cs)
  unfolding sort_chains
  All-sort_chains [] h = tt
  All-sort_chains (c ∷ cs) h = All-insert_chain c (sort_chains cs) h.0 (All-sort_chains cs h.1)

insert_chain-Descending :
    (c : FkChain) (ds : List FkChain) → Descending ds → Descending (insert_chain c ds)
unfolding insert_chain
insert_chain-Descending c [] h = (tt, tt)
insert_chain-Descending c (d ∷ ds) h = elim (Bool-cases (leb d.depth c.depth)) [
  | inl e ↦ rw e (
    (
      leb→le d.depth c.depth e,
      All-map (λ x. x.depth ≤ d.depth) (λ x. x.depth ≤ c.depth) ds
          (λ x k. omega (arith, leb→le d.depth c.depth e)) h.0,
    ),
    h,
  )
  | inr e ↦ rw e (
    All-insert_chain (λ x. x.depth ≤ d.depth) c ds (ground arith) h.0,
    insert_chain-Descending c ds h.1,
  )
]

sort_chains-Descending : (cs : List FkChain) → Descending (sort_chains cs)
unfolding sort_chains
sort_chains-Descending [] = tt
sort_chains-Descending (c ∷ cs) =
    insert_chain-Descending c (sort_chains cs) (sort_chains-Descending cs)

-- Every chain of the profile is a way down the foreign keys of two to five tables, none of them twice,
-- with its length as its depth, and no chain is longer than one before it.
pub find_chains-IsChain :
    (tables : Dict TableProfile) (children_of : Dict (List String))
    → All (IsChain children_of) (find_chains tables children_of)
      × Descending (find_chains tables children_of)
unfolding find_chains
find_chains-IsChain tables children_of = (
  All-sort_chains (IsChain children_of) _
      (All-unique_chains (IsChain children_of) [] _ (walk_roots-IsChain children_of (keys tables))),
  sort_chains-Descending (unique_chains [] (walk_roots children_of (keys tables))),
)
