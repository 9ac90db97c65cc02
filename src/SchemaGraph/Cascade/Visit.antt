-- ===== src/SchemaGraph/Cascade/Visit.antt =====
-- One turn of the walk of `cascade_plan`: the children of a table are appended once each.
use pg_stress.Prelude.{
  ℕ, ◌+◌, String, true, false, some, List, [], ◌∷◌, ◌++◌, append-nil, append_assoc, elem,
  elem-append, distinct, distinct-snoc, All, Bool-cases, eq_self, eq_iff, ◌==◌, ◌≡◌, refl, inl, inr,
  arith,
}
use pg_stress.Prelude.Int.{ℤ}
use pg_stress.Prelude.Result.{ok}
use pg_stress.Floats.{Floats}
use pg_stress.SchemaGraph.Network.{DiGraph, HasEdge}
use pg_stress.SchemaGraph.Catalog.{EdgeData}
use pg_stress.SchemaGraph.Cascade.{Step, child_step, enqueue, visit}

module _ {fl : Floats} where
  abbrev pub tables : List (Step fl) → List String
  tables [] = []
  tables (s ∷ r) = s.table ∷ tables r

  abbrev pub keys : List (Step fl) → List (String × ℕ)
  keys [] = []
  keys (s ∷ r) = (s.table, s.depth) ∷ keys r

  pub tables-append : (xs ys : List (Step fl)) → tables (xs ++ ys) ≡ tables xs ++ tables ys
  tables-append [] ys = refl
  tables-append (x ∷ xs) ys = cc (tables-append xs ys)

  pub keys-append : (xs ys : List (Step fl)) → keys (xs ++ ys) ≡ keys xs ++ keys ys
  keys-append [] ys = refl
  keys-append (x ∷ xs) ys = cc (keys-append xs ys)

module _ (fl : Floats) {N : Type 0} (nx : DiGraph N (EdgeData fl)) (g : nx.Graph) (count : ℤ) where
  -- The entry is that of a child of `current`, planned when `current` was at `depth`.
  abbrev pub IsChild : String → ℕ → Step fl → Type 0
  IsChild current depth s =
      (e : EdgeData fl) × (nx.edge g current s.table ≡ some e)
      × (s ≡ child_step fl count current depth s.table e)

  module _ (current : String) (depth : ℕ) where
    -- The plan after the turn, over the plan before it.
    pub record Turn (cs : List String) (plan : List (Step fl)) (queue : List (String × ℕ))
        : Type 0 where
      pub added : List (Step fl)
      pub result :
          visit fl nx g count current depth cs
            (record { plan = plan; visited = tables plan; queue = queue })
          ≡ ok (record {
            plan = plan ++ added;
            visited = tables (plan ++ added);
            queue = queue ++ keys added;
          })
      pub children : All (IsChild current depth) added
      pub once : distinct (tables (plan ++ added)) ≡ true
      pub covered : (c : String) → elem c cs ≡ true → elem c (tables (plan ++ added)) ≡ true

    enqueue_old :
        (child : String) (plan : List (Step fl)) (queue : List (String × ℕ))
        → elem child (tables plan) ≡ true
        → enqueue fl nx g count current depth child
            (record { plan = plan; visited = tables plan; queue = queue })
          ≡ ok (record { plan = plan; visited = tables plan; queue = queue })
    unfolding enqueue
    enqueue_old child plan queue old = rw old

    enqueue_new :
        (child : String) (e : EdgeData fl) (plan : List (Step fl)) (queue : List (String × ℕ))
        → elem child (tables plan) ≡ false
        → nx.edge g current child ≡ some e
        → enqueue fl nx g count current depth child
            (record { plan = plan; visited = tables plan; queue = queue })
          ≡ ok (record {
            plan = plan ++ child_step fl count current depth child e ∷ [];
            visited = tables (plan ++ child_step fl count current depth child e ∷ []);
            queue = queue ++ (child, depth + 1) ∷ [];
          })
    unfolding enqueue child_step
    enqueue_new child e plan queue new found = rw (new, found) (rw tables-append)

    abbrev Joins : List String → Type 0
    Joins cs = (c : String) → elem c cs ≡ true → HasEdge nx g current c

    Joins-head :
        (child : String) (cs : List String) → Joins (child ∷ cs) → HasEdge nx g current child
    Joins-head child cs edges = edges child (rw eq_self)

    Joins-tail : (child : String) (cs : List String) → Joins (child ∷ cs) → Joins cs
    Joins-tail child cs edges c h = edges c (ground (arith, h))

    elem-tables_left :
        (c : String) (xs ys : List (Step fl))
        → elem c (tables xs) ≡ true
        → elem c (tables (xs ++ ys)) ≡ true
    elem-tables_left c xs ys h = rw (tables-append, elem-append, h)

    covered_cons :
        (child : String) (cs : List String) (found : List String)
        → elem child found ≡ true
        → ((c : String) → elem c cs ≡ true → elem c found ≡ true)
        → (c : String) → elem c (child ∷ cs) ≡ true
        → elem c found ≡ true
    covered_cons child cs found h k c m = elim (Bool-cases (child == c)) [
      | inl e ↦ rw (← (eq_iff child c).0 e) h
      | inr e ↦ k c (ground (arith, m))
    ]

    elem_last :
        (child : String) (plan : List (Step fl)) (s : Step fl)
        → s.table ≡ child
        → elem child (tables (plan ++ s ∷ [])) ≡ true
    elem_last child plan s e = ground (
      arith,
      tables-append plan (s ∷ []),
      elem-append child (tables plan) (s.table ∷ []),
      eq_self child,
    )

    once_snoc :
        (child : String) (e : EdgeData fl) (plan : List (Step fl))
        → distinct (tables plan) ≡ true
        → elem child (tables plan) ≡ false
        → distinct (tables (plan ++ child_step fl count current depth child e ∷ [])) ≡ true
    unfolding child_step
    once_snoc child e plan d new = rw tables-append (distinct-snoc child (tables plan) d new)

    -- A child that was not planned is appended, and the turn goes on.
    Turn-new :
        (child : String) (e : EdgeData fl) (cs : List String) (plan : List (Step fl))
        → (queue : List (String × ℕ)) → elem child (tables plan) ≡ false
        → nx.edge g current child ≡ some e
        → Turn cs
            (plan ++ child_step fl count current depth child e ∷ [])
            (queue ++ (child, depth + 1) ∷ [])
        → Turn (child ∷ cs) plan queue
    unfolding visit child_step
    Turn-new child e cs plan queue new found t =
        let s = child_step fl count current depth child e in
        let regroup : (plan ++ s ∷ []) ++ t.added ≡ plan ++ s ∷ t.added =
          append_assoc plan (s ∷ []) t.added in
        record {
          added = s ∷ t.added;
          result = rw (enqueue_new child e plan queue new found) (
              rw (← regroup, ← append_assoc queue ((child, depth + 1) ∷ []) (keys t.added))
                t.result);
          children = ((e, found, refl), t.children);
          once = rw (← regroup) t.once;
          covered = rw (← regroup) (
              covered_cons child cs (tables ((plan ++ s ∷ []) ++ t.added))
                (elem-tables_left child (plan ++ s ∷ []) t.added (elem_last child plan s refl))
                t.covered);
        }

    pub visit-Turn :
        (cs : List String) (plan : List (Step fl)) (queue : List (String × ℕ))
        → Joins cs
        → distinct (tables plan) ≡ true
        → Turn cs plan queue
    unfolding visit
    visit-Turn [] plan queue edges d = record {
      added = [];
      result = simp append-nil;
      children = tt;
      once = simp append-nil d;
      covered = λ c h. cc;
    }
    visit-Turn (child ∷ cs) plan queue edges d = elim (Bool-cases (elem child (tables plan))) [
      | inl old ↦
          let t = visit-Turn cs plan queue (Joins-tail child cs edges) d in
          record {
            added = t.added;
            result = rw (enqueue_old child plan queue old) t.result;
            children = t.children;
            once = t.once;
            covered =
                covered_cons child cs (tables (plan ++ t.added))
                  (elem-tables_left child plan t.added old) t.covered;
          }
      | inr new ↦
          let (e, found) = Joins-head child cs edges in
          Turn-new child e cs plan queue new found (
            visit-Turn cs (plan ++ child_step fl count current depth child e ∷ [])
              (queue ++ (child, depth + 1) ∷ []) (Joins-tail child cs edges)
              (once_snoc child e plan d new))
    ]
