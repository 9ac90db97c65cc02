-- ===== src/SchemaGraph/Cascade.antt =====
-- `SchemaGraph.cascade_plan` (control-plane/schema_graph.py): the breadth-first walk that plans a
-- cascading inject. The `while queue:` loop takes fuel, a number above that of the nodes.
pub mod Visit
pub mod Plans
pub mod Walk
pub mod Plan
use pg_stress.Prelude.{
  ℕ, zero, suc, ◌+◌, String, Bool, Option, some, none, List, [], ◌∷◌, ◌++◌, length, elem,
  if◌then◌else◌,
}
use pg_stress.Prelude.Int.{ℤ, pos, max_ℤ}
use pg_stress.Prelude.Result.{
  Result, ok, raise, key_error, networkx_error, out_of_fuel, ◌>>=◌, or_raise,
}
use pg_stress.Floats.{Floats}
use pg_stress.SchemaGraph.Network.{DiGraph}
use pg_stress.SchemaGraph.Catalog.{EdgeData}

-- An entry of the plan. The entry of the start table has no `fk_column` and no `parent`.
pub record Step (fl : Floats) : Type 0 where
  pub table : String
  pub count : ℤ
  pub ratio : fl.Float
  pub depth : ℕ
  pub fk_column : Option String
  pub parent : Option String

-- The variables of the loop.
pub record Search (fl : Floats) : Type 0 where
  pub plan : List (Step fl)
  pub visited : List String
  pub queue : List (String × ℕ)

module _ (fl : Floats) where
  open fl use {Float, of_int, mul, trunc}

  unfoldable pub root_step : Float → String → ℤ → Step fl
  root_step one table count = record {
    table = table;
    count = count;
    ratio = one;
    depth = 0;
    fk_column = none;
    parent = none;
  }

  -- `max(1, int(count * ratio))`
  unfoldable pub child_count : ℤ → Float → ℤ
  child_count count ratio = max_ℤ (pos 1) (trunc (mul (of_int count) ratio))

  unfoldable pub child_step : ℤ → String → ℕ → String → EdgeData fl → Step fl
  child_step count current depth child e = record {
    table = child;
    count = child_count count e.ratio;
    ratio = e.ratio;
    depth = depth + 1;
    fk_column = some e.fk_column;
    parent = some current;
  }

module _ (fl : Floats) {N : Type 0} (nx : DiGraph N (EdgeData fl)) where
  open fl use {of_int}
  open nx use {Graph, nodes, edge, successors}

  -- The body of `for child in self.G.successors(current)`.
  unfoldable pub enqueue : Graph → ℤ → String → ℕ → String → Search fl → Result (Search fl)
  enqueue g count current depth child s =
      if elem child s.visited
      then ok s
      else (or_raise (edge g current child) key_error >>= λ e. ok (record {
        plan = s.plan ++ child_step fl count current depth child e ∷ [];
        visited = s.visited ++ child ∷ [];
        queue = s.queue ++ (child, depth + 1) ∷ [];
      }))

  unfoldable pub visit : Graph → ℤ → String → ℕ → List String → Search fl → Result (Search fl)
  visit g count current depth [] s = ok s
  visit g count current depth (child ∷ rest) s =
      enqueue g count current depth child s >>= visit g count current depth rest

  -- `while queue:`, over the variables `plan`, `visited` and `queue`.
  unfoldable pub search :
      ℕ → Graph → ℤ → List (Step fl) → List String → List (String × ℕ) → Result (List (Step fl))
  search zero g count plan visited queue = raise out_of_fuel
  search (suc fuel) g count plan visited [] = ok plan
  search (suc fuel) g count plan visited ((current, depth) ∷ queue) =
      or_raise (successors g current) networkx_error >>= λ children.
      visit g count current depth children
        (record { plan = plan; visited = visited; queue = queue })
      >>= λ s. search fuel g count s.plan s.visited s.queue

  unfoldable pub cascade_plan : Graph → String → ℤ → Result (List (Step fl))
  cascade_plan g table count =
      search (suc (length (nodes g))) g count (root_step fl (of_int (pos 1)) table count ∷ [])
        (table ∷ []) ((table, 0) ∷ [])
