-- ===== src/SchemaGraph/Tests.antt =====
-- Runs of the schema graph on the sample schema (control-plane/schema_graph.py), and the theorems there.
use pg_stress.Prelude.{elem, ℕ, String, true, some, none, List, [], ◌∷◌, ◌≡◌, ◌↔◌, refl, ◌≤◌}
use pg_stress.Prelude.Dict.{get, put, keys}
use pg_stress.Prelude.Int.{ℤ, pos}
use pg_stress.Prelude.Result.{ok}
use pg_stress.Samples.Listed.{listed, listed-Construction}
use pg_stress.SchemaGraph.State.Build.{build_graph_lem, last_key}
use pg_stress.Samples.Fixed.{hundredths}
use pg_stress.Samples.Shop.{shop, shop-Traversal, shop-ShortestPaths}
use pg_stress.SchemaGraph.Catalog.{TableInfo, SchemaData, rows_of}
use pg_stress.SchemaGraph.Cascade.{
  Step, child_count, child_step, root_step, enqueue, visit, search, cascade_plan,
}
use pg_stress.SchemaGraph.Cascade.Plans.{depth_of}
use pg_stress.SchemaGraph.Cascade.Plan.{
  Descends, IsBreadthFirst, cascade_plan_total, depth_of-shortest,
}
use pg_stress.SchemaGraph.State.{State, init, build_graph}
use pg_stress.SchemaGraph.State.Views.{TreeEntry, class_of, depth_in, tree_entries, cascade_tree}
use pg_stress.SchemaGraph.State.Agreement.{cascade_tree-plan}

cascade : Unit {0}
unfolding child_count child_step root_step enqueue visit search cascade_plan
cascade = tt

abbrev entry : String → ℤ → ℕ → ℕ → String → String → Step hundredths
entry table count ratio depth fk parent = record {
  table = table;
  count = count;
  ratio = ratio;
  depth = depth;
  fk_column = some fk;
  parent = some parent;
}

abbrev shop_plan : List (Step hundredths)
shop_plan =
    record {
      table = "customers";
      count = pos 10;
      ratio = 100;
      depth = 0;
      fk_column = none;
      parent = none;
    }
    ∷ entry "orders" (pos 20) 200 1 "customer_id" "customers"
    ∷ entry "items" (pos 30) 300 2 "order_id" "orders"
    ∷ []

-- Ten customers bring twenty orders, and thirty items: three per customer, not three per order.
shop_plan_made : cascade_plan hundredths shop tt "customers" (pos 10) ≡ ok shop_plan
unfolding cascade
shop_plan_made = refl

cascade_plan_total_example :
    (plan : List (Step hundredths)) × (cascade_plan hundredths shop tt "customers" (pos 10)
      ≡ ok plan)
    × IsBreadthFirst hundredths shop shop-Traversal tt "customers" (pos 10) plan
cascade_plan_total_example =
    cascade_plan_total hundredths shop shop-Traversal tt "customers" (pos 10) refl

depth_of-shortest_example : (depth_of "items" shop_plan ≡ some 2) ↔ (
    Descends shop tt "customers" "items" 2
    × ((n : ℕ) → Descends shop tt "customers" "items" n → 2 ≤ n))
depth_of-shortest_example =
    depth_of-shortest hundredths shop shop-Traversal tt "customers" (pos 10) shop_plan
      shop_plan_made "items" 2

abbrev fresh : State hundredths shop
fresh = record {
  graph = tt;
  tables = [];
  database = "testdb";
  loaded = true;
  schema_hash = "";
  cache = none;
}

abbrev leaf : ℕ → TreeEntry
leaf depth = record { classification = none; rows = pos 0; depth = depth }

cascade_tree-plan_example : depth_of "items" shop_plan ≡ some 2
unfolding cascade_tree tree_entries depth_in class_of rows_of get put
cascade_tree-plan_example =
    cascade_tree-plan hundredths shop shop-ShortestPaths fresh "customers" shop-Traversal (pos 10)
      shop_plan shop_plan_made (("customers", leaf 0) ∷ ("orders", leaf 1) ∷ ("items", leaf 2) ∷ [])
      "items" (leaf 2) refl refl

abbrev orders_info : TableInfo
orders_info = record {
  row_count = pos 20;
  size = "8 kB";
  size_bytes = 8192;
  columns = [];
  pk = "id" ∷ [];
  unique_columns = [];
  classification = none;
}

abbrev orders_data : SchemaData hundredths
orders_data = record {
  database = "testdb";
  tables = ("orders", orders_info) ∷ [];
  edges =
      record {
        parent = "customers";
        child = "orders";
        fk_column = "customer_id";
        parent_column = "id";
        ratio = 200;
      }
      ∷ [];
  introspected_at = "";
}

build_graph_lem_example :
    (listed.edge
        (build_graph hundredths listed orders_data (init hundredths listed none)).graph
        "customers"
        "orders"
      ≡ last_key "customers" "orders" orders_data.edges none)
    × (elem "customers" (
          listed.nodes
            (build_graph hundredths listed orders_data (init hundredths listed none)).graph)
        ≡ true)
unfolding keys
build_graph_lem_example =
    build_graph_lem hundredths listed listed-Construction orders_data (init hundredths listed none)
      "customers" "orders"
