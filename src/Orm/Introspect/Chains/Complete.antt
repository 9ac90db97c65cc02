-- ===== src/Orm/Introspect/Chains/Complete.antt =====
-- Which chains of foreign keys are found (load-generator-orm/introspect.py).
use pg_stress.Prelude.{String, Bool, false, List, [], ◌∷◌, ◌||◌}
use pg_stress.Prelude.Dict.{Dict}
use pg_stress.Orm.Introspect.Chains.{FkChain, same_tables}

-- A chain of these tables is in the list.
unfoldable pub found : List String → List FkChain → Bool
found tables [] = false
found tables (c ∷ cs) = same_tables tables c.tables || found tables cs
