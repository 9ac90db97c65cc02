-- ===== src/ControlPlane/Flush/Tests.antt =====
-- A flush of the reports, where a directory stands among them (control-plane/main.py).
use pg_stress.Prelude.{ℕ, String, [], ◌∷◌}
use pg_stress.Dashboard.MetricsStore.{empty_store}
use pg_stress.ControlPlane.TestRuns.{answered}
use pg_stress.ControlPlane.Flush.{FlushRequest, FlushWorld, file, directory, flush_data}
use pg_stress.ControlPlane.Flush.Targets.{IsKept, flush_data-IsKept}

abbrev confirmed : FlushRequest
confirmed = record { confirmation = "DELETE ALL DATA"; target = "reports" }

abbrev collected : FlushWorld ℕ ℕ String
collected = record {
  dashboard = record { store = empty_store String; start_time = 1 };
  reports = file "a.json" ∷ directory "old" ∷ file "b.json" ∷ [];
  jobs = [];
}

flush_data-IsKept_example : IsKept confirmed collected (flush_data answered 5 confirmed collected).1
flush_data-IsKept_example = flush_data-IsKept answered 5 confirmed collected
