-- ===== src/Truth/Tests.antt =====
-- Runs of the truth service on small inputs (truth-service/app).
use pg_stress.Prelude.{true, some, [], ◌∷◌, ◌≡◌, ◌≢◌, ◌↔◌}
use pg_stress.Prelude.Int.{pos}
use pg_stress.Samples.Fixed.{hundredths}
use pg_stress.Truth.CacheMemory.{
  pass, skip, Snapshot, Formats, Sample, Settings, all_passed, assertions_on, verify,
}
use pg_stress.Truth.CacheMemory.Verdicts.{verify-pass}

abbrev bare : Formats hundredths
bare = record { fixed = λ n x. "x"; percent = λ n x. "%"; plain = λ x. "x"; whole = λ n. "n" }

abbrev tolerances : Settings hundredths
tolerances = record {
  cache_hit_ratio_tolerance = 1;
  counter_tolerance_pct = 5;
  size_tolerance_bytes = 100;
}

abbrev snapshot : Snapshot
snapshot = record {
  timestamp = pos 10;
  datname = "testdb";
  blks_read = pos 10;
  blks_hit = pos 90;
  database_size_bytes = pos 8192;
  numbackends = pos 3;
  xact_commit = pos 7;
  xact_rollback = pos 0;
  tup_returned = pos 0;
  tup_fetched = pos 0;
  tup_inserted = pos 0;
  tup_updated = pos 0;
  tup_deleted = pos 0;
  deadlocks = pos 0;
}

abbrev sample : Sample hundredths
sample = record {
  timestamp = pos 9;
  counters = ("blks_hit", 9000) ∷ [];
  gauges = ("numbackends", 400) ∷ [];
  deltas = ("cache_hit_ratio", 90) ∷ [];
  labels = [];
}

verify-pass_example :
    (((verify hundredths bare tolerances "/data" snapshot (some sample)).1.1 ≡ pass) ↔ (
      (s : Sample hundredths) × (some sample ≡ some s)
      × (all_passed hundredths bare (assertions_on hundredths bare tolerances snapshot s) ≡ true)))
    × ((verify hundredths bare tolerances "/data" snapshot (some sample)).1.1 ≢ skip)
verify-pass_example = verify-pass hundredths bare tolerances "/data" snapshot (some sample)
