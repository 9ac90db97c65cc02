-- ===== src/Truth/Service/Tests.antt =====
-- The command line of the truth service on a sample that agrees (truth-service/app/main.py).
use pg_stress.Prelude.{String, true, some, [], ◌∷◌, ◌≡◌, ◌↔◌}
use pg_stress.Prelude.Int.{pos}
use pg_stress.Samples.Fixed.{hundredths}
use pg_stress.Truth.CacheMemory.{Snapshot, Formats, Sample, Settings, all_passed, assertions_on}
use pg_stress.Truth.Service.{Timing, cache_memory_result, cli_verify}
use pg_stress.Truth.Service.Exit.{cli_verify-exit}

abbrev bare : Formats hundredths
bare = record { fixed = λ n x. "x"; percent = λ n x. "%"; plain = λ x. "x"; whole = λ n. "n" }

abbrev tolerances : Settings hundredths
tolerances = record {
  cache_hit_ratio_tolerance = 1;
  counter_tolerance_pct = 5;
  size_tolerance_bytes = 100;
}

abbrev snapshot : Snapshot
snapshot = record {
  timestamp = pos 10;
  datname = "testdb";
  blks_read = pos 10;
  blks_hit = pos 90;
  database_size_bytes = pos 8192;
  numbackends = pos 3;
  xact_commit = pos 7;
  xact_rollback = pos 0;
  tup_returned = pos 0;
  tup_fetched = pos 0;
  tup_inserted = pos 0;
  tup_updated = pos 0;
  tup_deleted = pos 0;
  deadlocks = pos 0;
}

abbrev sample : Sample hundredths
sample = record {
  timestamp = pos 9;
  counters = [];
  gauges = [];
  deltas = ("cache_hit_ratio", 90) ∷ [];
  labels = [];
}

abbrev timing : Timing hundredths
timing = record { ended = pos 16; duration_ms = 500000 }

cli_verify-exit_example :
    (cli_verify hundredths bare
        (cache_memory_result hundredths bare tolerances "/data" [] snapshot snapshot
          (some sample)
          timing)
        timing
        "cache-memory"
      ≡ 0)
    ↔ ((◌≡◌ {A = String} "cache-memory" "cache-memory")
        × ((s : Sample hundredths) × (some sample ≡ some s)
            × (all_passed hundredths bare (assertions_on hundredths bare tolerances snapshot s)
                ≡ true)))
cli_verify-exit_example =
    cli_verify-exit hundredths bare tolerances "/data" [] snapshot snapshot (some sample) timing
      "cache-memory"
