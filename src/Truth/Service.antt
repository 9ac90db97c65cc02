-- ===== src/Truth/Service.antt =====
-- The results, the report and the entry point of the truth service (truth-service/app/main.py,
-- truth-service/app/report.py, truth-service/app/verifiers).
pub mod Exit
mod Tests
use pg_stress.Prelude.{
  ℕ, String, Bool, true, false, Option, some, none, List, [], ◌∷◌, ◌++◌, map, ◌==◌, if◌then◌else◌,
}
use pg_stress.Prelude.Dict.{Dict}
use pg_stress.Prelude.Http.{Reply, http_error, replied}
use pg_stress.Prelude.Int.{ℤ, pos, ltb_ℤ, ◌-ℤ◌}
use pg_stress.Prelude.Text.{join}
use pg_stress.Floats.{Floats}
use pg_stress.Truth.CacheMemory.{
  Verdict, pass, fail, warn, skip, Snapshot, Formats, Sample, Settings, Assertion, true_ratio,
  verify,
}

module _ (fl : Floats) where
  pub record VerificationResult : Type 0 where
    pub panel : String
    pub verdict : Verdict
    pub timestamp : ℤ
    pub duration_ms : fl.Float
    pub ground_truth : Sample fl
    pub derived : Dict fl.Float
    pub reported : Option (Sample fl)
    pub assertions : List (Assertion fl)
    pub errors : List String
    pub metadata : Dict String

  -- The texts of values in the report: `{timestamp.isoformat()}`, `{duration_ms:.1f}`, and the values of
  -- an assertion.
  pub record Texts : Type 0 where
    pub isoformat : ℤ → String
    pub fixed_1 : fl.Float → String
    pub value : fl.Float → String

-- The clock of one call: the time of its end, and its duration.
pub record Timing (fl : Floats) : Type 0 where
  pub ended : ℤ
  pub duration_ms : fl.Float

-- `f"{verdict}"`: Python 3.12 formats a member of an `Enum` that mixes in `str` by its class and name.
unfoldable pub verdict_text : Verdict → String
verdict_text pass = "Verdict.PASS"
verdict_text fail = "Verdict.FAIL"
verdict_text warn = "Verdict.WARN"
verdict_text skip = "Verdict.SKIP"

unfoldable pub passed_text : Bool → String
passed_text true = "PASS"
passed_text false = "FAIL"

module _ (fl : Floats) (show : Formats fl) where
  open fl use {Float, of_int, div}

  unfoldable pub per_second : ℤ → ℤ → ℤ → Float
  per_second elapsed new old = div (of_int (new -ℤ old)) (of_int elapsed)

  -- `gt_derived`; the timestamps count seconds.
  unfoldable pub gt_derived : Snapshot → Snapshot → Dict Float
  unfolding true_ratio per_second
  gt_derived old new =
      let elapsed = new.timestamp -ℤ old.timestamp in
      let rates =
        ("xact_commit_per_sec", per_second elapsed new.xact_commit old.xact_commit)
        ∷ ("xact_rollback_per_sec", per_second elapsed new.xact_rollback old.xact_rollback)
        ∷ ("blks_read_per_sec", per_second elapsed new.blks_read old.blks_read)
        ∷ ("blks_hit_per_sec", per_second elapsed new.blks_hit old.blks_hit)
        ∷ ("tup_returned_per_sec", per_second elapsed new.tup_returned old.tup_returned)
        ∷ ("tup_fetched_per_sec", per_second elapsed new.tup_fetched old.tup_fetched)
        ∷ ("tup_inserted_per_sec", per_second elapsed new.tup_inserted old.tup_inserted)
        ∷ ("tup_updated_per_sec", per_second elapsed new.tup_updated old.tup_updated)
        ∷ ("tup_deleted_per_sec", per_second elapsed new.tup_deleted old.tup_deleted)
        ∷ [] in
      ("cache_hit_ratio", true_ratio fl show new)
      ∷ ("elapsed_seconds", of_int elapsed)
      ∷ (if ltb_ℤ (pos 0) elapsed then rates else [])

  unfoldable pub ground_truth : Snapshot → Sample fl
  unfolding true_ratio
  ground_truth new = record {
    timestamp = new.timestamp;
    counters =
        ("blks_read", of_int new.blks_read)
        ∷ ("blks_hit", of_int new.blks_hit)
        ∷ ("xact_commit", of_int new.xact_commit)
        ∷ ("xact_rollback", of_int new.xact_rollback)
        ∷ ("tup_returned", of_int new.tup_returned)
        ∷ ("tup_fetched", of_int new.tup_fetched)
        ∷ ("tup_inserted", of_int new.tup_inserted)
        ∷ ("tup_updated", of_int new.tup_updated)
        ∷ ("tup_deleted", of_int new.tup_deleted)
        ∷ ("deadlocks", of_int new.deadlocks)
        ∷ [];
    gauges =
        ("database_size_bytes", of_int new.database_size_bytes)
        ∷ ("numbackends", of_int new.numbackends)
        ∷ [];
    deltas = ("cache_hit_ratio", true_ratio fl show new) ∷ [];
    labels = ("datname", new.datname) ∷ [];
  }

  -- `int(v)` of each counter
  unfoldable pub reported_of : Option (Sample fl) → Option (Sample fl)
  reported_of none = none
  reported_of (some s) =
      some (record s { counters = map (λ i. (i.0, of_int (fl.trunc i.1))) s.counters })

  -- `CacheMemoryVerifier.verify` on its two snapshots and the sample of the reader.
  unfoldable pub cache_memory_result :
      Settings fl
      → String
      → Dict String
      → Snapshot
      → Snapshot
      → Option (Sample fl)
      → Timing fl
      → VerificationResult fl
  unfolding verify gt_derived ground_truth reported_of
  cache_memory_result tol path metadata old new sample at =
      let (assertions, (errors, verdict)) = verify fl show tol path new sample in
      record {
        panel = "cache-memory";
        verdict = verdict;
        timestamp = at.ended;
        duration_ms = fl.round at.duration_ms 2;
        ground_truth = ground_truth new;
        derived = gt_derived old new;
        reported = reported_of sample;
        assertions = assertions;
        errors = errors;
        metadata = metadata;
      }

  -- A verifier that is a stub.
  unfoldable pub stub_result : String → String → Timing fl → VerificationResult fl
  stub_result panel planned at = record {
    panel = panel;
    verdict = skip;
    timestamp = at.ended;
    duration_ms = of_int (pos 0);
    ground_truth = record {
      timestamp = at.ended;
      counters = [];
      gauges = [];
      deltas = [];
      labels = [];
    };
    derived = [];
    reported = none;
    assertions = [];
    errors = planned ∷ [];
    metadata = [];
  }

  unfoldable pub locks_result : Timing fl → VerificationResult fl
  unfolding stub_result
  locks_result at =
      stub_result "locks"
        "Not yet implemented. Planned metrics: lock_count, lock_wait_count, blocking_pids" at

  unfoldable pub replication_result : Timing fl → VerificationResult fl
  unfolding stub_result
  replication_result at =
      stub_result "replication"
        "Not yet implemented. Planned metrics: write_lag_seconds, flush_lag_seconds, replay_lag_seconds, replay_lag_bytes. Requires a replica in the Docker setup."
        at

  unfoldable pub wal_checkpoints_result : Timing fl → VerificationResult fl
  unfolding stub_result
  wal_checkpoints_result at =
      stub_result "wal-checkpoints"
        "Not yet implemented. Planned metrics: checkpoints_timed, checkpoints_req, buffers_checkpoint, checkpoint_write_time_ms, checkpoint_sync_time_ms, wal_bytes, wal_buffers_full"
        at

  -- `_get_verifier` and the call of `verify`: `cache_memory` is the result of that panel.
  unfoldable pub verifier_result :
      VerificationResult fl → Timing fl → String → Option (VerificationResult fl)
  unfolding wal_checkpoints_result locks_result replication_result
  verifier_result cache_memory at panel =
      if panel == "cache-memory"
      then some cache_memory
      else if panel == "wal-checkpoints"
      then some (wal_checkpoints_result at)
      else if panel == "locks"
      then some (locks_result at)
      else if panel == "replication"
      then some (replication_result at)
      else none

  unfoldable pub panel_answer : Option (VerificationResult fl) → Reply (VerificationResult fl)
  panel_answer none = http_error 404
  panel_answer (some r) = replied r

  unfoldable pub verify_panel :
      VerificationResult fl → Timing fl → String → Reply (VerificationResult fl)
  unfolding panel_answer verifier_result
  verify_panel cache_memory at panel = panel_answer (verifier_result cache_memory at panel)

  unfoldable pub exit_of : Verdict → ℕ
  exit_of pass = 0
  exit_of fail = 1
  exit_of warn = 1
  exit_of skip = 1

  unfoldable pub exit_code : Option (VerificationResult fl) → ℕ
  unfolding exit_of
  exit_code none = 1
  exit_code (some r) = exit_of r.verdict

  -- The exit code of `cli_verify`.
  unfoldable pub cli_verify : VerificationResult fl → Timing fl → String → ℕ
  unfolding verifier_result exit_code
  cli_verify cache_memory at panel = exit_code (verifier_result cache_memory at panel)

  unfoldable pub reported_text : Texts fl → Option Float → String
  reported_text texts none = "None"
  reported_text texts (some x) = texts.value x

  unfoldable pub assertion_row : Texts fl → Assertion fl → String
  unfolding reported_text passed_text
  assertion_row texts a = join "" (
      "| "
      ∷ a.metric
      ∷ " | "
      ∷ texts.value a.ground_truth
      ∷ " | "
      ∷ reported_text texts a.reported
      ∷ " | "
      ∷ a.tolerance
      ∷ " | "
      ∷ passed_text a.passed
      ∷ " | "
      ∷ a.detail
      ∷ " |"
      ∷ [])

  unfoldable pub assertion_lines : Texts fl → List (Assertion fl) → List String
  unfolding assertion_row
  assertion_lines texts [] = []
  assertion_lines texts (a ∷ as') =
      "## Assertions"
      ∷ ""
      ∷ "| Metric | Ground Truth | Reported | Tolerance | Result | Detail |"
      ∷ "|--------|-------------|----------|-----------|--------|--------|"
      ∷ map (assertion_row texts) (a ∷ as')

  unfoldable pub error_lines : List String → List String
  error_lines [] = []
  error_lines (e ∷ es) = "" ∷ "## Errors" ∷ "" ∷ map (λ x. join "" ("- " ∷ x ∷ [])) (e ∷ es)

  unfoldable pub item_lines : String → Dict String → List String
  item_lines title [] = []
  item_lines title (x ∷ xs) =
      "" ∷ title ∷ "" ∷ map (λ i. join "" ("- **" ∷ i.0 ∷ ":** " ∷ i.1 ∷ [])) (x ∷ xs)

  unfoldable pub generate_markdown : Texts fl → VerificationResult fl → String
  unfolding verdict_text assertion_lines error_lines item_lines
  generate_markdown texts r = join "\n" (
      (join "" ("# Truth Verification Report: " ∷ r.panel ∷ [])
        ∷ ""
        ∷ join "" ("**Verdict:** " ∷ verdict_text r.verdict ∷ [])
        ∷ join "" ("**Timestamp:** " ∷ texts.isoformat r.timestamp ∷ [])
        ∷ join "" ("**Duration:** " ∷ texts.fixed_1 r.duration_ms ∷ "ms" ∷ [])
        ∷ ""
        ∷ [])
      ++ (assertion_lines texts r.assertions
          ++ (error_lines r.errors
              ++ (item_lines "## Derived Values" (map (λ i. (i.0, texts.value i.1)) r.derived)
                  ++ (item_lines "## Metadata" r.metadata ++ "" ∷ [])))))
