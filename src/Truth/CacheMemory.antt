-- ===== src/Truth/CacheMemory.antt =====
-- The verification of the cache and memory panel (truth-service/app/verifiers/cache_memory.py,
-- truth-service/app/models.py). The two snapshots of PostgreSQL, the sample that the reader found and
-- the clock are arguments; the formats of Python's f-strings are those of the record `Formats`.
pub mod Verdicts
use pg_stress.Prelude.{
  ℕ, String, Bool, true, false, Option, some, none, List, [], ◌∷◌, ◌++◌, if◌then◌else◌, ◌&&◌,
}
use pg_stress.Prelude.Dict.{Dict, get}
use pg_stress.Prelude.Int.{ℤ, pos, ◌+ℤ◌, ◌-ℤ◌, ltb_ℤ}
use pg_stress.Prelude.Text.{join}
use pg_stress.Floats.{Floats}

pub data Verdict : Type 0 where
  pass fail warn skip : Verdict

-- `snapshot_database()`; the timestamp in seconds
pub record Snapshot : Type 0 where
  pub timestamp : ℤ
  pub datname : String
  -- the cumulative counters, by name
  pub blks_read : ℤ
  pub blks_hit : ℤ
  pub database_size_bytes : ℤ
  pub numbackends : ℤ
  pub xact_commit : ℤ
  pub xact_rollback : ℤ
  pub tup_returned : ℤ
  pub tup_fetched : ℤ
  pub tup_inserted : ℤ
  pub tup_updated : ℤ
  pub tup_deleted : ℤ
  pub deadlocks : ℤ

module _ (fl : Floats) where
  -- `f"{x:.6f}"`, `f"{x:.4%}"`, `f"{x:.0%}"` and `f"{x}"`
  pub record Formats : Type 0 where
    pub fixed : ℕ → fl.Float → String
    pub percent : ℕ → fl.Float → String
    pub plain : fl.Float → String
    -- `f"{n}"` of an integer
    pub whole : ℤ → String

  pub record Sample : Type 0 where
    pub timestamp : ℤ
    pub counters : Dict fl.Float
    pub gauges : Dict fl.Float
    pub deltas : Dict fl.Float
    pub labels : Dict String

  pub record Settings : Type 0 where
    pub cache_hit_ratio_tolerance : fl.Float
    pub counter_tolerance_pct : fl.Float
    pub size_tolerance_bytes : fl.Float

  pub record Assertion : Type 0 where
    pub metric : String
    pub ground_truth : fl.Float
    pub reported : Option fl.Float
    pub tolerance : String
    pub passed : Bool
    pub detail : String

module _ (fl : Floats) (show : Formats fl) where
  open fl use {Float, of_int, sub, div, abs, le, round}

  -- `gt_cache_hit_ratio`
  unfoldable pub true_ratio : Snapshot → Float
  true_ratio snap =
      let total_blocks = snap.blks_read +ℤ snap.blks_hit in
      let ratio = div (of_int snap.blks_hit) (of_int total_blocks) in
      if ltb_ℤ (pos 0) total_blocks then ratio else of_int (pos 0)

  unfoldable pub ratio_tolerance : Settings fl → String
  ratio_tolerance tol = join "" ("abs <= " ∷ show.plain tol.cache_hit_ratio_tolerance ∷ [])

  -- The assertion on `cache_hit_ratio`, from the ratio that the sample reports.
  unfoldable pub assert_ratio : Settings fl → Float → Option Float → Assertion fl
  unfolding ratio_tolerance
  assert_ratio tol truth none = record {
    metric = "cache_hit_ratio";
    ground_truth = round truth 8;
    reported = none;
    tolerance = ratio_tolerance tol;
    passed = false;
    detail = "cache_hit_ratio not found in collector Deltas";
  }
  assert_ratio tol truth (some reported) =
      let diff = abs (sub truth reported) in
      record {
        metric = "cache_hit_ratio";
        ground_truth = round truth 8;
        reported = some (round reported 8);
        tolerance = ratio_tolerance tol;
        passed = le diff tol.cache_hit_ratio_tolerance;
        detail = join "" (
            "Ground truth "
            ∷ show.fixed 6 truth
            ∷ " vs reported "
            ∷ show.fixed 6 reported
            ∷ ", diff="
            ∷ show.fixed 8 diff
            ∷ []);
      }

  -- `rep_val == 0`
  abbrev is_zero : Float → Bool
  is_zero x = le x (of_int (pos 0)) && le (of_int (pos 0)) x

  -- The assertion on a counter, if the sample has it.
  unfoldable pub assert_counter : Settings fl → String → ℤ → Option Float → List (Assertion fl)
  assert_counter tol metric truth none = []
  assert_counter tol metric truth (some reported) =
      let pct_diff = div (abs (sub (of_int truth) reported)) (of_int truth) in
      let positive = ltb_ℤ (pos 0) truth in
      record {
        metric = metric;
        ground_truth = of_int truth;
        reported = some reported;
        tolerance = join "" ("rel <= " ∷ show.percent 0 tol.counter_tolerance_pct ∷ []);
        passed = if positive then le pct_diff tol.counter_tolerance_pct else is_zero reported;
        detail =
            if positive
            then join "" (
                "GT="
                ∷ show.whole truth
                ∷ ", reported="
                ∷ show.plain reported
                ∷ ", diff="
                ∷ show.percent 4 pct_diff
                ∷ [])
            else join "" ("GT=0, reported=" ∷ show.plain reported ∷ []);
      }
      ∷ []

  -- The assertion on a gauge, if the sample has it.
  unfoldable pub assert_gauge : String → String → Float → ℤ → Option Float → List (Assertion fl)
  assert_gauge metric tolerance limit truth none = []
  assert_gauge metric tolerance limit truth (some reported) =
      let diff = abs (sub (of_int truth) reported) in
      record {
        metric = metric;
        ground_truth = of_int truth;
        reported = some reported;
        tolerance = tolerance;
        passed = le diff limit;
        detail = join "" (
            "GT="
            ∷ show.fixed 0 (of_int truth)
            ∷ ", reported="
            ∷ show.fixed 0 reported
            ∷ ", diff="
            ∷ show.fixed 0 diff
            ∷ []);
      }
      ∷ []

  unfoldable pub size_tolerance : Settings fl → String
  size_tolerance tol = join "" ("abs <= " ∷ show.plain tol.size_tolerance_bytes ∷ " bytes" ∷ [])

  -- Step 6, for a sample that was found.
  unfoldable pub assertions_on : Settings fl → Snapshot → Sample fl → List (Assertion fl)
  unfolding true_ratio assert_ratio assert_counter assert_gauge size_tolerance get
  assertions_on tol snap s =
      assert_ratio tol (true_ratio snap) (get "cache_hit_ratio" s.deltas)
      ∷ (assert_counter tol "blks_hit" snap.blks_hit (get "blks_hit" s.counters)
          ++ (assert_counter tol "blks_read" snap.blks_read (get "blks_read" s.counters)
              ++ (assert_gauge "database_size_bytes" (size_tolerance tol) tol.size_tolerance_bytes
                    snap.database_size_bytes (get "database_size_bytes" s.gauges)
                  ++ assert_gauge "numbackends" "abs <= 2" (of_int (pos 2)) snap.numbackends
                      (get "numbackends" s.gauges))))

  unfoldable pub all_passed : List (Assertion fl) → Bool
  all_passed [] = true
  all_passed (a ∷ as') = a.passed && all_passed as'

  -- The message of a sample that is missing; `path` is the directory of the reader.
  unfoldable pub missing_sample : String → List String
  missing_sample path =
      join "" (
        "No recent collector database sample found in JSONL output. Searched: " ∷ path
        ∷ "/database/" ∷ [])
      ∷ []

  unfoldable pub verdict_of : List String → List (Assertion fl) → Verdict
  unfolding all_passed
  verdict_of (e ∷ errors) assertions = fail
  verdict_of [] [] = skip
  verdict_of [] (a ∷ as') = if all_passed (a ∷ as') then pass else fail

  -- `verify`, from the second snapshot on: the assertions, the errors and the verdict.
  unfoldable pub verify :
      Settings fl
      → String
      → Snapshot
      → Option (Sample fl)
      → List (Assertion fl) × (List String × Verdict)
  unfolding assertions_on missing_sample verdict_of
  verify tol path snap none = ([], (missing_sample path, verdict_of (missing_sample path) []))
  verify tol path snap (some s) =
      let assertions = assertions_on tol snap s in (assertions, ([], verdict_of [] assertions))
