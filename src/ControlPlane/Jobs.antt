-- ===== src/ControlPlane/Jobs.antt =====
-- Job tracking of the control plane (control-plane/main.py: `new_job`, `update_job`, `complete_job`).
-- A job is generic in its snapshots (`before`, `after`) and in its result. Times are seconds, read by
-- the caller of an operation.
pub mod Lifecycle
pub mod Tracked
use pg_stress.Prelude.{
  ℕ, ◌-◌, ◌≤◌, String, Bool, true, false, Option, some, none, List, [], ◌∷◌, leb, if◌then◌else◌,
  ◌==◌, ◌≡◌, not,
}
use pg_stress.Prelude.Dict.{Dict, get, put}
use pg_stress.Prelude.Int.{ℤ, pos, min_ℤ}
use pg_stress.Prelude.Text.{concat}

pub data Status : Type 0 where
  running completed failed : Status

pub record Job (Snap Out : Type 0) : Type 0 where
  pub id : String
  pub type : String
  pub status : Status
  pub started_at : ℕ
  pub completed_at : Option ℕ
  pub elapsed_s : ℕ
  pub progress : ℤ
  pub progress_msg : String
  pub before : Option Snap
  pub after : Option Snap
  pub result : Option Out
  pub error : Option String

-- `if error`: neither None nor empty
unfoldable pub given : Option String → Bool
given none = false
given (some s) = not (s == "")

unfoldable pub set_progress : Option ℤ → ℤ → ℤ
set_progress none old = old
set_progress (some p) old = min_ℤ p (pos 100)

unfoldable pub set_msg : Option String → String → String
set_msg none old = old
set_msg (some m) old = if m == "" then old else m

-- `f"Failed: {error}" if error else "Completed"`
unfoldable pub final_msg : Option String → String
final_msg none = "Completed"
final_msg (some e) = if e == "" then "Completed" else concat "Failed: " e

module _ {Snap Out : Type 0} where
  -- `job_id = str(uuid.uuid4())[:8]` is drawn by the caller.
  unfoldable pub new_job :
      String → String → Option Snap → ℕ → Dict (Job Snap Out) → Dict (Job Snap Out)
  new_job id job_type before now jobs =
      put id
        (record {
          id = id;
          type = job_type;
          status = running;
          started_at = now;
          completed_at = none;
          elapsed_s = 0;
          progress = pos 0;
          progress_msg = "Starting...";
          before = before;
          after = none;
          result = none;
          error = none;
        })
        jobs

  unfoldable pub updated : Option ℤ → Option String → ℕ → Job Snap Out → Job Snap Out
  unfolding set_progress set_msg
  updated progress msg now j = record j {
    elapsed_s = now - j.started_at;
    progress = set_progress progress j.progress;
    progress_msg = set_msg msg j.progress_msg;
  }

  -- `if job_id in jobs:`, the job there changed by `f`
  unfoldable pub change :
      String → (Job Snap Out → Job Snap Out) → Dict (Job Snap Out) → Dict (Job Snap Out)
  change id f jobs = elim (get id jobs) [ none ↦ jobs | some j ↦ put id (f j) jobs ]

  unfoldable pub update_job :
      String → Option ℤ → Option String → ℕ → Dict (Job Snap Out) → Dict (Job Snap Out)
  unfolding updated
  update_job id progress msg now jobs = change id (updated progress msg now) jobs

  -- `result.get("after") if result else None`
  unfoldable pub after_of : (Out → Option Snap) → Option Out → Option Snap
  after_of after none = none
  after_of after (some r) = after r

  unfoldable pub finished :
      (Out → Option Snap) → Option Out → Option String → ℕ → Job Snap Out → Job Snap Out
  unfolding given final_msg after_of
  finished after result error now j = record j {
    status = if given error then failed else completed;
    completed_at = some now;
    elapsed_s = now - j.started_at;
    progress = if given error then j.progress else pos 100;
    progress_msg = final_msg error;
    after = after_of after result;
    result = result;
    error = error;
  }

  unfoldable pub complete_job :
      (Out → Option Snap)
      → String
      → Option Out
      → Option String
      → ℕ
      → Dict (Job Snap Out)
      → Dict (Job Snap Out)
  unfolding finished
  complete_job after id result error now jobs = change id (finished after result error now) jobs
