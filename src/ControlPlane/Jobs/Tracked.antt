-- ===== src/ControlPlane/Jobs/Tracked.antt =====
-- A job that is tracked stays so (control-plane/main.py).
use pg_stress.Prelude.{ℕ, String, Option, some, ◌≡◌}
use pg_stress.Prelude.Int.{ℤ}
use pg_stress.Prelude.Dict.{Dict, get, get-put_same}
use pg_stress.ControlPlane.Jobs.{Job, new_job, change, updated, update_job}

module _ {Snap Out : Type 0} where
  abbrev pub IsTracked : String → Dict (Job Snap Out) → Type 0
  IsTracked job_id jobs = (j : Job Snap Out) × (get job_id jobs ≡ some j)

  pub get-change :
      (job_id : String) (f : Job Snap Out → Job Snap Out) (jobs : Dict (Job Snap Out))
      → (j : Job Snap Out) → get job_id jobs ≡ some j
      → get job_id (change job_id f jobs) ≡ some (f j)
  unfolding change
  get-change job_id f jobs j e = rw (e, change) (get-put_same job_id (f j) jobs)

  pub update_job-IsTracked :
      (job_id : String) (progress : Option ℤ) (msg : Option String) (now : ℕ)
      → (jobs : Dict (Job Snap Out)) → IsTracked job_id jobs
      → IsTracked job_id (update_job job_id progress msg now jobs)
  unfolding update_job
  update_job-IsTracked job_id progress msg now jobs t =
      let (j, e) = t in
      (updated progress msg now j, get-change job_id (updated progress msg now) jobs j e)

  pub new_job-IsTracked :
      (job_id job_type : String) (before : Option Snap) (now : ℕ) (jobs : Dict (Job Snap Out))
      → IsTracked job_id (new_job job_id job_type before now jobs)
  unfolding new_job
  new_job-IsTracked job_id job_type before now jobs = (_, get-put_same job_id _ jobs)
