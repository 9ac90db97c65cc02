-- ===== src/ControlPlane/Jobs/Lifecycle.antt =====
-- The life of a job (control-plane/main.py).
use pg_stress.Prelude.{
  ℕ, String, true, false, Option, some, none, List, [], ◌∷◌, if◌then◌else◌, ◌==◌, ◌≡◌, refl, arith,
  eq_self, Option-cases, Bool-cases, inl, inr,
}
use pg_stress.Prelude.Int.{ℤ, pos, min_ℤ, ltb_ℤ, ◌≤ℤ◌}
use pg_stress.Prelude.Dict.{Dict, get, put, get-put}
use pg_stress.ControlPlane.Jobs.{
  Job, Status, running, completed, failed, given, new_job, change, updated, update_job, finished,
  complete_job, set_progress,
}

-- A call of one of the three functions.
pub data Call (Snap Out : Type 0) : Type 0 where
  create : String → String → Option Snap → ℕ → Call Snap Out
  update : String → Option ℤ → Option String → ℕ → Call Snap Out
  complete : (Out → Option Snap) → String → Option Out → Option String → ℕ → Call Snap Out

min_100 : (n : ℤ) → min_ℤ n (pos 100) ≤ℤ pos 100
min_100 n = elim (Bool-cases (ltb_ℤ (pos 100) n)) [
  | inl e ↦ rw e (omega arith)
  | inr e ↦ rw e (ground arith)
]

module _ {Snap Out : Type 0} where
  -- What the status of a job says of its other fields.
  abbrev pub Agrees : Status → Job Snap Out → Type 0
  Agrees running j = (j.completed_at ≡ none) × (j.result ≡ none) × (j.error ≡ none)
  Agrees completed j = (t : ℕ) × (j.completed_at ≡ some t) × (given j.error ≡ false)
  Agrees failed j = (t : ℕ) × (j.completed_at ≡ some t) × (given j.error ≡ true)

  pub record IsSound (j : Job Snap Out) : Type 0 where
    pub in_range : j.progress ≤ℤ pos 100
    pub agrees : Agrees j.status j

  abbrev pub AllSound : Dict (Job Snap Out) → Type 0
  AllSound jobs = (id : String) (j : Job Snap Out) → get id jobs ≡ some j → IsSound j

  Agrees-updated :
      (st : Status) (progress : Option ℤ) (msg : Option String) (now : ℕ) (j : Job Snap Out)
      → Agrees st j
      → Agrees st (updated progress msg now j)
  unfolding updated
  Agrees-updated running progress msg now j h = h
  Agrees-updated completed progress msg now j h = h
  Agrees-updated failed progress msg now j h = h

  updated-IsSound :
      (progress : Option ℤ) (msg : Option String) (now : ℕ) (j : Job Snap Out)
      → IsSound j
      → IsSound (updated progress msg now j)
  unfolding updated
  updated-IsSound progress msg now j h = record {
    in_range = range progress;
    agrees = Agrees-updated j.status progress msg now j h.agrees;
  }
    where
      range : (p : Option ℤ) → set_progress p j.progress ≤ℤ pos 100
      range none = h.in_range
      range (some n) = min_100 n

  finished-IsSound :
      (after : Out → Option Snap) (result : Option Out) (error : Option String) (now : ℕ)
      → (j : Job Snap Out) → IsSound j
      → IsSound (finished after result error now j)
  unfolding finished
  finished-IsSound after result error now j h = elim (Bool-cases (given error)) [
    | inl e ↦ record { in_range = rw e h.in_range; agrees = rw e (now, refl, e) }
    | inr e ↦ record { in_range = rw e (omega arith); agrees = rw e (now, refl, e) }
  ]

  put-AllSound :
      (id : String) (j : Job Snap Out) (jobs : Dict (Job Snap Out))
      → IsSound j
      → AllSound jobs
      → AllSound (put id j jobs)
  put-AllSound id j jobs s h k i e = elim (Bool-cases (id == k)) [
    | inl q ↦ let same : j ≡ i = ground (arith, get-put id k j jobs) in rw same at s
    | inr q ↦ h k i (ground (arith, get-put id k j jobs))
  ]

  change-AllSound :
      (id : String) (f : Job Snap Out → Job Snap Out) (jobs : Dict (Job Snap Out))
      → ((j : Job Snap Out) → IsSound j → IsSound (f j))
      → AllSound jobs
      → AllSound (change id f jobs)
  unfolding change
  change-AllSound id f jobs keeps h = elim (Option-cases (get id jobs)) [
    | inl e ↦ rw (e, change) h
    | inr (j, e) ↦ rw (e, change) (put-AllSound id (f j) jobs (keeps j (h id j e)) h)
  ]

  pub call : Call Snap Out → Dict (Job Snap Out) → Dict (Job Snap Out)
  call (create id type before now) jobs = new_job id type before now jobs
  call (update id progress msg now) jobs = update_job id progress msg now jobs
  call (complete after id result error now) jobs = complete_job after id result error now jobs

  pub calls : List (Call Snap Out) → Dict (Job Snap Out) → Dict (Job Snap Out)
  calls [] jobs = jobs
  calls (c ∷ cs) jobs = calls cs (call c jobs)

  call-AllSound :
      (c : Call Snap Out) (jobs : Dict (Job Snap Out)) → AllSound jobs → AllSound (call c jobs)
  unfolding call new_job update_job complete_job
  call-AllSound (create id type before now) jobs h =
      put-AllSound id _ jobs (record { in_range = omega arith; agrees = (refl, refl, refl) }) h
  call-AllSound (update id progress msg now) jobs h =
      change-AllSound id _ jobs (updated-IsSound progress msg now) h
  call-AllSound (complete after id result error now) jobs h =
      change-AllSound id _ jobs (finished-IsSound after result error now) h

  calls-AllSound_from :
      (cs : List (Call Snap Out)) (jobs : Dict (Job Snap Out))
      → AllSound jobs
      → AllSound (calls cs jobs)
  unfolding calls
  calls-AllSound_from [] jobs h = h
  calls-AllSound_from (c ∷ cs) jobs h =
      calls-AllSound_from cs (call c jobs) (call-AllSound c jobs h)

  -- Whatever the order of the calls, of any jobs, the progress of a job never passes 100, a running job
  -- has no end, result or error, a completed job has an end and no error text, and a failed job has an
  -- end and a text that is not empty.
  pub calls-AllSound : (cs : List (Call Snap Out)) → AllSound (calls cs [])
  unfolding get
  calls-AllSound cs = calls-AllSound_from cs [] (λ id j e. absurd (cc))

  -- A job that is tracked and ends with an exception is failed, with its progress kept, if the
  -- exception has a text. If the text is empty, the job is completed with progress 100. Its snapshot
  -- from before and its start stay.
  pub complete_job_on_error :
      (after : Out → Option Snap) (id text : String) (now : ℕ) (jobs : Dict (Job Snap Out))
      → (j : Job Snap Out) → get id jobs ≡ some j
      → (j' : Job Snap Out) × (get id (complete_job after id none (some text) now jobs) ≡ some j')
        × (j'.status ≡ (if text == "" then completed else failed))
        × (j'.progress ≡ (if text == "" then pos 100 else j.progress))
        × (j'.before ≡ j.before)
        × (j'.started_at ≡ j.started_at)
  unfolding complete_job change given
  complete_job_on_error after id text now jobs j e = (
    finished after none (some text) now j,
    rw (e, change)
        (ground (arith, get-put id id (finished after none (some text) now j) jobs, eq_self id)),
    ground arith,
    ground arith,
    refl,
    refl,
  )
