-- ===== src/ControlPlane/Flush/Targets.antt =====
-- What a flush deletes and what it leaves (control-plane/main.py).
use pg_stress.Prelude.{ℕ, String, false, Option, ◌==◌, ◌≡◌, refl, ◌∙◌, Bool-cases, inl, inr}
use pg_stress.Prelude.Result.{Result, ok, raise}
use pg_stress.ControlPlane.TestRuns.{Delivery}
use pg_stress.ControlPlane.Flush.{
  FlushRequest, FlushWorld, in_target, flush_metrics, flush_reports, flush_jobs, finish_flush,
  flush_data,
}

-- What is not named by the target stays.
pub record IsKept {B R Json : Type 0} (req : FlushRequest) (w w' : FlushWorld B R Json)
    : Type 0 where
  pub unconfirmed : (req.confirmation == "DELETE ALL DATA") ≡ false → w' ≡ w
  pub metrics : in_target "metrics" req.target ≡ false → w'.dashboard ≡ w.dashboard
  pub reports : in_target "reports" req.target ≡ false → w'.reports ≡ w.reports
  pub jobs : in_target "jobs" req.target ≡ false → w'.jobs ≡ w.jobs

module _ {B R Json : Type 0} where
  metrics_kept :
      (reach : Delivery) (now : ℕ) (target : String) (w : FlushWorld B R Json)
      → ((flush_metrics reach now target w).1.reports ≡ w.reports)
        × ((flush_metrics reach now target w).1.jobs ≡ w.jobs)
        × (in_target "metrics" target ≡ false
            → (flush_metrics reach now target w).1.dashboard ≡ w.dashboard)
  unfolding flush_metrics
  metrics_kept reach now target w = elim (Bool-cases (in_target "metrics" target)) [
    | inl e ↦ rw e (refl, refl, λ h. absurd (cc))
    | inr e ↦ rw e (refl, refl, λ h. refl)
  ]

  reports_kept :
      (target : String) (w : FlushWorld B R Json)
      → ((flush_reports target w).1.dashboard ≡ w.dashboard)
        × ((flush_reports target w).1.jobs ≡ w.jobs)
        × (in_target "reports" target ≡ false → (flush_reports target w).1.reports ≡ w.reports)
  unfolding flush_reports
  reports_kept target w = elim (Bool-cases (in_target "reports" target)) [
    | inl e ↦ rw e (refl, refl, λ h. absurd (cc))
    | inr e ↦ rw e (refl, refl, λ h. refl)
  ]

  jobs_kept :
      (target : String) (w : FlushWorld B R Json)
      → ((flush_jobs target w).1.dashboard ≡ w.dashboard)
        × ((flush_jobs target w).1.reports ≡ w.reports)
        × (in_target "jobs" target ≡ false → (flush_jobs target w).1.jobs ≡ w.jobs)
  unfolding flush_jobs
  jobs_kept target w = elim (Bool-cases (in_target "jobs" target)) [
    | inl e ↦ rw e (refl, refl, λ h. absurd (cc))
    | inr e ↦ rw e (refl, refl, λ h. refl)
  ]

  finish_kept :
      (target : String) (m : Option String) (x : Result (Option ℕ) × FlushWorld B R Json)
      → ((finish_flush target m x).1.dashboard ≡ x.1.dashboard)
        × ((finish_flush target m x).1.reports ≡ x.1.reports)
        × (in_target "jobs" target ≡ false → (finish_flush target m x).1.jobs ≡ x.1.jobs)
  unfolding finish_flush
  finish_kept target m (raise e, w) = (refl, refl, λ h. refl)
  finish_kept target m (ok n, w) = jobs_kept target w

  -- Whatever is asked, a flush without the exact confirmation changes nothing, and one with it leaves
  -- the metrics, the reports and the jobs alone that its target does not name, even if it fails.
  pub flush_data-IsKept :
      (reach : Delivery) (now : ℕ) (req : FlushRequest) (w : FlushWorld B R Json)
      → IsKept req w (flush_data reach now req w).1
  unfolding flush_data
  flush_data-IsKept reach now req w =
      let m = metrics_kept reach now req.target w in
      let r = reports_kept req.target (flush_metrics reach now req.target w).1 in
      let f =
        finish_kept req.target (flush_metrics reach now req.target w).0
          (flush_reports req.target (flush_metrics reach now req.target w).1) in
      elim (Bool-cases (req.confirmation == "DELETE ALL DATA")) [
        | inl e ↦ rw e (record {
          unconfirmed = λ h. absurd (cc);
          metrics = λ h. f.0 ∙ r.0 ∙ m.2 h;
          reports = λ h. f.1 ∙ r.2 h ∙ m.0;
          jobs = λ h. f.2 h ∙ r.1 ∙ m.1;
        })
        | inr e ↦ rw e (record {
          unconfirmed = λ h. refl;
          metrics = λ h. refl;
          reports = λ h. refl;
          jobs = λ h. refl;
        })
      ]
