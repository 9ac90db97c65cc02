-- ===== src/ControlPlane/Flush.antt =====
-- The deletion of collected data and the listing of jobs (control-plane/main.py: `flush_data`,
-- `list_jobs`, `get_job`).
pub mod Targets
mod Tests
use pg_stress.Prelude.{
  ℕ, suc, String, Bool, true, false, Option, some, none, List, [], ◌∷◌, not, if◌then◌else◌, ◌==◌,
  ◌||◌,
}
use pg_stress.Prelude.Dict.{Dict, get, values}
use pg_stress.Prelude.Http.{Reply, http_error, crash, replied}
use pg_stress.Prelude.Result.{Result, ok, raise, os_error}
use pg_stress.ControlPlane.Jobs.{Job}
use pg_stress.ControlPlane.TestRuns.{Delivery, answered, answer_lost, not_sent}
use pg_stress.Dashboard.Routes.{DashboardState, api_reset}

pub record FlushRequest : Type 0 where
  pub confirmation : String
  pub target : String

-- What stands in the directory of the reports.
pub data Entry : Type 0 where
  file directory : String → Entry

pub record Flushed : Type 0 where
  pub target : String
  pub metrics : Option String
  pub reports : Option ℕ
  pub jobs : Option String

pub record FlushWorld (B R Json : Type 0) : Type 0 where
  pub dashboard : DashboardState Json
  pub reports : List Entry
  pub jobs : Dict (Job B R)

-- `req.target in ("all", part)`
unfoldable pub in_target : String → String → Bool
in_target part target = target == "all" || target == part

-- `for f in REPORTS_DIR.glob("*"): f.unlink()`, which raises at a directory
unfoldable pub unlink_all : ℕ → List Entry → Result ℕ × List Entry
unlink_all count [] = (ok count, [])
unlink_all count (file f ∷ entries) = unlink_all (suc count) entries
unlink_all count (directory f ∷ entries) = (raise os_error, directory f ∷ entries)

-- The request to /api/reset, and what the handler notes of it.
unfoldable pub reset_metrics :
    {Json : Type 0} → Delivery → ℕ → DashboardState Json → String × DashboardState Json
unfolding api_reset
reset_metrics not_sent now d = ("dashboard not reachable", d)
reset_metrics answer_lost now d = ("dashboard not reachable", api_reset now d)
reset_metrics answered now d = ("cleared", api_reset now d)

unfoldable pub counted : Result ℕ → Result (Option ℕ)
counted (ok n) = ok (some n)
counted (raise e) = raise e

module _ {B R : Type 0} where
  unfoldable pub list_jobs : Dict (Job B R) → List (Job B R)
  unfolding values
  list_jobs jobs = values jobs

  unfoldable pub found_job : Option (Job B R) → Reply (Job B R)
  found_job none = http_error 404
  found_job (some j) = replied j

  unfoldable pub get_job : String → Dict (Job B R) → Reply (Job B R)
  unfolding found_job get
  get_job job_id jobs = found_job (get job_id jobs)

module _ {B R Json : Type 0} where
  unfoldable pub flush_metrics :
      Delivery → ℕ → String → FlushWorld B R Json → Option String × FlushWorld B R Json
  unfolding reset_metrics
  flush_metrics reach now target w =
      let (note, d) = reset_metrics reach now w.dashboard in
      let done : Option String × FlushWorld B R Json = (some note, record w { dashboard = d }) in
      if in_target "metrics" target then done else (none, w)

  -- The reports, if they are wanted.
  unfoldable pub flush_reports :
      String → FlushWorld B R Json → Result (Option ℕ) × FlushWorld B R Json
  unfolding unlink_all counted
  flush_reports target w =
      let (r, entries) = unlink_all 0 w.reports in
      let done : Result (Option ℕ) × FlushWorld B R Json =
        (counted r, record w { reports = entries }) in
      if in_target "reports" target then done else (ok none, w)

  unfoldable pub flush_jobs : String → FlushWorld B R Json → Option String × FlushWorld B R Json
  flush_jobs target w =
      if in_target "jobs" target then (some "cleared", record w { jobs = [] }) else (none, w)

  unfoldable pub finish_flush :
      String
      → Option String
      → Result (Option ℕ) × FlushWorld B R Json
      → Reply Flushed × FlushWorld B R Json
  unfolding flush_jobs
  finish_flush target metrics (raise e, w) = (crash e, w)
  finish_flush target metrics (ok reports, w) =
      let (jobs, w') = flush_jobs target w in
      (replied (record { target = target; metrics = metrics; reports = reports; jobs = jobs }), w')

  unfoldable pub flush_data :
      Delivery → ℕ → FlushRequest → FlushWorld B R Json → Reply Flushed × FlushWorld B R Json
  unfolding flush_metrics flush_reports finish_flush
  flush_data reach now req w =
      let (metrics, w') = flush_metrics reach now req.target w in
      let done = finish_flush req.target metrics (flush_reports req.target w') in
      if not (req.confirmation == "DELETE ALL DATA") then (http_error 400, w) else done
