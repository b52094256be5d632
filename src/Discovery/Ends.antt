-- ===== src/Discovery/Ends.antt =====
-- How a domain discovery ends.
use github_osint_secret_scan.Prelude.{
  str_eq, eq_iff, ◌≡◌, refl, ◌⊎◌, inl, inr, none, some, Bool-cases,
}
use github_osint_secret_scan.Prelude.Result.{ok, raise}
use github_osint_secret_scan.Jobs.Policy.{Failure}
use github_osint_secret_scan.Jobs.Model.{Time}
use github_osint_secret_scan.Discovery.{
  completed, failed, cancelled, ScanJob, ToolRun, mark_tool_run_running, mark_tool_run_completed,
  mark_tool_run_failed, mark_scan_job_running, mark_scan_job_completed, mark_scan_job_failed,
  cancel_job, Provided, outcome, exception, Ended, fail_plan, execute_domain_plan,
}

-- The job and the run are both over, in one of the three ways in which a discovery ends.
pub record IsEnded (start now : Time) (e : Ended) : Type 0 where
  pub started : (e.job.started_at ≡ some start) × (e.run.started_at ≡ some start)
  pub over : (e.job.completed_at ≡ some now) × (e.run.completed_at ≡ some now)
  pub agrees :
      ((e.answer ≡ ok tt) × (e.job.status ≡ completed) × (e.run.status ≡ completed))
      ⊎ ((f : Failure) × (e.answer ≡ raise f)
          × (e.run.status ≡ failed)
          × (((e.job.status ≡ cancelled)
                × (f.code ≡ "cancelled")
                × (e.job.error_message ≡ some f.message))
              ⊎ ((e.job.status ≡ failed) × (e.job.error_message ≡ some "Domain discovery failed"))))

fail_plan-IsEnded :
    (start now : Time) (f : Failure) (job : ScanJob) (run : ToolRun)
    → job.started_at ≡ some start
    → run.started_at ≡ some start
    → IsEnded start now (fail_plan now f job run)
unfolding fail_plan cancel_job mark_scan_job_failed mark_tool_run_failed
fail_plan-IsEnded start now f job run h k = elim (Bool-cases (str_eq f.code "cancelled")) [
  | inl e ↦ rw e (record {
    started = (h, k);
    over = (refl, refl);
    agrees = inr (f, refl, refl, inl (refl, (eq_iff f.code "cancelled").0 e, refl));
  })
  | inr e ↦ rw e (record {
    started = (h, k);
    over = (refl, refl);
    agrees = inr (f, refl, refl, inr (refl, refl));
  })
]

-- However the provider ends, the discovery's job and its tool run are both closed, and agree with
-- the answer: both are completed if the call returns; if it raises, the run is failed, and the job
-- is cancelled with the message of a cancellation or failed with one fixed text.
pub execute_domain_plan-IsEnded :
    (start now : Time) (provided : Provided)
    → IsEnded start now (execute_domain_plan start now provided)
unfolding execute_domain_plan mark_scan_job_running mark_tool_run_running mark_scan_job_completed
    mark_tool_run_completed
execute_domain_plan-IsEnded start now (outcome none) = record {
  started = (refl, refl);
  over = (refl, refl);
  agrees = inl (refl, refl, refl);
}
execute_domain_plan-IsEnded start now (outcome (some f)) =
    fail_plan-IsEnded start now f _ _ refl refl
execute_domain_plan-IsEnded start now (exception f) = fail_plan-IsEnded start now f _ _ refl refl
