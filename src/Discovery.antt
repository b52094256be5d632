-- ===== src/Discovery.antt =====
-- `execute_domain_plan` of src/orgscan/services/scan_service.py, from the creation of its rows on,
-- with the marks of scan jobs and tool runs of src/orgscan/repositories.py. What the provider does
-- is an argument; its observations and the resolution of the domain are not modelled.
pub mod Ends
use github_osint_secret_scan.Prelude.{
  ℕ, String, str_eq, Bool, true, false, Option, none, some, if◌then◌else◌,
}
use github_osint_secret_scan.Prelude.Result.{Result, ok, raise}
use github_osint_secret_scan.Jobs.Policy.{Failure}
use github_osint_secret_scan.Jobs.Model.{Time}

pub data Status : Type 0 where
  pending running completed failed cancelled : Status

pub record ScanJob : Type 0 where
  pub status : Status
  pub error_message : Option String
  pub started_at : Option Time
  pub completed_at : Option Time

pub record ToolRun : Type 0 where
  pub status : Status
  pub started_at : Option Time
  pub completed_at : Option Time
  pub stdout_log : Option String
  pub stderr_log : Option String

unfoldable pub mark_tool_run_running : Time → ToolRun → ToolRun
mark_tool_run_running now run = record run { status = running; started_at = some now }

abbrev keep_or : Option String → Option String → Option String
keep_or none old = old
keep_or (some new_text) old = some new_text

unfoldable pub mark_tool_run_completed : Time → Option String → Option String → ToolRun → ToolRun
mark_tool_run_completed now stdout_log stderr_log run = record run {
  status = completed;
  completed_at = some now;
  stdout_log = keep_or stdout_log run.stdout_log;
  stderr_log = keep_or stderr_log run.stderr_log;
}

unfoldable pub mark_tool_run_failed : Time → Option String → ToolRun → ToolRun
mark_tool_run_failed now stderr_log run = record run {
  status = failed;
  completed_at = some now;
  stderr_log = keep_or stderr_log run.stderr_log;
}

unfoldable pub mark_scan_job_running : Time → ScanJob → ScanJob
mark_scan_job_running now job = record job { status = running; started_at = some now }

unfoldable pub mark_scan_job_completed : Time → ScanJob → ScanJob
mark_scan_job_completed now job = record job { status = completed; completed_at = some now }

unfoldable pub mark_scan_job_failed : Time → String → ScanJob → ScanJob
mark_scan_job_failed now error_message job = record job {
  status = failed;
  error_message = some error_message;
  completed_at = some now;
}

-- `job.status = 'cancelled'` and the two assignments after it.
unfoldable pub cancel_job : Time → String → ScanJob → ScanJob
cancel_job now message job = record job {
  status = cancelled;
  error_message = some message;
  completed_at = some now;
}

-- What the provider ends with: an outcome, with the failure that it carries if it has one, or an
-- exception, by its classification.
pub data Provided : Type 0 where
  outcome : Option Failure → Provided
  exception : Failure → Provided

abbrev pub new_job : ScanJob
new_job = record { status = pending; error_message = none; started_at = none; completed_at = none }

abbrev pub new_run : ToolRun
new_run = record {
  status = pending;
  started_at = none;
  completed_at = none;
  stdout_log = none;
  stderr_log = none;
}

-- The rows as they are committed, and how the call ends.
pub record Ended : Type 0 where
  pub job : ScanJob
  pub run : ToolRun
  pub answer : Result Failure Unit

-- The `except` block.
unfoldable pub fail_plan : Time → Failure → ScanJob → ToolRun → Ended
fail_plan now failure job run =
    if str_eq failure.code "cancelled"
    then record {
      job = cancel_job now failure.message job;
      run = mark_tool_run_failed now (some failure.message) run;
      answer = raise failure;
    }
    else record {
      job = mark_scan_job_failed now "Domain discovery failed" job;
      run = mark_tool_run_failed now (some "Domain discovery failed") run;
      answer = raise failure;
    }

unfoldable pub execute_domain_plan : Time → Time → Provided → Ended
execute_domain_plan start now provided =
    let job = mark_scan_job_running start new_job in
    let run = mark_tool_run_running start new_run in
    elim provided [
      | outcome failure ↦ elim failure [
        | none ↦ record {
          job = mark_scan_job_completed now job;
          run = mark_tool_run_completed now none none run;
          answer = ok tt;
        }
        | some f ↦ fail_plan now f job run
      ]
      | exception f ↦ fail_plan now f job run
    ]
