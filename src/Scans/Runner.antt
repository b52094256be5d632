-- ===== src/Scans/Runner.antt =====
-- src/orgscan/runner.py: `execute_scan` and `record_scan_results`. A scan
-- runs between two transactions: its job and tool run are committed as running before it, and its
-- results with their marks after it; a rollback returns to the first commit. What the scanner does
-- is an argument. The rewriting of paths to a canonical root and the serialized plan are not
-- modelled.
pub mod Ends
use Prim.Native.String.{◌++◌ as ◌++ˢ◌}
use github_osint_secret_scan.Prelude.{
  ℕ, String, str_eq, Bool, true, false, Option, none, some, List, [], ◌∷◌, ◌++◌, length,
}
use github_osint_secret_scan.Prelude.Result.{Result, ok, raise}
use github_osint_secret_scan.Prelude.Table.{Table, get, set_row, add_row, fresh_id}
use github_osint_secret_scan.Jobs.Model.{Time, ScanExecutionResult}
use github_osint_secret_scan.Findings.Lifecycle.{FindingError}
use github_osint_secret_scan.Discovery.{
  Status, pending, ScanJob, ToolRun, new_job, new_run, mark_scan_job_running, mark_tool_run_running,
  mark_scan_job_completed, mark_tool_run_completed, mark_scan_job_failed, mark_tool_run_failed,
  cancel_job,
}
use github_osint_secret_scan.Discovery
use github_osint_secret_scan.Scans.Correlation.{ScanMatch}
use github_osint_secret_scan.Scans.Persist.{Results, Setting, persist_matches}

pub record Database : Type 0 where
  pub jobs : Table ScanJob
  pub runs : Table ToolRun
  pub results : Results

-- What the scanner ends with: its matches, a cancellation, or another exception, by the message
-- that `safe_error` makes of it.
pub data Scanned : Type 0 where
  matched : List ScanMatch → Scanned
  stopped : Scanned
  broken : String → Scanned

abbrev pub cancel_message : String
cancel_message = "Operation cancelled by operator"

-- The job and the tool run, both running, and their ids.
unfoldable pub begin : Time → Bool → Database → ℕ × ℕ × Database
unfolding mark_scan_job_running mark_tool_run_running add_row fresh_id
begin now ingested d =
    let job = fresh_id d.jobs in
    let run = fresh_id d.runs in
    let store = d.results.store in
    (
      job,
      run,
      record d {
        jobs = add_row (mark_scan_job_running now new_job) d.jobs;
        runs = add_row (mark_tool_run_running now new_run) d.runs;
        results = record d.results {
          store = record store {
            scan_jobs =
                store.scan_jobs
                ++ (job, record { started_at = some now; created_at = now; ingested = ingested })
                  ∷ [];
          };
        };
      },
    )

abbrev pub change {ℓ} : {A : Type ℓ} → (A → A) → ℕ → Table A → Table A
change f i t = elim (get i t) [ none ↦ t | some a ↦ set_row i (f a) t ]

-- The marks of a scan that has ended.
abbrev pub mark : (ScanJob → ScanJob) → (ToolRun → ToolRun) → ℕ → ℕ → Database → Database
mark f g job run d = record d { jobs = change f job d.jobs; runs = change g run d.runs }

-- The `except` block: `committed` is what the rollback returns to.
unfoldable pub fail_scan : Time → String → ℕ → ℕ → Database → Database
unfolding mark_scan_job_failed mark_tool_run_failed get set_row
fail_scan now message job run committed =
    mark (mark_scan_job_failed now message) (mark_tool_run_failed now (some message)) job run
      committed

unfoldable pub cancel_scan : Time → ℕ → ℕ → Database → Database
unfolding cancel_job mark_tool_run_failed get set_row
cancel_scan now job run committed =
    mark (cancel_job now cancel_message) (mark_tool_run_failed now (some cancel_message)) job run
      committed

abbrev executed : String → String → ℕ → ℕ → List ScanMatch → List ℕ → ScanExecutionResult
executed scanner target job run matches ids = record {
  scan_job_id = job;
  scanner = scanner;
  target = target;
  findings = length matches;
  finding_ids = ids;
  tool_run_id = some run;
  status = "completed";
  skip_reason = none;
}

-- How a call ends: with a result, as cancelled, or with ScannerExecutionError.
pub data Ending : Type 0 where
  returned : ScanExecutionResult → Ending
  cancelled_error : Ending
  scanner_error : String → Ending

module _ (setting : ℕ → Setting) (message_of : FindingError → String) (findings_log : ℕ → String)
    (target : String) where
  -- The end of the `try` block: the matches are stored and both rows are marked.
  unfoldable pub store_matches : Time → ℕ → ℕ → List ScanMatch → Database → Ending × Database
  unfolding persist_matches mark_scan_job_completed mark_tool_run_completed fail_scan get set_row
  store_matches now job run matches committed =
      let s = setting job in
      elim (persist_matches s matches committed.results) [
        | raise error ↦
            (scanner_error (message_of error), fail_scan now (message_of error) job run committed)
        | ok (ids, results) ↦ (
          returned (executed s.scanner_name target job run matches ids),
          mark (mark_scan_job_completed now)
              (mark_tool_run_completed now (some (findings_log (length matches))) none) job run
              (record committed { results = results }),
        )
      ]

  unfoldable pub execute_scan : Time → Time → Scanned → Database → Ending × Database
  unfolding begin store_matches fail_scan cancel_scan
  execute_scan start now scanned d =
      let (job, run, committed) = begin start false d in
      elim scanned [
        | matched matches ↦ store_matches now job run matches committed
        | stopped ↦ (cancelled_error, cancel_scan now job run committed)
        | broken message ↦ (scanner_error message, fail_scan now message job run committed)
      ]

  -- Matches of an import: there is no scanner that could fail.
  unfoldable pub record_scan_results : Time → Time → List ScanMatch → Database → Ending × Database
  unfolding begin store_matches
  record_scan_results start now matches d =
      let (job, run, committed) = begin start true d in store_matches now job run matches committed
