-- ===== src/Scans/Runner/Ends.antt =====
-- How a scan ends.
use github_osint_secret_scan.Prelude.{
  ℕ, String, false, some, List, arith, ◌≡◌, ◌≢◌, refl, inl, inr, length,
}
use github_osint_secret_scan.Prelude.Result.{Result-cases}
use github_osint_secret_scan.Prelude.Table.{Table, get, add_row, fresh_id, get-add_row, get-set_row}
use github_osint_secret_scan.Prelude.Rows.{IsKeyed}
use github_osint_secret_scan.Jobs.Model.{Time}
use github_osint_secret_scan.Findings.Lifecycle.{FindingError}
use github_osint_secret_scan.Discovery.{Status, ScanJob, ToolRun, new_job, new_run}
use github_osint_secret_scan.Discovery
use github_osint_secret_scan.Scans.Correlation.{ScanMatch}
use github_osint_secret_scan.Scans.Persist.{Setting, persist_matches}
use github_osint_secret_scan.Scans.Persist.Kept.{AllNoted, persist_matches-AllNoted}
use github_osint_secret_scan.Scans.Runner.{
  Database, Scanned, matched, stopped, broken, begin, change, fail_scan, cancel_scan, Ending,
  returned, cancelled_error, scanner_error, store_matches, execute_scan,
}

module _ {A : Type 0} where
  change-added :
      (f : A → A) (v : A) (t : Table A)
      → (get (fresh_id t) (change f (fresh_id t) (add_row v t)) ≡ some (f v))
        × ((k : ℕ) → k ≢ fresh_id t → get k (change f (fresh_id t) (add_row v t)) ≡ get k t)
  change-added f v t =
      let at_new : get (fresh_id t) (add_row v t) ≡ some v =
        ground (arith, get-add_row (fresh_id t) v t) in
      rw (at_new, change)
        (
          ground (arith, get-set_row (fresh_id t) (fresh_id t) (f v) (add_row v t), at_new),
          λ k apart.
              ground
                (arith, get-set_row (fresh_id t) k (f v) (add_row v t), get-add_row k v t, apart),
        )

-- What a scan that fails leaves as it was.
abbrev pub Untouched : Database → Database → Type 0
Untouched d d' =
    (d'.results.store.findings ≡ d.results.store.findings)
    × (d'.results.store.history ≡ d.results.store.history)
    × (d'.results.evidence ≡ d.results.evidence)
    × (d'.results.risk_scores ≡ d.results.risk_scores)

-- What each ending goes with.
abbrev pub Agrees :
    (ℕ → Setting) → Scanned → Database → Database → ScanJob → ToolRun → Ending → Type 0
Agrees setting scanned d d' job run (returned x) =
    (x.scan_job_id ≡ fresh_id d.jobs)
    × (job.status ≡ Discovery.completed)
    × (run.status ≡ Discovery.completed)
    × ((matches : List ScanMatch) × (scanned ≡ matched matches)
        × (x.findings ≡ length matches)
        × AllNoted (setting (fresh_id d.jobs)) matches x.finding_ids d'.results)
Agrees setting scanned d d' job run cancelled_error =
    (scanned ≡ stopped)
    × (job.status ≡ Discovery.cancelled)
    × (run.status ≡ Discovery.failed)
    × Untouched d d'
Agrees setting scanned d d' job run (scanner_error message) =
    (job.status ≡ Discovery.failed)
    × (job.error_message ≡ some message)
    × (run.status ≡ Discovery.failed)
    × (run.stderr_log ≡ some message)
    × Untouched d d'

module _ (setting : ℕ → Setting) (message_of : FindingError → String) (findings_log : ℕ → String)
    (target : String) where
  -- The rows of a scan after it, and what else it changed.
  abbrev pub Ended : Scanned → Database → Ending × Database → Type 0
  Ended scanned d end =
      (job : ScanJob) × (run : ToolRun) × (get (fresh_id d.jobs) end.1.jobs ≡ some job)
      × (get (fresh_id d.runs) end.1.runs ≡ some run)
      × ((k : ℕ) → k ≢ fresh_id d.jobs → get k end.1.jobs ≡ get k d.jobs)
      × Agrees setting scanned d end.1 job run end.0

  fail_scan-Ended :
      (start now : Time) (message : String) (scanned : Scanned) (d : Database)
      → let (job, run, committed) = begin start false d in
        Ended scanned d (scanner_error message, fail_scan now message job run committed)
  unfolding begin fail_scan
  fail_scan-Ended start now message scanned d =
      let (at_job, jobs) = change-added _ _ d.jobs in
      let (at_run, runs) = change-added _ _ d.runs in
      (_, _, at_job, at_run, jobs, (refl, refl, refl, refl, (refl, refl, refl, refl)))

  -- A scan always ends with its job and its tool run closed, and leaves every other job alone. If it
  -- returns a result, both are completed, the result counts the scanner's matches, and for each of
  -- them there are a finding of its identity, which this job observed last, and an observation that
  -- this job reported last. If it is cancelled or fails, in the scanner or while its
  -- matches are stored, the job is cancelled or failed with the error's message, the tool run is
  -- failed, and the findings, their history, the evidence and the risk scores are as before.
  -- The ids of evidence and of findings are unique.
  pub execute_scan-Ended :
      (start now : Time) (scanned : Scanned) (d : Database)
      → IsKeyed d.results.evidence
      → IsKeyed d.results.store.findings
      → Ended scanned d (execute_scan setting message_of findings_log target start now scanned d)
  unfolding execute_scan begin cancel_scan fail_scan store_matches
  execute_scan-Ended start now stopped d keyed findings_keyed =
      let (at_job, jobs) = change-added _ _ d.jobs in
      let (at_run, runs) = change-added _ _ d.runs in
      (_, _, at_job, at_run, jobs, (refl, refl, refl, (refl, refl, refl, refl)))
  execute_scan-Ended start now (broken message) d keyed findings_keyed =
      fail_scan-Ended start now message (broken message) d
  execute_scan-Ended start now (matched matches) d keyed findings_keyed =
      let s = setting (fresh_id d.jobs) in
      let before = (begin start false d).2.results in
      elim (Result-cases (persist_matches s matches before)) [
        | inr (error, e) ↦
            rw (e, store_matches) (fail_scan-Ended start now (message_of error) (matched matches) d)
        | inl ((ids, after), e) ↦
            let noted =
              persist_matches-AllNoted s matches ids before after keyed findings_keyed e in
            let (at_job, jobs) = change-added _ _ d.jobs in
            let (at_run, runs) = change-added _ _ d.runs in
            rw (e, store_matches)
              (_, _, at_job, at_run, jobs, (refl, refl, refl, (matches, refl, refl, noted.0)))
      ]
