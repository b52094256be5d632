-- ===== src/Findings/System.antt =====
-- Every sequence of the findings' operations, each in its transaction.
use github_osint_secret_scan.Prelude.{ℕ, String, ◌≡◌, refl, Option, List, []}
use github_osint_secret_scan.Prelude.Result.{ok}
use github_osint_secret_scan.Prelude.Table.{Table, get}
use github_osint_secret_scan.Findings.Model.{
  Time, Evidence, ScanJob, Store, TriageUpdate, CanonicalFinding,
}
use github_osint_secret_scan.Findings.Storage.{update_finding_triage, suppress_finding, reopen}
use github_osint_secret_scan.Findings.Observe.{create_finding, upsert_correlated_finding}
use github_osint_secret_scan.Findings.History.{IsRecorded, replay}
use github_osint_secret_scan.Findings.History.Operations.{
  update_finding_triage-IsRecorded, suppress_finding-IsRecorded, reopen-IsRecorded,
}
use github_osint_secret_scan.Findings.History.Observe.{
  create_finding-IsRecorded, upsert_correlated_finding-IsRecorded,
}

module _ (scoped : ℕ → String → String) (timestamp : Option String → Option Time) where
  -- `record_scan` is any change of the scan jobs and of the evidence.
  pub data Step : Store → Store → Type 0 where
    observe :
        (now : Time) (auth : Option String) (c : CanonicalFinding) (i : ℕ) {st st' : Store}
        → create_finding scoped timestamp now auth c st ≡ ok (i, st')
        → Step st st'
    correlate :
        (now : Time) (auth : Option String) (c : CanonicalFinding) (i : ℕ) {st st' : Store}
        → upsert_correlated_finding scoped timestamp now auth c st ≡ ok (i, st')
        → Step st st'
    triage :
        (now : Time) (auth : Option String) (i : ℕ) (u : TriageUpdate) (reason : Option String)
        {st st' : Store}
        → update_finding_triage now auth i u reason st ≡ ok st'
        → Step st st'
    suppress :
        (now : Time) (auth : Option String) (i : ℕ) (reason : String) (owner : Option String)
        (deadline : Option ℕ) (notes : Option String) (status : String) {st st' : Store}
        → suppress_finding now auth i reason owner deadline notes status st ≡ ok st'
        → Step st st'
    open_again :
        (now : Time) (auth : Option String) (i : ℕ) (notes : Option String) {st st' : Store}
        → reopen now auth i notes st ≡ ok st'
        → Step st st'
    record_scan :
        (evidence : List Evidence) (scan_jobs : Table ScanJob) {st : Store}
        → Step st (record st { evidence = evidence; scan_jobs = scan_jobs })

  pub data Reachable : Store → Type 0 where
    initial :
        Reachable
          (record { findings = []; history = []; evidence = []; scan_jobs = []; suppressions = [] })
    next : {st st' : Store} → Reachable st → Step st st' → Reachable st'

  step-IsRecorded : {st st' : Store} → Step st st' → IsRecorded st → IsRecorded st'
  step-IsRecorded (observe now auth c i {st = st} {st' = st'} h) r =
      create_finding-IsRecorded scoped timestamp now auth c st i st' r h
  step-IsRecorded (correlate now auth c i {st = st} {st' = st'} h) r =
      upsert_correlated_finding-IsRecorded scoped timestamp now auth c st i st' r h
  step-IsRecorded (triage now auth i u reason {st = st} {st' = st'} h) r =
      update_finding_triage-IsRecorded now auth i u reason st st' r h
  step-IsRecorded (suppress now auth i reason owner deadline notes status {st = st} {st' = st'} h)
        r =
      suppress_finding-IsRecorded now auth i reason owner deadline notes status st st' r h
  step-IsRecorded (open_again now auth i notes {st = st} {st' = st'} h) r =
      reopen-IsRecorded now auth i notes st st' r h
  step-IsRecorded (record_scan evidence scan_jobs) r = record {
    keyed = r.keyed;
    replayed = r.replayed;
  }

  -- Whatever is observed and decided, in whatever order, the rows of each finding's history replay:
  -- they start with its first observation, each row leaves the state that the row before it
  -- reached, NEW is never entered again, REGRESSED is entered only from REMEDIATED by the row of a
  -- scan job, the last row reached the finding's state, and the entries into REGRESSED are as many
  -- as its `regression_count` says.
  pub reachable-IsRecorded : {st : Store} → Reachable st → IsRecorded st
  unfolding replay get
  reachable-IsRecorded initial = record { keyed = tt; replayed = λ i. refl }
  reachable-IsRecorded (next r step) = step-IsRecorded step (reachable-IsRecorded r)
