-- ===== src/Examples/Findings.antt =====
-- A finding that is observed, remediated, and observed again by a later scan.
use github_osint_secret_scan.Prelude.{
  ℕ, String, ◌≡◌, ◌↔◌, refl, true, false, Option, none, some, [], ◌∷◌,
}
use github_osint_secret_scan.Prelude.Dict.{lookup}
use github_osint_secret_scan.Prelude.Result.{Result, ok, raise}
use github_osint_secret_scan.Prelude.Table.{Table, get, fresh_id, add_row, set_row, update_where}
use github_osint_secret_scan.Findings.Lifecycle.{
  LifecycleState, FindingError, remediated, regressed, parse_state, from_legacy,
  validate_transition, check_transition, IsAllowed, validate_transition-IsAllowed,
}
use github_osint_secret_scan.Findings.Model.{
  Time, Finding, Store, CanonicalFinding, TriageUpdate, ScanJob, snapshot, same_snapshot,
}
use github_osint_secret_scan.Findings.Storage.{
  write_finding, record_history, moved, transition, triaged, triage_target, finish_triage,
  update_finding_triage,
}
use github_osint_secret_scan.Findings.Observe.{
  create_finding, find_existing, insert_finding, new_finding, observe_existing, regresses,
  regression_evidence_is_new, incoming_job, commit_of, seen_again,
}
use github_osint_secret_scan.Findings.History.{IsRecorded}
use github_osint_secret_scan.Findings.System.{Reachable, Step, reachable-IsRecorded}

abbrev scoped : ℕ → String → String
scoped d s = s

abbrev timestamp : Option String → Option Time
timestamp s = none

abbrev seen_at : Time → ℕ → CanonicalFinding
seen_at t job = record {
  source_tool = "custom-patterns";
  severity = "high";
  confidence = "likely";
  status = "open";
  fingerprint = "f1";
  normalized_hash = "h1";
  last_seen_at = t;
  risk_score = some 7200;
  raw_payload = [];
  metadata = [];
  domain_id = none;
  scan_job_id = some job;
}

abbrev empty_store : Store
empty_store = record {
  findings = [];
  history = [];
  evidence = [];
  scan_jobs = [];
  suppressions = [];
}

abbrev jobs : Table ScanJob
jobs =
    (1, record { started_at = some 10; created_at = 9; ingested = false })
    ∷ (2, record { started_at = some 50; created_at = 49; ingested = false })
    ∷ []

abbrev with_jobs : Store
with_jobs = record empty_store { scan_jobs = jobs }

abbrev store_of : Result FindingError (ℕ × Store) → Store
store_of (ok r) = r.1
store_of (raise e) = empty_store

abbrev only_store : Result FindingError Store → Store
only_store (ok st) = st
only_store (raise e) = empty_store

abbrev resolved : TriageUpdate
resolved = record {
  status = some "resolved";
  lifecycle_state = none;
  triage_state = none;
  triage_owner = none;
  triage_notes = none;
  remediation_due_date = none;
}

abbrev first_seen : Store
first_seen = store_of (create_finding scoped timestamp 20 none (seen_at 20 1) with_jobs)

abbrev fixed : Store
fixed = only_store (update_finding_triage 30 (some "analyst") 1 resolved none first_seen)

abbrev back : Store
back = store_of (create_finding scoped timestamp 60 none (seen_at 60 2) fixed)

seen : create_finding scoped timestamp 20 none (seen_at 20 1) with_jobs ≡ ok (1, first_seen)
unfolding create_finding find_existing insert_finding from_legacy fresh_id add_row record_history
seen = refl

resolves : update_finding_triage 30 (some "analyst") 1 resolved none first_seen ≡ ok fixed
unfolding create_finding find_existing insert_finding from_legacy fresh_id add_row record_history
    update_finding_triage triage_target transition validate_transition parse_state check_transition
    write_finding update_where get set_row finish_triage snapshot same_snapshot new_finding triaged
    moved
resolves = refl

seen_again_later : create_finding scoped timestamp 60 none (seen_at 60 2) fixed ≡ ok (1, back)
unfolding create_finding find_existing insert_finding from_legacy fresh_id add_row record_history
    update_finding_triage triage_target transition validate_transition parse_state check_transition
    write_finding update_where get set_row finish_triage snapshot same_snapshot new_finding triaged
    moved observe_existing regresses regression_evidence_is_new incoming_job commit_of lookup
seen_again_later = refl

-- The later scan regressed it.
abbrev state_of : Option Finding → Option (LifecycleState × ℕ)
state_of none = none
state_of (some f) = some (f.lifecycle_state, f.regression_count)

regressed_once : state_of (get 1 back.findings) ≡ some (regressed, 1)
unfolding create_finding find_existing insert_finding from_legacy fresh_id add_row record_history
    update_finding_triage triage_target transition validate_transition parse_state check_transition
    write_finding update_where get set_row finish_triage snapshot same_snapshot new_finding triaged
    moved observe_existing regresses regression_evidence_is_new incoming_job commit_of lookup
    seen_again
regressed_once = refl

reachable-IsRecorded_example : IsRecorded back
reachable-IsRecorded_example = reachable-IsRecorded scoped timestamp (
    Reachable.next
      (Reachable.next
        (Reachable.next (Reachable.next Reachable.initial (Step.record_scan [] jobs))
          (Step.observe 20 none (seen_at 20 1) 1 seen))
        (Step.triage 30 (some "analyst") 1 resolved none resolves))
      (Step.observe 60 none (seen_at 60 2) 1 seen_again_later))

validate_transition-IsAllowed_example :
    (validate_transition remediated "REGRESSED" true ≡ ok regressed)
    ↔ ((parse_state "REGRESSED" ≡ some regressed) × IsAllowed remediated regressed true)
validate_transition-IsAllowed_example =
    validate_transition-IsAllowed remediated regressed "REGRESSED" true
