-- ===== src/Findings/Model.antt =====
-- The rows of findings: src/orgscan/models.py (Finding, FindingHistory, Evidence, Suppression,
-- ScanJob) and `CanonicalFinding` of src/orgscan/schemas.py, with the columns that the findings'
-- operations read or write. A time is a number of microseconds, a date a number of days; a risk
-- score is its number of hundredths (scoring.py rounds to two places). JSON columns keep their
-- text entries.
use github_osint_secret_scan.Prelude.{
  ℕ, String, str_eq, Bool, true, false, ◌&&◌, Option, none, some, List, ◌==◌,
}
use github_osint_secret_scan.Prelude.Dict.{Dict}
use github_osint_secret_scan.Prelude.Table.{Table}
use github_osint_secret_scan.Findings.Lifecycle.{LifecycleState, same_state}

abbrev pub Time : Type 0
Time = ℕ

pub record Finding : Type 0 where
  pub domain_id : Option ℕ
  pub scan_job_id : Option ℕ
  pub source_tool : String
  pub severity : String
  pub confidence : String
  pub status : String
  pub lifecycle_state : LifecycleState
  pub remediated_at : Option Time
  pub regressed_at : Option Time
  pub regression_count : ℕ
  pub triage_state : String
  pub triage_owner : Option String
  pub triage_notes : Option String
  pub remediation_due_date : Option ℕ
  pub fingerprint : String
  pub normalized_hash : String
  pub risk_score : Option ℕ
  pub last_seen_at : Time
  pub raw_payload : Dict String
  pub metadata_json : Dict String

-- `snapshot(finding)`
pub record Snapshot : Type 0 where
  pub status : String
  pub lifecycle_state : LifecycleState
  pub triage_state : String
  pub triage_owner : Option String
  pub triage_notes : Option String
  pub remediation_due_date : Option ℕ
  pub remediated_at : Option Time
  pub regressed_at : Option Time
  pub regression_count : ℕ

unfoldable pub snapshot : Finding → Snapshot
snapshot f = record {
  status = f.status;
  lifecycle_state = f.lifecycle_state;
  triage_state = f.triage_state;
  triage_owner = f.triage_owner;
  triage_notes = f.triage_notes;
  remediation_due_date = f.remediation_due_date;
  remediated_at = f.remediated_at;
  regressed_at = f.regressed_at;
  regression_count = f.regression_count;
}

abbrev same_text : Option String → Option String → Bool
same_text none none = true
same_text (some s) (some t) = str_eq s t
same_text _ _ = false

abbrev pub same_num : Option ℕ → Option ℕ → Bool
same_num none none = true
same_num (some m) (some n) = m == n
same_num _ _ = false

-- `before == snapshot(finding)`, which compares two dictionaries.
unfoldable pub same_snapshot : Snapshot → Snapshot → Bool
same_snapshot a b =
    str_eq a.status b.status
    && same_state a.lifecycle_state b.lifecycle_state
    && str_eq a.triage_state b.triage_state
    && same_text a.triage_owner b.triage_owner
    && same_text a.triage_notes b.triage_notes
    && same_num a.remediation_due_date b.remediation_due_date
    && same_num a.remediated_at b.remediated_at
    && same_num a.regressed_at b.regressed_at
    && a.regression_count == b.regression_count

pub record FindingHistory : Type 0 where
  pub finding_id : ℕ
  pub from_state : Option LifecycleState
  pub to_state : LifecycleState
  pub actor : String
  pub reason : Option String
  pub scan_job_id : Option ℕ
  pub occurred_at : Time
  pub before : Option Snapshot
  pub after : Snapshot

pub record Evidence : Type 0 where
  pub finding_id : ℕ
  pub commit_sha : Option String

-- `ingested` is the truth value of that entry of `parameters_json`.
pub record ScanJob : Type 0 where
  pub started_at : Option Time
  pub created_at : Time
  pub ingested : Bool

pub record Suppression : Type 0 where
  pub finding_id : ℕ
  pub status : String
  pub reason : String
  pub owner : Option String
  pub deadline : Option ℕ
  pub notes : Option String

-- The lists of rows that are only added to stand in the order of their ids.
pub record Store : Type 0 where
  pub findings : Table Finding
  pub history : List FindingHistory
  pub evidence : List Evidence
  pub scan_jobs : Table ScanJob
  pub suppressions : List Suppression

pub record CanonicalFinding : Type 0 where
  pub source_tool : String
  pub severity : String
  pub confidence : String
  pub status : String
  pub fingerprint : String
  pub normalized_hash : String
  pub last_seen_at : Time
  pub risk_score : Option ℕ
  pub raw_payload : Dict String
  pub metadata : Dict String
  pub domain_id : Option ℕ
  pub scan_job_id : Option ℕ

-- `TriageUpdate` of src/orgscan/services/finding_service.py.
pub record TriageUpdate : Type 0 where
  pub status : Option String
  pub lifecycle_state : Option String
  pub triage_state : Option String
  pub triage_owner : Option String
  pub triage_notes : Option String
  pub remediation_due_date : Option ℕ
