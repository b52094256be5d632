-- ===== src/Scans/Evidence.antt =====
-- `upsert_scanner_evidence` and `create_risk_score` of src/orgscan/repositories.py. The redaction of
-- a row's texts, and the encrypted copies of the secrets that it takes out, are not modelled: the
-- rows are given as they are after it. `observation` is what the scan reports anew.
pub mod Upsert
use github_osint_secret_scan.Prelude.{
  ℕ, ◌+◌, String, str_eq, Bool, true, false, not, Option, none, some, List, [], ◌∷◌, ◌++◌,
  if◌then◌else◌, ◌==◌, or_default,
}
use github_osint_secret_scan.Prelude.Table.{Table, get, set_row, add_row, fresh_id}
use github_osint_secret_scan.Jobs.Model.{Time}

pub record Observation : Type 0 where
  pub source : String
  pub repository_path : String
  pub commit_sha : Option String
  pub ref_name : Option String
  pub line_start : ℕ
  pub line_end : ℕ
  pub snippet : String
  pub extracted_indicator : String
  pub confidence : String
  pub source_class : String

-- The entries of `metadata_json` that the scan reports.
pub record Reported : Type 0 where
  pub detector_id : String
  pub last_scan_job_id : ℕ
  pub severity : String
  pub confidence : String
  pub title : String

pub record Evidence : Type 0 where
  pub finding_id : ℕ
  pub observation_fingerprint : String
  pub observed_at : Time
  pub observation : Observation
  pub reported : Reported
  pub first_scan_job_id : Option ℕ
  pub observations : ℕ

pub record RiskScore : Type 0 where
  pub finding_id : ℕ
  pub score : ℕ
  pub severity : String
  pub confidence : String

unfoldable pub find_evidence : String → Table Evidence → Option (ℕ × Evidence)
find_evidence fingerprint [] = none
find_evidence fingerprint ((i, e) ∷ rows) =
    if str_eq e.observation_fingerprint fingerprint
    then some (i, e)
    else find_evidence fingerprint rows

-- The row that is already there, after one more observation.
unfoldable pub seen_again : Time → Observation → Reported → Evidence → Evidence
seen_again now observation reported e = record e {
  observed_at = now;
  observation = record observation { source = e.observation.source };
  reported = reported;
  observations =
      if reported.last_scan_job_id == e.reported.last_scan_job_id
      then e.observations
      else e.observations + 1;
}

abbrev pub first_seen : Time → ℕ → String → Observation → Reported → Evidence
first_seen now finding_id fingerprint observation reported = record {
  finding_id = finding_id;
  observation_fingerprint = fingerprint;
  observed_at = now;
  observation = observation;
  reported = reported;
  first_scan_job_id = some reported.last_scan_job_id;
  observations = 1;
}

unfoldable pub upsert_scanner_evidence :
    Time → ℕ → String → Observation → Reported → Table Evidence → ℕ × Table Evidence
unfolding find_evidence seen_again set_row
upsert_scanner_evidence now finding_id fingerprint observation reported rows =
    elim (find_evidence fingerprint rows) [
      | some (i, e) ↦ (i, set_row i (seen_again now observation reported e) rows)
      | none ↦
          (fresh_id rows, add_row (first_seen now finding_id fingerprint observation reported) rows)
    ]

unfoldable pub create_risk_score : RiskScore → List RiskScore → List RiskScore
create_risk_score score scores = scores ++ score ∷ []
