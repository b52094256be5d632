-- ===== src/Examples/Scans.antt =====
-- A scan of one repository, and two matches of one secret.
use github_osint_secret_scan.Prelude.{
  ℕ, String, str_eq, true, Option, none, some, [], ◌∷◌, ◌≡◌, ◌↔◌, refl, if◌then◌else◌,
}
use github_osint_secret_scan.Prelude.Table.{get}
use github_osint_secret_scan.Prelude.Rows.{IsKeyed}
use github_osint_secret_scan.Findings.Lifecycle.{FindingError}
use github_osint_secret_scan.Scans.Correlation.{
  ScanMatch, Identity, has_secret_digest, finding_identity,
}
use github_osint_secret_scan.Scans.Correlation.Same.{secret_of, finding_identity-secret}
use github_osint_secret_scan.Scans.Evidence.{
  Observation, Reported, Evidence, find_evidence, upsert_scanner_evidence,
}
use github_osint_secret_scan.Scans.Evidence.Upsert.{Follows, upsert_scanner_evidence-Follows}
use github_osint_secret_scan.Scans.Persist.{Setting}
use github_osint_secret_scan.Scans.Runner.{Database, matched, execute_scan}
use github_osint_secret_scan.Scans.Runner.Ends.{Ended, execute_scan-Ended}

abbrev key_digest : String
key_digest = "0123456789abcdef0123456789abcdef0123456789abcdef0123456789abcdef"

abbrev first_match : ScanMatch
first_match = record {
  path = "app/settings.py";
  line_start = 3;
  line_end = 3;
  category = "secret";
  title = "API key";
  description = "An API key.";
  severity = "high";
  confidence = "likely";
  indicator = "hidden";
  snippet = "hidden";
  remediation_hint = none;
  raw_payload = [];
  metadata = ("secret_digest", key_digest) ∷ ("rule_id", "api-key") ∷ [];
}

abbrev moved_match : ScanMatch
moved_match = record first_match { path = "app/old.py"; line_start = 40; line_end = 40 }

abbrev itself : Identity → Identity
itself i = i

abbrev same_path : String → String
same_path s = s

carries_first : has_secret_digest first_match ≡ true
unfolding has_secret_digest
carries_first = refl

carries_moved : has_secret_digest moved_match ≡ true
unfolding has_secret_digest
carries_moved = refl

finding_identity-secret_example :
    (finding_identity same_path itself none (some 7) "gitleaks" first_match
      ≡ finding_identity same_path itself none (some 7) "trufflehog" moved_match)
    ↔ ((secret_of first_match ≡ secret_of moved_match)
        × (◌≡◌ {A = ℕ} 7 7)
        × (◌≡◌ {A = Option ℕ} none none))
finding_identity-secret_example =
    finding_identity-secret same_path itself (λ a b e. e) none none 7 7 "gitleaks" "trufflehog"
      first_match moved_match carries_first carries_moved

abbrev seen_here : Observation
seen_here = record {
  source = "gitleaks";
  repository_path = "app/settings.py";
  commit_sha = none;
  ref_name = none;
  line_start = 3;
  line_end = 3;
  snippet = "hidden";
  extracted_indicator = "hidden";
  confidence = "likely";
  source_class = "internal";
}

abbrev report_of : ℕ → Reported
report_of job = record {
  detector_id = "api-key";
  last_scan_job_id = job;
  severity = "high";
  confidence = "likely";
  title = "API key";
}

abbrev noted_once : Evidence
noted_once = record {
  finding_id = 1;
  observation_fingerprint = "o1";
  observed_at = 5;
  observation = seen_here;
  reported = report_of 1;
  first_scan_job_id = some 1;
  observations = 1;
}

one_row_keyed : IsKeyed ((1, noted_once) ∷ [])
unfolding get
one_row_keyed = (refl, tt)

upsert_scanner_evidence-Follows_example :
    (e : Evidence) × ((g : String)
      → find_evidence g
          (upsert_scanner_evidence 9 1 "o1" seen_here (report_of 2) ((1, noted_once) ∷ [])).1
        ≡ (if str_eq "o1" g
            then some (
              (upsert_scanner_evidence 9 1 "o1" seen_here (report_of 2) ((1, noted_once) ∷ [])).0,
              e,
            )
            else find_evidence g ((1, noted_once) ∷ [])))
    × IsKeyed (upsert_scanner_evidence 9 1 "o1" seen_here (report_of 2) ((1, noted_once) ∷ [])).1
    × (e.reported ≡ report_of 2)
    × Follows
        (find_evidence "o1" ((1, noted_once) ∷ []))
        (upsert_scanner_evidence 9 1 "o1" seen_here (report_of 2) ((1, noted_once) ∷ [])).0
        1
        (report_of 2)
        e
upsert_scanner_evidence-Follows_example =
    upsert_scanner_evidence-Follows 9 1 "o1" seen_here (report_of 2) ((1, noted_once) ∷ [])
      one_row_keyed

abbrev no_error : FindingError → String
no_error e = "error"

abbrev setting : ℕ → Setting
setting job = record {
  scanner_name = "gitleaks";
  scan_job_id = job;
  source_class = "internal";
  organization_id = none;
  repository_id = some 7;
  now = 10;
  auth = none;
  resolved = same_path;
  finding_digest = λ i. "f1";
  evidence_digest = λ o. "o1";
  risk = λ s c k. 7200;
  scoped = λ d h. h;
  timestamp = λ t. none;
}

abbrev empty_database : Database
empty_database = record {
  jobs = [];
  runs = [];
  results = record {
    store = record {
      findings = [];
      history = [];
      evidence = [];
      scan_jobs = [];
      suppressions = [];
    };
    evidence = [];
    risk_scores = [];
  };
}

execute_scan-Ended_example :
    Ended setting no_error
      (λ n. "findings")
      "repository"
      (matched (first_match ∷ []))
      empty_database
      (execute_scan setting no_error
        (λ n. "findings")
        "repository"
        1
        10
        (matched (first_match ∷ []))
        empty_database)
execute_scan-Ended_example =
    execute_scan-Ended setting no_error (λ n. "findings") "repository" 1 10
      (matched (first_match ∷ [])) empty_database tt tt
