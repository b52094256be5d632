-- ===== src/Examples/Query.antt =====
-- Two findings, listed by their severity.
use mathlib.Core.List.{Memᴰ}
use github_osint_secret_scan.Prelude.{
  ℕ, String, ◌≡◌, true, Option, none, some, List, [], ◌∷◌, take, ◌↔◌,
}
use github_osint_secret_scan.Findings.Query.{Row, FindingQuery, list_findings}
use github_osint_secret_scan.Findings.Query.Contents.{Passes, HasSignal}
use github_osint_secret_scan.Findings.Query.Listing.{NewestFirst, list_findings_exact}

abbrev trusted : List String
trusted = "likely" ∷ "verified" ∷ []

abbrev row : ℕ → String → String → ℕ → Row
row i severity confidence detected_at = record {
  id = i;
  status = "open";
  lifecycle_state = "NEW";
  category = "secret";
  severity = severity;
  confidence = confidence;
  source_tool = "custom-patterns";
  triage_state = "new";
  organization_id = none;
  domain_id = none;
  repository_id = some 4;
  account_id = none;
  scan_job_id = some 1;
  risk_score = some 7200;
  detected_at = detected_at;
}

abbrev rows : List Row
rows = row 1 "high" "likely" 10 ∷ row 2 "low" "heuristic" 20 ∷ row 3 "high" "verified" 30 ∷ []

abbrev high : Option ℕ → FindingQuery
high limit = record {
  limit = limit;
  status = none;
  category = none;
  severity = some "high";
  confidence = none;
  source_tool = none;
  lifecycle_state = none;
  triage_state = none;
  organization_id = none;
  domain_id = none;
  repository_id = some 4;
  account_id = none;
  scan_job_id = none;
  risk_score_min = none;
  risk_score_max = none;
  detected_after = none;
  detected_before = none;
}

list_findings_exact_example :
    ((r : Row)
      → Memᴰ r (list_findings (λ i. true) (some trusted) (record (high none) { limit = none }) rows)
        ↔ (Memᴰ r rows × Passes (λ i. true) (high none) r × HasSignal (some trusted) r))
    × NewestFirst
        (list_findings (λ i. true) (some trusted) (record (high none) { limit = none }) rows)
    × ((n : ℕ)
        → list_findings (λ i. true) (some trusted) (record (high none) { limit = some n }) rows
          ≡ take n
              (list_findings (λ i. true) (some trusted) (record (high none) { limit = none }) rows))
list_findings_exact_example = list_findings_exact (λ i. true) (some trusted) (high none) rows
