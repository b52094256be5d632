-- ===== src/Scans/Persist.antt =====
-- `_persist_matches` of src/orgscan/runner.py: the rows that a scan's matches leave. The redaction
-- of the matches comes before it and is not modelled; the digests, the risk score (whose floats
-- are numbers of hundredths) and what the storage of findings takes are arguments.
pub mod Kept
use github_osint_secret_scan.Prelude.{
  ℕ, String, Bool, true, false, Option, none, some, List, [], ◌∷◌, ◌++◌, map, or_default,
}
use github_osint_secret_scan.Prelude.Dict.{Dict, lookup}
use github_osint_secret_scan.Prelude.Result.{Result, ok, raise, then_do}
use github_osint_secret_scan.Prelude.Table.{Table, get}
use github_osint_secret_scan.Jobs.Model.{Time}
use github_osint_secret_scan.Findings.Lifecycle.{FindingError}
use github_osint_secret_scan.Findings.Model.{Finding, CanonicalFinding, Store}
use github_osint_secret_scan.Findings.Model
use github_osint_secret_scan.Findings.Observe.{upsert_correlated_finding}
use github_osint_secret_scan.Scans.Correlation.{
  ScanMatch, Identity, Observed, finding_identity, evidence_identity, detector_id,
}
use github_osint_secret_scan.Scans.Evidence.{
  Observation, Reported, Evidence, RiskScore, upsert_scanner_evidence, create_risk_score,
}

-- What a scan writes to: findings, evidence and risk scores.
pub record Results : Type 0 where
  pub store : Store
  pub evidence : Table Evidence
  pub risk_scores : List RiskScore

-- What the findings read of the table of evidence.
abbrev evidence_of : ℕ × Evidence → Model.Evidence
evidence_of (i, e) = record { finding_id = e.finding_id; commit_sha = e.observation.commit_sha }

unfoldable pub with_evidence : Table Evidence → Results → Results
with_evidence rows r = record r {
  evidence = rows;
  store = record r.store { evidence = map evidence_of rows };
}

abbrev pub observation_of : String → String → ScanMatch → Observation
observation_of scanner source_class m = record {
  source = scanner;
  repository_path = m.path;
  commit_sha = lookup "commit_sha" m.metadata;
  ref_name = lookup "ref_name" m.metadata;
  line_start = m.line_start;
  line_end = m.line_end;
  snippet = m.snippet;
  extracted_indicator = m.indicator;
  confidence = m.confidence;
  source_class = source_class;
}

unfoldable pub reported_of : ℕ → ScanMatch → Reported
unfolding detector_id
reported_of scan_job_id m = record {
  detector_id = detector_id m;
  last_scan_job_id = scan_job_id;
  severity = m.severity;
  confidence = m.confidence;
  title = m.title;
}

-- What stays the same for the matches of a scan, and the arguments of the model.
pub record Setting : Type 0 where
  pub scanner_name : String
  pub scan_job_id : ℕ
  pub source_class : String
  pub organization_id : Option ℕ
  pub repository_id : Option ℕ
  pub now : Time
  pub auth : Option String
  pub resolved : String → String
  pub finding_digest : Identity → String
  pub evidence_digest : Observed → String
  pub risk : String → String → String → ℕ
  pub scoped : ℕ → String → String
  pub timestamp : Option String → Option Time

unfoldable pub canonical : Setting → ScanMatch → CanonicalFinding
unfolding finding_identity
canonical s m =
    let identity =
      finding_identity s.resolved s.finding_digest s.organization_id s.repository_id s.scanner_name
        m in
    record {
      source_tool = s.scanner_name;
      severity = m.severity;
      confidence = m.confidence;
      status = "open";
      fingerprint = identity;
      normalized_hash = identity;
      last_seen_at = s.now;
      risk_score = some (s.risk m.severity m.confidence s.source_class);
      raw_payload = m.raw_payload;
      metadata = m.metadata;
      domain_id = none;
      scan_job_id = some s.scan_job_id;
    }

abbrev score_of : ℕ → Option Finding → RiskScore
score_of i none = record { finding_id = i; score = 0; severity = "info"; confidence = "unverified" }
score_of i (some f) = record {
  finding_id = i;
  score = or_default f.risk_score 0;
  severity = f.severity;
  confidence = f.confidence;
}

-- The evidence and the risk score of a match, once its finding is stored.
unfoldable pub persist_evidence : Setting → ScanMatch → ℕ → Results → Results
unfolding with_evidence upsert_scanner_evidence create_risk_score evidence_identity reported_of
persist_evidence s m i r =
    let (e, rows) =
      upsert_scanner_evidence s.now i (evidence_identity s.evidence_digest i s.scanner_name m)
        (observation_of s.scanner_name s.source_class m) (reported_of s.scan_job_id m) r.evidence in
    let r' = with_evidence rows r in
    record r' {
      risk_scores = create_risk_score (score_of i (get i r.store.findings)) r'.risk_scores;
    }

-- One round of the loop.
unfoldable pub persist_match : Setting → ScanMatch → Results → Result FindingError (ℕ × Results)
unfolding upsert_correlated_finding persist_evidence canonical
persist_match s m r =
    then_do (upsert_correlated_finding s.scoped s.timestamp s.now s.auth (canonical s m) r.store)
      (λ found. ok (found.0, persist_evidence s m found.0 (record r { store = found.1 })))

unfoldable pub persist_matches :
    Setting → List ScanMatch → Results → Result FindingError (List ℕ × Results)
unfolding persist_match
persist_matches s [] r = ok ([], r)
persist_matches s (m ∷ matches) r =
    then_do (persist_match s m r)
      (λ first. then_do (persist_matches s matches first.1) (λ rest. ok (first.0 ∷ rest.0, rest.1)))
