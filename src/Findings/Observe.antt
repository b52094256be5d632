-- ===== src/Findings/Observe.antt =====
-- Observations of findings: `_create_finding`, `_regression_evidence_is_new` and
-- `upsert_correlated_finding` of src/orgscan/repositories.py. `scoped` is the SHA-256 text of a
-- domain's hash, and `timestamp` reads a commit's timestamp (`float`, `datetime.fromtimestamp`).
use github_osint_secret_scan.Prelude.{
  ℕ, ◌+◌, max, String, str_eq, Bool, true, false, not, ◌&&◌, ◌||◌, Option, none, some, List, [],
  ◌∷◌, ltb, ◌==◌, if◌then◌else◌, or_default,
}
use github_osint_secret_scan.Prelude.Dict.{Dict, lookup}
use github_osint_secret_scan.Prelude.Result.{Result, ok, raise, then_do}
use github_osint_secret_scan.Prelude.Table.{Table, get, fresh_id, add_row}
use github_osint_secret_scan.Findings.Lifecycle.{
  LifecycleState, FindingError, duplicate_finding, from_legacy, is_remediated,
}
use github_osint_secret_scan.Findings.Model.{
  Time, Finding, same_num, Evidence, ScanJob, Store, CanonicalFinding,
}
use github_osint_secret_scan.Findings.Storage.{
  write_finding, has_text, has_num, text_or, record_history, transition,
}

abbrev pub first_row : (Finding → Bool) → Table Finding → Option (ℕ × Finding)
first_row p [] = none
first_row p ((i, f) ∷ rows) = if p f then some (i, f) else first_row p rows

abbrev pub any_row : (Finding → Bool) → Table Finding → Bool
any_row p [] = false
any_row p ((i, f) ∷ rows) = p f || any_row p rows

abbrev has_evidence : ℕ → String → List Evidence → Bool
has_evidence i commit [] = false
has_evidence i commit (e ∷ es) =
    e.finding_id == i && str_eq (or_default e.commit_sha "") commit && has_text e.commit_sha
    || has_evidence i commit es

abbrev has_value : String → String → Dict String → Bool
has_value key value d = elim (lookup key d) [ none ↦ false | some v ↦ str_eq v value ]

-- The commit that an observation names: four `or`ed entries.
unfoldable pub commit_of : CanonicalFinding → Option String
commit_of c = text_or (lookup "commit_sha" c.metadata) (
    text_or (lookup "commit" c.metadata)
      (text_or (lookup "commit_sha" c.raw_payload) (lookup "commit" c.raw_payload)))

-- `incoming_job`, and when its scan was started.
unfoldable pub incoming_job : Option ℕ → Store → Option ScanJob
incoming_job scan_job_id st =
    if has_num scan_job_id then get (or_default scan_job_id 0) st.scan_jobs else none

abbrev pub observed_at : Option ScanJob → Option Time
observed_at none = none
observed_at (some job) = some (or_default job.started_at job.created_at)

abbrev pub was_ingested : Option ScanJob → Bool
was_ingested none = false
was_ingested (some job) = job.ingested

abbrev pub before_time : Option Time → Option Time → Bool
before_time (some a) (some b) = ltb a b
before_time _ _ = false

module _ (scoped : ℕ → String → String) (timestamp : Option String → Option Time) where
  unfoldable pub regression_evidence_is_new :
      ℕ → Finding → CanonicalFinding → Option ScanJob → List Evidence → Bool
  regression_evidence_is_new i f c job evidence =
      if was_ingested job
      then false
      else if not (has_text (commit_of c))
      then not (str_eq c.source_tool "git-history-patterns")
      else has_value "change_type" "added" c.metadata
        && before_time f.remediated_at (timestamp (lookup "commit_timestamp" c.metadata))
        && not (has_evidence i (or_default (commit_of c) "") evidence)

  -- The condition of the automatic transition to REGRESSED.
  unfoldable pub regresses : ℕ → Finding → CanonicalFinding → Store → Bool
  regresses i f c st =
      is_remediated f.lifecycle_state
      && before_time f.remediated_at (observed_at (incoming_job c.scan_job_id st))
      && regression_evidence_is_new i f c (incoming_job c.scan_job_id st) st.evidence
      && not (same_num c.scan_job_id f.scan_job_id)

  unfoldable pub find_existing : CanonicalFinding → Store → Option (ℕ × Finding)
  find_existing c st = elim c.domain_id [
    | none ↦ first_row (λ f. str_eq f.normalized_hash c.normalized_hash) st.findings
    | some d ↦
        first_row
          (λ f.
            same_num f.domain_id (some d)
            && (str_eq f.normalized_hash c.normalized_hash
                || str_eq f.normalized_hash (scoped d c.normalized_hash)))
          st.findings
  ]

  abbrev pub scope_hash : CanonicalFinding → CanonicalFinding
  scope_hash c = elim c.domain_id [
    | none ↦ c
    | some d ↦ record c {
      normalized_hash = scoped d c.normalized_hash;
      fingerprint = scoped d c.normalized_hash;
    }
  ]

  module _ (now : Time) (auth : Option String) where
    -- The assignments that every later observation makes.
    unfoldable pub seen_again : CanonicalFinding → Finding → Finding
    seen_again c f = record f {
      last_seen_at = if ltb f.last_seen_at c.last_seen_at then c.last_seen_at else f.last_seen_at;
      raw_payload = c.raw_payload;
      metadata_json = c.metadata;
      scan_job_id = c.scan_job_id;
    }

    unfoldable pub observe_existing :
        ℕ → Finding → CanonicalFinding → Store → Result FindingError Store
    observe_existing i f c st =
        then_do
          (if regresses i f c st
            then transition now auth i f "REGRESSED" true c.scan_job_id
                (some "Fingerprint observed in a scan started after remediation") true st
            else ok st)
          (λ st'. ok (write_finding i (seen_again c) st'))

    unfoldable pub new_finding : CanonicalFinding → LifecycleState → Finding
    new_finding c state = record {
      domain_id = c.domain_id;
      scan_job_id = c.scan_job_id;
      source_tool = c.source_tool;
      severity = c.severity;
      confidence = c.confidence;
      status = c.status;
      lifecycle_state = state;
      remediated_at = if is_remediated state then some now else none;
      regressed_at = none;
      regression_count = 0;
      triage_state = "new";
      triage_owner = none;
      triage_notes = none;
      remediation_due_date = none;
      fingerprint = c.fingerprint;
      normalized_hash = c.normalized_hash;
      risk_score = c.risk_score;
      last_seen_at = c.last_seen_at;
      raw_payload = c.raw_payload;
      metadata_json = c.metadata;
    }

    -- The columns `fingerprint` and `normalized_hash` are unique.
    unfoldable pub insert_finding : CanonicalFinding → Store → Result FindingError (ℕ × Store)
    insert_finding c st = then_do (from_legacy c.status true) (λ state.
        if any_row
          (λ f. str_eq f.fingerprint c.fingerprint || str_eq f.normalized_hash c.normalized_hash)
          st.findings
        then raise duplicate_finding
        else (let i = fresh_id st.findings in
            let f = new_finding c state in
            ok (
              i,
              record_history now auth i f none (some "Initial observation") c.scan_job_id
                  (record st { findings = add_row f st.findings }),
            )))

    unfoldable pub create_finding : CanonicalFinding → Store → Result FindingError (ℕ × Store)
    create_finding c st = elim (find_existing c st) [
      | none ↦ insert_finding (scope_hash c) st
      | some (i, f) ↦ then_do (observe_existing i f c st) (λ st'. ok (i, st'))
    ]

    abbrev pub rank : List String → ℕ → String → Option ℕ
    rank [] n s = none
    rank (t ∷ ts) n s = if str_eq t s then some n else rank ts (n + 1) s

    -- `incoming in order and (current not in order or order.index(incoming) > order.index(current))`
    abbrev pub is_stronger : Option ℕ → Option ℕ → Bool
    is_stronger none current = false
    is_stronger (some m) none = true
    is_stronger (some m) (some n) = ltb n m

    unfoldable pub stronger : List String → String → String → String
    stronger order incoming current =
        if is_stronger (rank order 0 incoming) (rank order 0 current) then incoming else current

    abbrev pub severities : List String
    severities = "info" ∷ "low" ∷ "medium" ∷ "high" ∷ "critical" ∷ []

    abbrev pub confidences : List String
    confidences = "unverified" ∷ "heuristic" ∷ "likely" ∷ "verified" ∷ []

    unfoldable pub correlated : CanonicalFinding → Finding → Finding
    correlated c f = record f {
      severity = stronger severities c.severity f.severity;
      confidence = stronger confidences c.confidence f.confidence;
      risk_score = some (max (or_default f.risk_score 0) (or_default c.risk_score 0));
    }

    unfoldable pub upsert_correlated_finding :
        CanonicalFinding → Store → Result FindingError (ℕ × Store)
    upsert_correlated_finding c st =
        then_do (create_finding c st) (λ r. ok (r.0, write_finding r.0 (correlated c) r.1))
