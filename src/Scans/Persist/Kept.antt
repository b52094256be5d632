-- ===== src/Scans/Persist/Kept.antt =====
-- What the matches of a scan leave behind.
use mathlib.Core.Path.{subst}
use github_osint_secret_scan.Prelude.{
  ℕ, ◌+◌, String, str_eq, eq_iff, some, List, [], ◌∷◌, arith, ◌≡◌, refl, ap, ◌∙◌, Bool-cases, inl,
  inr, if◌then◌else◌, length, length-append,
}
use github_osint_secret_scan.Prelude.Result.{ok, Result-cases, ok_injective}
use github_osint_secret_scan.Prelude.Table.{Table}
use github_osint_secret_scan.Prelude.Rows.{IsKeyed}
use github_osint_secret_scan.Findings.Model.{Store}
use github_osint_secret_scan.Findings.Observe.{upsert_correlated_finding}
use github_osint_secret_scan.Findings.Attributed.{
  At, Held, Evolves, Evolves-refl, Evolves-trans, upsert_correlated_finding-Attributed,
}
use github_osint_secret_scan.Scans.Correlation.{ScanMatch, evidence_identity}
use github_osint_secret_scan.Scans.Evidence.{Evidence, find_evidence, create_risk_score}
use github_osint_secret_scan.Scans.Evidence.Upsert.{upsert_scanner_evidence-Follows}
use github_osint_secret_scan.Scans.Persist.{
  Results, Setting, persist_evidence, persist_match, persist_matches, observation_of, reported_of,
  with_evidence, canonical,
}

-- An observation has its row, and the job of the scan is the last one that reported it.
abbrev pub Noted : Setting → String → Table Evidence → Type 0
Noted s fp rows =
    (k : ℕ) × (e : Evidence) × (find_evidence fp rows ≡ some (k, e))
    × (e.reported.last_scan_job_id ≡ s.scan_job_id)

-- Each match has a finding of its identity, which the job of the scan observed last, and its
-- observation is noted.
abbrev pub AllNoted : Setting → List ScanMatch → List ℕ → Results → Type 0
AllNoted s [] [] r = Unit
AllNoted s (m ∷ matches) (i ∷ ids) r =
    At (Held (canonical s m).normalized_hash s.scan_job_id) i r.store.findings
    × Noted s (evidence_identity s.evidence_digest i s.scanner_name m) r.evidence
    × AllNoted s matches ids r
AllNoted s _ _ r = ⊥

module _ (s : Setting) where
  abbrev Keeps : Results → Results → Type 0
  Keeps r r' = (fp : String) → Noted s fp r.evidence → Noted s fp r'.evidence

  -- Rows that differ in one observation, which the job has just reported.
  updated-Noted :
      (own : String) (i : ℕ) (e : Evidence) (rows rows' : Table Evidence)
      → ((g : String)
          → find_evidence g rows' ≡ (if str_eq own g then some (i, e) else find_evidence g rows))
      → e.reported.last_scan_job_id ≡ s.scan_job_id
      → Noted s own rows' × ((fp : String) → Noted s fp rows → Noted s fp rows')
  updated-Noted own i e rows rows' law job = (
    (i, e, ground (arith, law own, eq_iff own own), job),
    λ fp (k, old, at_fp, old_job). elim (Bool-cases (str_eq own fp)) [
      | inl same ↦ (i, e, ground (arith, law fp, same), job)
      | inr apart ↦ (k, old, ground (arith, law fp, apart, at_fp), old_job)
    ],
  )

  -- The evidence of a match leaves the findings as they are.
  persist_evidence-Evolves :
      (m : ScanMatch) (i : ℕ) (st : Store) (r : Results)
      → Evolves s.scan_job_id st r.store
      → Evolves s.scan_job_id st (persist_evidence s m i r).store
  unfolding persist_evidence with_evidence
  persist_evidence-Evolves m i st r f = record { keyed = f.keyed; hashed = f.hashed; held = f.held }

  persist_evidence-Noted :
      (m : ScanMatch) (i : ℕ) (r : Results)
      → IsKeyed r.evidence
      → IsKeyed (persist_evidence s m i r).evidence
        × Noted s
            (evidence_identity s.evidence_digest i s.scanner_name m)
            (persist_evidence s m i r).evidence
        × Keeps r (persist_evidence s m i r)
        × (length (persist_evidence s m i r).risk_scores ≡ length r.risk_scores + 1)
  unfolding persist_evidence with_evidence create_risk_score reported_of
  persist_evidence-Noted m i r keyed =
      let own = evidence_identity s.evidence_digest i s.scanner_name m in
      let (e, found, keyed', reported, _) =
        upsert_scanner_evidence-Follows s.now i own (observation_of s.scanner_name s.source_class m)
          (reported_of s.scan_job_id m) r.evidence keyed in
      let job : e.reported.last_scan_job_id ≡ s.scan_job_id =
        ap (λ x. x.last_scan_job_id) reported in
      let (noted, kept) = updated-Noted own _ e r.evidence _ found job in
      (keyed', noted, kept, length-append r.risk_scores _ ∙ refl)

  abbrev Kept : List ScanMatch → Results → List ℕ × Results → Type 0
  Kept matches r (ids, r') =
      IsKeyed r'.evidence
      × AllNoted s matches ids r'
      × Evolves s.scan_job_id r.store r'.store
      × Keeps r r'
      × (length r'.risk_scores ≡ length r.risk_scores + length matches)

  persist_matches-induction :
      (matches : List ScanMatch) (done : List ℕ × Results) (r : Results)
      → IsKeyed r.evidence
      → IsKeyed r.store.findings
      → persist_matches s matches r ≡ ok done
      → Kept matches r done
  unfolding persist_matches persist_match canonical
  persist_matches-induction [] done r keyed findings_keyed h =
      subst (Kept [] r) (ok_injective h)
        (keyed, tt, Evolves-refl s.scan_job_id r.store, λ fp n. n, omega arith)
  persist_matches-induction (m ∷ matches) done r keyed findings_keyed h =
      elim (Result-cases
        (upsert_correlated_finding s.scoped s.timestamp s.now s.auth (canonical s m) r.store)) [
          | inr (error, e) ↦ cc (rw e at h)
          | inl ((i, store), e) ↦
              let first = persist_evidence s m i (record r { store = store }) in
              elim (Result-cases (persist_matches s matches first)) [
                | inr (error, f) ↦ cc (rw (e, f) at h)
                | inl ((rest, last), f) ↦
                    let (keyed', noted, kept, count) =
                      persist_evidence-Noted m i (record r { store = store }) keyed in
                    let (found, evolved) =
                      upsert_correlated_finding-Attributed s.scoped s.timestamp s.now s.auth
                        s.scan_job_id (canonical s m) refl refl i r.store store findings_keyed e in
                    let stepped =
                      persist_evidence-Evolves m i r.store (record r { store = store }) evolved in
                    let (keyed_last, noted_rest, evolved_last, kept_last, count_last) =
                      persist_matches-induction matches (rest, last) first keyed'
                        (stepped.keyed findings_keyed) f in
                    subst (Kept (m ∷ matches) r) (ok_injective (rw (e, f) at h)) (
                      keyed_last,
                      (evolved_last.held _ i found, kept_last _ noted, noted_rest),
                      Evolves-trans s.scan_job_id _ _ _ stepped evolved_last,
                      λ fp n. kept_last fp (kept fp n),
                      omega (arith, count, count_last),
                    )
              ]
        ]

  -- When the matches of a scan are stored, each has got a finding of its identity and its observation
  -- is noted, both with this scan's job as the last to report them; no observation that the job reported before is lost,
  -- and there is one risk score more for each match. The ids of evidence stay unique.
  pub persist_matches-AllNoted :
      (matches : List ScanMatch) (ids : List ℕ) (r r' : Results)
      → IsKeyed r.evidence
      → IsKeyed r.store.findings
      → persist_matches s matches r ≡ ok (ids, r')
      → AllNoted s matches ids r'
        × ((fp : String) → Noted s fp r.evidence → Noted s fp r'.evidence)
        × (length r'.risk_scores ≡ length r.risk_scores + length matches)
        × IsKeyed r'.evidence
  persist_matches-AllNoted matches ids r r' keyed findings_keyed h =
      let (keyed', noted, _, kept, count) =
        persist_matches-induction matches (ids, r') r keyed findings_keyed h in
      (noted, kept, count, keyed')
