-- ===== src/Findings/History/Observe.antt =====
-- The observations of findings keep the histories replayable: `_create_finding` and
-- `upsert_correlated_finding` of src/orgscan/repositories.py.
use mathlib.Core.Path.{subst}
use mathlib.Core.List.{Memᴰ}
use github_osint_secret_scan.Prelude.{
  ℕ, String, ◌≡◌, refl, sym, ap, ◌∙◌, inl, inr, arith, Bool, true, ◌||◌, Option, none, some, [],
  ◌∷◌, str_eq, ◌==◌, if◌then◌else◌, Option-cases, Bool-cases, some_injective,
}
use github_osint_secret_scan.Prelude.Result.{ok}
use github_osint_secret_scan.Prelude.Rows.{IsKeyed, get-of-mem, add_row-IsKeyed}
use github_osint_secret_scan.Prelude.Table.{
  Table, get, get-add_row, get-fresh_id, fresh_id, add_row,
}
use github_osint_secret_scan.Findings.Lifecycle.{LifecycleState, from_legacy}
use github_osint_secret_scan.Findings.Model.{
  Time, Finding, FindingHistory, Store, snapshot, CanonicalFinding,
}
use github_osint_secret_scan.Findings.Storage.{
  has_num, actor, write_finding, record_history, transition,
}
use github_osint_secret_scan.Findings.Observe.{
  first_row, any_row, incoming_job, regresses, find_existing, seen_again, observe_existing,
  new_finding, insert_finding, create_finding, correlated, upsert_correlated_finding, scope_hash,
}
use github_osint_secret_scan.Findings.History.{
  standing, IsRecorded, extend-IsRecorded, keep-IsRecorded,
}
use github_osint_secret_scan.Findings.History.Steps.{
  then_do-ok, ok_injective, get-write_finding, write_finding-IsKeyed,
}
use github_osint_secret_scan.Findings.History.Operations.{transition-IsRecorded}

first_row-mem :
    (p : Finding → Bool) (rows : Table Finding) (i : ℕ) (f : Finding)
    → first_row p rows ≡ some (i, f)
    → Memᴰ (i, f) rows
first_row-mem p [] i f h = cc
first_row-mem p ((j, g) ∷ rows) i f h = elim (Bool-cases (p g)) [
  | inl e ↦ Memᴰ.head (sym (some_injective (rw e at h)))
  | inr e ↦ Memᴰ.tail (first_row-mem p rows i f (rw e at h))
]

-- A write that touches neither the state nor the count.
seen-IsRecorded :
    (i : ℕ) (change : Finding → Finding) (st : Store)
    → ((f : Finding) → standing (some (change f)) ≡ standing (some f))
    → IsRecorded st
    → IsRecorded (write_finding i change st)
unfolding write_finding
seen-IsRecorded i change st same r =
    keep-IsRecorded st (write_finding i change st) r (write_finding-IsKeyed i change st r.keyed)
      refl
      (λ j. elim (Option-cases (get j st.findings)) [
        | inl e ↦ ap standing (get-write_finding i j change st) ∙ elim (Bool-cases (i == j)) [
          | inl here ↦ rw here (rw e refl)
          | inr other ↦ rw other refl
        ]
        | inr (f, e) ↦ ap standing (get-write_finding i j change st) ∙ elim (Bool-cases (i == j)) [
          | inl here ↦ rw here (rw e (same f))
          | inr other ↦ rw other refl
        ]
      ])

pub same_id : (i : ℕ) → (i == i) ≡ true
same_id i = ground arith

module _ (scoped : ℕ → String → String) (timestamp : Option String → Option Time) (now : Time)
    (auth : Option String) where
  pub find_existing-get :
      (c : CanonicalFinding) (st : Store) (i : ℕ) (f : Finding)
      → IsKeyed st.findings
      → find_existing scoped timestamp c st ≡ some (i, f)
      → get i st.findings ≡ some f
  unfolding find_existing
  find_existing-get c st i f keys h = elim (Option-cases c.domain_id) [
    | inl e ↦
        get-of-mem i st.findings f keys
          (first_row-mem _ st.findings i f (rw (e, find_existing) at h))
    | inr (d, e) ↦
        get-of-mem i st.findings f keys
          (first_row-mem _ st.findings i f (rw (e, find_existing) at h))
  ]

  -- Only an observation of a scan job regresses a finding.
  regresses-has_num :
      (i : ℕ) (f : Finding) (c : CanonicalFinding) (st : Store)
      → regresses scoped timestamp i f c st ≡ true
      → has_num c.scan_job_id ≡ true
  unfolding regresses incoming_job
  regresses-has_num i f c st h = elim (Bool-cases (has_num c.scan_job_id)) [
    | inl e ↦ e
    | inr e ↦ elim (Option-cases f.remediated_at) [
      | inl t ↦ ground (arith, h, e, t)
      | inr (t, u) ↦ ground (arith, h, e, u)
    ]
  ]

  observe_existing-IsRecorded :
      (i : ℕ) (f : Finding) (c : CanonicalFinding) (st st' : Store)
      → IsRecorded st
      → get i st.findings ≡ some f
      → observe_existing scoped timestamp now auth i f c st ≡ ok st'
      → IsRecorded st'
  unfolding observe_existing seen_again
  observe_existing-IsRecorded i f c st st' r at_i h =
      let (mid, first, last) =
        then_do-ok
          (if regresses scoped timestamp i f c st
            then transition now auth i f "REGRESSED" true c.scan_job_id
                (some "Fingerprint observed in a scan started after remediation") true st
            else ok st)
          _ st' h in
      let mid_sound : IsRecorded mid = elim (Bool-cases (regresses scoped timestamp i f c st)) [
        | inr miss ↦ subst IsRecorded (ok_injective _ refl (rw miss at first)) r
        | inl hit ↦
            transition-IsRecorded now auth i f "REGRESSED" true c.scan_job_id
              (some "Fingerprint observed in a scan started after remediation") st mid r at_i
              (λ _. regresses-has_num i f c st hit) (rw hit at first)
      ] in
      subst IsRecorded (ok_injective _ refl last)
        (seen-IsRecorded i (seen_again scoped timestamp now auth c) mid (λ g. refl) mid_sound)

  abbrev first_history : CanonicalFinding → LifecycleState → ℕ → FindingHistory
  first_history c state i = record {
    finding_id = i;
    from_state = none;
    to_state = state;
    actor = actor now auth c.scan_job_id;
    reason = some "Initial observation";
    scan_job_id = c.scan_job_id;
    occurred_at = now;
    before = none;
    after = snapshot (new_finding scoped timestamp now auth c state);
  }

  insert_finding-IsRecorded :
      (c : CanonicalFinding) (st : Store) (i : ℕ) (st' : Store)
      → IsRecorded st
      → insert_finding scoped timestamp now auth c st ≡ ok (i, st')
      → IsRecorded st'
  unfolding insert_finding record_history new_finding
  insert_finding-IsRecorded c st i st' r h =
      let (state, _, rest) = then_do-ok (from_legacy c.status true) _ (i, st') h in
      elim (Bool-cases (
        any_row
          (λ f. str_eq f.fingerprint c.fingerprint || str_eq f.normalized_hash c.normalized_hash)
          st.findings)) [
            | inl taken ↦ cc (rw taken at rest)
            | inr free ↦
                let made = ok_injective _ refl (rw free at rest) in
                subst IsRecorded (ap (λ x. x.1) made) (
                  extend-IsRecorded st
                    (record_history now auth (fresh_id st.findings)
                      (new_finding scoped timestamp now auth c state) none
                      (some "Initial observation") c.scan_job_id
                      (record st {
                        findings =
                            add_row (new_finding scoped timestamp now auth c state) st.findings;
                      }))
                    (fresh_id st.findings) (first_history c state (fresh_id st.findings))
                    (new_finding scoped timestamp now auth c state) r
                    (add_row-IsKeyed (new_finding scoped timestamp now auth c state) st.findings
                      r.keyed)
                    refl refl
                    (λ j. get-add_row j (new_finding scoped timestamp now auth c state) st.findings)
                    (rw (get-fresh_id st.findings) (rw (same_id (fresh_id st.findings)) refl)))
          ]

  pub create_finding-IsRecorded :
      (c : CanonicalFinding) (st : Store) (i : ℕ) (st' : Store)
      → IsRecorded st
      → create_finding scoped timestamp now auth c st ≡ ok (i, st')
      → IsRecorded st'
  unfolding create_finding
  create_finding-IsRecorded c st i st' r h =
      elim (Option-cases (find_existing scoped timestamp c st)) [
        | inl e ↦
            insert_finding-IsRecorded (scope_hash scoped timestamp c) st i st' r
              (rw (e, create_finding) at h)
        | inr ((j, f), e) ↦
            let (mid, done, last) =
              then_do-ok (observe_existing scoped timestamp now auth j f c st) _ (i, st')
                (rw (e, create_finding) at h) in
            subst IsRecorded (ap (λ x. x.1) (ok_injective _ refl last)) (
              observe_existing-IsRecorded j f c st mid r (find_existing-get c st j f r.keyed e)
                done)
      ]

  pub upsert_correlated_finding-IsRecorded :
      (c : CanonicalFinding) (st : Store) (i : ℕ) (st' : Store)
      → IsRecorded st
      → upsert_correlated_finding scoped timestamp now auth c st ≡ ok (i, st')
      → IsRecorded st'
  unfolding upsert_correlated_finding correlated
  upsert_correlated_finding-IsRecorded c st i st' r h =
      let (made, done, last) =
        then_do-ok (create_finding scoped timestamp now auth c st) _ (i, st') h in
      subst IsRecorded (ap (λ x. x.1) (ok_injective _ refl last)) (
        seen-IsRecorded made.0 (correlated scoped timestamp now auth c) made.1 (λ g. refl)
          (create_finding-IsRecorded c st made.0 made.1 r done))
