-- ===== src/Findings/Attributed.antt =====
-- Which finding an observation of a scan gets: `_create_finding` and `upsert_correlated_finding` of
-- src/orgscan/repositories.py, for observations without a domain.
use github_osint_secret_scan.Prelude.{
  ℕ, String, str_eq, eq_iff, ◌≡◌, refl, sym, ap, ◌∙◌, inl, inr, Bool, true, ◌||◌, Option, none,
  some, ◌∷◌, [], ◌==◌, if◌then◌else◌, Option-cases, Bool-cases, some_injective,
}
use mathlib.Core.Path.{subst}
use github_osint_secret_scan.Prelude.Result.{ok}
use github_osint_secret_scan.Prelude.Rows.{IsKeyed, add_row-IsKeyed}
use github_osint_secret_scan.Prelude.Select.{add_row-kept, add_row-new}
use github_osint_secret_scan.Prelude.Table.{Table, get}
use github_osint_secret_scan.Findings.Lifecycle.{from_legacy, validate_transition, same_state}
use github_osint_secret_scan.Findings.Model.{Time, Finding, Store, CanonicalFinding}
use github_osint_secret_scan.Findings.Storage.{write_finding, record_history, moved, transition}
use github_osint_secret_scan.Findings.Observe.{
  first_row, any_row, regresses, find_existing, seen_again, observe_existing, new_finding,
  insert_finding, create_finding, correlated, upsert_correlated_finding, scope_hash,
}
use github_osint_secret_scan.Findings.History.Steps.{
  then_do-ok, ok_injective, get-write_finding, write_finding-IsKeyed,
}
use github_osint_secret_scan.Findings.History.Observe.{find_existing-get, same_id}

-- A row of the table that has a property.
abbrev pub At : (Finding → Type 0) → ℕ → Table Finding → Type 0
At P i findings = (f : Finding) × (get i findings ≡ some f) × P f

abbrev pub Hashed : String → Finding → Type 0
Hashed h f = f.normalized_hash ≡ h

-- A finding of this identity that the scan job observed last.
abbrev pub Held : String → ℕ → Finding → Type 0
Held h job f = (f.normalized_hash ≡ h) × (f.scan_job_id ≡ some job)

-- What the observations of one job keep.
pub record Evolves (job : ℕ) (st st' : Store) : Type 0 where
  pub keyed : IsKeyed st.findings → IsKeyed st'.findings
  pub hashed : (h : String) (k : ℕ) → At (Hashed h) k st.findings → At (Hashed h) k st'.findings
  pub held : (h : String) (k : ℕ) → At (Held h job) k st.findings → At (Held h job) k st'.findings

pub Evolves-refl : (job : ℕ) (st : Store) → Evolves job st st
Evolves-refl job st = record { keyed = λ k. k; hashed = λ h k a. a; held = λ h k a. a }

pub Evolves-trans : (job : ℕ) (a b c : Store) → Evolves job a b → Evolves job b c → Evolves job a c
Evolves-trans job a b c f g = record {
  keyed = λ k. g.keyed (f.keyed k);
  hashed = λ h k x. g.hashed h k (f.hashed h k x);
  held = λ h k x. g.held h k (f.held h k x);
}

write-At :
    (P Q : Finding → Type 0) (i k : ℕ) (change : Finding → Finding) (st : Store)
    → ((f : Finding) → P f → Q (change f))
    → ((f : Finding) → P f → Q f)
    → At P k st.findings
    → At Q k (write_finding i change st).findings
write-At P Q i k change st moves stays (f, at_k, pf) = elim (Bool-cases (i == k)) [
  | inl here ↦ (change f, get-write_finding i k change st ∙ rw here (rw at_k refl), moves f pf)
  | inr apart ↦ (f, get-write_finding i k change st ∙ rw apart at_k, stays f pf)
]

write-At_self :
    (P Q : Finding → Type 0) (i : ℕ) (change : Finding → Finding) (st : Store)
    → ((f : Finding) → P f → Q (change f))
    → At P i st.findings
    → At Q i (write_finding i change st).findings
write-At_self P Q i change st moves (f, at_i, pf) =
    (change f, get-write_finding i i change st ∙ rw (same_id i) (rw at_i refl), moves f pf)

write-Evolves :
    (job i : ℕ) (change : Finding → Finding) (st : Store)
    → ((f : Finding) → (change f).normalized_hash ≡ f.normalized_hash)
    → ((f : Finding) → f.scan_job_id ≡ some job → (change f).scan_job_id ≡ some job)
    → Evolves job st (write_finding i change st)
write-Evolves job i change st same_hash same_job = record {
  keyed = write_finding-IsKeyed i change st;
  hashed = λ h k. write-At (Hashed h) (Hashed h) i k change st (λ f e. same_hash f ∙ e) (λ f e. e);
  held = λ h k.
      write-At (Held h job) (Held h job) i k change st (λ f e. (same_hash f ∙ e.0, same_job f e.1))
        (λ f e. e);
}

transition-Evolves :
    (job : ℕ) (now : Time) (auth : Option String) (i : ℕ) (f : Finding) (target : String)
    (automatic : Bool) (scan_job_id : Option ℕ) (reason : Option String) (with_history : Bool)
    (st st' : Store)
    → transition now auth i f target automatic scan_job_id reason with_history st ≡ ok st'
    → Evolves job st st'
unfolding transition record_history moved
transition-Evolves job now auth i f target automatic scan_job_id reason with_history st st' h =
    let (state, _, last) =
      then_do-ok (validate_transition f.lifecycle_state target automatic) _ st' h in
    elim (Bool-cases (same_state state f.lifecycle_state)) [
      | inl same ↦
          subst (Evolves job st) (ok_injective _ refl (rw same at last)) (Evolves-refl job st)
      | inr other ↦ elim (Bool-cases with_history) [
        | inl noted ↦
            subst (Evolves job st) (ok_injective _ refl (rw noted at (rw other at last))) (
              let w = write-Evolves job i (moved now auth state) st (λ g. refl) (λ g e. e) in
              record { keyed = w.keyed; hashed = w.hashed; held = w.held })
        | inr plain ↦
            subst (Evolves job st) (ok_injective _ refl (rw plain at (rw other at last)))
              (write-Evolves job i (moved now auth state) st (λ g. refl) (λ g e. e))
      ]
    ]

first_row-hashed :
    (h : String) (rows : Table Finding) (i : ℕ) (f : Finding)
    → first_row (λ g. str_eq g.normalized_hash h) rows ≡ some (i, f)
    → f.normalized_hash ≡ h
first_row-hashed h [] i f e = cc e
first_row-hashed h ((j, g) ∷ rows) i f e = elim (Bool-cases (str_eq g.normalized_hash h)) [
  | inl here ↦
      ap (λ r. r.1.normalized_hash) (sym (some_injective (rw here at e)))
      ∙ (eq_iff g.normalized_hash h).0 here
  | inr later ↦ first_row-hashed h rows i f (rw later at e)
]

module _ (scoped : ℕ → String → String) (timestamp : Option String → Option Time) (now : Time)
    (auth : Option String) (job : ℕ) (c : CanonicalFinding) (at_job : c.scan_job_id ≡ some job)
    (free : c.domain_id ≡ none) where
  -- The finding of the observation is there, and what the job observed before still is.
  abbrev pub Attributed : Store → ℕ × Store → Type 0
  Attributed st (i, st') = At (Held c.normalized_hash job) i st'.findings × Evolves job st st'

  seen-Evolves :
      (i : ℕ) (st : Store)
      → Evolves job st (write_finding i (seen_again scoped timestamp now auth c) st)
  unfolding seen_again
  seen-Evolves i st = write-Evolves job i _ st (λ f. refl) (λ f e. at_job)

  observe_existing-Attributed :
      (i : ℕ) (f : Finding) (st st' : Store)
      → get i st.findings ≡ some f
      → f.normalized_hash ≡ c.normalized_hash
      → observe_existing scoped timestamp now auth i f c st ≡ ok st'
      → Attributed st (i, st')
  unfolding observe_existing seen_again
  observe_existing-Attributed i f st st' at_i hash h =
      let (mid, first, last) =
        then_do-ok
          (if regresses scoped timestamp i f c st
            then transition now auth i f "REGRESSED" true c.scan_job_id
                (some "Fingerprint observed in a scan started after remediation") true st
            else ok st)
          _ st' h in
      let moved_on : Evolves job st mid = elim (Bool-cases (regresses scoped timestamp i f c st)) [
        | inl e ↦
            transition-Evolves job now auth i f "REGRESSED" true c.scan_job_id
              (some "Fingerprint observed in a scan started after remediation") true st mid
              (rw e at first)
        | inr e ↦ subst (Evolves job st) (ok_injective _ refl (rw e at first)) (Evolves-refl job st)
      ] in
      subst (λ x. Attributed st (i, x)) (ok_injective _ refl last)
        (
          write-At_self (Hashed c.normalized_hash) (Held c.normalized_hash job) i
              (seen_again scoped timestamp now auth c) mid (λ g e. (e, at_job))
              (moved_on.hashed c.normalized_hash i (f, at_i, hash)),
          Evolves-trans job st mid _ moved_on (seen-Evolves i mid),
        )

  insert_finding-Attributed :
      (i : ℕ) (st st' : Store)
      → insert_finding scoped timestamp now auth c st ≡ ok (i, st')
      → Attributed st (i, st')
  unfolding insert_finding record_history new_finding
  insert_finding-Attributed i st st' h =
      let (state, _, rest) = then_do-ok (from_legacy c.status true) _ (i, st') h in
      elim (Bool-cases (
        any_row
          (λ f. str_eq f.fingerprint c.fingerprint || str_eq f.normalized_hash c.normalized_hash)
          st.findings)) [
            | inl taken ↦ cc (rw taken at rest)
            | inr open_slot ↦
                let row = new_finding scoped timestamp now auth c state in
                subst (Attributed st) (ok_injective _ refl (rw open_slot at rest)) (
                  (row, add_row-new row st.findings, (refl, at_job)),
                  record {
                    keyed = add_row-IsKeyed row st.findings;
                    hashed = λ g k (f, at_k, e). (f, add_row-kept row st.findings k f at_k, e);
                    held = λ g k (f, at_k, e). (f, add_row-kept row st.findings k f at_k, e);
                  },
                )
          ]

  scope_hash-free : scope_hash scoped timestamp c ≡ c
  scope_hash-free = rw free refl

  create_finding-Attributed :
      (i : ℕ) (st st' : Store)
      → IsKeyed st.findings
      → create_finding scoped timestamp now auth c st ≡ ok (i, st')
      → Attributed st (i, st')
  unfolding create_finding find_existing
  create_finding-Attributed i st st' keyed h =
      elim (Option-cases (find_existing scoped timestamp c st)) [
        | inl e ↦ insert_finding-Attributed i st st' (
            ap (λ x. insert_finding scoped timestamp now auth x st) (sym scope_hash-free)
            ∙ rw (e, create_finding) at h)
        | inr ((j, f), e) ↦
            let (mid, done, last) =
              then_do-ok (observe_existing scoped timestamp now auth j f c st) _ (i, st')
                (rw (e, create_finding) at h) in
            subst (Attributed st) (ok_injective _ refl last) (
              observe_existing-Attributed j f st mid
                (find_existing-get scoped timestamp now auth c st j f keyed e)
                (first_row-hashed c.normalized_hash st.findings j f (rw (free, find_existing) at e))
                done)
      ]

  pub upsert_correlated_finding-Attributed :
      (i : ℕ) (st st' : Store)
      → IsKeyed st.findings
      → upsert_correlated_finding scoped timestamp now auth c st ≡ ok (i, st')
      → Attributed st (i, st')
  unfolding upsert_correlated_finding correlated
  upsert_correlated_finding-Attributed i st st' keyed h =
      let (made, done, last) =
        then_do-ok (create_finding scoped timestamp now auth c st) _ (i, st') h in
      let (found, evolved) = create_finding-Attributed made.0 st made.1 keyed done in
      let w =
        write-Evolves job made.0 (correlated scoped timestamp now auth c) made.1 (λ f. refl)
          (λ f e. e) in
      subst (Attributed st) (ok_injective _ refl last)
        (w.held c.normalized_hash made.0 found, Evolves-trans job st made.1 _ evolved w)
