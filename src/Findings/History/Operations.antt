-- ===== src/Findings/History/Operations.antt =====
-- The findings' operations of src/orgscan/repositories.py keep the histories replayable.
use mathlib.Core.Path.{subst}
use github_osint_secret_scan.Prelude.{
  ℕ, ◌+◌, String, ◌≡◌, refl, sym, ap, ◌∙◌, inl, inr, arith, Bool, true, false, Option, none, some,
  [], ◌∷◌, ◌++◌, ◌==◌, ==_iff, if◌then◌else◌, Option-cases, Bool-cases,
}
use github_osint_secret_scan.Prelude.Result.{ok}
use github_osint_secret_scan.Prelude.Rows.{IsKeyed}
use github_osint_secret_scan.Prelude.Table.{get}
use github_osint_secret_scan.Findings.Lifecycle.{
  LifecycleState, same_state, same_state-eq, IsAllowed, is_regressed, state_code,
}
use github_osint_secret_scan.Findings.Model.{
  Time, Finding, FindingHistory, Store, snapshot, same_snapshot, TriageUpdate, Snapshot,
}
use github_osint_secret_scan.Findings.Storage.{
  actor, has_num, write_finding, record_history, moved, transition, triaged, triage_target,
  conflicts, finish_triage, update_finding_triage, suppress_finding, reopen,
}
use github_osint_secret_scan.Findings.History.{
  is_legal, regressions, standing, follow, IsRecorded, extend-IsRecorded, keep-IsRecorded,
}
use github_osint_secret_scan.Findings.History.Steps.{
  then_do-ok, ok_injective, get-write_finding, write_finding-IsKeyed, allowed-is_legal, count-moved,
  transition-cases,
}

state_eq : (s t : LifecycleState) → s ≡ t → same_state s t ≡ true
state_eq s t h = ground (arith, ap state_code h)

-- A row from the state of `f` to that of `g`, replayed.
follow-lem :
    (h : FindingHistory) (f g : Finding)
    → h.from_state ≡ some f.lifecycle_state
    → h.to_state ≡ g.lifecycle_state
    → is_legal f.lifecycle_state g.lifecycle_state h.scan_job_id ≡ true
    → g.regression_count ≡ f.regression_count + regressions f.lifecycle_state g.lifecycle_state
    → follow h (some f.lifecycle_state, f.regression_count) ≡ standing (some g)
follow-lem h f g from to legal count =
    rw from
      (rw to (rw (state_eq f.lifecycle_state f.lifecycle_state refl) (rw legal (rw count refl))))

same_id : (i : ℕ) → (i == i) ≡ true
same_id i = ground arith

same_snapshot-standing :
    (f g : Finding)
    → same_snapshot (snapshot f) (snapshot g) ≡ true
    → standing (some f) ≡ standing (some g)
unfolding same_snapshot snapshot
same_snapshot-standing f g h =
    let state = same_state-eq f.lifecycle_state g.lifecycle_state (ground (arith, h)) in
    let count : f.regression_count ≡ g.regression_count = ground (arith, h) in
    rw state (rw count refl)

module _ (now : Time) (auth : Option String) where
  abbrev row_of : ℕ → Finding → Snapshot → Option String → Option ℕ → FindingHistory
  row_of i f before reason job = record {
    finding_id = i;
    from_state = some before.lifecycle_state;
    to_state = f.lifecycle_state;
    actor = actor now auth job;
    reason = reason;
    scan_job_id = job;
    occurred_at = now;
    before = some before;
    after = snapshot f;
  }

  -- A write of a finding with its row of history.
  pub write-IsRecorded :
      (st : Store) (i : ℕ) (f : Finding) (change : Finding → Finding) (reason : Option String)
      (job : Option ℕ)
      → IsRecorded st
      → get i st.findings ≡ some f
      → is_legal f.lifecycle_state (change f).lifecycle_state job ≡ true
      → (change f).regression_count
        ≡ f.regression_count + regressions f.lifecycle_state (change f).lifecycle_state
      → IsRecorded (
          record_history now auth i
            (change f)
            (some (snapshot f))
            reason
            job
            (write_finding i change st))
  unfolding record_history write_finding snapshot
  write-IsRecorded st i f change reason job r at_i legal count =
      extend-IsRecorded st
        (record_history now auth i (change f) (some (snapshot f)) reason job
          (write_finding i change st))
        i _ (change f) r (write_finding-IsKeyed i change st r.keyed) refl refl
        (λ j. ground (arith, get-write_finding i j change st, at_i))
        (rw at_i (
          rw (same_id i)
            (rw (state_eq f.lifecycle_state f.lifecycle_state refl) (rw legal (rw count refl)))))

  -- A store in which the finding `i`, once `f`, is now `m`, and no row of history was added.
  record IsMoved (st mid : Store) (i : ℕ) (f m : Finding) : Type 0 where
    keyed : IsKeyed mid.findings
    rows : mid.history ≡ st.history
    findings : (j : ℕ) → get j mid.findings ≡ (if i == j then some m else get j st.findings)
    legal : is_legal f.lifecycle_state m.lifecycle_state none ≡ true
    count :
        m.regression_count ≡ f.regression_count + regressions f.lifecycle_state m.lifecycle_state

  stay-IsMoved :
      (st : Store) (i : ℕ) (f : Finding)
      → IsRecorded st
      → get i st.findings ≡ some f
      → IsMoved st st i f f
  stay-IsMoved st i f r at_i =
      let same = state_eq f.lifecycle_state f.lifecycle_state refl in
      record {
        keyed = r.keyed;
        rows = refl;
        findings = λ j. ground (arith, at_i);
        legal = rw same refl;
        count = elim (Bool-cases (is_regressed f.lifecycle_state)) [
          | inl e ↦ rw e (rw same (omega arith))
          | inr e ↦ rw e (omega arith)
        ];
      }

  moved-IsMoved :
      (st : Store) (i : ℕ) (f : Finding) (s : LifecycleState)
      → IsRecorded st
      → get i st.findings ≡ some f
      → same_state s f.lifecycle_state ≡ false
      → IsAllowed f.lifecycle_state s false
      → IsMoved st (write_finding i (moved now auth s) st) i f (moved now auth s f)
  unfolding moved write_finding
  moved-IsMoved st i f s r at_i other allowed = record {
    keyed = write_finding-IsKeyed i (moved now auth s) st r.keyed;
    rows = refl;
    findings = λ j. ground (arith, get-write_finding i j (moved now auth s) st, at_i);
    legal = allowed-is_legal f.lifecycle_state s false none allowed (λ h. cc);
    count = count-moved now auth s f other;
  }

  finish_triage-IsRecorded :
      (st mid : Store) (i : ℕ) (f m : Finding) (u : TriageUpdate) (reason : Option String)
      (st' : Store)
      → IsRecorded st
      → get i st.findings ≡ some f
      → IsMoved st mid i f m
      → finish_triage now auth i u reason f mid ≡ ok st'
      → IsRecorded st'
  unfolding finish_triage triaged record_history write_finding snapshot
  finish_triage-IsRecorded st mid i f m u reason st' r at_i moved_to h =
      let g = triaged now auth u m in
      let there : get i (write_finding i (triaged now auth u) mid).findings ≡ some g =
        ground (arith, get-write_finding i i (triaged now auth u) mid, moved_to.findings i) in
      let keys = write_finding-IsKeyed i (triaged now auth u) mid moved_to.keyed in
      let rows : (write_finding i (triaged now auth u) mid).history ≡ st.history = moved_to.rows in
      let findings : (j : ℕ)
          → get j (write_finding i (triaged now auth u) mid).findings
            ≡ (if i == j then some g else get j st.findings) =
        λ j. ground (arith, get-write_finding i j (triaged now auth u) mid, moved_to.findings j) in
      let rest = rw (there, finish_triage) at h in
      elim (Bool-cases (same_snapshot (snapshot f) (snapshot g))) [
        | inl same ↦
            let last : write_finding i (triaged now auth u) mid ≡ st' =
              ok_injective _ refl (rw same at rest) in
            let stands = same_snapshot-standing f g same in
            subst IsRecorded last (
              keep-IsRecorded st (write_finding i (triaged now auth u) mid) r keys rows (λ j.
                elim (Bool-cases (i == j)) [
                  | inl e ↦
                      let at_j : get j st.findings ≡ some f = rw (← (==_iff i j).0 e) at_i in
                      ap standing (findings j) ∙ rw e (sym stands ∙ sym (ap standing at_j))
                  | inr e ↦ ap standing (findings j) ∙ rw e refl
                ]))
        | inr other ↦
            let last = ok_injective _ refl (rw other at rest) in
            subst IsRecorded last (
              extend-IsRecorded st
                (record_history now auth i g (some (snapshot f)) reason none
                  (write_finding i (triaged now auth u) mid))
                i (row_of i g (snapshot f) reason none) g r keys refl
                (ap (λ hs. hs ++ row_of i g (snapshot f) reason none ∷ []) rows) findings
                (rw at_i (
                  rw (same_id i) (
                    rw (state_eq f.lifecycle_state f.lifecycle_state refl)
                      (rw moved_to.legal (rw moved_to.count refl))))))
      ]

  pub update_finding_triage-IsRecorded :
      (i : ℕ) (u : TriageUpdate) (reason : Option String) (st st' : Store)
      → IsRecorded st
      → update_finding_triage now auth i u reason st ≡ ok st'
      → IsRecorded st'
  unfolding update_finding_triage
  update_finding_triage-IsRecorded i u reason st st' r h = elim (Option-cases (get i st.findings)) [
    | inl e ↦ cc (rw (e, update_finding_triage) at h)
    | inr (f, e) ↦
        let (target, _, h1) =
          then_do-ok (triage_target now auth u f) _ st' (rw (e, update_finding_triage) at h) in
        elim (Bool-cases (conflicts now auth u.lifecycle_state u.status)) [
          | inl clash ↦ cc (rw clash at h1)
          | inr free ↦
              let (mid, tr, fin) =
                then_do-ok (transition now auth i f target false none none false st) _ st'
                  (rw free at h1) in
              elim (transition-cases now auth i f target false none none false st mid tr) [
                | inl same ↦
                    finish_triage-IsRecorded st mid i f f u reason st' r e
                      (subst (λ x. IsMoved st x i f f) (sym same) (stay-IsMoved st i f r e)) fin
                | inr (s, other, allowed, after) ↦
                    finish_triage-IsRecorded st mid i f (moved now auth s f) u reason st' r e
                      (subst (λ x. IsMoved st x i f (moved now auth s f)) (sym after)
                        (moved-IsMoved st i f s r e other allowed))
                      fin
              ]
        ]
  ]

  -- A transition with its row, where a scan job vouches for an automatic one.
  pub transition-IsRecorded :
      (i : ℕ) (f : Finding) (target : String) (automatic : Bool) (job : Option ℕ)
      (reason : Option String) (st st' : Store)
      → IsRecorded st
      → get i st.findings ≡ some f
      → (automatic ≡ true → has_num job ≡ true)
      → transition now auth i f target automatic job reason true st ≡ ok st'
      → IsRecorded st'
  unfolding moved
  transition-IsRecorded i f target automatic job reason st st' r at_i vouched h =
      elim (transition-cases now auth i f target automatic job reason true st st' h) [
        | inl same ↦ subst IsRecorded (sym same) r
        | inr (s, other, allowed, after) ↦ subst IsRecorded (sym after) (
            write-IsRecorded st i f (moved now auth s) reason job r at_i
              (allowed-is_legal f.lifecycle_state s automatic job allowed vouched)
              (count-moved now auth s f other))
      ]

  pub suppress_finding-IsRecorded :
      (i : ℕ) (reason : String) (owner : Option String) (deadline : Option ℕ)
      (notes : Option String) (status : String) (st st' : Store)
      → IsRecorded st
      → suppress_finding now auth i reason owner deadline notes status st ≡ ok st'
      → IsRecorded st'
  unfolding suppress_finding
  suppress_finding-IsRecorded i reason owner deadline notes status st st' r h =
      let (mid, done, last) =
        then_do-ok (update_finding_triage now auth i _ (some reason) st) _ st' h in
      let kept = update_finding_triage-IsRecorded i _ (some reason) st mid r done in
      subst IsRecorded (ok_injective _ refl last)
        (record { keyed = kept.keyed; replayed = kept.replayed })

  pub reopen-IsRecorded :
      (i : ℕ) (notes : Option String) (st st' : Store)
      → IsRecorded st
      → reopen now auth i notes st ≡ ok st'
      → IsRecorded st'
  unfolding reopen
  reopen-IsRecorded i notes st st' r h = update_finding_triage-IsRecorded i _ none st st' r h
