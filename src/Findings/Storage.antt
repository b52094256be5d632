-- ===== src/Findings/Storage.antt =====
-- The operations of `Storage` on findings, src/orgscan/repositories.py. `now` is the clock of the
-- transaction and `auth` the name of the signed-in caller. A raised error leaves the store to the
-- caller's rollback. The redaction that wraps `_create_finding` is not modelled.
use github_osint_secret_scan.Prelude.{
  ℕ, ◌+◌, String, str_eq, Bool, true, false, not, ◌&&◌, Option, none, some, [], ◌∷◌, ◌++◌, ◌==◌,
  if◌then◌else◌, or_default,
}
use github_osint_secret_scan.Prelude.Result.{Result, ok, raise, then_do}
use github_osint_secret_scan.Prelude.Table.{get, update_where}
use github_osint_secret_scan.Findings.Lifecycle.{
  LifecycleState, FindingError, no_finding, status_conflict, state_name, parse_state, legacy_status,
  from_legacy, is_remediated, is_regressed, same_state, validate_transition,
}
use github_osint_secret_scan.Findings.Model.{
  Time, Finding, Snapshot, snapshot, same_snapshot, Store, TriageUpdate,
}

-- Writes attributes of one finding.
unfoldable pub write_finding : ℕ → (Finding → Finding) → Store → Store
write_finding i f st = record st { findings = (update_where i (λ _. true) f st.findings).0 }

-- The truth values of an optional text and of an optional id.
abbrev pub has_text : Option String → Bool
has_text none = false
has_text (some s) = not (str_eq s "")

abbrev pub has_num : Option ℕ → Bool
has_num none = false
has_num (some n) = not (n == 0)

-- `a or b` on optional texts.
abbrev pub text_or : Option String → Option String → Option String
text_or a b = if has_text a then a else b

abbrev state_of : Option Snapshot → Option LifecycleState
state_of none = none
state_of (some s) = some s.lifecycle_state

module _ (now : Time) (auth : Option String) where
  unfoldable pub actor : Option ℕ → String
  actor scan_job_id = if has_num scan_job_id then "scanner" else or_default auth "local"

  unfoldable pub record_history :
      ℕ → Finding → Option Snapshot → Option String → Option ℕ → Store → Store
  record_history i f before reason scan_job_id st = record st {
    history =
        st.history
        ++ record {
          finding_id = i;
          from_state = state_of before;
          to_state = f.lifecycle_state;
          actor = actor scan_job_id;
          reason = reason;
          scan_job_id = scan_job_id;
          occurred_at = now;
          before = before;
          after = snapshot f;
        }
          ∷ [];
  }

  -- The attributes that a move to another state sets.
  unfoldable pub moved : LifecycleState → Finding → Finding
  moved state f = record f {
    lifecycle_state = state;
    status = legacy_status state;
    remediated_at = if is_remediated state then some now else f.remediated_at;
    regressed_at = if is_regressed state then some now else f.regressed_at;
    regression_count = if is_regressed state then f.regression_count + 1 else f.regression_count;
    triage_state = if is_regressed state then "reopened" else f.triage_state;
  }

  -- `_transition` of the finding `f` with the id `i`.
  unfoldable pub transition :
      ℕ
      → Finding
      → String
      → Bool
      → Option ℕ
      → Option String
      → Bool
      → Store
      → Result FindingError Store
  transition i f target automatic scan_job_id reason with_history st =
      then_do (validate_transition f.lifecycle_state target automatic) (λ state.
        if same_state state f.lifecycle_state
        then ok st
        else (let st' = write_finding i (moved state) st in
            ok (
              if with_history
              then record_history i (moved state f) (some (snapshot f)) reason scan_job_id st'
              else st')))

  abbrev set_text : Option String → String → String
  set_text none old = old
  set_text (some t) old = t

  abbrev set_option {ℓ} : {A : Type ℓ} → Option A → Option A → Option A
  set_option none old = old
  set_option (some a) old = some a

  -- The assignments that follow the transition.
  unfoldable pub triaged : TriageUpdate → Finding → Finding
  triaged u f = record f {
    status = set_text u.status f.status;
    triage_state = set_text u.triage_state f.triage_state;
    triage_owner = set_option u.triage_owner f.triage_owner;
    triage_notes = set_option u.triage_notes f.triage_notes;
    remediation_due_date = set_option u.remediation_due_date f.remediation_due_date;
  }

  -- `lifecycle_state or (from_legacy(status) if status is not None else finding.lifecycle_state)`
  unfoldable pub triage_target : TriageUpdate → Finding → Result FindingError String
  triage_target u f =
      if has_text u.lifecycle_state then ok (or_default u.lifecycle_state "") else elim u.status [
        | none ↦ ok (state_name f.lifecycle_state)
        | some status ↦ then_do (from_legacy status false) (λ s. ok (state_name s))
      ]

  -- LEGACY_STATUS.get(lifecycle_state) != status
  abbrev pub conflicts : Option String → Option String → Bool
  conflicts none status = false
  conflicts (some state) none = false
  conflicts (some state) (some status) =
      not (str_eq state "")
      && elim (parse_state state) [ none ↦ true | some s ↦ not (str_eq (legacy_status s) status) ]

  -- The end of `update_finding_triage`, on the finding `f` before it and the store after the
  -- transition.
  unfoldable pub finish_triage :
      ℕ → TriageUpdate → Option String → Finding → Store → Result FindingError Store
  finish_triage i u reason f st =
      let st' = write_finding i (triaged u) st in
      elim (get i st'.findings) [
        | none ↦ raise no_finding
        | some g ↦ ok (
            if same_snapshot (snapshot f) (snapshot g)
            then st'
            else record_history i g (some (snapshot f)) reason none st')
      ]

  unfoldable pub update_finding_triage :
      ℕ → TriageUpdate → Option String → Store → Result FindingError Store
  update_finding_triage i u reason st = elim (get i st.findings) [
    | none ↦ raise no_finding
    | some f ↦ then_do (triage_target u f) (λ target.
        if conflicts u.lifecycle_state u.status
        then raise status_conflict
        else then_do (transition i f target false none none false st) (finish_triage i u reason f))
  ]

  unfoldable pub suppress_finding :
      ℕ
      → String
      → Option String
      → Option ℕ
      → Option String
      → String
      → Store
      → Result FindingError Store
  suppress_finding i reason owner deadline notes status st =
      then_do
        (update_finding_triage i
          (record {
            status = some status;
            lifecycle_state = none;
            triage_state = some status;
            triage_owner = owner;
            triage_notes = notes;
            remediation_due_date = deadline;
          })
          (some reason) st)
        (λ st'. ok (record st' {
          suppressions =
              st'.suppressions
              ++ record {
                finding_id = i;
                status = status;
                reason = reason;
                owner = owner;
                deadline = deadline;
                notes = notes;
              }
                ∷ [];
        }))

  -- `FindingService.reopen`
  unfoldable pub reopen : ℕ → Option String → Store → Result FindingError Store
  reopen i notes st =
      update_finding_triage i
        (record {
          status = some "open";
          lifecycle_state = none;
          triage_state = some "reopened";
          triage_owner = none;
          triage_notes = notes;
          remediation_due_date = none;
        })
        none st
