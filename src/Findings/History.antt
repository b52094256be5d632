-- ===== src/Findings/History.antt =====
-- The history of a finding, replayed: src/orgscan/repositories.py, `_record_history`.
pub mod Steps
pub mod Operations
pub mod Observe
use github_osint_secret_scan.Prelude.{
  ℕ, ◌+◌, ◌≡◌, refl, sym, ap, ◌∙◌, inl, inr, arith, Bool, true, false, not, ◌&&◌, ◌||◌, Option,
  none, some, List, [], ◌∷◌, ◌++◌, ◌==◌, if◌then◌else◌, Option-cases, Bool-cases,
}
use github_osint_secret_scan.Prelude.Rows.{IsKeyed}
use github_osint_secret_scan.Prelude.Table.{get}
use github_osint_secret_scan.Findings.Lifecycle.{
  LifecycleState, same_state, is_new, is_regressed, is_remediated,
}
use github_osint_secret_scan.Findings.Model.{Finding, FindingHistory, Store}
use github_osint_secret_scan.Findings.Storage.{has_num}

-- What a replay knows of a finding: its state, if it was seen, and how often it regressed.
abbrev pub Replayed : Type 0
Replayed = Option LifecycleState × ℕ

abbrev pub same_from : Option LifecycleState → LifecycleState → Bool
same_from none s = false
same_from (some r) s = same_state r s

-- A later row of a finding: it keeps the state, or it leaves it for another one that is not NEW;
-- REGRESSED is entered from REMEDIATED by the row of a scan job.
abbrev pub is_legal : LifecycleState → LifecycleState → Option ℕ → Bool
is_legal s t job =
    same_state t s || not (is_new t) && (not (is_regressed t) || is_remediated s && has_num job)

abbrev pub regressions : LifecycleState → LifecycleState → ℕ
regressions s t = if is_regressed t && not (same_state t s) then 1 else 0

-- One row, replayed: `none` if it does not continue the rows before it.
abbrev pub follow : FindingHistory → Replayed → Option Replayed
follow h (none, n) = elim h.from_state [ none ↦ some (some h.to_state, n) | some r ↦ none ]
follow h (some s, n) =
    if same_from h.from_state s && is_legal s h.to_state h.scan_job_id
    then some (some h.to_state, n + regressions s h.to_state)
    else none

abbrev pub step : ℕ → FindingHistory → Replayed → Option Replayed
step i h r = if h.finding_id == i then follow h r else some r

unfoldable pub replay : ℕ → Replayed → List FindingHistory → Option Replayed
replay i r [] = some r
replay i r (h ∷ hs) = elim (step i h r) [ none ↦ none | some r' ↦ replay i r' hs ]

-- What the replay of a finding's rows should give.
abbrev pub standing : Option Finding → Option Replayed
standing none = some (none, 0)
standing (some f) = some (some f.lifecycle_state, f.regression_count)

-- The rows of every finding form a chain of legal transitions that ends in the finding's state and
-- counts its regressions; the ids are keys, and an id without a finding has no rows.
pub record IsRecorded (st : Store) : Type 0 where
  pub keyed : IsKeyed st.findings
  pub replayed : (i : ℕ) → replay i (none, 0) st.history ≡ standing (get i st.findings)

abbrev pub follow_all : ℕ → FindingHistory → Option Replayed → Option Replayed
follow_all i h none = none
follow_all i h (some r) = step i h r

replay-append :
    (i : ℕ) (r : Replayed) (hs : List FindingHistory) (h : FindingHistory)
    → replay i r (hs ++ h ∷ []) ≡ follow_all i h (replay i r hs)
unfolding replay
replay-append i r [] h = elim (Option-cases (step i h r)) [
  | inl e ↦ rw (e, replay) refl
  | inr (r', e) ↦ rw (e, replay) refl
]
replay-append i r (g ∷ hs) h = elim (Option-cases (step i g r)) [
  | inl e ↦ rw (e, replay) refl
  | inr (r', e) ↦ rw (e, replay) (replay-append i r' hs h)
]

skip :
    (j : ℕ) (h : FindingHistory) (o : Option Replayed)
    → (h.finding_id == j) ≡ false
    → follow_all j h o ≡ o
skip j h none e = refl
skip j h (some q) e = rw e refl

-- A store in which a row of history was added and one finding changed or appeared.
pub extend-IsRecorded :
    (st st' : Store) (i : ℕ) (h : FindingHistory) (g : Finding)
    → IsRecorded st
    → IsKeyed st'.findings
    → h.finding_id ≡ i
    → st'.history ≡ st.history ++ h ∷ []
    → ((j : ℕ) → get j st'.findings ≡ (if i == j then some g else get j st.findings))
    → follow_all i h (standing (get i st.findings)) ≡ standing (some g)
    → IsRecorded st'
extend-IsRecorded st st' i h g r keys of_i rows findings legal = record {
  keyed = keys;
  replayed = λ j.
      ap (λ hs. replay j (none, 0) hs) rows
      ∙ replay-append j (none, 0) st.history h
      ∙ ap (follow_all j h) (r.replayed j)
      ∙ elim (Bool-cases (i == j)) [
        | inl same ↦
            let is_j : i ≡ j = ground (arith, same) in
            ap (λ k. follow_all k h (standing (get k st.findings))) (sym is_j)
            ∙ legal
            ∙ ap standing (sym (rw same at (findings j)))
        | inr other ↦
            skip j h (standing (get j st.findings)) (ground (arith, other, of_i))
            ∙ ap standing (sym (rw other at (findings j)))
      ];
}

-- A store in which no row was added and every finding kept its state and its count.
pub keep-IsRecorded :
    (st st' : Store)
    → IsRecorded st
    → IsKeyed st'.findings
    → st'.history ≡ st.history
    → ((j : ℕ) → standing (get j st'.findings) ≡ standing (get j st.findings))
    → IsRecorded st'
keep-IsRecorded st st' r keys rows findings = record {
  keyed = keys;
  replayed = λ j. ap (λ hs. replay j (none, 0) hs) rows ∙ r.replayed j ∙ sym (findings j);
}
