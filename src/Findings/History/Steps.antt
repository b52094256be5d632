-- ===== src/Findings/History/Steps.antt =====
-- The steps of `_transition` and `_record_history` of src/orgscan/repositories.py, as rows of a replay.
use github_osint_secret_scan.Prelude.{
  ℕ, ◌+◌, String, ◌≡◌, refl, sym, ap, ◌⊎◌, inl, inr, arith, Bool, true, false, Option, some, ◌==◌,
  if◌then◌else◌, Bool-cases,
}
use github_osint_secret_scan.Prelude.Result.{Result, ok, raise, then_do}
use github_osint_secret_scan.Prelude.Rows.{IsKeyed, update_where-IsKeyed}
use github_osint_secret_scan.Prelude.Table.{get, get-update_where, updated}
use github_osint_secret_scan.Findings.Lifecycle.{
  LifecycleState, same_state, is_new, is_regressed, is_remediated, state_code, IsAllowed,
  validate_transition, validate_transition-IsAllowed,
}
use github_osint_secret_scan.Findings.Model.{Time, Finding, Store, snapshot}
use github_osint_secret_scan.Findings.Storage.{
  has_num, write_finding, record_history, moved, transition,
}
use github_osint_secret_scan.Findings.History.{is_legal, regressions}

-- What a block that gave a value did.
pub then_do-ok {ℓ} :
    {E A B : Type ℓ} (r : Result E A) (f : A → Result E B) (b : B)
    → then_do r f ≡ ok b
    → (a : A) × (r ≡ ok a) × (f a ≡ ok b)
then_do-ok (ok a) f b h = (a, refl, h)
then_do-ok (raise e) f b h = cc

pub ok_injective {ℓ} : {E A : Type ℓ} {a b : A} (r : Result E A) → r ≡ ok a → r ≡ ok b → a ≡ b
ok_injective r h k = cc

pub get-write_finding :
    (i j : ℕ) (f : Finding → Finding) (st : Store)
    → get j (write_finding i f st).findings
      ≡ (if i == j then updated (λ _. true) f (get j st.findings) else get j st.findings)
unfolding write_finding
get-write_finding i j f st = get-update_where i j (λ _. true) f st.findings

pub write_finding-IsKeyed :
    (i : ℕ) (f : Finding → Finding) (st : Store)
    → IsKeyed st.findings
    → IsKeyed (write_finding i f st).findings
unfolding write_finding
write_finding-IsKeyed i f st k = update_where-IsKeyed i (λ _. true) f st.findings k

-- An allowed move to another state is a legal row, if a scan job vouches for an automatic one.
pub allowed-is_legal :
    (s t : LifecycleState) (automatic : Bool) (job : Option ℕ)
    → IsAllowed s t automatic
    → (automatic ≡ true → has_num job ≡ true)
    → is_legal s t job ≡ true
allowed-is_legal s t automatic job a vouched = elim (Bool-cases (same_state t s)) [
  | inl same ↦ rw same refl
  | inr other ↦ elim (Bool-cases (is_new t)) [
    | inl n ↦ ground (arith, other, ap state_code (a.not_new n))
    | inr seen ↦ elim (Bool-cases (is_regressed t)) [
      | inr quiet ↦ rw other (rw seen (rw quiet refl))
      | inl again ↦ elim (a.by_scan again) [
        | inl same ↦ ground (arith, other, ap state_code same)
        | inr (auto, fixed) ↦
            rw other (rw seen (rw again (rw (ap is_remediated fixed) (vouched auto))))
      ]
    ]
  ]
]

module _ (now : Time) (auth : Option String) where
  pub count-moved :
      (s : LifecycleState) (f : Finding)
      → same_state s f.lifecycle_state ≡ false
      → (moved now auth s f).regression_count ≡ f.regression_count + regressions f.lifecycle_state s
  unfolding moved
  count-moved s f other = elim (Bool-cases (is_regressed s)) [
    | inl e ↦ rw (e, moved) (rw other (omega arith))
    | inr e ↦ rw (e, moved) (omega arith)
  ]

  -- What `_transition` does when it does not raise.
  pub transition-cases :
      (i : ℕ) (f : Finding) (target : String) (automatic : Bool) (job : Option ℕ)
      (reason : Option String) (with_history : Bool) (st st' : Store)
      → transition now auth i f target automatic job reason with_history st ≡ ok st'
      → (st' ≡ st)
        ⊎ ((s : LifecycleState) × (same_state s f.lifecycle_state ≡ false)
            × IsAllowed f.lifecycle_state s automatic
            × (st' ≡ (
                if with_history
                then record_history now auth i
                    (moved now auth s f)
                    (some (snapshot f))
                    reason
                    job
                    (write_finding i (moved now auth s) st)
                else write_finding i (moved now auth s) st)))
  unfolding transition
  transition-cases i f target automatic job reason with_history st st' h =
      let (s, valid, rest) =
        then_do-ok (validate_transition f.lifecycle_state target automatic) _ st' h in
      let allowed =
        ((validate_transition-IsAllowed f.lifecycle_state s target automatic).0 valid).1 in
      elim (Bool-cases (same_state s f.lifecycle_state)) [
        | inl same ↦ inl (sym (ok_injective _ refl (rw same at rest)))
        | inr other ↦ inr (s, other, allowed, sym (ok_injective _ refl (rw other at rest)))
      ]
