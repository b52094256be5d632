-- ===== src/Findings/Lifecycle.antt =====
-- src/orgscan/lifecycle.py: the states of a finding and the transitions between them.
use github_osint_secret_scan.Prelude.{
  ℕ, String, str_eq, ◌≡◌, refl, sym, ap, ◌∙◌, ◌↔◌, ◌⊎◌, inl, inr, arith, Bool, true, false, not,
  ◌&&◌, Option, none, some, ◌==◌, if◌then◌else◌, Bool-cases, Option-cases,
}
use github_osint_secret_scan.Prelude.Result.{Result, ok, raise}

pub data LifecycleState : Type 0 where
  new reviewing confirmed false_positive accepted_risk suppressed remediated regressed :
      LifecycleState

-- The `ValueError`s of the module, and of the storage that calls it.
pub data FindingError : Type 0 where
  unknown_status unknown_state back_to_new regressed_by_hand : FindingError
  no_finding status_conflict duplicate_finding : FindingError

-- `state.value`
abbrev pub state_name : LifecycleState → String
state_name new = "NEW"
state_name reviewing = "REVIEWING"
state_name confirmed = "CONFIRMED"
state_name false_positive = "FALSE_POSITIVE"
state_name accepted_risk = "ACCEPTED_RISK"
state_name suppressed = "SUPPRESSED"
state_name remediated = "REMEDIATED"
state_name regressed = "REGRESSED"

-- `LifecycleState(text)`
unfoldable pub parse_state : String → Option LifecycleState
parse_state s =
    if str_eq s "NEW"
    then some new
    else if str_eq s "REVIEWING"
    then some reviewing
    else if str_eq s "CONFIRMED"
    then some confirmed
    else if str_eq s "FALSE_POSITIVE"
    then some false_positive
    else if str_eq s "ACCEPTED_RISK"
    then some accepted_risk
    else if str_eq s "SUPPRESSED"
    then some suppressed
    else if str_eq s "REMEDIATED"
    then some remediated
    else if str_eq s "REGRESSED"
    then some regressed
    else none

-- LEGACY_STATUS
unfoldable pub legacy_status : LifecycleState → String
legacy_status new = "open"
legacy_status reviewing = "triaged"
legacy_status confirmed = "triaged"
legacy_status false_positive = "suppressed"
legacy_status accepted_risk = "accepted_risk"
legacy_status suppressed = "suppressed"
legacy_status remediated = "resolved"
legacy_status regressed = "open"

unfoldable pub from_legacy : String → Bool → Result FindingError LifecycleState
from_legacy status initial =
    if str_eq status "open"
    then ok (if initial then new else reviewing)
    else if str_eq status "triaged"
    then ok reviewing
    else if str_eq status "resolved"
    then ok remediated
    else if str_eq status "suppressed"
    then ok suppressed
    else if str_eq status "accepted_risk"
    then ok accepted_risk
    else raise unknown_status

-- The place of a state in the enumeration, by which states are compared.
abbrev pub state_code : LifecycleState → ℕ
state_code new = 0
state_code reviewing = 1
state_code confirmed = 2
state_code false_positive = 3
state_code accepted_risk = 4
state_code suppressed = 5
state_code remediated = 6
state_code regressed = 7

abbrev pub same_state : LifecycleState → LifecycleState → Bool
same_state s t = state_code s == state_code t

abbrev pub is_new : LifecycleState → Bool
is_new new = true
is_new _ = false

abbrev pub is_remediated : LifecycleState → Bool
is_remediated remediated = true
is_remediated _ = false

abbrev pub is_regressed : LifecycleState → Bool
is_regressed regressed = true
is_regressed _ = false

-- The tests after the names were read. The stored state is always one of the enumeration.
unfoldable pub check_transition :
    LifecycleState → LifecycleState → Bool → Result FindingError LifecycleState
check_transition previous state automatic =
    if same_state state previous
    then ok state
    else if is_new state
    then raise back_to_new
    else if is_regressed state && not (automatic && is_remediated previous)
    then raise regressed_by_hand
    else ok state

unfoldable pub validate_transition :
    LifecycleState → String → Bool → Result FindingError LifecycleState
validate_transition previous target automatic = elim (parse_state target) [
  | none ↦ raise unknown_state
  | some state ↦ check_transition previous state automatic
]

-- MANAGED_STATES
unfoldable pub is_managed : LifecycleState → Bool
is_managed false_positive = true
is_managed accepted_risk = true
is_managed suppressed = true
is_managed remediated = true
is_managed _ = false

pub parse_state-state_name : (s : LifecycleState) → parse_state (state_name s) ≡ some s
unfolding parse_state
parse_state-state_name new = refl
parse_state-state_name reviewing = refl
parse_state-state_name confirmed = refl
parse_state-state_name false_positive = refl
parse_state-state_name accepted_risk = refl
parse_state-state_name suppressed = refl
parse_state-state_name remediated = refl
parse_state-state_name regressed = refl

abbrev of_code : ℕ → LifecycleState
of_code n =
    if n == 0
    then new
    else if n == 1
    then reviewing
    else if n == 2
    then confirmed
    else if n == 3
    then false_positive
    else if n == 4
    then accepted_risk
    else if n == 5
    then suppressed
    else if n == 6
    then remediated
    else regressed

of_code-state_code : (s : LifecycleState) → of_code (state_code s) ≡ s
of_code-state_code new = refl
of_code-state_code reviewing = refl
of_code-state_code confirmed = refl
of_code-state_code false_positive = refl
of_code-state_code accepted_risk = refl
of_code-state_code suppressed = refl
of_code-state_code remediated = refl
of_code-state_code regressed = refl

pub same_state-eq : (s t : LifecycleState) → same_state s t ≡ true → s ≡ t
same_state-eq s t h =
    let codes : state_code s ≡ state_code t = ground (arith, h) in
    sym (of_code-state_code s) ∙ ap of_code codes ∙ of_code-state_code t

pub is_remediated-eq : (s : LifecycleState) → is_remediated s ≡ true → s ≡ remediated
is_remediated-eq remediated h = refl
is_remediated-eq _ h = cc

-- A transition that the policy lets through: to the same state, or to another state but NEW, and to
-- REGRESSED only automatically and from REMEDIATED.
pub record IsAllowed (previous state : LifecycleState) (automatic : Bool) : Type 0 where
  pub not_new : is_new state ≡ true → state ≡ previous
  pub by_scan :
      is_regressed state ≡ true
      → (state ≡ previous) ⊎ ((automatic ≡ true) × (previous ≡ remediated))

pub check_transition-IsAllowed :
    (previous state s : LifecycleState) (automatic : Bool)
    → check_transition previous state automatic ≡ ok s
    → (state ≡ s) × IsAllowed previous s automatic
unfolding check_transition
check_transition-IsAllowed previous state s automatic h =
    elim (Bool-cases (same_state state previous)) [
      | inl same ↦
          let is_s : state ≡ s = ground (arith, h, same) in
          let stays : s ≡ previous = sym is_s ∙ same_state-eq state previous same in
          (is_s, record { not_new = λ _. stays; by_scan = λ _. inl stays })
      | inr other ↦ elim (Bool-cases (is_new state)) [
        | inl back ↦ ground (arith, h, other, back)
        | inr seen ↦
            elim (Bool-cases (is_regressed state && not (automatic && is_remediated previous))) [
              | inl by_hand ↦ ground (arith, h, other, seen, by_hand)
              | inr free ↦
                  let is_s : state ≡ s = ground (arith, h, other, seen, free) in
                  (
                    is_s,
                    record {
                      not_new = λ n. cc (rw (← is_s) at n, seen);
                      by_scan = λ r. inr (
                        ground (arith, free, rw (← is_s) at r),
                        is_remediated-eq previous (ground (arith, free, rw (← is_s) at r)),
                      );
                    },
                  )
            ]
      ]
    ]

allowed-check_transition :
    (previous s : LifecycleState) (automatic : Bool)
    → IsAllowed previous s automatic
    → check_transition previous s automatic ≡ ok s
unfolding check_transition
allowed-check_transition previous s automatic a = elim (Bool-cases (same_state s previous)) [
  | inl same ↦ rw same refl
  | inr other ↦ elim (Bool-cases (is_new s)) [
    | inl n ↦ ground (arith, other, ap state_code (a.not_new n))
    | inr seen ↦ elim (Bool-cases (is_regressed s)) [
      | inr quiet ↦ rw other (rw seen (rw quiet refl))
      | inl again ↦ elim (a.by_scan again) [
        | inl same ↦ ground (arith, other, ap state_code same)
        | inr (auto, fixed) ↦
            rw other (rw seen (rw again (rw auto (rw (ap is_remediated fixed) refl))))
      ]
    ]
  ]
]

-- A transition is allowed exactly if `validate_transition` gives its target state.
pub validate_transition-IsAllowed :
    (previous s : LifecycleState) (target : String) (automatic : Bool)
    → (validate_transition previous target automatic ≡ ok s)
      ↔ ((parse_state target ≡ some s) × IsAllowed previous s automatic)
unfolding validate_transition
validate_transition-IsAllowed previous s target automatic =
    elim (Option-cases (parse_state target)) [
      | inl e ↦ (λ h. ground (arith, e, h), λ h. cc (e, h.0))
      | inr (state, e) ↦ (
        λ h.
            let (is_s, allowed) =
              check_transition-IsAllowed previous state s automatic
                (rw (e, validate_transition) at h) in
            (e ∙ ap some is_s, allowed),
        λ h. rw (h.0, validate_transition) (allowed-check_transition previous s automatic h.1),
      )
    ]

-- The legacy status of a finding keeps whether the finding is managed: read back, it gives a state
-- that is managed exactly if the first one was.
pub from_legacy-legacy_status :
    (s : LifecycleState)
    → (t : LifecycleState) × (from_legacy (legacy_status s) false ≡ ok t)
      × (is_managed t ≡ is_managed s)
unfolding from_legacy legacy_status is_managed
from_legacy-legacy_status new = (_, refl, refl)
from_legacy-legacy_status reviewing = (_, refl, refl)
from_legacy-legacy_status confirmed = (_, refl, refl)
from_legacy-legacy_status false_positive = (_, refl, refl)
from_legacy-legacy_status accepted_risk = (_, refl, refl)
from_legacy-legacy_status suppressed = (_, refl, refl)
from_legacy-legacy_status remediated = (_, refl, refl)
from_legacy-legacy_status regressed = (_, refl, refl)
