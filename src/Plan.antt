-- ===== src/Plan.antt =====
-- The plans of scans: src/orgscan/services/scan_plan.py and src/orgscan/services/incremental.py.
-- A plan keeps the fields that its checks read. What the scanner registry and the list of
-- providers say is a parameter.
pub mod Checks
use Prim.Native.Char.{code}
use Prim.Native.String.append
use Prim.Native.String.{len, slice, compare, [] as []ˢ, ◌∷◌ as ◌∷ˢ◌, ◌++◌ as ◌++ˢ◌}
use text.Mathlib.Text.{starts_with, is_lt}
use github_osint_secret_scan.Prelude.{
  is_member, is_empty, has_text, ℕ, String, str_eq, Bool, true, false, not, ◌&&◌, ◌||◌, Option,
  none, some, List, [], ◌∷◌, leb, ltb, ◌==◌, if◌then◌else◌, or_default,
}
use github_osint_secret_scan.Prelude.Sort.{sort_by}
use github_osint_secret_scan.Prelude.Result.{Result, ok, raise, then_do}

pub data TargetType : Type 0 where
  path artifact mirror domain : TargetType

pub data BranchPolicy : Type 0 where
  default_only selected all tracked : BranchPolicy

pub data HistoryPolicy : Type 0 where
  all_refs current_ref : HistoryPolicy

pub data Mode : Type 0 where
  full incremental history : Mode

abbrev pub is_mirror : TargetType → Bool
is_mirror mirror = true
is_mirror _ = false

abbrev pub is_domain : TargetType → Bool
is_domain domain = true
is_domain _ = false

abbrev pub is_selected : BranchPolicy → Bool
is_selected selected = true
is_selected _ = false

abbrev pub is_default_only : BranchPolicy → Bool
is_default_only default_only = true
is_default_only _ = false

abbrev pub is_full : Mode → Bool
is_full full = true
is_full _ = false

abbrev pub is_incremental : Mode → Bool
is_incremental incremental = true
is_incremental _ = false

abbrev pub is_history : Mode → Bool
is_history history = true
is_history _ = false

pub data PlanError : Type 0 where
  unknown_profile duplicates domain_scope file_scope mirror_only refs_required policy_required :
      PlanError
  invalid_ref unsupported_target unsupported_mode unsupported_provider unknown_branch : PlanError

pub record ScanProfile : Type 0 where
  pub scanners : List String
  pub discovery_provider : Option String
  pub history_policy : HistoryPolicy

pub record ScanPlan : Type 0 where
  pub target : String
  pub target_type : TargetType
  pub profile : Option String
  pub scanners : List String
  pub refs : List String
  pub branch_policy : BranchPolicy
  pub history_policy : HistoryPolicy
  pub mode : Mode
  pub discovery_provider : Option String

abbrev profile_of : List String → Option String → ScanProfile
profile_of scanners provider = record {
  scanners = scanners;
  discovery_provider = provider;
  history_policy = all_refs;
}

-- PROFILES.get(name)
unfoldable pub profiles : String → Option ScanProfile
profiles name =
    if str_eq name "custom"
    then some (profile_of [] none)
    else if str_eq name "quick"
    then some (profile_of ("custom-patterns" ∷ []) none)
    else if str_eq name "standard"
    then some (profile_of ("custom-patterns" ∷ "repo-governance" ∷ []) none)
    else if str_eq name "comprehensive"
    then some (
        profile_of
          ("custom-patterns" ∷ "repo-governance" ∷ "gitleaks" ∷ "detect-secrets" ∷ "semgrep"
            ∷ "trufflehog" ∷ "yara" ∷ "ripgrep-heuristics" ∷ [])
          none)
    else if str_eq name "history"
    then some (profile_of ("git-history-patterns" ∷ []) none)
    else if str_eq name "secrets-only"
    then some
        (profile_of ("custom-patterns" ∷ "gitleaks" ∷ "detect-secrets" ∷ "trufflehog" ∷ []) none)
    else if str_eq name "osint-only"
    then some (profile_of [] (some "github-search"))
    else if str_eq name "domain-only"
    then some (profile_of [] (some "local-metadata"))
    else if str_eq name "governance-only"
    then some (profile_of ("repo-governance" ∷ []) none)
    else none

abbrev has_profile : Option String → Bool
has_profile none = true
has_profile (some name) = elim (profiles name) [ none ↦ false | some p ↦ true ]

-- len(set(xs)) == len(xs)
abbrev pub all_distinct : List String → Bool
all_distinct [] = true
all_distinct (s ∷ ss) = not (is_member s ss) && all_distinct ss

abbrev within : ℕ → ℕ → ℕ → Bool
within low high n = leb low n && leb n high

-- A character that `str.strip` removes.
abbrev is_space : ℕ → Bool
is_space n =
    within 9 13 n
    || within 28 32 n
    || n == 133
    || n == 160
    || n == 5760
    || within 8192 8202 n
    || within 8232 8233 n
    || n == 8239
    || n == 8287
    || n == 12288

-- `not ref.strip()`
unfoldable pub is_blank : String → Bool
is_blank []ˢ = true
is_blank (c ∷ˢ s) = is_space (code c) && is_blank s

unfoldable pub invalid_ref_name : String → Bool
invalid_ref_name ref = is_blank ref || starts_with ref "-"

abbrev pub any_invalid : List String → Bool
any_invalid [] = false
any_invalid (r ∷ rs) = invalid_ref_name r || any_invalid rs

-- The validator `compatible`: its tests, in order.
unfoldable pub compatible : ScanPlan → Result PlanError ScanPlan
compatible p =
    if not (has_profile p.profile)
    then raise unknown_profile
    else if not (all_distinct p.scanners) || not (all_distinct p.refs)
    then raise duplicates
    else if is_domain p.target_type
        && (not (is_empty p.scanners)
            || not (has_text p.discovery_provider)
            || not (is_empty p.refs)
            || not (is_full p.mode))
    then raise domain_scope
    else if not (is_domain p.target_type) && (is_empty p.scanners || has_text p.discovery_provider)
    then raise file_scope
    else if not (is_mirror p.target_type)
        && (not (is_empty p.refs) || not (is_default_only p.branch_policy) || is_incremental p.mode)
    then raise mirror_only
    else if is_selected p.branch_policy && is_empty p.refs
    then raise refs_required
    else if not (is_empty p.refs) && not (is_selected p.branch_policy)
    then raise policy_required
    else if any_invalid p.refs
    then raise invalid_ref
    else ok p

-- tuple(dict.fromkeys(xs)), given the members already taken.
unfoldable pub unique_from : List String → List String → List String
unique_from seen [] = []
unique_from seen (s ∷ ss) =
    let rest = unique_from seen ss in
    let rest' = unique_from (s ∷ seen) ss in if is_member s seen then rest else s ∷ rest'

abbrev pub unique : List String → List String
unique ss = unique_from [] ss

-- The keyword arguments that replace a resolved value unless they are `None`.
pub record PlanOverrides : Type 0 where
  pub branch_policy : Option BranchPolicy
  pub history_policy : Option HistoryPolicy
  pub mode : Option Mode
  pub discovery_provider : Option String

pub record ScannerMetadata : Type 0 where
  pub supports_target : TargetType → Bool
  pub supports_history : Bool

module _ (registry : String → ScannerMetadata) (providers : List String) where
  unfoldable pub validate_scanners : TargetType → Mode → List String → Option PlanError
  validate_scanners target mode [] = none
  validate_scanners target mode (name ∷ names) =
      let rest = validate_scanners target mode names in
      if not ((registry name).supports_target target)
      then some unsupported_target
      else if is_history mode && not (registry name).supports_history
      then some unsupported_mode
      else rest

  unfoldable pub validate_plan_scanners : ScanPlan → Result PlanError ScanPlan
  validate_plan_scanners p = elim (validate_scanners p.target_type p.mode p.scanners) [
    | some e ↦ raise e
    | none ↦
        if has_text p.discovery_provider
          && not (is_member (or_default p.discovery_provider "") providers)
        then raise unsupported_provider
        else ok p
  ]

  -- The profile whose values are the defaults.
  unfoldable pub defaults : Option String → TargetType → Result PlanError ScanProfile
  defaults none domain = ok (profile_of [] (some "local-metadata"))
  defaults none mirror = ok (profile_of ("git-history-patterns" ∷ []) none)
  defaults none target_type = ok (profile_of ("custom-patterns" ∷ []) none)
  defaults (some name) target_type = elim (profiles name) [
    | none ↦ raise unknown_profile
    | some p ↦ ok p
  ]

  abbrev policy_of : List String → TargetType → Option String → BranchPolicy
  policy_of [] mirror none = tracked
  policy_of [] target_type profile = default_only
  policy_of (r ∷ rs) target_type profile = selected

  abbrev mode_of : Option String → Mode
  mode_of none = full
  mode_of (some name) = if str_eq name "history" then history else full

  abbrev names_or : Option (List String) → List String → List String
  names_or none default = default
  names_or (some names) default = unique names

  abbrev provider_or : Option String → Option String → Option String
  provider_or none default = default
  provider_or (some p) default = some p

  unfoldable pub resolve_scan_plan :
      String
      → TargetType
      → Option String
      → Option (List String)
      → List String
      → PlanOverrides
      → Result PlanError ScanPlan
  resolve_scan_plan target target_type profile scanners refs overrides =
      then_do (defaults profile target_type) (λ d.
        then_do
          (compatible (record {
            target = target;
            target_type = target_type;
            profile = profile;
            scanners = names_or scanners d.scanners;
            refs = unique refs;
            branch_policy = or_default overrides.branch_policy (policy_of refs target_type profile);
            history_policy = or_default overrides.history_policy d.history_policy;
            mode = or_default overrides.mode (mode_of profile);
            discovery_provider = provider_or overrides.discovery_provider d.discovery_provider;
          }))
          validate_plan_scanners)

pub data Action : Type 0 where
  skip full_scan history_scan incremental_scan : Action

pub record RepositoryScanDecision : Type 0 where
  pub action : Action
  pub reason : String
  pub start_oid : Option String
  pub end_oid : Option String
  pub commit_range : Option String

abbrev decided : Action → String → Option String → Option String → RepositoryScanDecision
decided action reason start oid = record {
  action = action;
  reason = reason;
  start_oid = start;
  end_oid = oid;
  commit_range = none;
}

abbrev whole : Bool → Action
whole supports_history = if supports_history then history_scan else full_scan

abbrev explicit_text : Mode → String
explicit_text full = "explicit-full"
explicit_text incremental = "explicit-incremental"
explicit_text history = "explicit-history"

-- `checkpoint` is the oid of the checkpoint, and `is_ancestor` what git answers.
unfoldable pub decide_scan :
    Mode
    → Option String
    → Option String
    → Bool
    → Bool
    → (String → String → Bool)
    → RepositoryScanDecision
decide_scan mode checkpoint none supports_history supports_incremental is_ancestor =
    decided skip "ref-deleted" checkpoint none
decide_scan mode checkpoint (some oid) supports_history supports_incremental is_ancestor =
    if not (is_incremental mode)
    then decided (whole supports_history) (explicit_text mode) checkpoint (some oid)
    else elim checkpoint [
      | none ↦
          decided (whole supports_history) "first-scan-or-configuration-changed" none (some oid)
      | some start ↦
          if str_eq start oid
          then decided skip "unchanged" (some start) (some oid)
          else if not (is_ancestor start oid)
          then decided (whole supports_history) "diverged-or-checkpoint-unavailable" (some start)
              (some oid)
          else if supports_history && supports_incremental
          then record {
            action = incremental_scan;
            reason = "fast-forward";
            start_oid = some start;
            end_oid = some oid;
            commit_range = some (start ++ˢ ".." ++ˢ oid);
          }
          else decided full_scan "changed-full-tree-required" (some start) (some oid)
    ]

abbrev prefix : String
prefix = "refs/remotes/origin/"

abbrev remote_names : List String → List String
remote_names [] = []
remote_names (ref ∷ refs) =
    let rest = remote_names refs in
    if starts_with ref prefix then slice ref (len prefix) (len ref) ∷ rest else rest

abbrev default_ref : Option String → Result PlanError (List String)
default_ref branch =
    if has_text branch then ok (or_default branch "" ∷ []) else raise unknown_branch

-- `available` are the names of the refs, `tracked_refs` the entry of the repository's metadata.
unfoldable pub select_refs :
    ScanPlan → List String → Option String → List String → Result PlanError (List String)
select_refs plan tracked_refs default_branch available = elim plan.branch_policy [
  | selected ↦ ok plan.refs
  | all ↦ ok (sort_by (λ s t. is_lt (compare s t)) (remote_names available))
  | tracked ↦ if is_empty tracked_refs then default_ref default_branch else ok (unique tracked_refs)
  | default_only ↦ default_ref default_branch
]
