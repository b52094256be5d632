-- ===== src/Plan/Checks.antt =====
-- What a plan that passed its checks is, and what a decision to skip or to scan a range means.
use github_osint_secret_scan.Prelude.{
  has_text, is_empty, is_member, String, str_eq, eq_iff, ◌≡◌, refl, ap, ◌⊎◌, inl, inr, arith, Bool,
  true, false, not, Option, none, some, List, [], ◌∷◌, Bool-cases, Option-cases,
}
use github_osint_secret_scan.Prelude.Result.{Result, ok, raise, then_do}
use github_osint_secret_scan.Plan.{
  ScanPlan, TargetType, Mode, is_mirror, is_domain, is_selected, is_default_only, is_full,
  is_incremental, is_history, all_distinct, any_invalid, compatible, skip, incremental_scan,
  decide_scan, incremental, ScannerMetadata, PlanOverrides, resolve_scan_plan,
  validate_plan_scanners, validate_scanners, defaults, RepositoryScanDecision,
}

pub record IsCompatible (p : ScanPlan) : Type 0 where
  pub distinct : (all_distinct p.scanners ≡ true) × (all_distinct p.refs ≡ true)
  pub domain_only :
      is_domain p.target_type ≡ true
      → (is_empty p.scanners ≡ true)
        × (has_text p.discovery_provider ≡ true)
        × (is_full p.mode ≡ true)
  pub scans_files :
      is_domain p.target_type ≡ false
      → (is_empty p.scanners ≡ false) × (has_text p.discovery_provider ≡ false)
  pub refs_selected : is_empty p.refs ≡ not (is_selected p.branch_policy)
  pub mirror_only :
      is_mirror p.target_type ≡ false
      → (is_empty p.refs ≡ true)
        × (is_default_only p.branch_policy ≡ true)
        × (is_incremental p.mode ≡ false)
  pub refs_valid : any_invalid p.refs ≡ false

compatible_same : (p q : ScanPlan) → compatible p ≡ ok q → p ≡ q
unfolding compatible
compatible_same p q h = ground (arith, h)

compatible-IsCompatible : (p q : ScanPlan) → compatible p ≡ ok q → IsCompatible p
unfolding compatible
compatible-IsCompatible p q h = record {
  distinct = (ground (arith, h), ground (arith, h));
  domain_only = λ d. (ground (arith, h, d), ground (arith, h, d), ground (arith, h, d));
  scans_files = λ d. (ground (arith, h, d), ground (arith, h, d));
  refs_selected = ground (arith, h);
  mirror_only = λ m. (ground (arith, h, m), ground (arith, h, m), ground (arith, h, m));
  refs_valid = ground (arith, h);
}

resolve-then {ℓ} :
    {E A B : Type ℓ} (r : Result E A) (f : A → Result E B) (b : B)
    → then_do r f ≡ ok b
    → (a : A) × (r ≡ ok a) × (f a ≡ ok b)
resolve-then (ok a) f b h = (a, refl, h)
resolve-then (raise e) f b h = cc

module _ (registry : String → ScannerMetadata) (providers : List String) where
  validate_same :
      (p q : ScanPlan)
      → validate_plan_scanners registry providers p ≡ ok q
      → (p ≡ q) × (validate_scanners registry providers p.target_type p.mode p.scanners ≡ none)
  unfolding validate_plan_scanners
  validate_same p q h =
      elim (Option-cases (validate_scanners registry providers p.target_type p.mode p.scanners)) [
        | inl e ↦ (ground (arith, rw (e, validate_plan_scanners) at h), e)
        | inr (error, e) ↦ cc (rw (e, validate_plan_scanners) at h)
      ]

  scanners_supported :
      (target : TargetType) (mode : Mode) (names : List String) (name : String)
      → validate_scanners registry providers target mode names ≡ none
      → is_member name names ≡ true
      → ((registry name).supports_target target ≡ true)
        × (is_history mode ≡ true → (registry name).supports_history ≡ true)
  unfolding validate_scanners
  scanners_supported target mode [] name h m = cc
  scanners_supported target mode (n ∷ names) name h m = elim (Bool-cases (str_eq n name)) [
    | inl e ↦
        let same : n ≡ name = (eq_iff n name).0 e in
        rw (← same) (ground (arith, h), λ t. ground (arith, h, t))
    | inr e ↦ scanners_supported target mode names name (ground (arith, h)) (ground (arith, m, e))
  ]

  -- A plan that is resolved without an error passes every test of the validator: its scanners and
  -- refs are distinct, a domain plan has a provider and no scanner and another plan scanners and
  -- no provider, refs and the selected policy come together, only a mirror has refs, a branch
  -- policy or an incremental mode, and no ref is invalid; and each of its scanners supports the
  -- target, and the history mode if the plan has it.
  pub resolve_scan_plan-IsCompatible :
      (target : String) (target_type : TargetType) (profile : Option String)
      (scanners : Option (List String)) (refs : List String) (overrides : PlanOverrides)
      (plan : ScanPlan)
      → resolve_scan_plan registry providers target target_type profile scanners refs overrides
        ≡ ok plan
      → IsCompatible plan
        × ((name : String)
            → is_member name plan.scanners ≡ true
            → ((registry name).supports_target plan.target_type ≡ true)
              × (is_history plan.mode ≡ true → (registry name).supports_history ≡ true))
  unfolding resolve_scan_plan
  resolve_scan_plan-IsCompatible target target_type profile scanners refs overrides plan h =
      let (d, _, rest) = resolve-then (defaults registry providers profile target_type) _ plan h in
      let (p, checked, last) =
        resolve-then (compatible _) (validate_plan_scanners registry providers) plan rest in
      let (same, supported) = validate_same p plan last in
      let valid = rw (compatible_same _ p checked) at (compatible-IsCompatible _ p checked) in
      rw (← same)
        (valid, λ name m. scanners_supported p.target_type p.mode p.scanners name supported m)

is_incremental-eq : (m : Mode) → is_incremental m ≡ true → m ≡ incremental
is_incremental-eq incremental h = refl
is_incremental-eq _ h = cc

-- A ref is skipped only if it was deleted, or if an incremental scan finds its commit at the
-- checkpoint; and a range of commits is scanned only from the checkpoint, which the commit descends
-- from, with a scanner that supports incremental scans.
pub decide_scan_sound :
    (mode : Mode) (checkpoint oid : Option String) (supports_history supports_incremental : Bool)
    (is_ancestor : String → String → Bool) (d : RepositoryScanDecision)
    → decide_scan mode checkpoint oid supports_history supports_incremental is_ancestor ≡ d
    → (d.action ≡ skip → (oid ≡ none) ⊎ ((mode ≡ incremental) × (checkpoint ≡ oid)))
      × (d.action ≡ incremental_scan
          → (start end : String) × (checkpoint ≡ some start)
            × (oid ≡ some end)
            × (is_ancestor start end ≡ true)
            × (supports_incremental ≡ true))
unfolding decide_scan
decide_scan_sound mode checkpoint none sh si anc d h = (λ s. inl refl, λ s. cc)
decide_scan_sound mode none (some oid) sh si anc d h =
    (λ s. ground (arith, h, s), λ s. ground (arith, h, s))
decide_scan_sound mode (some start) (some oid) sh si anc d h = (
  λ s. inr (
    is_incremental-eq mode (ground (arith, h, s)),
    ap some ((eq_iff start oid).0 (ground (arith, h, s))),
  ),
  λ s. (start, oid, refl, refl, ground (arith, h, s), ground (arith, h, s)),
)
