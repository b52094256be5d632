-- ===== src/Examples/Limits.antt =====
-- Rate limits and scan plans at concrete inputs.
use mathlib.Core.List.{Memᴰ}
use github_osint_secret_scan.Prelude.{
  is_member, ℕ, ◌+◌, ◌≤◌, String, ◌≡◌, ◌⊎◌, refl, arith, true, Option, none, some, [], ◌∷◌, length,
}
use github_osint_secret_scan.Prelude.Dict.{lookup}
use github_osint_secret_scan.Prelude.Result.{ok}
use github_osint_secret_scan.RateLimit.{
  RateLimitPolicy, RateLimitState, db, window, wait_for_rate_limit_memory, memory_sleep, attempt,
  granted, granted_row, created_row,
}
use github_osint_secret_scan.RateLimit.Spacing.{
  wait_for_rate_limit_memory-spaced, Run, IsSpaced, Run-IsSpaced,
}
use github_osint_secret_scan.Plan.{
  ScanPlan, ScannerMetadata, PlanOverrides, mirror, full, incremental, tracked, all_refs,
  incremental_scan, skip, decide_scan, is_history, resolve_scan_plan, defaults, compatible,
  validate_plan_scanners, validate_scanners, unique_from, RepositoryScanDecision,
}
use github_osint_secret_scan.Plan.Checks.{
  IsCompatible, resolve_scan_plan-IsCompatible, decide_scan_sound,
}

wait_for_rate_limit_memory-spaced_example :
    (t : ℕ) × (lookup "github"
        (wait_for_rate_limit_memory "github" 1000 1400 2000 (("github", 1000) ∷ []))
      ≡ some t)
    × (1000 + 1000 ≤ t)
unfolding lookup memory_sleep
wait_for_rate_limit_memory-spaced_example =
    wait_for_rate_limit_memory-spaced "github" 1000 1400 2000 1000 (("github", 1000) ∷ []) refl
      (omega arith) (omega arith)

-- 30 requests in a minute.
abbrev policy : RateLimitPolicy
policy = record { scope = "github"; backend = db; requests_per_minute = 30; min_interval = 0 }

abbrev first_row : RateLimitState
first_row = granted_row policy 200 (created_row policy 100)

abbrev second_row : RateLimitState
second_row = granted_row policy 2000200 first_row

first_slot :
    attempt policy 200 (created_row policy 100) (created_row policy 100) ≡ granted first_row
unfolding attempt created_row
first_slot = refl

second_slot : attempt policy 2000200 first_row first_row ≡ granted second_row
unfolding attempt granted_row window
second_slot = refl

Run-IsSpaced_example :
    IsSpaced policy 100 (2000200 ∷ 200 ∷ [])
    × (second_row.request_count ≡ length {A = ℕ} (2000200 ∷ 200 ∷ []))
unfolding window
Run-IsSpaced_example = Run-IsSpaced policy 100 (omega arith) (
    Run.take_slot 2000200 first_row
      (Run.take_slot 200 (created_row policy 100) Run.start (Memᴰ.head refl) (omega arith)
        first_slot)
      (Memᴰ.head refl) (omega arith) second_slot)

abbrev registry : String → ScannerMetadata
registry name = record { supports_target = λ t. true; supports_history = true }

abbrev no_overrides : PlanOverrides
no_overrides = record {
  branch_policy = none;
  history_policy = none;
  mode = none;
  discovery_provider = none;
}

abbrev plan : ScanPlan
plan = record {
  target = "octo/project";
  target_type = mirror;
  profile = none;
  scanners = "git-history-patterns" ∷ [];
  refs = [];
  branch_policy = tracked;
  history_policy = all_refs;
  mode = full;
  discovery_provider = none;
}

resolved : resolve_scan_plan registry [] "octo/project" mirror none none [] no_overrides ≡ ok plan
unfolding resolve_scan_plan defaults compatible validate_plan_scanners validate_scanners unique_from
resolved = refl

resolve_scan_plan-IsCompatible_example :
    IsCompatible plan
    × ((name : String)
        → is_member name plan.scanners ≡ true
        → ((registry name).supports_target plan.target_type ≡ true)
          × (is_history plan.mode ≡ true → (registry name).supports_history ≡ true))
resolve_scan_plan-IsCompatible_example =
    resolve_scan_plan-IsCompatible registry [] "octo/project" mirror none none [] no_overrides plan
      resolved

abbrev decision : RepositoryScanDecision
decision = decide_scan incremental (some "a1") (some "b2") true true (λ s t. true)

decide_scan_sound_example :
    (decision.action ≡ skip
      → (◌≡◌ {A = Option String} (some "b2") none)
        ⊎ ((incremental ≡ incremental) × (◌≡◌ {A = Option String} (some "a1") (some "b2"))))
    × (decision.action ≡ incremental_scan
        → (start end : String) × (◌≡◌ {A = Option String} (some "a1") (some start))
          × (◌≡◌ {A = Option String} (some "b2") (some end))
          × (true ≡ true)
          × (true ≡ true))
decide_scan_sound_example =
    decide_scan_sound incremental (some "a1") (some "b2") true true (λ s t. true) decision refl
