-- ===== src/Jobs/Policy/Bounds.antt =====
-- The bounds of job_policy.py: how long a retry waits and how often a job is retried.
use native.Mathlib.Nat.{pow-suc}
use github_osint_secret_scan.Prelude.{
  ℕ, zero, suc, ◌*◌, ◌-◌, ◌^◌, ◌≤◌, min, max, arith, List, [], ◌∷◌,
}
use github_osint_secret_scan.Prelude.Int.{ℤ, le-at_least}
use github_osint_secret_scan.Jobs.Policy.{Settings, Failure, base_delay, retry_delay}

one-le-pow : (k : ℕ) → 1 ≤ 2 ^ k
one-le-pow zero = omega arith
one-le-pow (suc k) = rw pow-suc (omega (arith, one-le-pow k))

base_delay_pos : (configured : List ℤ) → 1 ≤ base_delay configured
unfolding base_delay
base_delay_pos [] = omega arith
base_delay_pos (v ∷ vs) = le-at_least 1 v

one-le-mul : (a b : ℕ) → 1 ≤ a → 1 ≤ b → 1 ≤ a * b
one-le-mul a b h k = grind arith

-- A retry waits at least one second and at least as long as the server asked for; no policy of
-- this program makes it wait more than an hour, unless the server asked for longer.
pub retry_delay_bounds :
    (settings : Settings) (attempt : ℕ) (failure : Failure)
    → (1 ≤ retry_delay settings attempt failure)
      × (failure.retry_after ≤ retry_delay settings attempt failure)
      × (retry_delay settings attempt failure ≤ max 3600 failure.retry_after)
unfolding retry_delay
retry_delay_bounds settings attempt failure =
    let configured = settings.scan_queue_retry_interval_list in
    let factor = 2 ^ min (attempt - 1) 12 in
    let exponential_pos =
      one-le-mul (base_delay configured) factor (base_delay_pos configured)
        (one-le-pow (min (attempt - 1) 12)) in
    omega (arith, exponential_pos, le-at_least)
