-- ===== src/RateLimit.antt =====
-- src/orgscan/rate_limit.py: the spacing of outbound requests, in one process and between the
-- processes that share a database. Times and windows are whole microseconds.
pub mod Spacing
use github_osint_secret_scan.Prelude.{
  ℕ, ◌+◌, ◌-◌, ◌*◌, ◌/◌, ◌%◌, max, String, str_eq, Bool, true, false, not, ◌&&◌, ◌||◌, Option, none,
  some, List, [], ◌∷◌, ltb, leb, ◌==◌, if◌then◌else◌, or_default,
}
use github_osint_secret_scan.Prelude.Dict.{Dict, lookup, insert}
use github_osint_secret_scan.Prelude.Int.{ℤ, pos, negsuc}

abbrev pub Time : Type 0
Time = ℕ

-- A backend's name, stripped and lowered, by what the code tests of it.
pub data BackendText : Type 0 where
  memory db blank other : BackendText

-- An entry of `rate_limit_scope_overrides_json`: the keys that it has. An interval is its number of
-- microseconds.
pub record Override : Type 0 where
  pub backend : Option BackendText
  pub requests_per_minute : Option ℤ
  pub min_interval : Option ℤ
  pub has_other_keys : Bool

pub record Settings : Type 0 where
  pub rate_limit_backend : BackendText
  pub outbound_requests_per_minute : ℤ
  pub outbound_min_interval : ℤ
  pub overrides : Dict Override

pub record RateLimitPolicy : Type 0 where
  pub scope : String
  pub backend : BackendText
  pub requests_per_minute : ℕ
  pub min_interval : Time

-- `max(n, 0)`
abbrev at_least_zero : ℤ → ℕ
at_least_zero (pos n) = n
at_least_zero (negsuc n) = 0

-- The quotient as a whole number, half to even.
abbrev rounded : ℕ → ℕ → ℕ
rounded n d =
    let twice = 2 * (n % d) in
    if ltb d twice || (twice == d && (n / d) % 2 == 1) then n / d + 1 else n / d

-- `60.0 / requests_per_minute` seconds, rounded to a microsecond as `timedelta` does.
unfoldable pub window : RateLimitPolicy → Time
window policy =
    max policy.min_interval
      (if policy.requests_per_minute == 0 then 0 else rounded 60000000 policy.requests_per_minute)

abbrev has {ℓ} : {A : Type ℓ} → Option A → Bool
has none = false
has (some a) = true

abbrev is_empty : Override → Bool
is_empty o =
    not (has o.backend)
    && not (has o.requests_per_minute)
    && not (has o.min_interval)
    && not o.has_other_keys

-- `overrides.get(scope) or overrides.get("*") or {}`; an empty entry is an entry without keys.
unfoldable pub override_of : String → Dict Override → Option Override
override_of scope overrides = elim (lookup scope overrides) [
  | some o ↦ if is_empty o then lookup "*" overrides else some o
  | none ↦ lookup "*" overrides
]

-- `backend = str(override) or backend`, or the default of the settings.
abbrev chosen : BackendText → BackendText → BackendText
chosen blank default = default
chosen text default = text

-- A name that is no backend stands for `memory`.
abbrev known : BackendText → BackendText
known db = db
known _ = memory

unfoldable pub resolve_rate_limit_policy : Option Settings → String → RateLimitPolicy
resolve_rate_limit_policy none scope = record {
  scope = scope;
  backend = memory;
  requests_per_minute = 0;
  min_interval = 0;
}
resolve_rate_limit_policy (some settings) scope = elim (override_of scope settings.overrides) [
  | none ↦ record {
    scope = scope;
    backend = known (chosen settings.rate_limit_backend memory);
    requests_per_minute = at_least_zero settings.outbound_requests_per_minute;
    min_interval = at_least_zero settings.outbound_min_interval;
  }
  | some o ↦ record {
    scope = scope;
    backend = known (
        chosen (or_default o.backend settings.rate_limit_backend)
          (chosen settings.rate_limit_backend memory));
    requests_per_minute =
        at_least_zero (or_default o.requests_per_minute settings.outbound_requests_per_minute);
    min_interval = at_least_zero (or_default o.min_interval settings.outbound_min_interval);
  }
]

-- How long a request waits in the process, under its lock.
unfoldable pub memory_sleep : Option Time → Time → Time → Time
memory_sleep none window now = 0
memory_sleep (some previous) window now = window - (now - previous)

-- `_wait_for_rate_limit_memory`: `now` is read before the sleep and `later` after it.
unfoldable pub wait_for_rate_limit_memory : String → Time → Time → Time → Dict Time → Dict Time
wait_for_rate_limit_memory scope window now later last =
    let sleep_for = memory_sleep (lookup scope last) window now in
    insert scope (if ltb 0 sleep_for then later else now) last

pub record RateLimitState : Type 0 where
  pub backend : BackendText
  pub requests_per_minute : ℕ
  pub min_interval : Time
  pub window_length : Time
  pub request_count : ℕ
  pub last_request_at : Option Time
  pub next_allowed_at : Option Time
  pub updated_at : Time

-- What one round of the loop of `_wait_for_rate_limit_db` does.
pub data Attempt : Type 0 where
  granted : RateLimitState → Attempt
  lost_race : Attempt
  wait_until : Time → Attempt

-- `current_next is None or current_next <= now`
abbrev pub is_open : Option Time → Time → Bool
is_open none now = true
is_open (some t) now = leb t now

unfoldable pub granted_row : RateLimitPolicy → Time → RateLimitState → RateLimitState
granted_row policy now seen = record {
  backend = policy.backend;
  requests_per_minute = policy.requests_per_minute;
  min_interval = policy.min_interval;
  window_length = window policy;
  request_count = seen.request_count + 1;
  last_request_at = some now;
  next_allowed_at = some (now + window policy);
  updated_at = now;
}

-- One round: `seen` is the row as it was read, and `row` the row when the UPDATE runs.
unfoldable pub attempt : RateLimitPolicy → Time → RateLimitState → RateLimitState → Attempt
attempt policy now seen row =
    if is_open seen.next_allowed_at now
    then (if row.updated_at == seen.updated_at
        then granted (granted_row policy now seen)
        else lost_race)
    else wait_until (or_default seen.next_allowed_at now)

-- The row that `_ensure_rate_limit_state` inserts at the time `now`.
unfoldable pub created_row : RateLimitPolicy → Time → RateLimitState
created_row policy now = record {
  backend = policy.backend;
  requests_per_minute = policy.requests_per_minute;
  min_interval = policy.min_interval;
  window_length = window policy;
  request_count = 0;
  last_request_at = none;
  next_allowed_at = none;
  updated_at = now;
}
