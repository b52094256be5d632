-- ===== src/Jobs/Policy.antt =====
-- src/orgscan/services/job_policy.py: failure classification and the bounded retry policy.
-- Python's `float`, the e-mail date parser and the case-insensitive header lookup of an HTTP
-- message are library code, which the section takes as parameters.
pub mod Bounds
pub mod Classify
use github_osint_secret_scan.Prelude.{
  ℕ, zero, suc, ◌-◌, ◌*◌, ◌+◌, ◌^◌, min, max, String, str_eq, Bool, true, false, ◌&&◌, ◌||◌, not,
  Option, none, some, List, [], ◌∷◌, ◌++◌, ◌==◌, leb, if◌then◌else◌, length,
}
use github_osint_secret_scan.Prelude.Int.{ℤ, pos, negsuc, at_least}
use github_osint_secret_scan.Prelude.Table.{Table, get}

pub record Failure : Type 0 where
  pub code : String
  pub retryable : Bool
  pub message : String
  pub retry_after : ℕ

-- The settings that the queue reads.
pub record Settings : Type 0 where
  pub scan_queue_retry_max : ℤ
  pub scan_queue_retry_interval_list : List ℤ
  pub scan_queue_lease_seconds : ℤ
  pub scan_queue_name : String

abbrev nth_or_last : List ℤ → ℕ → ℤ → ℤ
nth_or_last [] n d = d
nth_or_last (v ∷ []) n d = v
nth_or_last (v ∷ w ∷ vs) zero d = v
nth_or_last (v ∷ w ∷ vs) (suc n) d = nth_or_last (w ∷ vs) n d

-- `max(configured[0] if configured else 30, 1)`
unfoldable pub base_delay : List ℤ → ℕ
base_delay [] = 30
base_delay (v ∷ vs) = at_least 1 v

-- `attempt - 1` stops at 0, as `max(attempt - 1, 0)` does; the index stops at the last entry.
unfoldable pub retry_delay : Settings → ℕ → Failure → ℕ
retry_delay settings attempt failure =
    let configured = settings.scan_queue_retry_interval_list in
    let exponential = min (base_delay configured * 2 ^ min (attempt - 1) 12) 3600 in
    let floor = nth_or_last configured (attempt - 1) (pos 0) in
    max (min (at_least exponential floor) 3600) failure.retry_after

unfoldable pub retry_limit : Settings → ℕ
retry_limit settings = min (at_least 0 settings.scan_queue_retry_max) 10

-- What `float(text)` gives: a finite value, here truncated towards 0, an infinity or NaN, or an error.
pub data FloatRead : Type 0 where
  finite : ℤ → FloatRead
  not_finite : FloatRead
  bad : FloatRead

abbrev int_max : ℤ → ℤ → ℤ
int_max (pos a) (pos b) = pos (max a b)
int_max (pos a) (negsuc b) = pos a
int_max (negsuc a) (pos b) = pos b
int_max (negsuc a) (negsuc b) = negsuc (min a b)

max_or : ℤ → List ℤ → ℤ
max_or d [] = d
max_or d (v ∷ []) = v
max_or d (v ∷ w ∷ vs) = int_max v (max_or d (w ∷ vs))

-- max(0, value + 1)
abbrev suc_or_zero : ℤ → ℕ
suc_or_zero (pos n) = n + 1
suc_or_zero (negsuc n) = 0

pub record HttpError : Type 0 where
  pub code : ℕ
  pub header : String → Option String

-- An exception object, with the tests that `classify_failure` makes of it and its `__cause__`.
pub data Kind : Type 0 where
  classified : Failure → Kind
  http_error : HttpError → Kind
  transient_job_error url_error timeout_error connection_error : Kind
  other_error : Kind

pub record Exception : Type 0 where
  pub kind : Kind
  pub cause : Option ℕ

abbrev is_present : Option String → Bool
is_present none = false
is_present (some text) = not (str_eq text "")

abbrev is_zero_text : Option String → Bool
is_zero_text none = false
is_zero_text (some text) = str_eq text "0"

unfoldable pub is_limited : HttpError → Bool
is_limited e =
    e.code == 429
    || e.code == 403
      && (is_zero_text (e.header "X-RateLimit-Remaining") || is_present (e.header "retry-after"))

unfoldable pub is_unavailable : ℕ → Bool
is_unavailable code =
    code == 408 || code == 425 || code == 500 || code == 502 || code == 503 || code == 504

abbrev pub transient : Failure
transient = record {
  code = "network_transient";
  retryable = true;
  message = "Temporary network or upstream failure";
  retry_after = 0;
}

abbrev pub permanent : Failure
permanent = record {
  code = "permanent";
  retryable = false;
  message = "Job failed; review target, scanner readiness and configuration";
  retry_after = 0;
}

abbrev pub upstream_rejected : Failure
upstream_rejected = record {
  code = "upstream_rejected";
  retryable = false;
  message = "Upstream rejected the request; review configuration and permissions";
  retry_after = 0;
}

abbrev pub is_seen : ℕ → List ℕ → Bool
is_seen i [] = false
is_seen i (j ∷ seen) = j == i || is_seen i seen

module _ (float_text : String → FloatRead) (date_delay : String → Option ℤ)
    (reset_delay : String → FloatRead) where
  abbrev with_read : FloatRead → List ℤ
  with_read (finite v) = v ∷ []
  with_read not_finite = []
  with_read bad = []

  abbrev with_date : Option ℤ → List ℤ
  with_date none = []
  with_date (some v) = v ∷ []

  -- The `retry-after` value as a number, or else as a date.
  abbrev retry_after_delays : Option String → List ℤ
  retry_after_delays none = []
  retry_after_delays (some value) = if str_eq value "" then [] else elim (float_text value) [
    | finite v ↦ v ∷ []
    | not_finite ↦ []
    | bad ↦ with_date (date_delay value)
  ]

  abbrev reset_text : Option String → String
  reset_text none = "0"
  reset_text (some value) = value

  unfoldable pub server_delay : HttpError → ℕ
  unfolding max_or
  server_delay e =
      let delays =
        retry_after_delays (e.header "retry-after")
        ++ with_read (reset_delay (reset_text (e.header "x-ratelimit-reset"))) in
      min 604800 (suc_or_zero (max_or (pos 0) delays))

  unfoldable pub http_failure : HttpError → Failure
  http_failure e =
      if is_limited e
      then record {
        code = "rate_limited";
        retryable = true;
        message = "Upstream rate limit; retry deferred";
        retry_after = server_delay e;
      }
      else if is_unavailable e.code
      then record {
        code = "upstream_unavailable";
        retryable = true;
        message = "Upstream temporarily unavailable";
        retry_after = server_delay e;
      }
      else upstream_rejected

  -- What one exception of the chain decides; `none` goes on to its cause.
  unfoldable pub own_failure : Kind → Option Failure
  own_failure (classified failure) = some failure
  own_failure (http_error e) = some (http_failure e)
  own_failure transient_job_error = some transient
  own_failure url_error = some transient
  own_failure timeout_error = some transient
  own_failure connection_error = some transient
  own_failure other_error = none

  -- The `while` loop over the cause chain: the objects stand in `heap` under their identities.
  unfoldable pub classify_loop : ℕ → Table Exception → List ℕ → Option ℕ → Option Failure
  classify_loop zero heap seen cause = none
  classify_loop (suc fuel) heap seen none = some permanent
  classify_loop (suc fuel) heap seen (some i) =
      if is_seen i seen then some permanent else elim (get i heap) [
        | none ↦ some permanent
        | some exc ↦ elim (own_failure exc.kind) [
          | some failure ↦ some failure
          | none ↦ classify_loop fuel heap (i ∷ seen) exc.cause
        ]
      ]

  -- One round more than there are objects is enough, as `Classify` shows.
  unfoldable pub classify_failure : Table Exception → ℕ → Option Failure
  unfolding classify_loop
  classify_failure heap i = classify_loop (suc (length heap)) heap [] (some i)
