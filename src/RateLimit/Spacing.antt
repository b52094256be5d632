-- ===== src/RateLimit/Spacing.antt =====
-- Requests are a window apart: src/orgscan/rate_limit.py.
use mathlib.Core.List.{Memᴰ}
use github_osint_secret_scan.Prelude.{
  ◌+◌, ◌-◌, ◌≤◌, ◌<◌, String, eq_refl, ◌≡◌, refl, sym, ap, ◌∙◌, inl, inr, arith, true, Option, none,
  some, List, [], ◌∷◌, ltb, ◌==◌, if◌then◌else◌, All, length, Bool-cases,
}
use github_osint_secret_scan.Prelude.Rows.{All-mem}
use github_osint_secret_scan.Prelude.Dict.{Dict, lookup, lookup-insert}
use github_osint_secret_scan.RateLimit.{
  Time, RateLimitPolicy, window, memory_sleep, wait_for_rate_limit_memory, RateLimitState, granted,
  is_open, granted_row, attempt, created_row,
}

-- A request that the process lets through comes at least a window after the one before it in
-- its scope, if the clock does not run backwards and the sleep lasts as long as it was asked to.
pub wait_for_rate_limit_memory-spaced :
    (scope : String) (length now later previous : Time) (last : Dict Time)
    → lookup scope last ≡ some previous
    → previous ≤ now
    → now + memory_sleep (some previous) length now ≤ later
    → (t : Time) × (lookup scope (wait_for_rate_limit_memory scope length now later last) ≡ some t)
      × (previous + length ≤ t)
unfolding wait_for_rate_limit_memory memory_sleep
wait_for_rate_limit_memory-spaced scope length now later previous last known order slept =
    let t = if ltb 0 (length - (now - previous)) then later else now in
    (
      t,
      ground (arith, known, eq_refl scope, lookup-insert scope scope t last),
      ground (arith, slept, order),
    )

granted_injective : {a b : RateLimitState} → granted a ≡ granted b → b ≡ a
granted_injective h = cc

module _ (policy : RateLimitPolicy) (created : Time) where
  -- The processes that share a row: each reads a version of it and tries to take the next slot, by
  -- a clock that has moved on since the row was made. The lists hold the versions of the row and
  -- the times of the requests let through, the newest first.
  pub data Run : RateLimitState → List RateLimitState → List Time → Type 0 where
    start : Run (created_row policy created) (created_row policy created ∷ []) []
    take_slot :
        (now : Time) (seen : RateLimitState) {row row' : RateLimitState}
        {versions : List RateLimitState} {times : List Time}
        → Run row versions times
        → Memᴰ seen versions
        → created < now
        → attempt policy now seen row ≡ granted row'
        → Run row' (row' ∷ versions) (now ∷ times)

  -- Each request comes at least a window after the one before it.
  abbrev pub IsSpaced : List Time → Type 0
  IsSpaced [] = Unit
  IsSpaced (t ∷ []) = Unit
  IsSpaced (t ∷ s ∷ times) = (s + window policy ≤ t) × IsSpaced (s ∷ times)

  abbrev next_of : List Time → Option Time
  next_of [] = none
  next_of (t ∷ times) = some (t + window policy)

  abbrev stamp_of : List Time → Time
  stamp_of [] = created
  stamp_of (t ∷ times) = t

  -- What every run keeps: the row carries its last request, no other version has its stamp, and
  -- no older version a later one.
  record IsRun (row : RateLimitState) (versions : List RateLimitState) (times : List Time)
      : Type 0 where
    next_allowed : row.next_allowed_at ≡ next_of times
    stamp : row.updated_at ≡ stamp_of times
    after_creation : created ≤ row.updated_at
    counted : row.request_count ≡ length times
    newest :
        All
          (λ v. (v.updated_at ≤ row.updated_at) × (v.updated_at ≡ row.updated_at → v ≡ row))
          versions
    spaced : IsSpaced times

  same_row :
      (row seen : RateLimitState) (versions : List RateLimitState) (times : List Time)
      → IsRun row versions times
      → Memᴰ seen versions
      → row.updated_at ≡ seen.updated_at
      → seen ≡ row
  same_row row seen versions times r m e =
      (All-mem (λ v. (v.updated_at ≤ row.updated_at) × (v.updated_at ≡ row.updated_at → v ≡ row))
          versions r.newest m).1
        (sym e)

  granted-cases :
      (now : Time) (seen row row' : RateLimitState)
      → attempt policy now seen row ≡ granted row'
      → (is_open seen.next_allowed_at now ≡ true)
        × (row.updated_at ≡ seen.updated_at)
        × (row' ≡ granted_row policy now seen)
  unfolding attempt
  granted-cases now seen row row' h = elim (Bool-cases (is_open seen.next_allowed_at now)) [
    | inr shut ↦ cc (rw shut at h)
    | inl free ↦ elim (Bool-cases (row.updated_at == seen.updated_at)) [
      | inr changed ↦ cc (rw changed at (rw free at h))
      | inl same ↦ (free, ground (arith, same), granted_injective (rw same at (rw free at h)))
    ]
  ]

  older :
      (row row' : RateLimitState) (versions : List RateLimitState)
      → row.updated_at < row'.updated_at
      → All
          (λ v. (v.updated_at ≤ row.updated_at) × (v.updated_at ≡ row.updated_at → v ≡ row))
          versions
      → All
          (λ v. (v.updated_at ≤ row'.updated_at) × (v.updated_at ≡ row'.updated_at → v ≡ row'))
          versions
  older row row' [] less h = tt
  older row row' (v ∷ vs) less h = (
    (omega (arith, h.0.0, less), λ e. absurd (omega (arith, h.0.0, less, e))),
    older row row' vs less h.1,
  )

  -- The new slot lies a window after the last one, and after the stamp of the row.
  later_slot :
      (now : Time) (times : List Time)
      → 0 < window policy
      → created < now
      → is_open (next_of times) now ≡ true
      → (stamp_of times < now) × (IsSpaced times → IsSpaced (now ∷ times))
  later_slot now [] positive moved free = (moved, λ s. tt)
  later_slot now (t ∷ times) positive moved free =
      let after : t + window policy ≤ now = ground (arith, free) in
      (omega (arith, after, positive), λ s. (after, s))

  Run-IsRun :
      {row : RateLimitState} {versions : List RateLimitState} {times : List Time}
      → 0 < window policy
      → Run row versions times
      → IsRun row versions times
  unfolding created_row granted_row
  Run-IsRun positive start = record {
    next_allowed = refl;
    stamp = refl;
    after_creation = omega arith;
    counted = refl;
    newest = ((omega arith, λ e. refl), tt);
    spaced = tt;
  }
  Run-IsRun positive
        (take_slot now seen {row = row} {row' = row'} {versions = versions} {times = times} run m
          moved h) =
      let r = Run-IsRun positive run in
      let (free, same_stamp, made) = granted-cases now seen row row' h in
      let same = same_row row seen versions times r m same_stamp in
      let made_row : row' ≡ granted_row policy now row = made ∙ ap (granted_row policy now) same in
      let (later, extend) =
        later_slot now times positive moved
          (rw r.next_allowed at (rw (ap (λ x. x.next_allowed_at) same) at free)) in
      let newer : row.updated_at < (granted_row policy now row).updated_at =
        omega (arith, r.stamp, later) in
      rw made_row (record {
        next_allowed = refl;
        stamp = refl;
        after_creation = omega (arith, moved);
        counted = omega (arith, r.counted);
        newest = (
          (omega arith, λ e. refl),
          older row (granted_row policy now row) versions newer r.newest,
        );
        spaced = extend r.spaced;
      })

  -- However the processes that share a row of the database interleave, and whatever version of the
  -- row each of them read, the requests let through are a window apart, and the row counts them.
  pub Run-IsSpaced :
      {row : RateLimitState} {versions : List RateLimitState} {times : List Time}
      → 0 < window policy
      → Run row versions times
      → IsSpaced times × (row.request_count ≡ length times)
  Run-IsSpaced positive run = let r = Run-IsRun positive run in (r.spaced, r.counted)
