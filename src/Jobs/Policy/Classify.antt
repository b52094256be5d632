-- ===== src/Jobs/Policy/Classify.antt =====
-- `classify_failure` of src/orgscan/services/job_policy.py on chains of causes, cyclic ones included:
-- that it ends, and where its result comes from.
use github_osint_secret_scan.Prelude.{
  ℕ, zero, suc, ◌≤◌, ◌<◌, ◌≡◌, refl, ap, ◌∙◌, ◌⊎◌, inl, inr, arith, List, [], ◌∷◌, String, false,
  Option, none, some, if◌then◌else◌, Bool-cases, Option-cases, length,
}
use github_osint_secret_scan.Prelude.Int.{ℤ}
use github_osint_secret_scan.Prelude.Table.{Table, get}
use github_osint_secret_scan.Jobs.Policy.{
  Failure, FloatRead, HttpError, Kind, classified, http_error, transient_job_error, url_error,
  timeout_error, connection_error, other_error, Exception, is_seen, transient, permanent,
  server_delay, is_limited, is_unavailable, http_failure, own_failure, classify_loop,
  classify_failure,
}

-- How many objects the loop has not visited yet.
unseen : List ℕ → Table Exception → ℕ
unseen seen [] = 0
unseen seen ((j, e) ∷ heap) =
    let rest = unseen seen heap in if is_seen j seen then rest else suc rest

unseen_nil : (heap : Table Exception) → unseen [] heap ≡ length heap
unfolding unseen
unseen_nil [] = refl
unseen_nil ((j, e) ∷ heap) = omega (arith, unseen_nil heap)

unseen-cons-le :
    (i : ℕ) (seen : List ℕ) (heap : Table Exception) → unseen (i ∷ seen) heap ≤ unseen seen heap
unfolding unseen
unseen-cons-le i seen [] = omega arith
unseen-cons-le i seen ((j, e) ∷ heap) = ground (arith, unseen-cons-le i seen heap)

unseen-cons-lt :
    (i : ℕ) (seen : List ℕ) (heap : Table Exception) (e : Exception)
    → is_seen i seen ≡ false
    → get i heap ≡ some e
    → unseen (i ∷ seen) heap < unseen seen heap
unfolding unseen get
unseen-cons-lt i seen [] e new found = cc
unseen-cons-lt i seen ((j, x) ∷ heap) e new found =
    ground (arith, unseen-cons-lt i seen heap e, unseen-cons-le i seen heap)

-- The messages that job_policy.py itself writes.
pub data FixedMessage : String → Type 0 where
  rate_limited : FixedMessage "Upstream rate limit; retry deferred"
  unavailable : FixedMessage "Upstream temporarily unavailable"
  rejected : FixedMessage "Upstream rejected the request; review configuration and permissions"
  network : FixedMessage "Temporary network or upstream failure"
  fallback : FixedMessage "Job failed; review target, scanner readiness and configuration"

-- An exception of the chain of causes that starts at one.
pub data OnChain (heap : Table Exception) : Option ℕ → ℕ → Type 0 where
  here : (i : ℕ) → OnChain heap (some i) i
  next :
      (i j : ℕ) (e : Exception)
      → get i heap ≡ some e
      → OnChain heap e.cause j
      → OnChain heap (some i) j

-- An exception of the chain carries the failure as such.
abbrev pub IsCarried : Table Exception → Option ℕ → Failure → Type 0
IsCarried heap start f =
    (j : ℕ) × (e : Exception) × OnChain heap start j
    × (get j heap ≡ some e)
    × (e.kind ≡ classified f)

-- The failure has a message of job_policy.py, and defers a retry by a week at most.
abbrev pub IsPolicy : Failure → Type 0
IsPolicy f = FixedMessage f.message × (f.retry_after ≤ 604800)

module _ (float_text : String → FloatRead) (date_delay : String → Option ℤ)
    (reset_delay : String → FloatRead) where
  loop_total :
      (fuel : ℕ) (heap : Table Exception) (seen : List ℕ) (cause : Option ℕ)
      → unseen seen heap < fuel
      → (f : Failure) × (classify_loop float_text date_delay reset_delay fuel heap seen cause
          ≡ some f)
  unfolding classify_loop
  loop_total zero heap seen cause h = absurd (omega arith)
  loop_total (suc fuel) heap seen none h = (permanent, refl)
  loop_total (suc fuel) heap seen (some i) h = elim (Bool-cases (is_seen i seen)) [
    | inl old ↦ (permanent, rw old)
    | inr new ↦ rw new (elim (Option-cases (get i heap)) [
      | inl missing ↦ (permanent, rw missing)
      | inr (e, found) ↦
          rw found (elim (Option-cases (own_failure float_text date_delay reset_delay e.kind)) [
            | inl goes_on ↦ rw goes_on (
                loop_total fuel heap (i ∷ seen) e.cause
                  (omega (arith, unseen-cons-lt i seen heap e new found)))
            | inr (f, decides) ↦ (f, rw decides)
          ])
    ])
  ]

  -- Classification ends with a failure for every exception, whatever its chain of causes.
  pub classify_failure_total :
      (heap : Table Exception) (i : ℕ)
      → (f : Failure) × (classify_failure float_text date_delay reset_delay heap i ≡ some f)
  unfolding classify_failure
  classify_failure_total heap i =
      loop_total (suc (length heap)) heap [] (some i) (omega (arith, unseen_nil heap))

  server_delay-le : (e : HttpError) → server_delay float_text date_delay reset_delay e ≤ 604800
  unfolding server_delay
  server_delay-le e = omega arith

  http_failure-IsPolicy :
      (e : HttpError) → IsPolicy (http_failure float_text date_delay reset_delay e)
  unfolding http_failure
  http_failure-IsPolicy e = elim (Bool-cases (is_limited e)) [
    | inl limited ↦ rw limited (rate_limited, server_delay-le e)
    | inr other ↦ rw other (elim (Bool-cases (is_unavailable e.code)) [
      | inl down ↦ rw down (unavailable, server_delay-le e)
      | inr refused ↦ rw refused (rejected, omega arith)
    ])
  ]

  own_failure_origin :
      (k : Kind) (f : Failure)
      → own_failure float_text date_delay reset_delay k ≡ some f
      → (k ≡ classified f) ⊎ IsPolicy f
  unfolding own_failure
  own_failure_origin (classified g) f h = inl (cc)
  own_failure_origin (http_error e) f h =
      let same : http_failure float_text date_delay reset_delay e ≡ f = cc in
      inr (rw (← same) (http_failure-IsPolicy e))
  own_failure_origin transient_job_error f h =
      let same : transient ≡ f = cc in inr (rw (← same) (network, omega arith))
  own_failure_origin url_error f h =
      let same : transient ≡ f = cc in inr (rw (← same) (network, omega arith))
  own_failure_origin timeout_error f h =
      let same : transient ≡ f = cc in inr (rw (← same) (network, omega arith))
  own_failure_origin connection_error f h =
      let same : transient ≡ f = cc in inr (rw (← same) (network, omega arith))
  own_failure_origin other_error f h = cc

  permanent_origin :
      (heap : Table Exception) (cause : Option ℕ) {f : Failure}
      → some permanent ≡ some f
      → IsCarried heap cause f ⊎ IsPolicy f
  permanent_origin heap cause {f} h =
      let same : permanent ≡ f = cc in inr (rw (← same) (fallback, omega arith))

  loop_origin :
      (fuel : ℕ) (heap : Table Exception) (seen : List ℕ) (cause : Option ℕ) (f : Failure)
      → classify_loop float_text date_delay reset_delay fuel heap seen cause ≡ some f
      → IsCarried heap cause f ⊎ IsPolicy f
  unfolding classify_loop
  loop_origin zero heap seen cause f h = cc
  loop_origin (suc fuel) heap seen none f h = permanent_origin heap none h
  loop_origin (suc fuel) heap seen (some i) f h = elim (Bool-cases (is_seen i seen)) [
    | inl old ↦ permanent_origin heap (some i) (rw old at h)
    | inr new ↦ elim (Option-cases (get i heap)) [
      | inl missing ↦ permanent_origin heap (some i) (rw (new, missing) at h)
      | inr (e, found) ↦
          elim (Option-cases (own_failure float_text date_delay reset_delay e.kind)) [
            | inl goes_on ↦
                elim (loop_origin fuel heap (i ∷ seen) e.cause f (rw (new, found, goes_on) at h)) [
                  | inl (j, x, chain, at_j, carries) ↦
                      inl (j, x, OnChain.next i j e found chain, at_j, carries)
                  | inr policy ↦ inr policy
                ]
            | inr (g, decides) ↦
                let same : g ≡ f = ground (arith, rw (new, found, decides) at h) in
                elim (own_failure_origin e.kind f (decides ∙ ap some same)) [
                  | inl stored ↦ inl (i, e, OnChain.here i, found, stored)
                  | inr policy ↦ inr policy
                ]
          ]
    ]
  ]

  -- A classified failure is either one that an exception of the chain carries as such, or it has
  -- one of the five fixed messages and defers the retry by at most a week.
  pub classify_failure-IsPolicy :
      (heap : Table Exception) (i : ℕ) (f : Failure)
      → classify_failure float_text date_delay reset_delay heap i ≡ some f
      → IsCarried heap (some i) f ⊎ IsPolicy f
  unfolding classify_failure
  classify_failure-IsPolicy heap i f h = loop_origin (suc (length heap)) heap [] (some i) f h
