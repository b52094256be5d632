-- ===== src/Scans/Evidence/Upsert.antt =====
-- One row for each observation, however often it is made.
use mathlib.Core.List.{Memᴰ}
use github_osint_secret_scan.Prelude.{
  ℕ, ◌+◌, String, str_eq, eq_iff, false, Option, none, some, [], ◌∷◌, ◌++◌, arith, ◌≡◌, ◌≢◌, refl,
  ap, sym, ◌∙◌, Bool-cases, Option-cases, inl, inr, if◌then◌else◌, ◌==◌, some_injective,
}
use github_osint_secret_scan.Prelude.Table.{Table, set_row, add_row, fresh_id}
use github_osint_secret_scan.Prelude.Rows.{IsKeyed, get-of-mem, set_row-IsKeyed, add_row-IsKeyed}
use github_osint_secret_scan.Jobs.Model.{Time}
use github_osint_secret_scan.Scans.Evidence.{
  Observation, Reported, Evidence, find_evidence, seen_again, first_seen, upsert_scanner_evidence,
}

find_evidence-mem :
    (fp : String) (rows : Table Evidence) (i : ℕ) (e : Evidence)
    → find_evidence fp rows ≡ some (i, e)
    → Memᴰ (i, e) rows × (e.observation_fingerprint ≡ fp)
unfolding find_evidence
find_evidence-mem fp [] i e h = cc
find_evidence-mem fp ((j, x) ∷ rows) i e h =
    elim (Bool-cases (str_eq x.observation_fingerprint fp)) [
      | inl f ↦
          let same : (j, x) ≡ (i, e) = some_injective (rw f at h) in
          (
            Memᴰ.head (sym same),
            ap (λ (r : ℕ × Evidence). r.1.observation_fingerprint) (sym same) ∙ (eq_iff _ fp).0 f,
          )
      | inr f ↦ let (m, p) = find_evidence-mem fp rows i e (rw f at h) in (Memᴰ.tail m, p)
    ]

find_evidence-set_row :
    (fp g : String) (rows : Table Evidence) (i : ℕ) (e e' : Evidence)
    → IsKeyed rows
    → find_evidence fp rows ≡ some (i, e)
    → e'.observation_fingerprint ≡ fp
    → find_evidence g (set_row i e' rows)
      ≡ (if str_eq fp g then some (i, e') else find_evidence g rows)
unfolding find_evidence set_row
find_evidence-set_row fp g [] i e e' keyed h same = cc
find_evidence-set_row fp g ((j, x) ∷ rows) i e e' keyed h same =
    elim (Bool-cases (str_eq x.observation_fingerprint fp)) [
      | inl f ↦
          let found : (j, x) ≡ (i, e) = some_injective (rw f at h) in
          let key : j ≡ i = ap (λ (r : ℕ × Evidence). r.0) found in
          ground (
            arith,
            key,
            same,
            eq_iff x.observation_fingerprint fp,
            f,
            eq_iff fp g,
            eq_iff x.observation_fingerprint g,
          )
      | inr f ↦
          let later : find_evidence fp rows ≡ some (i, e) = rw f at h in
          let there = get-of-mem i rows e keyed.1 (find_evidence-mem fp rows i e later).0 in
          let apart : (j == i) ≡ false = ground (arith, there, keyed.0) in
          rw apart (
            ground (
              arith,
              find_evidence-set_row fp g rows i e e' keyed.1 later same,
              f,
              eq_iff x.observation_fingerprint fp,
              eq_iff fp g,
              eq_iff x.observation_fingerprint g,
            ))
    ]

find_evidence-append :
    (fp g : String) (rows : Table Evidence) (i : ℕ) (e : Evidence)
    → find_evidence fp rows ≡ none
    → e.observation_fingerprint ≡ fp
    → find_evidence g (rows ++ (i, e) ∷ [])
      ≡ (if str_eq fp g then some (i, e) else find_evidence g rows)
unfolding find_evidence
find_evidence-append fp g [] i e h same = rw same
find_evidence-append fp g ((j, x) ∷ rows) i e h same = ground (
  arith,
  find_evidence-append fp g rows i e,
  h,
  same,
  eq_iff x.observation_fingerprint fp,
  eq_iff fp g,
  eq_iff x.observation_fingerprint g,
)

-- How the row of an observation relates to the one before.
abbrev pub Follows : Option (ℕ × Evidence) → ℕ → ℕ → Reported → Evidence → Type 0
Follows none i finding_id reported e =
    (e.finding_id ≡ finding_id)
    × (e.first_scan_job_id ≡ some reported.last_scan_job_id)
    × (e.observations ≡ 1)
Follows (some (j, old)) i finding_id reported e =
    (i ≡ j)
    × (e.finding_id ≡ old.finding_id)
    × (e.first_scan_job_id ≡ old.first_scan_job_id)
    × (reported.last_scan_job_id ≡ old.reported.last_scan_job_id
        → e.observations ≡ old.observations)
    × (reported.last_scan_job_id ≢ old.reported.last_scan_job_id
        → e.observations ≡ old.observations + 1)

module _ (now : Time) (finding_id : ℕ) (fp : String) (observation : Observation)
    (reported : Reported) (rows : Table Evidence) where
  -- An observation is recorded in the one row of its fingerprint, and no other row is touched: the
  -- first time with the finding and the job that made it and a count of one, later in the same row,
  -- which keeps its finding and its first job, and which counts one more exactly if another job
  -- reports it than the time before. The ids stay unique.
  pub upsert_scanner_evidence-Follows :
      IsKeyed rows
      → (e : Evidence) × ((g : String)
          → find_evidence g (upsert_scanner_evidence now finding_id fp observation reported rows).1
            ≡ (if str_eq fp g
                then some
                    ((upsert_scanner_evidence now finding_id fp observation reported rows).0, e)
                else find_evidence g rows))
        × IsKeyed (upsert_scanner_evidence now finding_id fp observation reported rows).1
        × (e.reported ≡ reported)
        × Follows
            (find_evidence fp rows)
            (upsert_scanner_evidence now finding_id fp observation reported rows).0
            finding_id
            reported
            e
  unfolding upsert_scanner_evidence seen_again add_row
  upsert_scanner_evidence-Follows keyed = elim (Option-cases (find_evidence fp rows)) [
    | inl h ↦
        let e = first_seen now finding_id fp observation reported in
        rw (h, upsert_scanner_evidence)
          (
            e,
            λ g. find_evidence-append fp g rows (fresh_id rows) e h refl,
            add_row-IsKeyed e rows keyed,
            refl,
            (refl, refl, refl),
          )
    | inr ((i, old), h) ↦
        let e = seen_again now observation reported old in
        rw (h, upsert_scanner_evidence)
          (
            e,
            λ g.
                find_evidence-set_row fp g rows i old e keyed h
                  (find_evidence-mem fp rows i old h).1,
            set_row-IsKeyed i e rows keyed,
            refl,
            (refl, refl, refl, λ s. ground (arith, s), λ s. ground (arith, s)),
          )
  ]
