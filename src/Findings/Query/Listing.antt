-- ===== src/Findings/Query/Listing.antt =====
-- What `Storage.list_findings` of src/orgscan/repositories.py returns.
use mathlib.Core.List.{Memᴰ}
use github_osint_secret_scan.Prelude.{
  ℕ, ◌≤◌, ◌<◌, ◌≡◌, ◌↔◌, ◌⊎◌, inl, inr, refl, arith, Bool, true, false, ◌&&◌, Option, none, some,
  String, List, [], ◌∷◌, keep, take, All, Bool-cases, ltb,
}
use github_osint_secret_scan.Prelude.Rows.{All-keep, All-mem, mem-keep}
use github_osint_secret_scan.Prelude.Sort.{All-sort_by, mem-sort_by, IsOrdered, sort_by-IsOrdered}
use github_osint_secret_scan.Findings.Query.{
  Row, FindingQuery, matches, newer, signal_filter, list_findings,
}
use github_osint_secret_scan.Findings.Query.Filters.{newer_asym, newer_trans}
use github_osint_secret_scan.Findings.Query.Contents.{
  Passes, HasSignal, matches-Passes, Passes-matches, signal_filter_iff,
}

and_both : (a b : Bool) → a && b ≡ true → (a ≡ true) × (b ≡ true)
and_both a b h = (ground (arith, h), ground (arith, h))

and_true : {a b : Bool} → a ≡ true → b ≡ true → a && b ≡ true
and_true h k = ground (arith, h, k)

-- Not after `r`: detected before it, or at the same time with no greater id.
abbrev pub NotAfter : Row → Row → Type 0
NotAfter r s = (s.detected_at < r.detected_at) ⊎ ((s.detected_at ≡ r.detected_at) × (s.id ≤ r.id))

abbrev pub NewestFirst : List Row → Type 0
NewestFirst [] = Unit
NewestFirst (r ∷ rs) = All (NotAfter r) rs × NewestFirst rs

NotAfter-of_newer : (r s : Row) → newer s r ≡ false → NotAfter r s
unfolding newer
NotAfter-of_newer r s h = elim (Bool-cases (ltb s.detected_at r.detected_at)) [
  | inl e ↦ inl (ground (arith, e))
  | inr e ↦ inr (ground (arith, h, e), ground (arith, h, e))
]

All-NotAfter : (r : Row) (rs : List Row) → All (λ s. newer s r ≡ false) rs → All (NotAfter r) rs
All-NotAfter r [] h = tt
All-NotAfter r (s ∷ rs) h = (NotAfter-of_newer r s h.0, All-NotAfter r rs h.1)

IsOrdered-NewestFirst : (rs : List Row) → IsOrdered newer rs → NewestFirst rs
IsOrdered-NewestFirst [] h = tt
IsOrdered-NewestFirst (r ∷ rs) h = (All-NotAfter r rs h.0, IsOrdered-NewestFirst rs h.1)

-- A list without a limit holds exactly the rows of the table that are visible, agree with every
-- filter that is set, and have a high signal if one is asked for; the newest come first, and of
-- those of one time the ones with the greater ids. A list with a limit is the start of that list.
pub list_findings_exact :
    (visible : ℕ → Bool) (high_signal : Option (List String)) (q : FindingQuery) (rows : List Row)
    → ((r : Row)
        → Memᴰ r (list_findings visible high_signal (record q { limit = none }) rows)
          ↔ (Memᴰ r rows × Passes visible q r × HasSignal high_signal r))
      × NewestFirst (list_findings visible high_signal (record q { limit = none }) rows)
      × ((n : ℕ)
          → list_findings visible high_signal (record q { limit = some n }) rows
            ≡ take n (list_findings visible high_signal (record q { limit = none }) rows))
unfolding list_findings matches
list_findings_exact visible high_signal q rows =
    let p : Row → Bool = λ r. matches visible q r && signal_filter high_signal r in
    let good =
      All-sort_by newer (λ r. Memᴰ r rows × (p r ≡ true)) (keep p rows)
        (All-keep (λ r. Memᴰ r rows × (p r ≡ true)) p rows (λ r e m. (m, e))) in
    (
      λ r. (
        λ m.
            let (there, passed) = All-mem (λ r. Memᴰ r rows × (p r ≡ true)) _ good m in
            let (fits, signal) =
              and_both (matches visible q r) (signal_filter high_signal r) passed in
            (there, matches-Passes visible q r fits, (signal_filter_iff high_signal r).0 signal),
        λ (there, passes, signal). mem-sort_by newer _ (
            mem-keep p rows there (
              and_true (Passes-matches visible q r passes)
                ((signal_filter_iff high_signal r).1 signal))),
      ),
      IsOrdered-NewestFirst _ (sort_by-IsOrdered newer newer_asym newer_trans (keep p rows)),
      λ n. refl,
    )
