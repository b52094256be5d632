-- ===== src/Findings/Query/Filters.antt =====
-- The order of the lists of findings, and the high-signal list.
use github_osint_secret_scan.Prelude.{
  ℕ, zero, suc, ◌*◌, ◌≤◌, max, String, ◌≡◌, refl, arith, true, false, none, some, List, [], ◌∷◌,
  keep, take, length, All,
}
use github_osint_secret_scan.Prelude.Rows.{All-keep}
use github_osint_secret_scan.Prelude.Result.{Result, ok}
use github_osint_secret_scan.Findings.Query.{
  Row, FindingQuery, QueryError, newer, is_high_signal, list_findings, high_signal_findings,
  service_list, allowed_confidences,
}

All-take : (P : Row → Type 0) (n : ℕ) (rows : List Row) → All P rows → All P (take n rows)
All-take P zero rows h = tt
All-take P (suc n) [] h = tt
All-take P (suc n) (r ∷ rows) h = (h.0, All-take P n rows h.1)

length-take : (n : ℕ) (rows : List Row) → length (take n rows) ≤ n
length-take zero rows = omega arith
length-take (suc n) [] = omega arith
length-take (suc n) (r ∷ rows) = omega (arith, length-take n rows)

ok_same : {xs ys : List Row} {r : Result QueryError (List Row)} → r ≡ ok xs → r ≡ ok ys → xs ≡ ys
ok_same h k = cc

pub newer_asym : (a b : Row) → newer a b ≡ true → newer b a ≡ false
unfolding newer
newer_asym a b h = ground arith

pub newer_trans : (a b c : Row) → newer a b ≡ true → newer b c ≡ true → newer a c ≡ true
unfolding newer
newer_trans a b c h k = ground arith

-- The high-signal list of the service holds at most as many rows as it was asked for, each of an
-- allowed confidence and not suppressed.
pub service_list-high_signal :
    (least : String) (limit : ℕ) (q : FindingQuery) (rows found : List Row) (allowed : List String)
    → allowed_confidences least ≡ ok allowed
    → service_list (some least) limit q rows ≡ ok found
    → (length found ≤ limit) × All (λ r. is_high_signal allowed r ≡ true) found
unfolding service_list high_signal_findings
service_list-high_signal least limit q rows found allowed known h =
    let listed =
      list_findings (λ i. true) none (record q { limit = some (max (limit * 4) limit) }) rows in
    let same : take limit (keep (is_high_signal allowed) listed) ≡ found =
      ok_same refl (rw (known, service_list) at h) in
    rw (← same) (
      length-take limit (keep (is_high_signal allowed) listed),
      All-take (λ r. is_high_signal allowed r ≡ true) limit (keep (is_high_signal allowed) listed)
          (All-keep (λ r. is_high_signal allowed r ≡ true) (is_high_signal allowed) listed
            (λ r e m. e)),
    )
