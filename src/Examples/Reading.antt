-- ===== src/Examples/Reading.antt =====
-- A response of three bytes, read with a limit.
use github_osint_secret_scan.Prelude.{
  ℕ, zero, suc, ◌≤◌, ◌≡◌, refl, false, none, some, List, [], ◌∷◌, length, take,
}
use github_osint_secret_scan.Prelude.Result.{Result, ok}
use github_osint_secret_scan.Limits.{ReadError, read_response, limited_read, limited_reads}
use github_osint_secret_scan.Limits.Reading.{read_response_bounded, limited_reads_bounded}

-- Two blocks, and then the end.
abbrev blocks : ℕ → ℕ → List ℕ
blocks zero k = take k (80 ∷ 75 ∷ [])
blocks (suc zero) k = take k (1 ∷ [])
blocks _ k = []

abbrev second : ℕ → ℕ
second n = n

read_response_bounded_example :
    (answer : Result ReadError (List ℕ)) × (read_response 4 100
        (λ n. false)
        second
        second
        blocks
        (some 3)
      ≡ some answer)
    × ((body : List ℕ) → answer ≡ ok body → length body ≤ 4)
read_response_bounded_example =
    read_response_bounded 4 100 (λ n. false) second second blocks (some 3)

limited_reads_bounded_example : length {A = ℕ} (80 ∷ 75 ∷ 1 ∷ []) ≤ 4
unfolding limited_reads limited_read
limited_reads_bounded_example =
    limited_reads_bounded blocks 0 (some 2 ∷ none ∷ []) 4 (80 ∷ 75 ∷ 1 ∷ []) refl
