-- ===== src/Limits/Reading.antt =====
-- What bounded reads return, and that they end.
use github_osint_secret_scan.Prelude.{
  ℕ, zero, suc, ◌+◌, ◌-◌, ◌≤◌, min, ◌≡◌, refl, ap, ◌∙◌, inl, inr, arith, Bool, false, Option, none,
  some, List, [], ◌∷◌, ◌++◌, ltb, leb, length, length-append, Bool-cases,
}
use github_osint_secret_scan.Prelude.Result.{Result, ok, raise, Result-cases}
use github_osint_secret_scan.Limits.{
  ReadError, too_large, deadline_exceeded, cancelled, is_end, read_loop, read_response,
  limited_read, limited_reads,
}

ok_inj : {xs ys : List ℕ} {r : Result ReadError (List ℕ)} → ok xs ≡ r → r ≡ ok ys → xs ≡ ys
ok_inj h k = cc

nonempty : (block : List ℕ) → is_end block ≡ false → 1 ≤ length block
nonempty [] h = cc
nonempty (b ∷ bs) h = omega arith

module _ (limit deadline : ℕ) (stopped : ℕ → Bool) (before after : ℕ → ℕ)
    (read : ℕ → ℕ → List ℕ) where
  -- The loop answers, and a body that it returns is within the limit.
  record IsAnswered (o : Option (Result ReadError (List ℕ))) : Type 0 where
    answer : Result ReadError (List ℕ)
    given : o ≡ some answer
    bounded : (body : List ℕ) → answer ≡ ok body → length body ≤ limit

  raised-IsAnswered : (e : ReadError) → IsAnswered (some (raise e))
  raised-IsAnswered e = record { answer = raise e; given = refl; bounded = λ body h. cc }

  loop-IsAnswered :
      (fuel n total : ℕ) (chunks : List ℕ)
      → length chunks ≡ total
      → total ≤ limit
      → limit + 2 ≤ total + fuel
      → IsAnswered (read_loop limit deadline stopped before after read fuel n total chunks)
  unfolding read_loop
  loop-IsAnswered zero n total chunks size within enough = absurd (omega (arith, within, enough))
  loop-IsAnswered (suc fuel) n total chunks size within enough =
      let block = read n (min 65536 (limit + 1 - total)) in
      elim (Bool-cases (stopped n)) [
        | inl a ↦ rw a (raised-IsAnswered cancelled)
        | inr a ↦ elim (Bool-cases (leb deadline (before n))) [
          | inl b ↦ rw a (rw b (raised-IsAnswered deadline_exceeded))
          | inr b ↦ elim (Bool-cases (ltb deadline (after n))) [
            | inl c ↦ rw a (rw b (rw c (raised-IsAnswered deadline_exceeded)))
            | inr c ↦ elim (Bool-cases (ltb limit (total + length block))) [
              | inl d ↦ rw a (rw b (rw c (rw d (raised-IsAnswered too_large))))
              | inr d ↦ elim (Bool-cases (is_end block)) [
                | inl e ↦ rw a (
                    rw b (
                      rw c (
                        rw d (
                          rw e (record {
                            answer = ok chunks;
                            given = refl;
                            bounded = λ body h.
                                let same : chunks ≡ body = ok_inj refl h in
                                omega (arith, within, size, ap (λ xs. length xs) same);
                          })))))
                | inr e ↦ rw a (
                    rw b (
                      rw c (
                        rw d (
                          rw e (
                            loop-IsAnswered fuel (suc n) (total + length block) (chunks ++ block)
                              (length-append chunks block ∙ ap (λ k. k + length block) size)
                              (ground (arith, d)) (omega (arith, enough, nonempty block e)))))))
              ]
            ]
          ]
        ]
      ]

  -- A bounded read always answers, whatever the response sends: with a body that is not longer than
  -- the limit, or with an error. One round more than the limit has bytes, and one for the end, are
  -- enough for its loop.
  pub read_response_bounded :
      (announced : Option ℕ)
      → (answer : Result ReadError (List ℕ)) × (read_response limit deadline stopped before after
            read announced
          ≡ some answer)
        × ((body : List ℕ) → answer ≡ ok body → length body ≤ limit)
  unfolding read_response
  read_response_bounded none =
      let r = loop-IsAnswered (limit + 2) 0 0 [] refl (omega arith) (omega arith) in
      (r.answer, r.given, r.bounded)
  read_response_bounded (some size) = elim (Bool-cases (ltb limit size)) [
    | inl e ↦ rw e (raise too_large, refl, λ body h. cc)
    | inr e ↦
        let r = loop-IsAnswered (limit + 2) 0 0 [] refl (omega arith) (omega arith) in
        rw e (r.answer, r.given, r.bounded)
  ]

limited_read-ok :
    (stream : ℕ → List ℕ) (request : Option ℕ) (remaining : ℕ) (r : List ℕ × ℕ)
    → limited_read stream request remaining ≡ ok r
    → length r.0 + r.1 ≡ remaining
unfolding limited_read
limited_read-ok stream request remaining r h = ground (arith, h)

-- However a limited stream is read, the data of all reads together is within its limit.
pub limited_reads_bounded :
    (stream : ℕ → ℕ → List ℕ) (n : ℕ) (requests : List (Option ℕ)) (limit : ℕ) (data_read : List ℕ)
    → limited_reads stream n requests limit ≡ ok data_read
    → length data_read ≤ limit
unfolding limited_reads limited_read
limited_reads_bounded stream n [] limit data_read h = ground (arith, h)
limited_reads_bounded stream n (request ∷ requests) limit data_read h =
    elim (Result-cases (limited_read (stream n) request limit)) [
      | inr (e, first) ↦ cc (rw (first, limited_reads) at h)
      | inl (r, first) ↦ elim (Result-cases (limited_reads stream (suc n) requests r.1)) [
        | inr (e, others) ↦ cc (rw (others, limited_reads) at (rw (first, limited_reads) at h))
        | inl (rest, others) ↦
            let all : r.0 ++ rest ≡ data_read =
              ok_inj refl (rw (others, limited_reads) at (rw (first, limited_reads) at h)) in
            let later = limited_reads_bounded stream (suc n) requests r.1 rest others in
            let now = limited_read-ok (stream n) request limit r first in
            omega (arith, later, now, length-append r.0 rest, ap (λ xs. length xs) all)
      ]
    ]
