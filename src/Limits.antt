-- ===== src/Limits.antt =====
-- Bounded reads: `read_response` of src/orgscan/http_limits.py and `LimitedReader` of
-- src/orgscan/archive_limits.py. Bytes are numbers. The response, the clock and the operator are
-- what they give in each round: `read n k` is the block that the n-th read of at most k bytes
-- returns.
pub mod Reading
use github_osint_secret_scan.Prelude.{
  ℕ, zero, suc, ◌+◌, ◌-◌, min, Bool, true, false, not, Option, none, some, List, [], ◌∷◌, ◌++◌, ltb,
  leb, if◌then◌else◌, length,
}
use github_osint_secret_scan.Prelude.Result.{Result, ok, raise}

pub data ReadError : Type 0 where
  too_large deadline_exceeded cancelled : ReadError

abbrev pub is_end : List ℕ → Bool
is_end [] = true
is_end (b ∷ bs) = false

-- The size that the header announces, if it is a number, is above the limit.
abbrev announces_more : Option ℕ → ℕ → Bool
announces_more none limit = false
announces_more (some size) limit = ltb limit size

module _ (limit deadline : ℕ) (stopped : ℕ → Bool) (before after : ℕ → ℕ)
    (read : ℕ → ℕ → List ℕ) where
  -- The loop from its n-th round; `none` is out of fuel.
  unfoldable pub read_loop : ℕ → ℕ → ℕ → List ℕ → Option (Result ReadError (List ℕ))
  read_loop zero n total chunks = none
  read_loop (suc fuel) n total chunks =
      let block = read n (min 65536 (limit + 1 - total)) in
      let rest = read_loop fuel (suc n) (total + length block) (chunks ++ block) in
      if stopped n
      then some (raise cancelled)
      else if leb deadline (before n)
      then some (raise deadline_exceeded)
      else if ltb deadline (after n)
      then some (raise deadline_exceeded)
      else if ltb limit (total + length block)
      then some (raise too_large)
      else if is_end block
      then some (ok chunks)
      else rest

  unfoldable pub read_response : Option ℕ → Option (Result ReadError (List ℕ))
  read_response announced =
      if announces_more announced limit
      then some (raise too_large)
      else read_loop (limit + 2) 0 0 []

-- `LimitedReader.read`: `request` is the size asked for, or `none` for all, and `stream k` what the
-- stream gives for k; the answer is the data and what remains.
unfoldable pub limited_read : (ℕ → List ℕ) → Option ℕ → ℕ → Result ReadError (List ℕ × ℕ)
limited_read stream request remaining =
    let block =
      stream (elim request [ none ↦ remaining + 1 | some size ↦ min size (remaining + 1) ]) in
    if ltb remaining (length block) then raise too_large else ok (block, remaining - length block)

-- A sequence of reads of one reader.
unfoldable pub limited_reads :
    (ℕ → ℕ → List ℕ) → ℕ → List (Option ℕ) → ℕ → Result ReadError (List ℕ)
limited_reads stream n [] remaining = ok []
limited_reads stream n (request ∷ requests) remaining =
    elim (limited_read (stream n) request remaining) [
      | raise e ↦ raise e
      | ok r ↦ elim (limited_reads stream (suc n) requests r.1) [
        | raise e ↦ raise e
        | ok rest ↦ ok (r.0 ++ rest)
      ]
    ]
