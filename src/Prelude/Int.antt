-- ===== src/Prelude/Int.antt =====
-- The signed values of settings. The program only reads them through `max` with a bound.
use Prim.Native.Nat.{ℕ, ◌≤◌, max}
use native.Mathlib.Omega.{arith}

pub data ℤ : Type 0 where
  pos : ℕ → ℤ
  negsuc : ℕ → ℤ

-- max(value, n) for a bound n that is not negative.
abbrev pub at_least : ℕ → ℤ → ℕ
at_least n (pos v) = max n v
at_least n (negsuc _) = n

pub le-at_least : (n : ℕ) (v : ℤ) → n ≤ at_least n v
le-at_least n (pos v) = omega arith
le-at_least n (negsuc v) = omega arith
