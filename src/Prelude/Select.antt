-- ===== src/Prelude/Select.antt =====
-- SELECTs on one table: the first row that passes a test, and whether there is one.
use Prim.Native.Nat.{ℕ}
use Prim.Native.String.{String}
use mathlib.Core.Path.{◌≡◌, refl}
use mathlib.Core.Logic.{◌↔◌, ◌⊎◌, inl, inr}
use mathlib.Core.Bool.{Bool, true, false, ◌||◌}
use mathlib.Core.Option.{Option, none, some}
use mathlib.Core.List.{[], ◌∷◌}
use native.Mathlib.Omega.{arith}
use github_osint_secret_scan.Prelude.Tests.{if◌then◌else◌, Bool-cases}
use github_osint_secret_scan.Prelude.Text.{str_eq, eq_iff}
use github_osint_secret_scan.Prelude.Table.{
  Table, get, fresh_id, add_row, get-add_row, get-fresh_id,
}
use github_osint_secret_scan.Prelude.Rows.{IsKeyed}

-- column == value, which is `IS NULL` for `None`.
unfoldable pub same_text : Option String → Option String → Bool
same_text none none = true
same_text (some s) (some t) = str_eq s t
same_text _ _ = false

pub same_text_iff : (s t : Option String) → (same_text s t ≡ true) ↔ (s ≡ t)
unfolding same_text
same_text_iff none none = (λ _. refl, λ _. refl)
same_text_iff (some s) (some t) =
    (λ h. ground (arith, h, eq_iff s t), λ h. ground (arith, h, eq_iff s t))
same_text_iff none (some t) = (λ h. cc h, λ h. cc h)
same_text_iff (some s) none = (λ h. cc h, λ h. cc h)

module _ {ℓ} {A : Type ℓ} where
  unfoldable pub find_row : (A → Bool) → Table A → Option ℕ
  find_row p [] = none
  find_row p ((i, a) ∷ t) = let rest = find_row p t in if p a then some i else rest

  unfoldable pub any_row : (A → Bool) → Table A → Bool
  any_row p [] = false
  any_row p ((i, a) ∷ t) = let rest = any_row p t in p a || rest

  pub find_row-get :
      (p : A → Bool) (t : Table A) (i : ℕ)
      → IsKeyed t
      → find_row p t ≡ some i
      → (a : A) × (get i t ≡ some a) × (p a ≡ true)
  unfolding find_row get
  find_row-get p [] i keyed h = cc h
  find_row-get p ((j, a) ∷ t) i keyed h = elim (Bool-cases (p a)) [
    | inl e ↦ (a, ground (arith, h, e), e)
    | inr e ↦
        let (b, at_i, pb) = find_row-get p t i keyed.1 (rw e at h) in
        (b, ground (arith, at_i, keyed.0), pb)
  ]

  pub find_row-none :
      (p : A → Bool) (t : Table A) (i : ℕ) (a : A)
      → find_row p t ≡ none
      → get i t ≡ some a
      → p a ≡ false
  unfolding find_row get
  find_row-none p [] i a h at_i = cc at_i
  find_row-none p ((j, b) ∷ t) i a h at_i = ground (arith, h, at_i, find_row-none p t i a)

  pub any_row-none :
      (p : A → Bool) (t : Table A) (i : ℕ) (a : A)
      → any_row p t ≡ false
      → get i t ≡ some a
      → p a ≡ false
  unfolding any_row get
  any_row-none p [] i a h at_i = cc at_i
  any_row-none p ((j, b) ∷ t) i a h at_i = ground (arith, h, at_i, any_row-none p t i a)

  -- A row of an extended table is an old one or the new one.
  pub add_row-Origin :
      (v : A) (t : Table A) (i : ℕ) (a : A)
      → get i (add_row v t) ≡ some a
      → (get i t ≡ some a) ⊎ ((i ≡ fresh_id t) × (a ≡ v))
  add_row-Origin v t i a h = ground (arith, h, get-add_row i v t)

  pub add_row-kept :
      (v : A) (t : Table A) (i : ℕ) (a : A) → get i t ≡ some a → get i (add_row v t) ≡ some a
  add_row-kept v t i a h = ground (arith, h, get-add_row i v t, get-fresh_id t)

  pub add_row-new : (v : A) (t : Table A) → get (fresh_id t) (add_row v t) ≡ some v
  add_row-new v t = ground (arith, get-add_row (fresh_id t) v t)
