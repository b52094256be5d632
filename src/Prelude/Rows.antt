-- ===== src/Prelude/Rows.antt =====
-- SELECT over a table: the rows of a list of members, and the primary key.
use Prim.Native.Nat.{ℕ}
use mathlib.Core.Path.{◌≡◌, refl, sym, ap, ◌∙◌, subst⁻¹}
use mathlib.Core.Logic.{inl, inr}
use mathlib.Core.Bool.{Bool, true}
use mathlib.Core.Option.{none, some}
use mathlib.Core.List.{List, [], ◌∷◌, ◌++◌, Memᴰ}
use native.Mathlib.Omega.{arith}
use github_osint_secret_scan.Prelude.Tests.{◌==◌, ==_iff, Bool-cases, Option-cases}
use github_osint_secret_scan.Prelude.Lists.{All, keep}
use github_osint_secret_scan.Prelude.Table.{
  Table, get, set_row, get-set_row, update_where, add_row, fresh_id, get-append, get-fresh_id,
}

module _ {ℓ} {A : Type ℓ} where
  pub mem-keep : (p : A → Bool) {a : A} (xs : List A) → Memᴰ a xs → p a ≡ true → Memᴰ a (keep p xs)
  unfolding keep
  mem-keep p [] m h = elim m [ ]
  mem-keep p {a = a} (x ∷ xs) (Memᴰ.head e) h =
      let px : p x ≡ true = ap p (sym e) ∙ h in rw px (Memᴰ.head e)
  mem-keep p (x ∷ xs) (Memᴰ.tail m) h = elim (Bool-cases (p x)) [
    | inl e ↦ rw e (Memᴰ.tail (mem-keep p xs m h))
    | inr e ↦ rw e (mem-keep p xs m h)
  ]

  pub All-keep {κ} :
      (P : A → Type κ) (p : A → Bool) (xs : List A)
      → ((a : A) → p a ≡ true → Memᴰ a xs → P a)
      → All P (keep p xs)
  unfolding keep
  All-keep P p [] h = tt
  All-keep P p (x ∷ xs) h =
      let rest = All-keep P p xs (λ a e m. h a e (Memᴰ.tail m)) in
      elim (Bool-cases (p x)) [ inl e ↦ rw e (h x e (Memᴰ.head refl), rest) | inr e ↦ rw e rest ]

  pub All-mem {κ} : (P : A → Type κ) {a : A} (xs : List A) → All P xs → Memᴰ a xs → P a
  All-mem P [] h m = elim m [ ]
  All-mem P (x ∷ xs) h (Memᴰ.head e) = rw e h.0
  All-mem P (x ∷ xs) h (Memᴰ.tail m) = All-mem P xs h.1 m

  pub mem-of-get : (i : ℕ) (t : Table A) {a : A} → get i t ≡ some a → Memᴰ (i, a) t
  unfolding get
  mem-of-get i [] h = cc
  mem-of-get i ((j, x) ∷ t) {a = a} h = elim (Bool-cases (j == i)) [
    | inl e ↦ Memᴰ.head (ground (arith, h, e))
    | inr e ↦ Memᴰ.tail (mem-of-get i t (rw e at h))
  ]

  -- The primary key is a key.
  abbrev pub IsKeyed : Table A → Type ℓ
  IsKeyed [] = Unit
  IsKeyed ((j, x) ∷ t) = (get j t ≡ none) × IsKeyed t

  pub get-of-mem : (i : ℕ) (t : Table A) (a : A) → IsKeyed t → Memᴰ (i, a) t → get i t ≡ some a
  unfolding get
  get-of-mem i [] a k m = elim m [ ]
  get-of-mem i ((j, x) ∷ t) a k (Memᴰ.head e) = ground (arith, ap (λ r. r.0) e, ap (λ r. r.1) e)
  get-of-mem i ((j, x) ∷ t) a k (Memᴰ.tail m) =
      let there = get-of-mem i t a k.1 m in ground (arith, there, k.0)

  pub set_row-IsKeyed : (i : ℕ) (v : A) (t : Table A) → IsKeyed t → IsKeyed (set_row i v t)
  unfolding set_row
  set_row-IsKeyed i v [] k = tt
  set_row-IsKeyed i v ((j, x) ∷ t) k = elim (Bool-cases (j == i)) [
    | inl e ↦ rw e k
    | inr e ↦ rw e (ground (arith, get-set_row i j v t, k.0), set_row-IsKeyed i v t k.1)
  ]

  pub update_where-IsKeyed :
      (i : ℕ) (p : A → Bool) (f : A → A) (t : Table A)
      → IsKeyed t
      → IsKeyed (update_where i p f t).0
  unfolding update_where
  update_where-IsKeyed i p f t k = elim (Option-cases (get i t)) [
    | inl e ↦ subst⁻¹ IsKeyed (ground (arith, e)) k
    | inr (a, e) ↦ elim (Bool-cases (p a)) [
      | inl pa ↦ subst⁻¹ IsKeyed (ground (arith, e, pa)) (set_row-IsKeyed i (f a) t k)
      | inr npa ↦ subst⁻¹ IsKeyed (ground (arith, e, npa)) k
    ]
  ]

  append-IsKeyed :
      (i : ℕ) (v : A) (t : Table A) → get i t ≡ none → IsKeyed t → IsKeyed (t ++ (i, v) ∷ [])
  unfolding get
  append-IsKeyed i v [] new k = (refl, tt)
  append-IsKeyed i v ((j, x) ∷ t) new k =
      (ground (arith, get-append t i j v, new, k.0), append-IsKeyed i v t (ground (arith, new)) k.1)

  pub add_row-IsKeyed : (v : A) (t : Table A) → IsKeyed t → IsKeyed (add_row v t)
  unfolding add_row
  add_row-IsKeyed v t k = append-IsKeyed (fresh_id t) v t (get-fresh_id t) k

  pub All-set_row {κ} :
      (P : ℕ × A → Type κ) (i : ℕ) (v : A) (t : Table A)
      → All P t
      → P (i, v)
      → All P (set_row i v t)
  unfolding set_row
  All-set_row P i v [] a pv = tt
  All-set_row P i v ((j, x) ∷ t) a pv = elim (Bool-cases (j == i)) [
    | inl e ↦ rw e (subst⁻¹ (λ k. P (k, v)) ((==_iff j i).0 e) pv, a.1)
    | inr e ↦ rw e (a.0, All-set_row P i v t a.1 pv)
  ]

  All-snoc {κ} :
      (P : ℕ × A → Type κ) (r : ℕ × A) (t : Table A) → All P t → P r → All P (t ++ r ∷ [])
  All-snoc P r [] a pr = (pr, tt)
  All-snoc P r (x ∷ t) a pr = (a.0, All-snoc P r t a.1 pr)

  pub All-add_row {κ} :
      (P : ℕ × A → Type κ) (v : A) (t : Table A)
      → All P t
      → ((i : ℕ) → P (i, v))
      → All P (add_row v t)
  unfolding add_row
  All-add_row P v t a pv = All-snoc P (fresh_id t, v) t a (pv (fresh_id t))
