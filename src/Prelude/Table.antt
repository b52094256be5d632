-- ===== src/Prelude/Table.antt =====
-- A database table: rows in insertion order, each under its primary key. `update_where` is
-- `UPDATE … WHERE id = i AND p`, with the row count of the statement, which is 0 or 1.
use Prim.Native.Nat.{ℕ, suc, ◌≤◌, max}
use mathlib.Core.Path.{◌≡◌, refl, sym, ◌∙◌}
use mathlib.Core.Logic.{◌≢◌, ◌⊎◌, inl, inr}
use mathlib.Core.Bool.{Bool, true, false}
use mathlib.Core.Option.{Option, none, some}
use mathlib.Core.List.{List, [], ◌∷◌, ◌++◌}
use native.Mathlib.Omega.{arith}
use github_osint_secret_scan.Prelude.Tests.{if◌then◌else◌, ◌==◌, Bool-cases, Option-cases}

abbrev pub Table {ℓ} : Type ℓ → Type ℓ
Table A = List (ℕ × A)

module _ {ℓ} {A : Type ℓ} where
  -- session.get(Model, i)
  unfoldable pub get : ℕ → Table A → Option A
  get i [] = none
  get i ((j, a) ∷ t) = if j == i then some a else get i t

  -- A write to the row of `i`; a missing row is not written.
  unfoldable pub set_row : ℕ → A → Table A → Table A
  set_row i v [] = []
  set_row i v ((j, a) ∷ t) = if j == i then (j, v) ∷ t else (j, a) ∷ set_row i v t

  abbrev pub replaced : A → Option A → Option A
  replaced v none = none
  replaced v (some _) = some v

  -- The next value of the primary key: above every key in use.
  unfoldable pub fresh_id : Table A → ℕ
  fresh_id [] = 1
  fresh_id ((j, a) ∷ t) = max (suc j) (fresh_id t)

  -- session.add(row); session.flush()
  unfoldable pub add_row : A → Table A → Table A
  add_row v t = t ++ (fresh_id t, v) ∷ []

  pub get-set_row :
      (i j : ℕ) (v : A) (t : Table A)
      → get j (set_row i v t) ≡ (if i == j then replaced v (get j t) else get j t)
  unfolding get set_row
  get-set_row i j v [] = ground arith
  get-set_row i j v ((k, a) ∷ t) = ground (arith, get-set_row i j v t)

  get_of_bound : (t : Table A) (i : ℕ) → fresh_id t ≤ i → get i t ≡ none
  unfolding get fresh_id
  get_of_bound [] i h = refl
  get_of_bound ((k, a) ∷ t) i h = ground (arith, get_of_bound t i)

  pub get-fresh_id : (t : Table A) → get (fresh_id t) t ≡ none
  get-fresh_id t = get_of_bound t (fresh_id t) (omega arith)

  pub get-append :
      (t : Table A) (i j : ℕ) (v : A)
      → get i t ≡ none
      → get j (t ++ (i, v) ∷ []) ≡ (if i == j then some v else get j t)
  unfolding get
  get-append [] i j v h = refl
  get-append ((k, a) ∷ t) i j v h = ground (arith, get-append t i j v)

  pub get-add_row :
      (j : ℕ) (v : A) (t : Table A)
      → get j (add_row v t) ≡ (if fresh_id t == j then some v else get j t)
  unfolding add_row
  get-add_row j v t = get-append t (fresh_id t) j v (get-fresh_id t)

  -- UPDATE … SET f WHERE id = i AND p: the table and whether the row was matched.
  unfoldable pub update_where : ℕ → (A → Bool) → (A → A) → Table A → Table A × Bool
  update_where i p f t = elim (get i t) [
    | none ↦ (t, false)
    | some a ↦ if p a then (set_row i (f a) t, true) else (t, false)
  ]

  -- What a conditional update leaves of each row.
  abbrev pub updated : (A → Bool) → (A → A) → Option A → Option A
  updated p f none = none
  updated p f (some a) = some (if p a then f a else a)

  abbrev pub accepts : (A → Bool) → Option A → Bool
  accepts p none = false
  accepts p (some a) = p a

  pub get-update_where :
      (i j : ℕ) (p : A → Bool) (f : A → A) (t : Table A)
      → get j (update_where i p f t).0 ≡ (if i == j then updated p f (get j t) else get j t)
  unfolding update_where
  get-update_where i j p f t = elim (Option-cases (get i t)) [
    | inl e ↦ ground (arith, e)
    | inr (a, e) ↦ ground (arith, e, get-set_row i j (f a) t)
  ]

  pub update_where-count :
      (i : ℕ) (p : A → Bool) (f : A → A) (t : Table A)
      → (update_where i p f t).1 ≡ accepts p (get i t)
  unfolding update_where
  update_where-count i p f t = ground arith

  -- What a row was before a conditional update.
  abbrev pub Origin : ℕ → (A → Bool) → (A → A) → Table A → ℕ → A → Type ℓ
  Origin i p f t j a' =
      (a : A) × (get j t ≡ some a) × ((a' ≡ a) ⊎ ((p a ≡ true) × (a' ≡ f a) × (i ≡ j)))

  pub update_where-Origin :
      (i : ℕ) (p : A → Bool) (f : A → A) (t : Table A) (j : ℕ) (a' : A)
      → get j (update_where i p f t).0 ≡ some a'
      → Origin i p f t j a'
  update_where-Origin i p f t j a' h =
      let h' : (if i == j then updated p f (get j t) else get j t) ≡ some a' =
        sym (get-update_where i j p f t) ∙ h in
      elim (Option-cases (get j t)) [
        | inl e ↦ ground (arith, h', e)
        | inr (a, e) ↦ (
          a,
          e,
          elim (Bool-cases (i == j)) [
            | inl same ↦ elim (Bool-cases (p a)) [
              | inl pa ↦ inr (pa, ground (arith, h', e), ground arith)
              | inr npa ↦ inl (ground (arith, h', e))
            ]
            | inr other ↦ inl (ground (arith, h', e))
          ],
        )
      ]

  -- A row that is not the target, or that the test refuses, stays.
  pub get-update_where_ne :
      (i j : ℕ) (p : A → Bool) (f : A → A) (t : Table A)
      → i ≢ j
      → get j (update_where i p f t).0 ≡ get j t
  get-update_where_ne i j p f t h = ground (arith, get-update_where i j p f t)

  pub get-update_where_self :
      (i : ℕ) (p : A → Bool) (f : A → A) (t : Table A)
      → get i (update_where i p f t).0 ≡ updated p f (get i t)
  get-update_where_self i p f t = ground (arith, get-update_where i i p f t)

  -- A statement whose row count is 0 changes nothing.
  pub update_where_missed :
      (i : ℕ) (p : A → Bool) (f : A → A) (t : Table A)
      → (update_where i p f t).1 ≡ false
      → (update_where i p f t).0 ≡ t
  unfolding update_where
  update_where_missed i p f t h = ground arith

  -- A statement that matches a row rewrites that row.
  pub update_where_set :
      (i : ℕ) (p : A → Bool) (f : A → A) (t : Table A) (a : A)
      → get i t ≡ some a
      → p a ≡ true
      → (update_where i p f t).0 ≡ set_row i (f a) t
  unfolding update_where
  update_where_set i p f t a e pa = ground (arith, e, pa)

  -- How many rows pass a test.
  unfoldable pub count : (A → Bool) → Table A → ℕ
  count p [] = 0
  count p ((j, a) ∷ t) = let rest = count p t in if p a then suc rest else rest

  -- To rewrite a row that passes the test by one that does not leaves one less.
  pub count-set_row :
      (p : A → Bool) (i : ℕ) (v : A) (t : Table A) (a : A)
      → get i t ≡ some a
      → p a ≡ true
      → p v ≡ false
      → suc (count p (set_row i v t)) ≡ count p t
  unfolding get set_row count
  count-set_row p i v [] a e pa pv = cc e
  count-set_row p i v ((j, x) ∷ t) a e pa pv = ground (arith, e, pa, pv, count-set_row p i v t a)

  -- What a row was before an attribute write to the row of `i`.
  pub write-Origin :
      (i : ℕ) (f : A → A) (t : Table A) (j : ℕ) (a' : A)
      → get j (update_where i (λ _. true) f t).0 ≡ some a'
      → (a : A) × (get j t ≡ some a) × ((a' ≡ a) × (i ≢ j) ⊎ (a' ≡ f a) × (i ≡ j))
  write-Origin i f t j a' h =
      let h' : (if i == j then updated (λ _. true) f (get j t) else get j t) ≡ some a' =
        sym (get-update_where i j (λ _. true) f t) ∙ h in
      elim (Option-cases (get j t)) [
        | inl e ↦ ground (arith, h', e)
        | inr (a, e) ↦ (
          a,
          e,
          elim (Bool-cases (i == j)) [
            | inl same ↦ inr (ground (arith, h', e), ground arith)
            | inr other ↦ inl (ground (arith, h', e), ground arith)
          ],
        )
      ]
