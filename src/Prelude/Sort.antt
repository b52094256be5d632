-- ===== src/Prelude/Sort.antt =====
-- `ORDER BY`: a stable insertion sort by a Boolean order.
use mathlib.Core.Path.{◌≡◌, refl}
use mathlib.Core.Bool.{Bool, true, false}
use mathlib.Core.List.{List, [], ◌∷◌, Memᴰ}
use mathlib.Core.Logic.{inl, inr}
use github_osint_secret_scan.Prelude.Tests.{if◌then◌else◌, Bool-cases}
use github_osint_secret_scan.Prelude.Lists.{All}

mem-cons_map {ℓ} :
    {A : Type ℓ} {a y : A} {ys zs : List A}
    → (Memᴰ a ys → Memᴰ a zs)
    → Memᴰ a (y ∷ ys)
    → Memᴰ a (y ∷ zs)
mem-cons_map f (Memᴰ.head p) = Memᴰ.head p
mem-cons_map f (Memᴰ.tail m) = Memᴰ.tail (f m)

module _ {ℓ} {A : Type ℓ} (before : A → A → Bool) where
  unfoldable pub insert_by : A → List A → List A
  insert_by x [] = x ∷ []
  insert_by x (y ∷ ys) = if before x y then x ∷ y ∷ ys else y ∷ insert_by x ys

  unfoldable pub sort_by : List A → List A
  unfolding insert_by
  sort_by [] = []
  sort_by (x ∷ xs) = insert_by x (sort_by xs)

  pub All-insert_by {κ} :
      (P : A → Type κ) (x : A) (xs : List A) → P x → All P xs → All P (insert_by x xs)
  unfolding insert_by
  All-insert_by P x [] px pxs = (px, tt)
  All-insert_by P x (y ∷ ys) px pxs = elim (Bool-cases (before x y)) [
    | inl e ↦ rw e (px, pxs)
    | inr e ↦ rw e (pxs.0, All-insert_by P x ys px pxs.1)
  ]

  pub All-sort_by {κ} : (P : A → Type κ) (xs : List A) → All P xs → All P (sort_by xs)
  unfolding sort_by
  All-sort_by P [] h = tt
  All-sort_by P (x ∷ xs) h = All-insert_by P x (sort_by xs) h.0 (All-sort_by P xs h.1)

  mem-insert_by_self : (x : A) (xs : List A) → Memᴰ x (insert_by x xs)
  unfolding insert_by
  mem-insert_by_self x [] = Memᴰ.head refl
  mem-insert_by_self x (y ∷ ys) = elim (Bool-cases (before x y)) [
    | inl e ↦ rw e (Memᴰ.head refl)
    | inr e ↦ rw e (Memᴰ.tail (mem-insert_by_self x ys))
  ]

  mem-insert_by : (x : A) {a : A} (xs : List A) → Memᴰ a xs → Memᴰ a (insert_by x xs)
  unfolding insert_by
  mem-insert_by x [] m = elim m [ ]
  mem-insert_by x (y ∷ ys) m = elim (Bool-cases (before x y)) [
    | inl e ↦ rw e (Memᴰ.tail m)
    | inr e ↦ rw e (mem-cons_map (mem-insert_by x ys) m)
  ]

  pub mem-sort_by : {a : A} (xs : List A) → Memᴰ a xs → Memᴰ a (sort_by xs)
  unfolding sort_by
  mem-sort_by [] m = elim m [ ]
  mem-sort_by (x ∷ xs) (Memᴰ.head p) = rw p (mem-insert_by_self x (sort_by xs))
  mem-sort_by (x ∷ xs) (Memᴰ.tail m) = mem-insert_by x (sort_by xs) (mem-sort_by xs m)

  -- Each member stands before all that follow it.
  abbrev pub IsOrdered : List A → Type 0
  IsOrdered [] = Unit
  IsOrdered (x ∷ xs) = All (λ y. before y x ≡ false) xs × IsOrdered xs

  module _ (asym : (a b : A) → before a b ≡ true → before b a ≡ false)
      (trans : (a b c : A) → before a b ≡ true → before b c ≡ true → before a c ≡ true) where
    not_before : (x y z : A) → before x y ≡ true → before z y ≡ false → before z x ≡ false
    not_before x y z xy zy = elim (Bool-cases (before z x)) [
      | inl zx ↦ cc (trans z x y zx xy)
      | inr free ↦ free
    ]

    All-not_before :
        (x y : A) (ys : List A)
        → before x y ≡ true
        → All (λ z. before z y ≡ false) ys
        → All (λ z. before z x ≡ false) ys
    All-not_before x y [] xy h = tt
    All-not_before x y (z ∷ zs) xy h = (not_before x y z xy h.0, All-not_before x y zs xy h.1)

    insert_by-IsOrdered : (x : A) (xs : List A) → IsOrdered xs → IsOrdered (insert_by x xs)
    unfolding insert_by
    insert_by-IsOrdered x [] h = (tt, tt)
    insert_by-IsOrdered x (y ∷ ys) h = elim (Bool-cases (before x y)) [
      | inl e ↦ rw e ((asym x y e, All-not_before x y ys e h.0), h)
      | inr e ↦
          rw e (All-insert_by (λ z. before z y ≡ false) x ys e h.0, insert_by-IsOrdered x ys h.1)
    ]

    pub sort_by-IsOrdered : (xs : List A) → IsOrdered (sort_by xs)
    unfolding sort_by
    sort_by-IsOrdered [] = tt
    sort_by-IsOrdered (x ∷ xs) = insert_by-IsOrdered x (sort_by xs) (sort_by-IsOrdered xs)
