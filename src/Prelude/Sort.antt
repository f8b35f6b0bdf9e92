-- ===== src/Prelude/Sort.antt =====
-- Python's `sorted`: a stable sort by a key, here by insertion. Every stable sort agrees with it.
use mathlib.Core.Logic.{◌⊎◌, inl, inr, ◌↔◌}
use mathlib.Core.Bool.{Bool, true}
use mathlib.Core.List.{List, [], ◌∷◌}
use Prim.Native.Nat.{suc}
use mathlib.Core.Path.{◌≡◌, refl, ap}
use native.Mathlib.Omega.{arith}
use nsp_migrator.Prelude.Tests.{if◌then◌else◌, Bool-cases}
use nsp_migrator.Prelude.Lists.{length, Elem}

module _ {ℓ} {A : Type ℓ} (le : A → A → Bool) where
  -- before the first element that is not smaller, so that equal elements keep their order
  unfoldable pub insert_sorted : A → List A → List A
  insert_sorted x [] = x ∷ []
  insert_sorted x (y ∷ ys) = if le x y then x ∷ y ∷ ys else y ∷ insert_sorted x ys

  unfoldable pub sorted : List A → List A
  unfolding insert_sorted
  sorted [] = []
  sorted (x ∷ xs) = insert_sorted x (sorted xs)

  length-insert_sorted : (x : A) (xs : List A) → length (insert_sorted x xs) ≡ suc (length xs)
  unfolding insert_sorted
  length-insert_sorted x [] = omega arith
  length-insert_sorted x (y ∷ ys) = ground (arith, length-insert_sorted x ys)

  pub length-sorted : (xs : List A) → length (sorted xs) ≡ length xs
  unfolding sorted
  length-sorted [] = omega arith
  length-sorted (x ∷ xs) = omega (arith, length-insert_sorted x (sorted xs), length-sorted xs)

  pub sorted-nil : (xs : List A) → sorted xs ≡ [] → xs ≡ []
  sorted-nil [] h = refl
  sorted-nil (x ∷ xs) h =
      let n : length (sorted (x ∷ xs)) ≡ 0 = ap length h in
      absurd (omega (arith, n, length-sorted (x ∷ xs)))

  pub sorted-one : (xs : List A) (y : A) → sorted xs ≡ (y ∷ []) → xs ≡ (y ∷ [])
  unfolding sorted insert_sorted
  sorted-one [] y h = cc
  sorted-one (x ∷ []) y h = h
  sorted-one (x ∷ z ∷ xs) y h =
      let n : length (sorted (x ∷ z ∷ xs)) ≡ 1 = ap length h in
      absurd (omega (arith, n, length-sorted (x ∷ z ∷ xs)))

  -- Each element stands before the next.
  abbrev pub Ordered : List A → Type 0
  Ordered [] = Unit
  Ordered (x ∷ []) = Unit
  Ordered (x ∷ y ∷ xs) = (le x y ≡ true) × Ordered (y ∷ xs)

  insert_sorted-Ordered :
      ((x y : A) → (le x y ≡ true) ⊎ (le y x ≡ true))
      → (x : A) (xs : List A) → Ordered xs
      → Ordered (insert_sorted x xs)
  unfolding insert_sorted
  insert_sorted-Ordered total x [] h = tt
  insert_sorted-Ordered total x (y ∷ []) h = ground (arith, total x y)
  insert_sorted-Ordered total x (y ∷ z ∷ xs) h =
      ground (arith, total x y, total x z, insert_sorted-Ordered total x (z ∷ xs) h.1)

  pub sorted-Ordered :
      ((x y : A) → (le x y ≡ true) ⊎ (le y x ≡ true)) → (xs : List A) → Ordered (sorted xs)
  unfolding sorted
  sorted-Ordered total [] = tt
  sorted-Ordered total (x ∷ xs) =
      insert_sorted-Ordered total x (sorted xs) (sorted-Ordered total xs)

module _ {A : Type 0} (le : A → A → Bool) where
  Elem-insert_sorted : (z x : A) (xs : List A) → Elem z (insert_sorted le x xs) ↔ Elem z (x ∷ xs)
  unfolding insert_sorted
  Elem-insert_sorted z x [] = (λ m. m, λ m. m)
  Elem-insert_sorted z x (y ∷ ys) = elim (Bool-cases (le x y)) [
    | inl t ↦ rw t (λ m. m, λ m. m)
    | inr t ↦ rw t (
      λ m. elim m [
        | inl e ↦ inr (inl e)
        | inr n ↦ elim ((Elem-insert_sorted z x ys).0 n) [ inl e ↦ inl e | inr k ↦ inr (inr k) ]
      ],
      λ m. elim m [
        | inl e ↦ inr ((Elem-insert_sorted z x ys).1 (inl e))
        | inr n ↦ elim n [ inl e ↦ inl e | inr k ↦ inr ((Elem-insert_sorted z x ys).1 (inr k)) ]
      ],
    )
  ]

  pub Elem-sorted : (z : A) (xs : List A) → Elem z (sorted le xs) ↔ Elem z xs
  unfolding sorted
  Elem-sorted z [] = (λ m. m, λ m. m)
  Elem-sorted z (x ∷ xs) = (
    λ m. elim ((Elem-insert_sorted z x (sorted le xs)).0 m) [
      | inl e ↦ inl e
      | inr n ↦ inr ((Elem-sorted z xs).0 n)
    ],
    λ m.
        (Elem-insert_sorted z x (sorted le xs)).1
          (elim m [ inl e ↦ inl e | inr n ↦ inr ((Elem-sorted z xs).1 n) ]),
  )
