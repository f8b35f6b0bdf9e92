-- ===== src/Prelude/Lists.antt =====
-- Predicates on the elements of a list, by recursion, and lengths over the native numbers.
use Prim.Native.Nat.{ℕ, suc, ◌+◌}
use mathlib.Core.Path.{◌≡◌, refl}
use mathlib.Core.Logic.{◌⊎◌, inl, inr}
use mathlib.Core.Bool.{Bool}
use nsp_migrator.Prelude.Tests.{if◌then◌else◌}
use mathlib.Core.Option.{Option, none, some}
use mathlib.Core.List.{List, [], ◌∷◌, ◌++◌}
use native.Mathlib.Omega.{arith}

module _ {ℓ} {A : Type ℓ} where
  abbrev pub length : List A → ℕ
  length [] = 0
  length (x ∷ xs) = suc (length xs)

  abbrev pub filter : (A → Bool) → List A → List A
  filter p [] = []
  filter p (x ∷ xs) = let rest = filter p xs in if p x then x ∷ rest else rest

  pub length-append : (xs ys : List A) → length (xs ++ ys) ≡ length xs + length ys
  length-append [] ys = omega arith
  length-append (x ∷ xs) ys = omega (arith, length-append xs ys)

-- the lists that a function gives, one after the other
abbrev pub concat_map {ℓ κ} : {A : Type ℓ} {B : Type κ} → (A → List B) → List A → List B
concat_map f [] = []
concat_map f (x ∷ xs) = f x ++ concat_map f xs

-- `values or []`
abbrev pub or_empty {ℓ} : {A : Type ℓ} → Option (List A) → List A
or_empty none = []
or_empty (some xs) = xs

module _ {A : Type 0} where
  abbrev pub All : (A → Type 0) → List A → Type 0
  All P [] = Unit
  All P (x ∷ xs) = P x × All P xs

  abbrev pub Any : (A → Type 0) → List A → Type 0
  Any P [] = ⊥
  Any P (x ∷ xs) = P x ⊎ Any P xs

  -- `x in xs`, with its place
  abbrev pub Elem : A → List A → Type 0
  Elem x = Any (λ y. x ≡ y)

  pub Elem-append_left : (x : A) (xs ys : List A) → Elem x xs → Elem x (xs ++ ys)
  Elem-append_left x [] ys h = absurd h
  Elem-append_left x (y ∷ xs) ys (inl e) = inl e
  Elem-append_left x (y ∷ xs) ys (inr h) = inr (Elem-append_left x xs ys h)

  pub Elem-append_right : (x : A) (xs ys : List A) → Elem x ys → Elem x (xs ++ ys)
  Elem-append_right x [] ys h = h
  Elem-append_right x (y ∷ xs) ys h = inr (Elem-append_right x xs ys h)

  pub Elem-append : (x : A) (xs ys : List A) → Elem x (xs ++ ys) → Elem x xs ⊎ Elem x ys
  Elem-append x [] ys h = inr h
  Elem-append x (y ∷ xs) ys (inl e) = inl (inl e)
  Elem-append x (y ∷ xs) ys (inr h) = elim (Elem-append x xs ys h) [
    | inl a ↦ inl (inr a)
    | inr b ↦ inr b
  ]

  pub All-Elem : (P : A → Type 0) (x : A) (xs : List A) → All P xs → Elem x xs → P x
  All-Elem P x [] h m = absurd m
  All-Elem P x (y ∷ xs) h (inl e) = rw e h.0
  All-Elem P x (y ∷ xs) h (inr m) = All-Elem P x xs h.1 m

  pub All-of_Elem : (P : A → Type 0) (xs : List A) → ((x : A) → Elem x xs → P x) → All P xs
  All-of_Elem P [] h = tt
  All-of_Elem P (x ∷ xs) h = (h x (inl refl), All-of_Elem P xs (λ y m. h y (inr m)))

  pub All-append : (P : A → Type 0) (xs ys : List A) → All P xs → All P ys → All P (xs ++ ys)
  All-append P [] ys hx hy = hy
  All-append P (x ∷ xs) ys hx hy = (hx.0, All-append P xs ys hx.1 hy)
