-- ===== src/Prelude/Eq.antt =====
-- Python's `==` and `in`, for the types whose equality can be decided.
use Prim.Native.Nat.{ℕ}
use mathlib.Core.Path.{◌≡◌, refl}
use mathlib.Core.Logic.{ite, ◌≢◌, ◌⊎◌, inl, inr}
use mathlib.Core.Bool.{Bool, true, false, ◌||◌}
use mathlib.Core.Option.{Option}
use mathlib.Core.List.{List, [], ◌∷◌}
use native.Mathlib.Decide.{ℕ_discrete}

pub record Eq {ℓ} (A : Type ℓ) : Type ℓ where
  pub dec : Discrete A

-- An instance is shut in proofs, where a split on `a == b` yields the equation or its negation.
instance unfoldable pub nat_eq : Eq ℕ
nat_eq = record { dec = ℕ_discrete }

module _ {ℓ} {A : Type ℓ} ⦃e : Eq A⦄ where
  infix 50 ◌==◌
  abbrev pub ◌==◌ : A → A → Bool
  a == b = ite (e.dec a b) true false

  -- A test, with what it shows.
  pub ==-cases : (a b : A) → (((a == b) ≡ true) × (a ≡ b)) ⊎ (((a == b) ≡ false) × (a ≢ b))
  ==-cases a b =
      elim (e.dec a b)
        as (λ d. ((ite d true false ≡ true) × (a ≡ b)) ⊎ ((ite d true false ≡ false) × (a ≢ b))) [
          | yes p ↦ inl (refl, p)
          | no n ↦ inr (refl, n)
        ]

  -- `a in xs`
  abbrev pub contains : A → List A → Bool
  contains a [] = false
  contains a (x ∷ xs) = a == x || contains a xs

  option_dec : Discrete (Option A)
  option_dec = hlevel e.dec

  list_dec : Discrete (List A)
  list_dec = hlevel e.dec

  instance unfoldable pub option_eq : Eq (Option A)
  unfolding option_dec
  option_eq = record { dec = option_dec }

  instance unfoldable pub list_eq : Eq (List A)
  unfolding list_dec
  list_eq = record { dec = list_dec }

pair_dec {ℓ κ} : {A : Type ℓ} {B : Type κ} ⦃e : Eq A⦄ ⦃f : Eq B⦄ → Discrete (A × B)
pair_dec ⦃e⦄ ⦃f⦄ = hlevel (e.dec, f.dec)

instance unfoldable pub pair_eq {ℓ κ} : {A : Type ℓ} {B : Type κ} ⦃e : Eq A⦄ ⦃f : Eq B⦄ → Eq (A × B)
unfolding pair_dec
pair_eq = record { dec = pair_dec }

list_test : ◌==◌ {A = List ℕ} (1 ∷ 2 ∷ []) (1 ∷ 2 ∷ []) ≡ true
unfolding list_eq nat_eq ℕ_discrete
list_test = refl
