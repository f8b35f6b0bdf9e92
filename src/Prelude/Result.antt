-- ===== src/Prelude/Result.antt =====
-- A call that may raise an exception of the type `E`.
use mathlib.Core.Path.{◌≡◌, refl}
use mathlib.Core.List.{List, [], ◌∷◌}

pub data Result (E A : Type 0) : Type 0 where
  ok : A → Result E A
  err : E → Result E A

infixl 5 ◌>>=◌
abbrev pub ◌>>=◌ : {E A B : Type 0} → Result E A → (A → Result E B) → Result E B
ok a >>= f = f a
err e >>= f = err e

-- A list comprehension over a function that may raise.
unfoldable pub traverse : {E A B : Type 0} → (A → Result E B) → List A → Result E (List B)
traverse f [] = ok []
traverse f (x ∷ xs) = do y ← f x; ys ← traverse f xs; ok (y ∷ ys)

-- Both calls of a chain that succeeds have succeeded.
pub >>=-eq-ok :
    {E A B : Type 0} {y : B} (first : Result E A) (next : A → Result E B)
    → (first >>= next) ≡ ok y
    → (x : A) × (first ≡ ok x) × (next x ≡ ok y)
>>=-eq-ok (ok x) next equation = (x, refl, equation)
>>=-eq-ok (err e) next equation = cc

pub ok-injective : {E A : Type 0} {a b : A} → ◌≡◌ {A = Result E A} (ok a) (ok b) → a ≡ b
ok-injective h = cc
