-- ===== src/Execute/Names.antt =====
-- `_normalize_text` and the `frozenset`s of the comparison
-- (src/app/modules/execute/services/rule_values_resolver.py).
use nsp_migrator.Prelude.{ℕ, Bool, true, false, ◌&&◌, ◌||◌, List, [], ◌∷◌, if◌then◌else◌}
use nsp_migrator.Prelude.Eq.{Eq, ◌==◌, contains, nat_eq, list_eq}
use nsp_migrator.Prelude.Text.{Text, strip, lower, is_space}

-- `re.sub(r"[\s_-]+", "-", value)`; the flag is set inside a run of separators
unfoldable pub is_separator : ℕ → Bool
unfolding is_space
is_separator c = is_space c || (c == b'_' || c == b'-')

unfoldable pub join_words : Bool → Text → Text
unfolding is_separator
join_words in_run [] = []
join_words in_run (c ∷ s) =
    let rest = join_words (is_separator c) s in
    if is_separator c then (if in_run then rest else b'-' ∷ rest) else c ∷ rest

-- `_normalize_text`
unfoldable pub normalize_text : Text → Text
unfolding join_words strip lower
normalize_text value = join_words false (lower (strip value))

-- `frozenset(xs)`: one of each value. Its order is never observed.
unfoldable pub frozenset {ℓ} : {A : Type ℓ} ⦃e : Eq A⦄ → List A → List A
frozenset [] = []
frozenset (x ∷ xs) = let rest = frozenset xs in if contains x rest then rest else x ∷ rest

-- `a.issuperset(b)`
unfoldable pub is_superset {ℓ} : {A : Type ℓ} ⦃e : Eq A⦄ → List A → List A → Bool
is_superset a [] = true
is_superset a (x ∷ b) = contains x a && is_superset a b

-- `_str_set_covers`
unfoldable pub str_set_covers : List Text → List Text → Bool
unfolding is_superset list_eq nat_eq
str_set_covers [] [] = true
str_set_covers (e ∷ existing) [] = false
str_set_covers [] (t ∷ target) = false
str_set_covers (e ∷ existing) (t ∷ target) = is_superset (e ∷ existing) (t ∷ target)
