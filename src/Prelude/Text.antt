-- ===== src/Prelude/Text.antt =====
-- Python texts as lists of code points, and the operations of `str` and `re` that the code uses.
-- White space and case are those of ASCII.
use Prim.Native.Nat.{ℕ, zero, suc, ◌+◌, ◌-◌, ◌*◌, ◌/◌, ◌%◌}
use Prim.Native.Char.{code}
use Prim.Native.String.{String}
use mathlib.Core.Path.{◌≡◌, refl}
use mathlib.Core.Bool.{Bool, true, false, ◌||◌, ◌&&◌}
use mathlib.Core.Option.{Option, none, some}
use mathlib.Core.List.{List, [], ◌∷◌, ◌++◌, reverse}
use nsp_migrator.Prelude.Tests.{ltb, leb, if◌then◌else◌}
use nsp_migrator.Prelude.Eq.{nat_eq, list_eq, ◌==◌}

abbrev pub Text : Type 0
Text = List ℕ

abbrev pub codes : String → Text
codes String.[] = []
codes (String.◌∷◌ c s) = code c ∷ codes s

-- `str.isspace` of one character
unfoldable pub is_space : ℕ → Bool
is_space c = (leb 9 c && leb c 13) || (leb 28 c && leb c 32)

unfoldable pub lstrip : Text → Text
unfolding is_space
lstrip [] = []
lstrip (c ∷ s) = let rest = lstrip s in if is_space c then rest else c ∷ s

-- `s.strip()`
unfoldable pub strip : Text → Text
unfolding lstrip
strip s = reverse (lstrip (reverse (lstrip s)))

unfoldable pub lower_char : ℕ → ℕ
lower_char c = if leb b'A' c && leb c b'Z' then c + 32 else c

-- `s.lower()`
unfoldable pub lower : Text → Text
unfolding lower_char
lower [] = []
lower (c ∷ s) = lower_char c ∷ lower s

-- the decimal digits of a number, on fuel
unfoldable pub digits : ℕ → ℕ → Text
digits zero n = []
digits (suc f) n =
    let more = digits f (n / 10) in if ltb n 10 then (n + 48) ∷ [] else more ++ ((n % 10 + 48) ∷ [])

-- `str(n)`
unfoldable pub show : ℕ → Text
unfolding digits
show n = digits (suc n) n

-- `sep.join(parts)`
unfoldable pub join : Text → List Text → Text
join sep [] = []
join sep (p ∷ []) = p
join sep (p ∷ q ∷ ps) = p ++ (sep ++ join sep (q ∷ ps))

-- `s <= t`, by code points
unfoldable pub text_leb : Text → Text → Bool
text_leb [] t = true
text_leb (c ∷ s) [] = false
text_leb (c ∷ s) (d ∷ t) =
    let rest = text_leb s t in if ltb c d then true else if ltb d c then false else rest

abbrev flush : Text → List Text → List Text
flush [] words = words
flush (c ∷ w) words = (c ∷ w) ∷ words

-- `if text:`, for an optional text
abbrev pub truthy : Option Text → Option Text
truthy none = none
truthy (some []) = none
truthy (some (c ∷ s)) = some (c ∷ s)

-- `s.split()`, with the characters of the current word
unfoldable pub split : Text → Text → List Text
unfolding is_space
split word [] = flush word []
split word (c ∷ s) = elim (is_space c) [
  | true ↦ flush word (split [] s)
  | false ↦ split (word ++ (c ∷ [])) s
]

-- `s.split()`
abbrev pub words : Text → List Text
unfolding split
words s = split [] s

-- `s.startswith(prefix)`
unfoldable pub starts_with : Text → Text → Bool
unfolding nat_eq
starts_with [] s = true
starts_with (c ∷ prefix) [] = false
starts_with (c ∷ prefix) (d ∷ s) = let rest = starts_with prefix s in if c == d then rest else false

unfoldable pub is_digit : ℕ → Bool
is_digit c = leb b'0' c && leb c b'9'

abbrev all_digits : Text → Bool
unfolding is_digit
all_digits [] = true
all_digits (c ∷ s) = is_digit c && all_digits s

-- `s.isdigit()`
unfoldable pub is_digits : Text → Bool
unfolding is_digit
is_digits [] = false
is_digits (c ∷ s) = is_digit c && all_digits s

-- `int(s)` of digits, with the value of those read
unfoldable pub to_number : ℕ → Text → ℕ
to_number n [] = n
to_number n (c ∷ s) = to_number (10 * n + (c - 48)) s

-- The characters at which `str.splitlines` ends a line, but for the pair of CR and LF.
abbrev is_line_end : ℕ → Bool
is_line_end c =
    (leb 10 c && leb c 13)
    || ((leb 28 c && leb c 30) || (leb 133 c && leb c 133))
    || (leb 8232 c && leb c 8233)

-- `s.splitlines()`, with the characters of the current line and whether the last one was CR
unfoldable pub lines_from : Text → Bool → Text → List Text
unfolding nat_eq
lines_from line after_cr [] = flush line []
lines_from line after_cr (c ∷ s) = elim (is_line_end c) [
  | true ↦ elim (after_cr && c == 10) [
    | true ↦ lines_from [] false s
    | false ↦ line ∷ lines_from [] (c == 13) s
  ]
  | false ↦ lines_from (line ++ (c ∷ [])) false s
]

unfoldable pub split_lines : Text → List Text
unfolding lines_from
split_lines s = lines_from [] false s

split_lines_test : split_lines (codes "a\r\n\nb") ≡ codes "a" ∷ [] ∷ codes "b" ∷ []
unfolding split_lines native.Mathlib.Decide.ℕ_discrete
split_lines_test = refl

show_test : show 40960 ≡ codes "40960"
unfolding show
show_test = refl

strip_test : lower (strip (codes "  Ab c ")) ≡ codes "ab c"
unfolding strip lower
strip_test = refl
