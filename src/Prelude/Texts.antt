-- ===== src/Prelude/Texts.antt =====
-- The parts of `strings`, `strconv` and `fmt` that the program calls, over code points. White space
-- and letter case are those of ASCII.
use Prim.Native.Nat.{ℕ, ◌+◌}
use Prim.Native.Char.{code}
use Prim.Native.String.{String}
use mathlib.Core.Path.{◌≡◌, refl}
use mathlib.Core.Bool.{Bool, true, false, ◌&&◌, ◌||◌}
use mathlib.Core.Logic.{◌↔◌}
use mathlib.Core.Option.{Option, none, some}
use mathlib.Core.List.{List, [], ◌∷◌, ◌++◌, map, reverse}
use native.Mathlib.Omega.{arith}
use caddytower.Prelude.Tests.{ltb, leb, ◌==◌, if◌then◌else◌}
use caddytower.Prelude.Lists.{keep}

abbrev pub Text : Type 0
Text = List ℕ

-- The code points of a literal.
abbrev pub codes : String → Text
codes String.[] = []
codes (String.◌∷◌ c s) = code c ∷ codes s

-- `len` of a string: the bytes of its code points in UTF-8.
abbrev pub code_length : ℕ → ℕ
code_length c = if ltb c 128 then 1 else if ltb c 2048 then 2 else if ltb c 65536 then 3 else 4

unfoldable pub byte_length : Text → ℕ
byte_length [] = 0
byte_length (c ∷ s) = code_length c + byte_length s

unfoldable pub text_eq : Text → Text → Bool
text_eq [] [] = true
text_eq [] (y ∷ ys) = false
text_eq (x ∷ xs) [] = false
text_eq (x ∷ xs) (y ∷ ys) = x == y && text_eq xs ys

pub text_eq_iff : (s t : Text) → (text_eq s t ≡ true) ↔ (s ≡ t)
unfolding text_eq
text_eq_iff [] [] = ground arith
text_eq_iff [] (y ∷ ys) = ground arith
text_eq_iff (x ∷ xs) [] = ground arith
text_eq_iff (x ∷ xs) (y ∷ ys) = ground (arith, text_eq_iff xs ys)

pub text_eq_refl : (s : Text) → text_eq s s ≡ true
text_eq_refl s = (text_eq_iff s s).1 refl

pub text_eq_comm : (s t : Text) → text_eq s t ≡ text_eq t s
unfolding text_eq
text_eq_comm [] [] = refl
text_eq_comm [] (y ∷ ys) = refl
text_eq_comm (x ∷ xs) [] = refl
text_eq_comm (x ∷ xs) (y ∷ ys) = let rest = text_eq_comm xs ys in ground arith

-- `s < t` on strings.
unfoldable pub text_lt : Text → Text → Bool
text_lt [] [] = false
text_lt [] (y ∷ ys) = true
text_lt (x ∷ xs) [] = false
text_lt (x ∷ xs) (y ∷ ys) = if x == y then text_lt xs ys else ltb x y

unfoldable pub is_space : ℕ → Bool
is_space c = c == 32 || (leb 9 c && leb c 13)

unfoldable pub lower : ℕ → ℕ
lower c = if leb b'A' c && leb c b'Z' then c + 32 else c

-- `strings.ToLower`.
abbrev pub to_lower : Text → Text
to_lower = map lower

unfoldable pub trim_left : (ℕ → Bool) → Text → Text
trim_left p [] = []
trim_left p (c ∷ s) = if p c then trim_left p s else c ∷ s

unfoldable pub trim_right : (ℕ → Bool) → Text → Text
unfolding trim_left
trim_right p s = reverse (trim_left p (reverse s))

-- `strings.TrimSpace`.
unfoldable pub trim_space : Text → Text
unfolding trim_left trim_right is_space
trim_space s = trim_right is_space (trim_left is_space s)

-- `strings.Trim(s, ".")` for one character.
unfoldable pub trim_char : ℕ → Text → Text
unfolding trim_left trim_right
trim_char c s = trim_right (λ d. c == d) (trim_left (λ d. c == d) s)

unfoldable pub has_prefix : Text → Text → Bool
has_prefix s [] = true
has_prefix [] (p ∷ ps) = false
has_prefix (c ∷ s) (p ∷ ps) = c == p && has_prefix s ps

-- `s[len(p):]`, read where `has_prefix s p`.
unfoldable pub drop_prefix : Text → Text → Text
drop_prefix s [] = s
drop_prefix [] (p ∷ ps) = []
drop_prefix (c ∷ s) (p ∷ ps) = drop_prefix s ps

unfoldable pub trim_prefix : Text → Text → Text
unfolding has_prefix drop_prefix
trim_prefix s p = if has_prefix s p then drop_prefix s p else s

unfoldable pub has_suffix : Text → Text → Bool
unfolding has_prefix
has_suffix s p = has_prefix (reverse s) (reverse p)

unfoldable pub trim_suffix : Text → Text → Text
unfolding has_suffix trim_prefix
trim_suffix s p = if has_suffix s p then reverse (trim_prefix (reverse s) (reverse p)) else s

unfoldable pub contains_char : ℕ → Text → Bool
contains_char c [] = false
contains_char c (d ∷ s) = c == d || contains_char c s

-- `strings.Cut` at one character: what stands before it and after it.
unfoldable pub cut : ℕ → Text → Option (Text × Text)
cut c [] = none
cut c (d ∷ s) =
    let rest = cut c s in
    if c == d then some ([], s) else elim rest [ none ↦ none | some (a, b) ↦ some (d ∷ a, b) ]

abbrev pub cons_head : ℕ → List Text → List Text
cons_head c [] = (c ∷ []) ∷ []
cons_head c (w ∷ ws) = (c ∷ w) ∷ ws

-- `strings.Split` at one character.
unfoldable pub split : ℕ → Text → List Text
split sep [] = [] ∷ []
split sep (c ∷ s) = if sep == c then [] ∷ split sep s else cons_head c (split sep s)

-- `strings.Join`.
unfoldable pub join : Text → List Text → Text
join sep [] = []
join sep (w ∷ []) = w
join sep (w ∷ v ∷ ws) = w ++ sep ++ join sep (v ∷ ws)

-- `strings.EqualFold` on ASCII.
unfoldable pub equal_fold : Text → Text → Bool
unfolding text_eq lower
equal_fold s t = text_eq (to_lower s) (to_lower t)

tokens : (ℕ → Bool) → Text → List Text
tokens p [] = [] ∷ []
tokens p (c ∷ s) = if p c then [] ∷ tokens p s else cons_head c (tokens p s)

abbrev has_character : Text → Bool
has_character [] = false
has_character (c ∷ s) = true

-- `strings.FieldsFunc`: the fields between the separators; none is empty.
unfoldable pub fields_func : (ℕ → Bool) → Text → List Text
unfolding tokens keep
fields_func p s = keep has_character (tokens p s)

-- `strings.Fields`.
unfoldable pub fields : Text → List Text
unfolding fields_func is_space
fields = fields_func is_space

abbrev drop_last_empty : List Text → List Text
drop_last_empty [] = []
drop_last_empty ([] ∷ []) = []
drop_last_empty ((c ∷ w) ∷ []) = (c ∷ w) ∷ []
drop_last_empty (w ∷ v ∷ ws) = w ∷ drop_last_empty (v ∷ ws)

-- The lines of a `bufio.Scanner`, without the character that ends each of them.
unfoldable pub scan_lines : Text → List Text
unfolding split
scan_lines s = drop_last_empty (split 10 s)
