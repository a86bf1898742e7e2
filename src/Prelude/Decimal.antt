-- ===== src/Prelude/Decimal.antt =====
-- `strconv.Itoa`, `strconv.Atoi` and `strconv.ParseUint`, on 64 bits.
use Prim.Native.Nat.{ℕ, zero, suc, ◌+◌, ◌*◌, ◌-◌, ◌/◌, ◌%◌}
use mathlib.Core.Bool.{◌&&◌}
use mathlib.Core.Option.{Option, none, some}
use mathlib.Core.List.{[], ◌∷◌, ◌++◌}
use caddytower.Prelude.Tests.{ltb, leb, ◌==◌, if◌then◌else◌}
use caddytower.Prelude.Texts.{Text}
use caddytower.Prelude.Int.{ℤ, pos, negsuc}

-- The digits of a natural number; they run on fuel, of which `n` is enough.
unfoldable pub digits : ℕ → ℕ → Text
digits zero n = []
digits (suc fuel) n =
    let rest = digits fuel (n / 10) in
    if ltb n 10 then (b'0' + n) ∷ [] else rest ++ (b'0' + n % 10) ∷ []

unfoldable pub itoa : ℕ → Text
unfolding digits
itoa n = digits (suc n) n

-- `strconv.FormatInt` and `%d`.
unfoldable pub format_int : ℤ → Text
unfolding itoa
format_int (pos n) = itoa n
format_int (negsuc n) = b'-' ∷ itoa (suc n)

-- The value of a text of decimal digits, after the digits that are read.
unfoldable pub read_digits : ℕ → Text → Option ℕ
read_digits n [] = some n
read_digits n (c ∷ s) =
    let rest = read_digits (n * 10 + (c - b'0')) s in
    if leb b'0' c && leb c b'9' then rest else none

abbrev pub non_empty_digits : Text → Option ℕ
non_empty_digits [] = none
non_empty_digits (c ∷ s) = read_digits 0 (c ∷ s)

abbrev pub int_max : ℕ
int_max = 9223372036854775807

abbrev pub positive_int : Option ℕ → Option ℤ
positive_int none = none
positive_int (some n) = if leb n int_max then some (pos n) else none

abbrev pub negative_int : Option ℕ → Option ℤ
negative_int none = none
negative_int (some zero) = some (pos 0)
negative_int (some (suc n)) = if leb n int_max then some (negsuc n) else none

-- `strconv.Atoi`: a sign, then at least one digit, within the range of `int`.
unfoldable pub atoi : Text → Option ℤ
unfolding read_digits
atoi [] = none
atoi (c ∷ s) =
    if c == b'-'
    then negative_int (non_empty_digits s)
    else if c == b'+'
    then positive_int (non_empty_digits s)
    else positive_int (non_empty_digits (c ∷ s))

abbrev pub two_to_64 : ℕ
two_to_64 = 18446744073709551616

abbrev within_uint64 : Option ℕ → Option ℕ
within_uint64 none = none
within_uint64 (some n) = if ltb n two_to_64 then some n else none

-- `strconv.ParseUint(s, 10, 64)`.
unfoldable pub parse_uint : Text → Option ℕ
unfolding read_digits
parse_uint s = within_uint64 (non_empty_digits s)

-- The `int` that 64 bits spell.
unfoldable pub int_of : ℕ → ℤ
int_of n = if leb n int_max then pos n else negsuc (two_to_64 - 1 - n)
