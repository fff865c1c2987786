-- ===== src/Base/Integers.antt =====
-- `int(value)` of Python 3.11, for a value that `json.loads` gives.
use Prim.Native.Nat.{ℕ, suc, ◌+◌, ◌-◌, ◌*◌, ◌/◌, ◌^◌}
use Prim.Native.Char.{code}
use Prim.Native.String.{String}
use mathlib.Core.Bool.{Bool, true, false, ◌&&◌}
use mathlib.Core.Option.{Option, none, some}
use mathlib.Core.List.{List, [], ◌∷◌}
use openagent_host_tools.Base.Tests.{leb, ltb, nat_eq, if◌then◌else◌}
use openagent_host_tools.Base.Int.{ℤ, pos, negsuc}
use openagent_host_tools.Base.Texts.{strip}
use openagent_host_tools.Base.Values.{
  Value, null, bool, int, float, str, arr, obj, foreign, Float, nan, infinity, negative_zero,
  integral, fraction,
}
use openagent_host_tools.Base.Outcomes.{Outcome, ok, crash}

-- The zeros of the decimal digits of Unicode, each followed by its one to nine.
abbrev digit_zeros : List ℕ
digit_zeros =
    48 ∷ 1632 ∷ 1776 ∷ 1984 ∷ 2406 ∷ 2534 ∷ 2662 ∷ 2790 ∷ 2918 ∷ 3046 ∷ 3174 ∷ 3302 ∷ 3430 ∷ 3558
    ∷ 3664 ∷ 3792 ∷ 3872 ∷ 4160 ∷ 4240 ∷ 6112 ∷ 6160 ∷ 6470 ∷ 6608 ∷ 6784 ∷ 6800 ∷ 6992 ∷ 7088
    ∷ 7232 ∷ 7248 ∷ 42528 ∷ 43216 ∷ 43264 ∷ 43472 ∷ 43504 ∷ 43600 ∷ 44016 ∷ 65296 ∷ 66720 ∷ 68912
    ∷ 69734 ∷ 69872 ∷ 69942 ∷ 70096 ∷ 70384 ∷ 70736 ∷ 70864 ∷ 71248 ∷ 71360 ∷ 71472 ∷ 71904 ∷ 72016
    ∷ 72784 ∷ 73040 ∷ 73120 ∷ 92768 ∷ 92864 ∷ 93008 ∷ 120782 ∷ 120792 ∷ 120802 ∷ 120812 ∷ 120822
    ∷ 123200 ∷ 123632 ∷ 125264 ∷ 130032 ∷ []

digit_from : ℕ → List ℕ → Option ℕ
digit_from n [] = none
digit_from n (z ∷ zs) =
    let rest = digit_from n zs in if leb z n && ltb n (z + 10) then some (n - z) else rest

-- Digits, with single underscores between them: their number and value.
read_digits : Bool → ℕ → ℕ → String → Option (ℕ × ℕ)
unfolding digit_from
read_digits after_digit count value String.[] = if after_digit then some (count, value) else none
read_digits after_digit count value (String.◌∷◌ ch s) = elim (digit_from (code ch) digit_zeros) [
  | some d ↦ read_digits true (suc count) (10 * value + d) s
  | none ↦
      let rest = read_digits false count value s in
      if after_digit && nat_eq (code ch) 95 then rest else none
]

signed : Bool → ℕ → ℤ
signed true (suc n) = negsuc n
signed _ n = pos n

-- Python refuses to read more than 4300 digits.
int_of_digits : Bool → Option (ℕ × ℕ) → Outcome ℤ
unfolding signed
int_of_digits negative none = crash "ValueError"
int_of_digits negative (some (count, value)) =
    if ltb 4300 count then crash "ValueError" else ok (signed negative value)

int_of_text : String → Outcome ℤ
unfolding read_digits int_of_digits
int_of_text String.[] = crash "ValueError"
int_of_text (String.◌∷◌ ch s) =
    if nat_eq (code ch) 45
    then int_of_digits true (read_digits false 0 0 s)
    else if nat_eq (code ch) 43
    then int_of_digits false (read_digits false 0 0 s)
    else int_of_digits false (read_digits false 0 0 (String.◌∷◌ ch s))

-- The integer next to m / 2 ^ (k + 1), towards zero.
truncated : ℤ → ℕ → ℤ
unfolding signed
truncated (pos m) k = pos (m / (2 ^ suc k))
truncated (negsuc m) k = signed true (suc m / (2 ^ suc k))

int_of_float : Float → Outcome ℤ
unfolding truncated
int_of_float nan = crash "ValueError"
int_of_float (infinity negative) = crash "OverflowError"
int_of_float negative_zero = ok (pos 0)
int_of_float (integral z) = ok z
int_of_float (fraction m k) = ok (truncated m k)

unfoldable pub int_of : Value → Outcome ℤ
unfolding int_of_float int_of_text strip
int_of null = crash "TypeError"
int_of (bool true) = ok (pos 1)
int_of (bool false) = ok (pos 0)
int_of (int z) = ok z
int_of (float f) = int_of_float f
int_of (str s) = int_of_text (strip s)
int_of (arr vs) = crash "TypeError"
int_of (obj fs) = crash "TypeError"
int_of (foreign t) = crash "TypeError"
