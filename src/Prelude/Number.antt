-- ===== src/Prelude/Number.antt =====
-- Integers and the functions of package `strconv` that the program calls.
use Prim.Native.Nat.{ℕ, zero, suc, ◌+◌, ◌-◌, ◌*◌, ◌/◌, ◌%◌, ◌^◌}
use mathlib.Core.Bool.{Bool, true, false, ◌&&◌, ◌||◌}
use mathlib.Core.List.{[], ◌∷◌}
use mathlib.Core.Option.{Option, none, some}
use libopenapi.Prelude.Tests.{ltb, leb, ◌==◌, if◌then◌else◌}
use libopenapi.Prelude.Text.{Bytes, codes, eqb}

-- `negsuc n` is -(n + 1).
pub data ℤ : Type 0 where
  pos : ℕ → ℤ
  negsuc : ℕ → ℤ

-- -n.
abbrev pub neg : ℕ → ℤ
neg zero = pos zero
neg (suc n) = negsuc n

-- The digits behind `n`; `none` at a byte that is no digit.
unfoldable pub digits_value : ℕ → Bytes → Option ℕ
digits_value n [] = some n
digits_value n (c ∷ s) =
    let rest = digits_value (n * 10 + (c - b'0')) s in
    if leb b'0' c && leb c b'9' then rest else none

-- At least one digit.
abbrev magnitude : Bytes → Option ℕ
magnitude [] = none
magnitude (c ∷ s) = digits_value 0 (c ∷ s)

abbrev signed : Bool → ℕ → Option ℤ
signed true n = if leb n (2 ^ 63) then some (neg n) else none
signed false n = if ltb n (2 ^ 63) then some (pos n) else none

-- `strconv.ParseInt(s, 10, 64)`, and `strconv.Atoi` where an `int` has 64 bits: an optional sign,
-- decimal digits, and a value that fits.
unfoldable pub parse_int : Bytes → Option ℤ
unfolding digits_value
parse_int [] = none
parse_int (c ∷ s) =
    if c == b'-'
    then elim (magnitude s) [ none ↦ none | some n ↦ signed true n ]
    else if c == b'+'
    then elim (magnitude s) [ none ↦ none | some n ↦ signed false n ]
    else elim (magnitude (c ∷ s)) [ none ↦ none | some n ↦ signed false n ]

-- `strconv.ParseBool`.
unfoldable pub parse_bool : Bytes → Option Bool
unfolding eqb
parse_bool s =
    if eqb s (codes "1")
      || eqb s (codes "t")
      || eqb s (codes "T")
      || eqb s (codes "true")
      || eqb s (codes "TRUE")
      || eqb s (codes "True")
    then some true
    else if eqb s (codes "0")
        || eqb s (codes "f")
        || eqb s (codes "F")
        || eqb s (codes "false")
        || eqb s (codes "FALSE")
        || eqb s (codes "False")
    then some false
    else none

-- `strconv.FormatBool`.
abbrev pub format_bool : Bool → Bytes
format_bool true = codes "true"
format_bool false = codes "false"

-- The decimal digits of `n` in front of `out`; a number has fewer digits than its value and one.
unfoldable pub format_digits : ℕ → ℕ → Bytes → Bytes
format_digits zero n out = out
format_digits (suc fuel) n out =
    let out' = (b'0' + n % 10) ∷ out in
    let rest = format_digits fuel (n / 10) out' in if n / 10 == 0 then out' else rest

-- `strconv.FormatInt(n, 10)`, `strconv.Itoa`.
unfoldable pub format_int : ℤ → Bytes
unfolding format_digits
format_int (pos n) = format_digits (suc n) n []
format_int (negsuc n) = b'-' ∷ format_digits (suc (suc n)) (suc n) []
