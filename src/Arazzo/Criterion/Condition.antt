-- ===== src/Arazzo/Criterion/Condition.antt =====
-- arazzo/criterion.go: splitting and comparing simple conditions.
use libopenapi.Prelude.{
  ℕ, ◌+◌, Bool, not, ◌&&◌, ◌||◌, List, [], ◌∷◌, Option, none, some, Bytes, codes, eqb, has_prefix,
  has_suffix, index, index_byte, is_empty, text_lt, length, take, drop, if◌then◌else◌,
}
use libopenapi.Prelude.Outcome.{Result, ok, err}
use libopenapi.Prelude.Number.{parse_int, parse_bool, format_int, format_bool}
use libopenapi.Prelude.Space.{trim_space}
use libopenapi.Arazzo.Value.{Floats, Value, text, boolean, integer, int, int64, float32, float64}
use libopenapi.Arazzo.Criterion.{Host, CriterionError, unsupported_operator, slice_out_of_range}

abbrev pub simple_condition_operators : List Bytes
simple_condition_operators =
    codes "==" ∷ codes "!=" ∷ codes ">=" ∷ codes "<=" ∷ codes ">" ∷ codes "<" ∷ []

-- The operands around the operator `candidate` at `idx`. None if one of them is empty.
abbrev pub operands : Bytes → Bytes → ℕ → Option (Bytes × Bytes × Bytes)
operands input candidate idx =
    let left = trim_space (take idx input) in
    let right = trim_space (drop (idx + length candidate) input) in
    if is_empty left || is_empty right then none else some (left, candidate, right)

-- The loop over the operators: the first that occurs decides.
unfoldable pub try_operators : Bytes → ℕ → List Bytes → Option (Bytes × Bytes × Bytes)
try_operators input start [] = none
try_operators input start (candidate ∷ rest) =
    let later = try_operators input start rest in
    elim (index (drop start input) candidate) [
      | some idx ↦ operands input candidate (idx + start)
      | none ↦ later
    ]

-- The search begins behind the first space, if the input begins with a dollar sign.
unfoldable pub split_simple_condition : Bytes → Option (Bytes × Bytes × Bytes)
split_simple_condition input =
    if has_prefix input (codes "$")
    then elim (index_byte input b' ') [
      | some space ↦ try_operators input space simple_condition_operators
      | none ↦ none
    ]
    else try_operators input 0 simple_condition_operators

module _ (floats : Floats) where
  open floats use {Float, parse_float, of_int, float_eq, float_lt}

  -- `numericValue`. The model's `float32` already stands for the wider number.
  unfoldable pub numeric_value : Value Float → Option Float
  numeric_value (integer t n) = some (of_int n)
  numeric_value (float32 x) = some x
  numeric_value (float64 x) = some x
  numeric_value v = none

  compare_numbers : Float → Float → Bytes → Option Bool
  compare_numbers l r op =
      if eqb op (codes "==")
      then some (float_eq l r)
      else if eqb op (codes "!=")
      then some (not (float_eq l r))
      else if eqb op (codes ">")
      then some (float_lt r l)
      else if eqb op (codes "<")
      then some (float_lt l r)
      else if eqb op (codes ">=")
      then some (float_lt r l || float_eq l r)
      else if eqb op (codes "<=")
      then some (float_lt l r || float_eq l r)
      else none

unfoldable pub compare_texts : Bytes → Bytes → Bytes → Result CriterionError Bool
compare_texts l r op =
    if eqb op (codes "==")
    then ok (eqb l r)
    else if eqb op (codes "!=")
    then ok (not (eqb l r))
    else if eqb op (codes ">")
    then ok (text_lt r l)
    else if eqb op (codes "<")
    then ok (text_lt l r)
    else if eqb op (codes ">=")
    then ok (not (text_lt l r))
    else if eqb op (codes "<=")
    then ok (not (text_lt r l))
    else err (unsupported_operator op)

module _ (h : Host) where
  unfoldable pub sprint_value : Value h.floats.Float → Bytes
  sprint_value (text s) = s
  sprint_value (integer int n) = format_int n
  sprint_value (integer int64 n) = format_int n
  sprint_value (float64 x) = h.floats.format_float x
  sprint_value (boolean b) = format_bool b
  sprint_value v = h.sprint v

  -- Both operands as numbers, if they are.
  unfoldable pub both_numbers : Value h.floats.Float → Value h.floats.Float → Bytes → Option Bool
  unfolding numeric_value compare_numbers eqb
  both_numbers l r op = elim (numeric_value h.floats l) [
    | none ↦ none
    | some x ↦ elim (numeric_value h.floats r) [
      | none ↦ none
      | some y ↦ compare_numbers h.floats x y op
    ]
  ]

  unfoldable pub compare_simple_values :
      Value h.floats.Float → Value h.floats.Float → Bytes → Result CriterionError Bool
  compare_simple_values l r op = elim (both_numbers l r op) [
    | some b ↦ ok b
    | none ↦ compare_texts (sprint_value l) (sprint_value r) op
  ]

  -- `evaluateSimpleCondition`.
  unfoldable pub evaluate_simple_condition : Bytes → Value h.floats.Float → Bool
  evaluate_simple_condition condition v = eqb (sprint_value v) condition

-- An operand between quotes of one kind. A lone quote panics: it is its own prefix and suffix, and
-- `op[1:0]` is out of range.
unfoldable pub unquote : Bytes → Result CriterionError (Option Bytes)
unfolding has_prefix
unquote op =
    if (has_prefix op (codes "\"") && has_suffix op (codes "\""))
      || (has_prefix op (codes "'") && has_suffix op (codes "'"))
    then (elim (drop 1 op) [
      | [] ↦ err slice_out_of_range
      | c ∷ s ↦ ok (some (take (length s) (c ∷ s)))
    ])
    else ok none

-- A literal operand: a Boolean, an integer, a number, or the text itself.
unfoldable pub literal_operand : (floats : Floats) → Bytes → Value floats.Float
unfolding parse_bool parse_int
literal_operand floats op = elim (parse_bool op) [
  | some b ↦ boolean b
  | none ↦ elim (parse_int op) [
    | some n ↦ integer int64 n
    | none ↦ elim (floats.parse_float op) [ some x ↦ float64 x | none ↦ text op ]
  ]
]
