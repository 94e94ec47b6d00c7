-- ===== src/Arazzo/Criterion/Split.antt =====
-- arazzo/criterion.go: what the parts of a simple condition are, and how they compare.
use libopenapi.Prelude.{
  ℕ, ◌+◌, Bool, List, [], ◌∷◌, ◌≡◌, ◌≢◌, ◌⊎◌, inl, inr, refl, sym, arith, Option, some, Bytes,
  codes, eqb, has_prefix, index, index_byte, drop, Option-cases, Bool-cases,
}
use mathlib.Core.Path.{subst}
use libopenapi.Prelude.Outcome.{Result, ok, err}
use libopenapi.Prelude.Space.{trim_space}
use libopenapi.Arazzo.Value.{Value}
use libopenapi.Arazzo.Evaluator.{Context}
use libopenapi.Arazzo.Criterion.Evaluate.{◌>>=◌, evaluate_simple_operand}
use libopenapi.Arazzo.Criterion.{Host, Caches, CriterionError, slice_out_of_range}
use libopenapi.Arazzo.Criterion.Condition.{
  simple_condition_operators, operands, try_operators, split_simple_condition,
  compare_simple_values, both_numbers, compare_texts, unquote,
}

-- One of the six operators.
abbrev pub OneOf : Bytes → List Bytes → Type 0
OneOf op [] = ⊥
OneOf op (c ∷ cs) = (op ≡ c) ⊎ OneOf op cs

operands-some :
    (s c : Bytes) (i : ℕ) (l op r : Bytes)
    → operands s c i ≡ some (l, op, r)
    → (l ≢ []) × (op ≡ c) × (r ≢ [])
operands-some s c i l op r h = ground arith

try_operators-some :
    (s : Bytes) (start : ℕ) (cs : List Bytes) (l op r : Bytes)
    → try_operators s start cs ≡ some (l, op, r)
    → (l ≢ []) × OneOf op cs × (r ≢ [])
unfolding try_operators
try_operators-some s start [] l op r h = absurd (cc)
try_operators-some s start (c ∷ cs) l op r h = elim (Option-cases (index (drop start s) c)) [
  | inl e ↦
      let k = try_operators-some s start cs l op r (rw (e, try_operators) at h) in
      (k.0, inr k.1, k.2)
  | inr (i, e) ↦
      let k = operands-some s c (i + start) l op r (rw (e, try_operators) at h) in
      (k.0, inl k.1, k.2)
]

split_simple_condition-some :
    (s l op r : Bytes)
    → split_simple_condition s ≡ some (l, op, r)
    → (l ≢ []) × OneOf op simple_condition_operators × (r ≢ [])
unfolding split_simple_condition
split_simple_condition-some s l op r h = elim (Bool-cases (has_prefix s (codes "$"))) [
  | inl y ↦ elim (Option-cases (index_byte s b' ')) [
    | inl e ↦ ground arith
    | inr (i, e) ↦ try_operators-some s i simple_condition_operators l op r (ground arith)
  ]
  | inr n ↦ try_operators-some s 0 simple_condition_operators l op r (ground arith)
]

-- The operators that `compareSimpleValues` knows decide every comparison of texts.
abbrev pub Decides : (Bytes → Result CriterionError Bool) → Bytes → Type 0
Decides f op = (b : Bool) × (f op ≡ ok b)

compare_texts-operator :
    (l r op : Bytes) → OneOf op simple_condition_operators → Decides (compare_texts l r) op
unfolding compare_texts eqb
compare_texts-operator l r op (inl e) = subst (Decides (compare_texts l r)) (sym e) (_, refl)
compare_texts-operator l r op (inr (inl e)) = subst (Decides (compare_texts l r)) (sym e) (_, refl)
compare_texts-operator l r op (inr (inr (inl e))) =
    subst (Decides (compare_texts l r)) (sym e) (_, refl)
compare_texts-operator l r op (inr (inr (inr (inl e)))) =
    subst (Decides (compare_texts l r)) (sym e) (_, refl)
compare_texts-operator l r op (inr (inr (inr (inr (inl e))))) =
    subst (Decides (compare_texts l r)) (sym e) (_, refl)
compare_texts-operator l r op (inr (inr (inr (inr (inr (inl e)))))) =
    subst (Decides (compare_texts l r)) (sym e) (_, refl)
compare_texts-operator l r op (inr (inr (inr (inr (inr (inr none_left)))))) = elim none_left [ ]

compare_simple_values-operator :
    (h : Host) (l r : Value h.floats.Float) (op : Bytes)
    → OneOf op simple_condition_operators
    → Decides (compare_simple_values h l r) op
unfolding compare_simple_values
compare_simple_values-operator h l r op k = elim (Option-cases (both_numbers h l r op)) [
  | inl e ↦ rw (e, compare_simple_values) (compare_texts-operator _ _ op k)
  | inr (b, e) ↦ (b, rw (e, compare_simple_values))
]

-- Whatever a simple condition is split into, both operands are not empty, and the comparison of
-- any two values under its operator succeeds: the error for an unsupported operator is not reached.
pub split_simple_condition-compare :
    (h : Host) (s l op r : Bytes) (left right : Value h.floats.Float)
    → split_simple_condition s ≡ some (l, op, r)
    → (l ≢ []) × (r ≢ []) × Decides (compare_simple_values h left right) op
split_simple_condition-compare h s l op r left right e =
    let k = split_simple_condition-some s l op r e in
    (k.0, k.2, compare_simple_values-operator h left right op k.1)

-- A lone quote makes the evaluation of an operand panic, in every context and with any caches.
pub evaluate_simple_operand-lone_quote :
    (h : Host) (ctx : Context h.floats.Float) (c : Option Caches) (operand : Bytes)
    → (trim_space operand ≡ codes "\"") ⊎ (trim_space operand ≡ codes "'")
    → evaluate_simple_operand h ctx operand c ≡ (err slice_out_of_range, c)
unfolding evaluate_simple_operand unquote ◌>>=◌
evaluate_simple_operand-lone_quote h ctx c operand (inl e) = rw e
evaluate_simple_operand-lone_quote h ctx c operand (inr e) = rw e
