-- ===== src/Arazzo/Criterion/Evaluate.antt =====
-- arazzo/criterion.go: the kinds of criteria, with the engine's caches threaded through; and
-- `parseExpression` of arazzo/engine.go, which fills one of them.
use libopenapi.Prelude.{
  Bool, false, not, List, [], Option, none, some, Bytes, codes, eqb, has_prefix, is_empty,
  if◌then◌else◌,
}
use libopenapi.Prelude.Outcome.{Result, ok, err, wrap_err}
use libopenapi.Prelude.Number.{parse_bool}
use libopenapi.Prelude.Dict.{lookup, insert}
use libopenapi.Prelude.Space.{trim_space}
use libopenapi.Yaml.{Node, absent, node}
use libopenapi.Arazzo.Value.{Value, text, boolean}
use libopenapi.Arazzo.Expression.{Expression, ParseError}
use libopenapi.Arazzo.Expression.Parser.{parse}
use libopenapi.Arazzo.Evaluator.{Context}
use libopenapi.Arazzo.Evaluator.Evaluate.{
  StringError, bad_expression, bad_evaluation, evaluate, evaluate_string,
}
use libopenapi.Arazzo.Criterion.{
  Host, Criterion, effective_type, CriterionError, bad_operand, bad_context, not_a_boolean,
  xpath_not_supported, unknown_type, regex_needs_context, jsonpath_needs_context, invalid_regex,
  invalid_jsonpath, bad_target, Cached,
}
use libopenapi.Arazzo.Criterion.Nodes.{to_yaml_node}
use libopenapi.Arazzo.Criterion.Condition.{
  split_simple_condition, compare_simple_values, evaluate_simple_condition, sprint_value, unquote,
  literal_operand,
}

-- Errors stop; the caches as they are then remain.
infixl 5 ◌>>=◌
unfoldable pub ◌>>=◌ : {A B : Type 0} → Cached A → (A → Cached B) → Cached B
◌>>=◌ m f c = let (r, d) = m c in elim r [ ok a ↦ f a d | err e ↦ (err e, d) ]

-- What reads and writes no cache.
abbrev pub pure : {A : Type 0} → Result CriterionError A → Cached A
pure r c = (r, c)

abbrev pub keep_parsed :
    Bytes
    → List (Bytes × Expression)
    → Result ParseError Expression
    → Result ParseError Expression × List (Bytes × Expression)
keep_parsed input cache (ok e) = (ok e, insert input e cache)
keep_parsed input cache (err x) = (err x, cache)

-- `parseExpression` on the cache: a successful parse is kept, an error is not.
unfoldable pub parse_expression :
    Bytes → List (Bytes × Expression) → Result ParseError Expression × List (Bytes × Expression)
unfolding lookup insert
parse_expression input cache = elim (lookup input cache) [
  | some e ↦ (ok e, cache)
  | none ↦ keep_parsed input cache (parse input)
]

-- `compileCriterionRegex` and `compileCriterionJSONPath`: what the compiler returned is kept, an
-- error too.
unfoldable pub compile_cached :
    {P : Type 0}
    → (Bytes → Option P)
    → Bytes
    → List (Bytes × Option P)
    → Option P × List (Bytes × Option P)
unfolding lookup insert
compile_cached compiler raw cache = elim (lookup raw cache) [
  | some result ↦ (result, cache)
  | none ↦ (compiler raw, insert raw (compiler raw) cache)
]

abbrev or_error : {P : Type 0} → CriterionError → Option P → Result CriterionError P
or_error e none = err e
or_error e (some p) = ok p

module _ (h : Host) where
  unfoldable pub compile_regex : Bytes → Cached (Bytes → Bool)
  unfolding compile_cached
  compile_regex raw none = (or_error (invalid_regex raw) (h.compile raw), none)
  compile_regex raw (some c) =
      let (re, kept) = compile_cached h.compile raw c.regex in
      (or_error (invalid_regex raw) re, some (record c { regex = kept }))

  unfoldable pub compile_json_path : Bytes → Cached (Node → List Node)
  unfolding compile_cached
  compile_json_path raw none = (or_error (invalid_jsonpath raw) (h.new_path raw), none)
  compile_json_path raw (some c) =
      let (path, kept) = compile_cached h.new_path raw c.json_path in
      (or_error (invalid_jsonpath raw) path, some (record c { json_path = kept }))

  module _ (ctx : Context h.floats.Float) where
    abbrev pub evaluate_parsed :
        Result ParseError Expression → Result StringError (Value h.floats.Float)
    evaluate_parsed (ok e) = wrap_err bad_evaluation (evaluate h.floats e (some ctx))
    evaluate_parsed (err x) = err (bad_expression x)

    -- With the cached parser inside an engine, and without outside. `wrap` wraps the error.
    unfoldable pub evaluate_expr_string :
        (StringError → CriterionError) → Bytes → Cached (Value h.floats.Float)
    unfolding parse_expression
    evaluate_expr_string wrap input none =
        (wrap_err wrap (evaluate_string h.floats input (some ctx)), none)
    evaluate_expr_string wrap input (some c) =
        let (r, kept) = parse_expression input c.expressions in
        (wrap_err wrap (evaluate_parsed r), some (record c { expressions = kept }))

    -- `evaluateSimpleOperand`, on the trimmed operand.
    simple_operand : Bytes → Cached (Value h.floats.Float)
    simple_operand op =
        if is_empty op
        then pure (ok (text []))
        else if has_prefix op (codes "$")
        then evaluate_expr_string bad_operand op
        else (do
          quoted ← pure (unquote op)
          pure (ok (elim quoted [ some s ↦ text s | none ↦ literal_operand h.floats op ])))

    unfoldable pub evaluate_simple_operand : Bytes → Cached (Value h.floats.Float)
    unfolding simple_operand has_prefix
    evaluate_simple_operand operand = simple_operand (trim_space operand)

    abbrev truth : Bytes → Value h.floats.Float → Result CriterionError Bool
    truth condition (boolean b) = ok b
    truth condition v = err (not_a_boolean condition)

    -- The trimmed condition, and the condition as it is for the message.
    simple_condition : Bytes → Bytes → Cached Bool
    simple_condition condition trimmed =
        if is_empty trimmed then pure (ok false) else elim (parse_bool trimmed) [
          | some b ↦ pure (ok b)
          | none ↦ elim (split_simple_condition trimmed) [
            | some (l, op, r) ↦ do
              left ← evaluate_simple_operand l
              right ← evaluate_simple_operand r
              pure (compare_simple_values h left right op)
            | none ↦ do v ← evaluate_simple_operand trimmed; pure (truth condition v)
          ]
        ]

    unfoldable pub evaluate_simple_condition_string : Bytes → Cached Bool
    unfolding simple_condition
    evaluate_simple_condition_string condition = simple_condition condition (trim_space condition)

    unfoldable pub evaluate_simple_criterion : Criterion → Cached Bool
    unfolding evaluate_simple_condition_string
    evaluate_simple_criterion c =
        if is_empty c.context then evaluate_simple_condition_string c.condition else (do
          v ← evaluate_expr_string bad_context c.context
          pure (ok (evaluate_simple_condition h c.condition v)))

    unfoldable pub evaluate_regex_criterion : Criterion → Cached Bool
    evaluate_regex_criterion c = if is_empty c.context then pure (err regex_needs_context) else (do
      v ← evaluate_expr_string bad_context c.context
      re ← compile_regex c.condition
      pure (ok (re (sprint_value h v))))

    abbrev matches : (Node → List Node) → Option Node → Result CriterionError Bool
    matches path none = err bad_target
    matches path (some absent) = ok false
    matches path (some (node k t v c)) = ok (not (is_empty (path (node k t v c))))

    unfoldable pub evaluate_jsonpath_criterion : Criterion → Cached Bool
    evaluate_jsonpath_criterion c =
        if is_empty c.context then pure (err jsonpath_needs_context) else (do
          target ← evaluate_expr_string bad_context c.context
          path ← compile_json_path c.condition
          pure (matches path (to_yaml_node h target)))

    evaluate_typed : Bytes → Criterion → Cached Bool
    evaluate_typed t c =
        if eqb t (codes "simple")
        then evaluate_simple_criterion c
        else if eqb t (codes "regex")
        then evaluate_regex_criterion c
        else if eqb t (codes "jsonpath")
        then evaluate_jsonpath_criterion c
        else if eqb t (codes "xpath")
        then pure (err xpath_not_supported)
        else pure (err (unknown_type t))

    unfoldable pub evaluate_criterion_impl : Criterion → Cached Bool
    unfolding evaluate_typed effective_type eqb
    evaluate_criterion_impl c = evaluate_typed (effective_type c) c

    -- The standalone function, with no caches.
    unfoldable pub evaluate_criterion : Criterion → Result CriterionError Bool
    unfolding evaluate_criterion_impl
    evaluate_criterion c = (evaluate_criterion_impl c none).0
