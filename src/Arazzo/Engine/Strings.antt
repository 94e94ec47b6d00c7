-- ===== src/Arazzo/Engine/Strings.antt =====
-- arazzo/step.go, `evaluateStringValue`: the text of a parameter, an output or a payload, which may
-- be an expression or hold expressions in braces.
use libopenapi.Prelude.{
  List, [], ◌∷◌, ◌++◌, some, Bytes, codes, has_prefix, contains, index, if◌then◌else◌,
}
use libopenapi.Prelude.Outcome.{Result, ok, wrap_err, ◌>>=◌}
use libopenapi.Arazzo.Value.{Value, text}
use libopenapi.Arazzo.Expression.{Token}
use libopenapi.Arazzo.Expression.Embedded.{parse_embedded}
use libopenapi.Arazzo.Evaluator.{Context}
use libopenapi.Arazzo.Evaluator.Evaluate.{StringError, bad_expression, bad_evaluation, evaluate}
use libopenapi.Arazzo.Criterion.{Host}
use libopenapi.Arazzo.Criterion.Evaluate.{parse_expression, evaluate_parsed}
use libopenapi.Arazzo.Engine.{bad_value, Stateful, pure}

module _ (h : Host) (ctx : Context h.floats.Float) where
  abbrev token_value : Token → Result StringError (Value h.floats.Float)
  token_value t = wrap_err bad_evaluation (evaluate h.floats t.expression (some ctx))

  -- The loop over the tokens: literals as they are, values printed.
  abbrev pub render : List Token → Result StringError Bytes
  render [] = ok []
  render (t ∷ ts) =
      let rest = render ts in
      if t.is_expression
      then (token_value t >>= λ v. rest >>= λ s. ok (h.sprint v ++ s))
      else (rest >>= λ s. ok (t.literal ++ s))

  abbrev as_text : Result StringError Bytes → Result StringError (Value h.floats.Float)
  as_text r = r >>= λ s. ok (text s)

  -- One expression alone keeps the type of its value.
  abbrev pub tokens_value : List Token → Result StringError (Value h.floats.Float)
  tokens_value (t ∷ []) = if t.is_expression then token_value t else as_text (render (t ∷ []))
  tokens_value ts = as_text (render ts)

  -- `parseExpression`, then `Evaluate`.
  abbrev pub evaluate_kept : Bytes → Stateful (Value h.floats.Float)
  evaluate_kept input c =
      let (r, kept) = parse_expression input c.expressions in
      (wrap_err bad_value (evaluate_parsed h ctx r), record c { expressions = kept })

  unfoldable pub evaluate_string_value : Bytes → Stateful (Value h.floats.Float)
  unfolding has_prefix index
  evaluate_string_value input =
      if has_prefix input (codes "$")
      then evaluate_kept input
      else if contains input (codes "{$")
      then pure
          (wrap_err bad_value (wrap_err bad_expression (parse_embedded input) >>= tokens_value))
      else pure (ok (text input))
