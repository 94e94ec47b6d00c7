-- ===== src/Arazzo/Expression/Embedded.antt =====
-- arazzo/expression/parser.go: `ParseEmbedded`, text with expressions in `{$…}` blocks.
pub mod RoundTrip
pub mod Ends
pub mod Complete
use libopenapi.Prelude.{
  ℕ, zero, suc, ◌+◌, Bool, true, false, List, [], ◌∷◌, ◌++◌, Option, none, some, Bytes, codes, ltb,
  index, index_byte, is_empty, length, take, drop, if◌then◌else◌,
}
use libopenapi.Prelude.Outcome.{Result, ok, err, ◌>>=◌, wrap_err}
use libopenapi.Arazzo.Expression.{
  Expression, zero_expression, Token, ParseError, unclosed_brace, invalid_embedded, out_of_fuel,
}
use libopenapi.Arazzo.Expression.Parser.{parse}

abbrev pub literal_token : Bytes → Token
literal_token l = record { literal = l; expression = zero_expression; is_expression = false }

abbrev pub expression_token : Expression → Token
expression_token e = record { literal = []; expression = e; is_expression = true }

-- The rest of the loop, from the input behind `pos`, at `pos`, with the tokens so far.
abbrev pub Rest : Type 0
Rest = Bytes → ℕ → List Token → Result ParseError (List Token)

-- `from` is the input behind the opening brace, and `at` the brace's position.
unfoldable pub close_at : Rest → ℕ → List Token → Bytes → Option ℕ → Result ParseError (List Token)
close_at next at tokens from none = err (unclosed_brace at)
close_at next at tokens from (some k) = do
  e ← wrap_err (invalid_embedded at) (parse (take k from))
  next (drop (suc k) from) (at + 1 + k + 1) (tokens ++ (expression_token e ∷ []))

unfoldable pub open_at : Rest → Bytes → ℕ → List Token → Option ℕ → Result ParseError (List Token)
open_at next rest pos tokens none = ok (tokens ++ (literal_token rest ∷ []))
open_at next rest pos tokens (some o) =
    let before = if ltb 0 o then tokens ++ (literal_token (take o rest) ∷ []) else tokens in
    close_at next (pos + o) before (drop (suc o) rest) (index_byte (drop (suc o) rest) b'}')

-- Each round consumes at least one byte, so the input's length is enough fuel.
unfoldable pub embedded_loop : ℕ → Rest
embedded_loop zero rest pos tokens = if is_empty rest then ok tokens else err out_of_fuel
embedded_loop (suc fuel) rest pos tokens =
    if is_empty rest
    then ok tokens
    else open_at (embedded_loop fuel) rest pos tokens (index rest (codes "{$"))

unfoldable pub parse_embedded : Bytes → Result ParseError (List Token)
unfolding embedded_loop open_at close_at
parse_embedded input = embedded_loop (length input) input 0 []
