-- ===== src/Arazzo/Expression/Tests.antt =====
-- Runs of the expression parser, and its theorems at concrete inputs.
use libopenapi.Prelude.{
  List, [], ◌∷◌, ◌≡◌, ◌≢◌, inl, inr, refl, arith, Bytes, codes, eqb, has_prefix, index, index_byte,
  All,
}
use libopenapi.Prelude.Outcome.{ok, err}
use libopenapi.Arazzo.Expression.{
  Expression, zero_expression, steps, components, Token, empty_name, invalid_header_byte,
  unclosed_brace, out_of_fuel,
}
use libopenapi.Arazzo.Expression.Parser.{
  parse, dispatch, parse_named_expression, parse_source, parse_components, source_header,
}
use libopenapi.Arazzo.Expression.Grammar.{Spells}
use libopenapi.Arazzo.Expression.Grammar.Sound.{parse_sound}
use libopenapi.Arazzo.Expression.Grammar.Complete.{parse_complete}
use libopenapi.Arazzo.Expression.Embedded.{parse_embedded, literal_token, expression_token}
use libopenapi.Arazzo.Expression.Embedded.RoundTrip.{spell, IsToken, parse_embedded_sound}
use libopenapi.Arazzo.Expression.Embedded.Ends.{parse_embedded_ends}
use libopenapi.Arazzo.Expression.Embedded.Complete.{parse_embedded-spell}

abbrev step_text : Bytes
step_text = codes "$steps.login.outputs.token"

abbrev step_expression : Expression
step_expression = record zero_expression {
  type = steps;
  raw = step_text;
  name = codes "login";
  tail = codes "outputs.token";
}

parse_step : parse step_text ≡ ok step_expression
unfolding parse dispatch parse_named_expression eqb has_prefix index_byte
parse_step = refl

parse_errors :
    (parse (codes "$steps..x") ≡ err (empty_name (codes "$steps..x")))
    × (parse (codes "$request.header.a b")
        ≡ err (invalid_header_byte (codes "$request.header.a b") 17))
unfolding parse dispatch parse_named_expression parse_source source_header eqb has_prefix index_byte
parse_errors = (refl, refl)

-- The general `$components.` form does not refuse an empty name, as the named forms do.
parse_empty_component :
    parse (codes "$components..x")
    ≡ ok (record zero_expression {
      type = components;
      raw = codes "$components..x";
      tail = codes "x";
    })
unfolding parse dispatch parse_components eqb has_prefix index_byte
parse_empty_component = refl

parse_sound_example : Spells step_text step_expression
parse_sound_example = parse_sound step_text step_expression parse_step

parse_complete_example : parse step_text ≡ ok step_expression
parse_complete_example = parse_complete step_text step_expression parse_sound_example

abbrev url_text : Bytes
url_text = codes "see {$url}!"

abbrev url_expression : Expression
url_expression = record zero_expression { raw = codes "$url" }

abbrev url_tokens : List Token
url_tokens =
    literal_token (codes "see ") ∷ expression_token url_expression ∷ literal_token (codes "!") ∷ []

parse_url_text : parse_embedded url_text ≡ ok url_tokens
unfolding parse_embedded parse dispatch eqb has_prefix index index_byte
parse_url_text = refl

parse_unclosed : parse_embedded (codes "a{$url") ≡ err (unclosed_brace 1)
unfolding parse_embedded index index_byte
parse_unclosed = refl

parse_embedded_sound_example : (spell url_tokens ≡ url_text) × All IsToken url_tokens
parse_embedded_sound_example = parse_embedded_sound url_text url_tokens parse_url_text

parse_embedded_ends_example : parse_embedded url_text ≢ err out_of_fuel
parse_embedded_ends_example = parse_embedded_ends url_text

parse_embedded-spell_example : parse_embedded (spell url_tokens) ≡ ok url_tokens
parse_embedded-spell_example =
    parse_embedded-spell url_tokens parse_embedded_sound_example.1 (omega arith)
      (inr refl, (inl refl, tt))
