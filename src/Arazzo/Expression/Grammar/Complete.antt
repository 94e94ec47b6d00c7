-- ===== src/Arazzo/Expression/Grammar/Complete.antt =====
-- arazzo/expression/parser.go, `Parse` on text that the grammar spells.
use libopenapi.Prelude.{
  ◌+◌, ◌∷◌, ◌++◌, ◌≡◌, refl, append_assoc, arith, Bytes, codes, eqb, has_prefix, length,
  drop-append,
}
use libopenapi.Prelude.Outcome.{ok}
use libopenapi.Arazzo.Expression.{
  ExpressionType, url, method, status_code, request_header, request_query, request_path,
  request_body, response_header, response_query, response_path, response_body, inputs, outputs,
  steps, workflows, source_descriptions, components, component_parameters, Expression,
}
use libopenapi.Arazzo.Expression.Parser.{parse, dispatch, parse_source}
use libopenapi.Arazzo.Expression.Grammar.{
  SpellsProperty, SpellsHeader, SpellsBody, SpellsAs, Spells,
}
use libopenapi.Arazzo.Expression.Grammar.Rebuild.{
  plain_complete, named_complete, source_header_complete, components_complete, parameters_complete,
}

-- The four kinds of source, behind either prefix.
module _ (s p : Bytes) (header query path body : ExpressionType) (e : Expression)
    (raw_is : e.raw ≡ s) where
  abbrev Parses : Type 0
  Parses = parse_source s p header query path body ≡ ok e

  header_complete : e.type ≡ header → SpellsHeader (p ++ codes "header.") e s → Parses
  unfolding parse_source has_prefix
  header_complete q k = ground (
    arith,
    append_assoc p (codes "header.") e.property,
    drop-append p (codes "header." ++ e.property),
    source_header_complete s (length p + length (codes "header.")) header e,
  )

  query_complete : e.type ≡ query → SpellsProperty (p ++ codes "query.") e s → Parses
  unfolding parse_source has_prefix
  query_complete q k = ground (
    arith,
    append_assoc p (codes "query.") e.property,
    drop-append p (codes "query." ++ e.property),
  )

  path_complete : e.type ≡ path → SpellsProperty (p ++ codes "path.") e s → Parses
  unfolding parse_source has_prefix
  path_complete q k = ground (
    arith,
    append_assoc p (codes "path.") e.property,
    drop-append p (codes "path." ++ e.property),
  )

  body_complete : e.type ≡ body → SpellsBody (p ++ codes "body") e s → Parses
  unfolding parse_source has_prefix eqb
  body_complete q k = ground (
    arith,
    append_assoc p (codes "body") (b'#' ∷ e.json_pointer),
    drop-append p (codes "body" ++ (b'#' ∷ e.json_pointer)),
    drop-append p (codes "body"),
  )

complete_as :
    (t : ExpressionType) (s : Bytes) (e : Expression)
    → e.raw ≡ s
    → e.type ≡ t
    → SpellsAs t e s
    → parse s ≡ ok e
unfolding parse dispatch eqb has_prefix
complete_as url s e r t k = rw k.0 (ground arith)
complete_as method s e r t k = rw k.0 (ground arith)
complete_as status_code s e r t k = rw k.0 (ground arith)
complete_as inputs s e r t k = ground (arith, plain_complete s (codes "$inputs.") inputs e)
complete_as outputs s e r t k = ground (arith, plain_complete s (codes "$outputs.") outputs e)
complete_as steps s e r t k = ground (arith, named_complete s (codes "$steps.") steps e)
complete_as workflows s e r t k = ground (arith, named_complete s (codes "$workflows.") workflows e)
complete_as source_descriptions s e r t k =
    ground (arith, named_complete s (codes "$sourceDescriptions.") source_descriptions e)
complete_as components s e r t k = ground (arith, components_complete s e r t k)
complete_as component_parameters s e r t k = ground (arith, parameters_complete s e r t k)
complete_as request_header s e r t k = ground (
  arith,
  header_complete s (codes "$request.") request_header request_query request_path request_body e r t
      k,
)
complete_as request_query s e r t k = ground (
  arith,
  query_complete s (codes "$request.") request_header request_query request_path request_body e r t
      k,
)
complete_as request_path s e r t k = ground (
  arith,
  path_complete s (codes "$request.") request_header request_query request_path request_body e r t
      k,
)
complete_as request_body s e r t k = ground (
  arith,
  body_complete s (codes "$request.") request_header request_query request_path request_body e r t
      k,
)
complete_as response_header s e r t k = ground (
  arith,
  header_complete s (codes "$response.") response_header response_query response_path response_body
      e r t k,
)
complete_as response_query s e r t k = ground (
  arith,
  query_complete s (codes "$response.") response_header response_query response_path response_body e
      r t k,
)
complete_as response_path s e r t k = ground (
  arith,
  path_complete s (codes "$response.") response_header response_query response_path response_body e
      r t k,
)
complete_as response_body s e r t k = ground (
  arith,
  body_complete s (codes "$response.") response_header response_query response_path response_body e
      r t k,
)

-- `Parse` accepts every text that spells an expression, and returns that expression.
pub parse_complete : (s : Bytes) (e : Expression) → Spells s e → parse s ≡ ok e
parse_complete s e (r, k) = complete_as e.type s e r refl k
