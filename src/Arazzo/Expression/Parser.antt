-- ===== src/Arazzo/Expression/Parser.antt =====
-- arazzo/expression/parser.go: `Parse`, its helpers and the header-name character table.
use libopenapi.Prelude.{
  ℕ, suc, ◌+◌, Bool, true, false, not, ◌&&◌, ◌||◌, [], ◌∷◌, Option, none, some, Bytes, codes, ◌==◌,
  leb, ltb, eqb, has_prefix, index_byte, is_empty, length, take, drop, if◌then◌else◌,
}
use libopenapi.Prelude.Outcome.{Result, ok, err, ◌>>=◌}
use libopenapi.Arazzo.Expression.{
  ExpressionType, url, method, status_code, request_header, request_query, request_path,
  request_body, response_header, response_query, response_path, response_body, inputs, outputs,
  steps, workflows, source_descriptions, components, component_parameters, Expression,
  zero_expression, ParseError, empty_expression, bad_start, incomplete_expression,
  unknown_expression, unknown_prefix, incomplete_source, unknown_source, empty_name,
  empty_header_name, empty_query_name, empty_path_name, empty_parameter_name, invalid_header_byte,
}

-- `strings.IndexByte(s, c) >= 0`.
abbrev member : ℕ → Bytes → Bool
member c s = elim (index_byte s c) [ none ↦ false | some _ ↦ true ]

-- The table that `init` fills: letters, digits and the listed punctuation.
tchar_table : ℕ → Bool
tchar_table c =
    (leb b'a' c && leb c b'z')
    || (leb b'A' c && leb c b'Z')
    || (leb b'0' c && leb c b'9')
    || member c (codes "!#$%&'*+-.^_`|~")

unfoldable pub is_tchar : ℕ → Bool
unfolding tchar_table index_byte
is_tchar c = ltb c 128 && tchar_table c

-- The loop over a header name: the first byte at fault and its position.
unfoldable pub check_header : Bytes → ℕ → Bytes → Result ParseError (Unit {0})
check_header input pos [] = ok tt
check_header input pos (c ∷ name) =
    if not (is_tchar c)
    then err (invalid_header_byte input pos)
    else check_header input (pos + 1) name

abbrev pub located : Bytes → ExpressionType → Expression
located input t = record zero_expression { raw = input; type = t }

-- A name behind `header.`, `query.` or `path.`, which must not be empty.
abbrev pub source_property :
    Bytes → ExpressionType → Bytes → (Bytes → ParseError) → Result ParseError Expression
source_property input t name empty =
    if is_empty name then err (empty input) else ok (record (located input t) { property = name })

unfoldable pub source_header : Bytes → ℕ → ExpressionType → Bytes → Result ParseError Expression
unfolding check_header is_tchar
source_header input pos t name =
    if is_empty name
    then err (empty_header_name input)
    else (check_header input pos name >>= λ _. ok (record (located input t) { property = name }))

unfoldable pub source_rest :
    (input prefix rest : Bytes)
    → (header query path body : ExpressionType) → Result ParseError Expression
source_rest input prefix rest header query path body =
    if is_empty rest
    then err (incomplete_source input)
    else if has_prefix rest (codes "header.")
    then source_header input (length prefix + length (codes "header.")) header
        (drop (length (codes "header.")) rest)
    else if has_prefix rest (codes "query.")
    then source_property input query (drop (length (codes "query.")) rest) empty_query_name
    else if has_prefix rest (codes "path.")
    then source_property input path (drop (length (codes "path.")) rest) empty_path_name
    else if eqb rest (codes "body")
    then ok (located input body)
    else if has_prefix rest (codes "body#")
    then ok (record (located input body) { json_pointer = drop (length (codes "body#")) rest })
    else err (unknown_source input)

unfoldable pub parse_source :
    (input prefix : Bytes)
    → (header query path body : ExpressionType) → Result ParseError Expression
unfolding source_rest
parse_source input prefix = source_rest input prefix (drop (length prefix) input)

-- What follows the first dot, if there is one. The flag says whether an empty name is refused.
unfoldable pub named_at :
    Bool → Bytes → Bytes → ExpressionType → Option ℕ → Result ParseError Expression
named_at strict input rest t none = ok (record (located input t) { name = rest })
named_at strict input rest t (some i) =
    if strict && i == 0
    then err (empty_name input)
    else ok (record (located input t) { name = take i rest; tail = drop (suc i) rest })

unfoldable pub named_rest : Bytes → Bytes → ExpressionType → Result ParseError Expression
named_rest input rest t =
    if is_empty rest
    then err (empty_name input)
    else named_at true input rest t (index_byte rest b'.')

unfoldable pub parse_named_expression :
    Bytes → Bytes → ExpressionType → Result ParseError Expression
unfolding named_rest named_at
parse_named_expression input prefix t = named_rest input (drop (length prefix) input) t

unfoldable pub components_rest : Bytes → Bytes → Result ParseError Expression
components_rest input rest =
    if is_empty rest
    then err (empty_name input)
    else if has_prefix rest (codes "parameters.")
    then (let name = drop (length (codes "parameters.")) rest in
        if is_empty name
        then err (empty_parameter_name input)
        else ok (record (located input component_parameters) { name = name }))
    else named_at false input rest components (index_byte rest b'.')

unfoldable pub parse_components : Bytes → Result ParseError Expression
unfolding components_rest named_at
parse_components input = components_rest input (drop (length (codes "$components.")) input)

-- `$inputs.` and `$outputs.`: the name is all that follows, and not empty.
unfoldable pub parse_plain : Bytes → Bytes → ExpressionType → Result ParseError Expression
parse_plain input prefix t =
    let name = drop (length prefix) input in
    if is_empty name then err (empty_name input) else ok (record (located input t) { name = name })

-- A constant expression.
unfoldable pub exactly : Bytes → Bytes → ExpressionType → Result ParseError Expression
exactly input text t =
    if eqb input text then ok (located input t) else err (unknown_expression input)

-- Go on if the input begins with the prefix.
unfoldable pub behind : Bytes → Bytes → Result ParseError Expression → Result ParseError Expression
behind input prefix go = if has_prefix input prefix then go else err (unknown_expression input)

unfoldable pub parse_s : Bytes → Result ParseError Expression
parse_s input =
    if eqb input (codes "$statusCode")
    then ok (located input status_code)
    else if has_prefix input (codes "$steps.")
    then parse_named_expression input (codes "$steps.") steps
    else behind input (codes "$sourceDescriptions.")
        (parse_named_expression input (codes "$sourceDescriptions.") source_descriptions)

unfoldable pub parse_r : Bytes → Result ParseError Expression
parse_r input =
    if has_prefix input (codes "$request.")
    then parse_source input (codes "$request.") request_header request_query request_path
        request_body
    else behind input (codes "$response.") (
        parse_source input (codes "$response.") response_header response_query response_path
          response_body)

-- The switch on the second byte.
unfoldable pub dispatch : Bytes → ℕ → Result ParseError Expression
unfolding exactly behind parse_s parse_r
dispatch input c =
    if c == b'u'
    then exactly input (codes "$url") url
    else if c == b'm'
    then exactly input (codes "$method") method
    else if c == b's'
    then parse_s input
    else if c == b'r'
    then parse_r input
    else if c == b'i'
    then behind input (codes "$inputs.") (parse_plain input (codes "$inputs.") inputs)
    else if c == b'o'
    then behind input (codes "$outputs.") (parse_plain input (codes "$outputs.") outputs)
    else if c == b'w'
    then behind input (codes "$workflows.")
        (parse_named_expression input (codes "$workflows.") workflows)
    else if c == b'c'
    then behind input (codes "$components.") (parse_components input)
    else err (unknown_prefix input)

unfoldable pub parse : Bytes → Result ParseError Expression
parse [] = err empty_expression
parse (c ∷ []) =
    if not (c == b'$') then err (bad_start (c ∷ [])) else err (incomplete_expression (c ∷ []))
parse (c ∷ d ∷ s) = if not (c == b'$') then err (bad_start (c ∷ [])) else dispatch (c ∷ d ∷ s) d

-- `Validate`: the error alone.
unfoldable pub validate : Bytes → Option ParseError
validate s = elim (parse s) [ ok _ ↦ none | err e ↦ some e ]
