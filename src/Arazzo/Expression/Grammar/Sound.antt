-- ===== src/Arazzo/Expression/Grammar/Sound.antt =====
-- arazzo/expression/parser.go, `Parse`: from what it accepts to the grammar.
use libopenapi.Prelude.{
  ℕ, true, [], ◌∷◌, ◌++◌, ◌≡◌, inl, inr, sym, append_assoc, arith, Bytes, codes, eqb-eq, has_prefix,
  has_prefix-drop, length, drop, Bool-cases,
}
use libopenapi.Prelude.Outcome.{Result, ok}
use libopenapi.Arazzo.Expression.{
  ExpressionType, url, method, request_header, request_query, request_path, request_body,
  response_header, response_query, response_path, response_body, inputs, outputs, steps, workflows,
  source_descriptions, Expression, ParseError,
}
use libopenapi.Arazzo.Expression.Parser.{
  parse, dispatch, parse_named_expression, parse_plain, parse_components, parse_source, exactly,
  behind, parse_s, parse_r,
}
use libopenapi.Arazzo.Expression.Grammar.{SpellsProperty, SpellsBody, SpellsConstant, Spells}
use libopenapi.Arazzo.Expression.Grammar.Shapes.{
  parse_named_sound, parse_plain_sound, parse_components_sound, Sources, source_rest_sound,
}

exactly_sound :
    (s text : Bytes) (t : ExpressionType) (e : Expression)
    → exactly s text t ≡ ok e
    → (e.raw ≡ s) × (e.type ≡ t) × SpellsConstant text e s
unfolding exactly
exactly_sound s text t e h = ground (arith, eqb-eq s text)

parse_source_sound :
    (s p : Bytes) (header query path body : ExpressionType) (e : Expression)
    → has_prefix s p ≡ true
    → parse_source s p header query path body ≡ ok e
    → (rest : Bytes) × (s ≡ p ++ rest) × Sources s rest header query path body e
unfolding parse_source
parse_source_sound s p header query path body e pre h = (
  drop (length p) s,
  has_prefix-drop s p pre,
  source_rest_sound s p (drop (length p) s) header query path body e h,
)

behind-eq-ok :
    (s p : Bytes) (go : Result ParseError Expression) (e : Expression)
    → behind s p go ≡ ok e
    → (has_prefix s p ≡ true) × (go ≡ ok e)
unfolding behind
behind-eq-ok s p go e h = ground arith

parse_s_sound : (s : Bytes) (e : Expression) → parse_s s ≡ ok e → Spells s e
unfolding parse_s
parse_s_sound s e h = ground (
  arith,
  eqb-eq s (codes "$statusCode"),
  parse_named_sound s (codes "$steps.") steps e,
  parse_named_sound s (codes "$sourceDescriptions.") source_descriptions e,
  behind-eq-ok s (codes "$sourceDescriptions.")
      (parse_named_expression s (codes "$sourceDescriptions.") source_descriptions) e,
)

prefix-append : (q p rest x s : Bytes) → s ≡ q ++ rest → rest ≡ p ++ x → s ≡ (q ++ p) ++ x
prefix-append q p rest x s w k = rw (w, k) (sym (append_assoc q p x))

SpellsProperty-append :
    (q p rest s : Bytes) (e : Expression)
    → s ≡ q ++ rest
    → SpellsProperty p e rest
    → SpellsProperty (q ++ p) e s
SpellsProperty-append q p rest s e w k = ground (arith, prefix-append q p rest e.property s w)

SpellsBody-append :
    (q p rest s : Bytes) (e : Expression)
    → s ≡ q ++ rest
    → SpellsBody p e rest
    → SpellsBody (q ++ p) e s
SpellsBody-append q p rest s e w k =
    ground (arith, prefix-append q p rest (b'#' ∷ e.json_pointer) s w)

request_sound :
    (s rest : Bytes) (e : Expression)
    → s ≡ codes "$request." ++ rest
    → Sources s rest request_header request_query request_path request_body e
    → Spells s e
request_sound s rest e w (r, inl (t, (p, k))) =
    (r, rw t (SpellsProperty-append (codes "$request.") (codes "header.") rest s e w p, k))
request_sound s rest e w (r, inr (inl (t, p))) =
    (r, rw t (SpellsProperty-append (codes "$request.") (codes "query.") rest s e w p))
request_sound s rest e w (r, inr (inr (inl (t, p)))) =
    (r, rw t (SpellsProperty-append (codes "$request.") (codes "path.") rest s e w p))
request_sound s rest e w (r, inr (inr (inr (t, p)))) =
    (r, rw t (SpellsBody-append (codes "$request.") (codes "body") rest s e w p))

response_sound :
    (s rest : Bytes) (e : Expression)
    → s ≡ codes "$response." ++ rest
    → Sources s rest response_header response_query response_path response_body e
    → Spells s e
response_sound s rest e w (r, inl (t, (p, k))) =
    (r, rw t (SpellsProperty-append (codes "$response.") (codes "header.") rest s e w p, k))
response_sound s rest e w (r, inr (inl (t, p))) =
    (r, rw t (SpellsProperty-append (codes "$response.") (codes "query.") rest s e w p))
response_sound s rest e w (r, inr (inr (inl (t, p)))) =
    (r, rw t (SpellsProperty-append (codes "$response.") (codes "path.") rest s e w p))
response_sound s rest e w (r, inr (inr (inr (t, p)))) =
    (r, rw t (SpellsBody-append (codes "$response.") (codes "body") rest s e w p))

parse_r_sound : (s : Bytes) (e : Expression) → parse_r s ≡ ok e → Spells s e
unfolding parse_r
parse_r_sound s e h = elim (Bool-cases (has_prefix s (codes "$request."))) [
  | inl y ↦
      let (rest, w, k) =
        parse_source_sound s (codes "$request.") request_header request_query request_path
          request_body e y (rw y at h) in
      request_sound s rest e w k
  | inr n ↦
      let b = behind-eq-ok s (codes "$response.") _ e (rw n at h) in
      let (rest, w, k) =
        parse_source_sound s (codes "$response.") response_header response_query response_path
          response_body e b.0 b.1 in
      response_sound s rest e w k
]

dispatch_sound : (s : Bytes) (c : ℕ) (e : Expression) → dispatch s c ≡ ok e → Spells s e
unfolding dispatch
dispatch_sound s c e h = ground (
  arith,
  exactly_sound s (codes "$url") url e,
  exactly_sound s (codes "$method") method e,
  parse_s_sound s e,
  parse_r_sound s e,
  behind-eq-ok s (codes "$inputs.") (parse_plain s (codes "$inputs.") inputs) e,
  behind-eq-ok s (codes "$outputs.") (parse_plain s (codes "$outputs.") outputs) e,
  behind-eq-ok s (codes "$workflows.") (parse_named_expression s (codes "$workflows.") workflows) e,
  behind-eq-ok s (codes "$components.") (parse_components s) e,
  parse_plain_sound s (codes "$inputs.") inputs e,
  parse_plain_sound s (codes "$outputs.") outputs e,
  parse_named_sound s (codes "$workflows.") workflows e,
  parse_components_sound s e,
)

-- Whatever `Parse` accepts, the input spells the expression that it returns.
pub parse_sound : (s : Bytes) (e : Expression) → parse s ≡ ok e → Spells s e
unfolding parse
parse_sound [] e h = cc
parse_sound (c ∷ []) e h = ground arith
parse_sound (c ∷ d ∷ s) e h = ground (arith, dispatch_sound (c ∷ d ∷ s) d e)
