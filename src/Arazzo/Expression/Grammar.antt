-- ===== src/Arazzo/Expression/Grammar.antt =====
-- The grammar of runtime expressions, stated apart from the parser: which text spells which
-- expression.
pub mod Shapes
pub mod Sound
pub mod Rebuild
pub mod Complete
use libopenapi.Prelude.{
  Bool, true, [], ◌∷◌, ◌++◌, ◌≡◌, ◌≢◌, ◌⊎◌, inl, inr, Bytes, codes, has_prefix, All, Lacks,
}
use libopenapi.Arazzo.Expression.{
  ExpressionType, url, method, status_code, request_header, request_query, request_path,
  request_body, response_header, response_query, response_path, response_body, inputs, outputs,
  steps, workflows, source_descriptions, components, component_parameters, Expression,
}
use libopenapi.Arazzo.Expression.Parser.{is_tchar}

-- The text is the prefix and the name, or these with a dot and the tail. No dot in the name.
abbrev pub SpellsNamed : Bytes → Expression → Bytes → Type 0
SpellsNamed p e s =
    Lacks b'.' e.name
    × (((s ≡ p ++ e.name) × (e.tail ≡ [])) ⊎ (s ≡ p ++ (e.name ++ (b'.' ∷ e.tail))))
    × (e.property ≡ [])
    × (e.json_pointer ≡ [])

abbrev pub SpellsPlain : Bytes → Expression → Bytes → Type 0
SpellsPlain p e s =
    (s ≡ p ++ e.name) × (e.name ≢ []) × (e.tail ≡ []) × (e.property ≡ []) × (e.json_pointer ≡ [])

abbrev pub SpellsProperty : Bytes → Expression → Bytes → Type 0
SpellsProperty p e s =
    (s ≡ p ++ e.property)
    × (e.property ≢ [])
    × (e.name ≡ [])
    × (e.tail ≡ [])
    × (e.json_pointer ≡ [])

abbrev pub SpellsHeader : Bytes → Expression → Bytes → Type 0
SpellsHeader p e s = SpellsProperty p e s × All (λ c. is_tchar c ≡ true) e.property

-- `body`, or `body#` with a pointer.
abbrev pub SpellsBody : Bytes → Expression → Bytes → Type 0
SpellsBody p e s =
    (((s ≡ p) × (e.json_pointer ≡ [])) ⊎ (s ≡ p ++ (b'#' ∷ e.json_pointer)))
    × (e.name ≡ [])
    × (e.tail ≡ [])
    × (e.property ≡ [])

abbrev pub SpellsConstant : Bytes → Expression → Bytes → Type 0
SpellsConstant p e s =
    (s ≡ p) × (e.name ≡ []) × (e.tail ≡ []) × (e.property ≡ []) × (e.json_pointer ≡ [])

abbrev pub SpellsAs : ExpressionType → Expression → Bytes → Type 0
SpellsAs url = SpellsConstant (codes "$url")
SpellsAs method = SpellsConstant (codes "$method")
SpellsAs status_code = SpellsConstant (codes "$statusCode")
SpellsAs request_header = SpellsHeader (codes "$request.header.")
SpellsAs request_query = SpellsProperty (codes "$request.query.")
SpellsAs request_path = SpellsProperty (codes "$request.path.")
SpellsAs request_body = SpellsBody (codes "$request.body")
SpellsAs response_header = SpellsHeader (codes "$response.header.")
SpellsAs response_query = SpellsProperty (codes "$response.query.")
SpellsAs response_path = SpellsProperty (codes "$response.path.")
SpellsAs response_body = SpellsBody (codes "$response.body")
SpellsAs inputs = SpellsPlain (codes "$inputs.")
SpellsAs outputs = SpellsPlain (codes "$outputs.")
SpellsAs steps = λ e s. SpellsNamed (codes "$steps.") e s × (e.name ≢ [])
SpellsAs workflows = λ e s. SpellsNamed (codes "$workflows.") e s × (e.name ≢ [])
SpellsAs source_descriptions = λ e s. SpellsNamed (codes "$sourceDescriptions.") e s × (e.name ≢ [])
SpellsAs components = λ e s.
    SpellsNamed (codes "$components.") e s
    × (s ≢ codes "$components.")
    × (has_prefix s (codes "$components.parameters.") ≢ true)
SpellsAs component_parameters = SpellsPlain (codes "$components.parameters.")

-- The text spells the expression, which also carries the text.
abbrev pub Spells : Bytes → Expression → Type 0
Spells s e = (e.raw ≡ s) × SpellsAs e.type e s
