-- ===== src/Arazzo/Expression/Grammar/Shapes.antt =====
-- arazzo/expression/parser.go, the helpers of `Parse`: from what they accept to the grammar.
use libopenapi.Prelude.{
  ℕ, zero, suc, ◌+◌, Bool, true, false, [], ◌∷◌, ◌++◌, ◌≡◌, ◌≢◌, ◌⊎◌, inl, inr, refl, sym, ap, ◌∙◌,
  arith, Option, none, some, Bytes, codes, ◌==◌, eqb-eq, has_prefix, has_prefix-drop, index_byte,
  index_byte-none, index_byte-some, length, take, drop, All, Lacks, Bool-cases,
}
use libopenapi.Prelude.Outcome.{ok}
use libopenapi.Arazzo.Expression.{ExpressionType, components, component_parameters, Expression}
use libopenapi.Arazzo.Expression.Parser.{
  parse_named_expression, parse_plain, parse_components, check_header, is_tchar, named_at,
  named_rest, components_rest, source_rest, source_header,
}
use libopenapi.Arazzo.Expression.Grammar.{
  SpellsNamed, SpellsPlain, SpellsProperty, SpellsHeader, SpellsBody, Spells,
}

-- What a name with an optional tail says of the text behind the prefix.
abbrev Names : Bytes → Expression → Type 0
Names rest e =
    Lacks b'.' e.name
    × (((rest ≡ e.name) × (e.tail ≡ [])) ⊎ (rest ≡ e.name ++ (b'.' ∷ e.tail)))
    × (e.property ≡ [])
    × (e.json_pointer ≡ [])

take-ne-nil : (i : ℕ) (c : ℕ) (s : Bytes) → (i == 0) ≡ false → take i (c ∷ s) ≢ []
take-ne-nil zero c s h = cc
take-ne-nil (suc i) c s h = cc

named_at_sound :
    (strict : Bool) (s : Bytes) (c : ℕ) (rest : Bytes) (t : ExpressionType) (e : Expression)
    (o : Option ℕ)
    → index_byte (c ∷ rest) b'.' ≡ o
    → named_at strict s (c ∷ rest) t o ≡ ok e
    → (e.raw ≡ s) × (e.type ≡ t) × Names (c ∷ rest) e × (strict ≡ true → e.name ≢ [])
unfolding named_at
named_at_sound strict s c rest t e none i h = ground (arith, index_byte-none (c ∷ rest) b'.')
named_at_sound strict s c rest t e (some i) f h =
    ground (arith, index_byte-some (c ∷ rest) b'.' i, take-ne-nil i c rest)

named_rest_sound :
    (s rest : Bytes) (t : ExpressionType) (e : Expression)
    → named_rest s rest t ≡ ok e
    → (e.raw ≡ s) × (e.type ≡ t) × Names rest e × (e.name ≢ [])
unfolding named_rest
named_rest_sound s [] t e h = cc
named_rest_sound s (c ∷ rest) t e h =
    let r = named_at_sound true s c rest t e _ refl h in (r.0, r.1, r.2, r.3 refl)

Names-SpellsNamed :
    (p rest s : Bytes) (e : Expression) → s ≡ p ++ rest → Names rest e → SpellsNamed p e s
Names-SpellsNamed p rest s e q n = ground arith

pub parse_named_sound :
    (s p : Bytes) (t : ExpressionType) (e : Expression)
    → has_prefix s p ≡ true
    → parse_named_expression s p t ≡ ok e
    → (e.raw ≡ s) × (e.type ≡ t) × SpellsNamed p e s × (e.name ≢ [])
unfolding parse_named_expression
parse_named_sound s p t e pre h =
    let r = named_rest_sound s (drop (length p) s) t e h in
    (r.0, r.1, Names-SpellsNamed p _ s e (has_prefix-drop s p pre) r.2, r.3)

pub parse_plain_sound :
    (s p : Bytes) (t : ExpressionType) (e : Expression)
    → has_prefix s p ≡ true
    → parse_plain s p t ≡ ok e
    → (e.raw ≡ s) × (e.type ≡ t) × SpellsPlain p e s
unfolding parse_plain
parse_plain_sound s p t e pre h = ground (arith, has_prefix-drop s p pre)

-- A prefix of what follows a prefix.
has_prefix-append_drop :
    (s p q : Bytes)
    → has_prefix s p ≡ true
    → has_prefix s (p ++ q) ≡ has_prefix (drop (length p) s) q
unfolding has_prefix
has_prefix-append_drop s [] q h = refl
has_prefix-append_drop [] (x ∷ p) q h = cc
has_prefix-append_drop (y ∷ s) (x ∷ p) q h = ground (arith, has_prefix-append_drop s p q)

drop-ne-prefix : (s p : Bytes) (c : ℕ) (r : Bytes) → drop (length p) s ≡ c ∷ r → s ≢ p
drop-ne-prefix [] p c r h e = ground (arith, ap length (sym e))
drop-ne-prefix (x ∷ s) [] c r h e = cc
drop-ne-prefix (x ∷ s) (y ∷ p) c r h e = ground (arith, drop-ne-prefix s p c r h)

components_rest_sound :
    (s rest : Bytes) (e : Expression)
    → components_rest s rest ≡ ok e
    → (e.raw ≡ s)
      × (((e.type ≡ components)
            × Names rest e
            × (rest ≢ [])
            × (has_prefix rest (codes "parameters.") ≡ false))
          ⊎ ((e.type ≡ component_parameters) × SpellsPlain (codes "parameters.") e rest))
unfolding components_rest
components_rest_sound s [] e h = cc
components_rest_sound s (c ∷ rest) e h =
    elim (Bool-cases (has_prefix (c ∷ rest) (codes "parameters."))) [
      | inl y ↦
          let h' = rw y at h in ground (arith, has_prefix-drop (c ∷ rest) (codes "parameters.") y)
      | inr n ↦
          let h' : named_at false s (c ∷ rest) components (index_byte (c ∷ rest) b'.') ≡ ok e =
            rw n at h in
          let r = named_at_sound false s c rest components e _ refl h' in
          (r.0, inl (r.1, r.2, (λ q. cc), n))
    ]

pub parse_components_sound :
    (s : Bytes) (e : Expression)
    → has_prefix s (codes "$components.") ≡ true
    → parse_components s ≡ ok e
    → Spells s e
unfolding parse_components
parse_components_sound s e pre h =
    let rest = drop (length (codes "$components.")) s in
    let whole : s ≡ codes "$components." ++ rest = has_prefix-drop s (codes "$components.") pre in
    let r = components_rest_sound s rest e h in
    elim r.1 [
      | inl (t, n, ne, other) ↦ (
        r.0,
        rw t (
          Names-SpellsNamed (codes "$components.") rest s e whole n,
          (λ (q : s ≡ codes "$components."). ne (ap (drop (length (codes "$components."))) q)),
          λ (q : has_prefix s (codes "$components.parameters.") ≡ true).
              let q' = has_prefix-append_drop s (codes "$components.") (codes "parameters.") pre in
              ground (arith),
        ),
      )
      | inr (t, p) ↦ (
        r.0,
        rw t (whole ∙ ap (λ (x : Bytes). codes "$components." ++ x) p.0, p.1, p.2, p.3, p.4),
      )
    ]

check_header_sound :
    (s : Bytes) (pos : ℕ) (name : Bytes)
    → check_header s pos name ≡ ok tt
    → All (λ c. is_tchar c ≡ true) name
unfolding check_header
check_header_sound s pos [] h = tt
check_header_sound s pos (c ∷ name) h = ground (arith, check_header_sound s (pos + 1) name)

-- The four kinds of source behind `$request.` or `$response.`.
abbrev pub Sources : Bytes → Bytes → (header query path body : ExpressionType) → Expression → Type 0
Sources s rest header query path body e =
    (e.raw ≡ s)
    × (((e.type ≡ header) × SpellsHeader (codes "header.") e rest)
        ⊎ (((e.type ≡ query) × SpellsProperty (codes "query.") e rest)
            ⊎ (((e.type ≡ path) × SpellsProperty (codes "path.") e rest)
                ⊎ ((e.type ≡ body) × SpellsBody (codes "body") e rest))))

source_header_sound :
    (s : Bytes) (pos : ℕ) (t : ExpressionType) (name : Bytes) (e : Expression)
    → source_header s pos t name ≡ ok e
    → (e.raw ≡ s)
      × (e.type ≡ t)
      × (e.property ≡ name)
      × (name ≢ [])
      × All (λ c. is_tchar c ≡ true) name
      × (e.name ≡ [])
      × (e.tail ≡ [])
      × (e.json_pointer ≡ [])
unfolding source_header
source_header_sound s pos t name e h = ground (arith, check_header_sound s pos name)

pub source_rest_sound :
    (s p rest : Bytes) (header query path body : ExpressionType) (e : Expression)
    → source_rest s p rest header query path body ≡ ok e
    → Sources s rest header query path body e
unfolding source_rest
source_rest_sound s p rest header query path body e h = ground (
  arith,
  has_prefix-drop rest (codes "header."),
  has_prefix-drop rest (codes "query."),
  has_prefix-drop rest (codes "path."),
  has_prefix-drop rest (codes "body#"),
  eqb-eq rest (codes "body"),
  source_header_sound s (length p + length (codes "header.")) header
      (drop (length (codes "header.")) rest) e,
)
