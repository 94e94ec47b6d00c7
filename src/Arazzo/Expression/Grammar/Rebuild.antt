-- ===== src/Arazzo/Expression/Grammar/Rebuild.antt =====
-- arazzo/expression/parser.go, the helpers of `Parse` on text that the grammar spells.
use libopenapi.Prelude.{
  ℕ, ◌+◌, Bool, true, false, [], ◌∷◌, ◌++◌, ◌≡◌, ◌≢◌, inl, inr, refl, ap, ◌∙◌, arith, Bytes, codes,
  has_prefix, index_byte, index_byte-append, index_byte-Lacks, length, drop, take-append,
  drop-append, drop-suc-append, All, Lacks,
}
use libopenapi.Prelude.Outcome.{ok}
use libopenapi.Arazzo.Expression.{ExpressionType, components, component_parameters, Expression}
use libopenapi.Arazzo.Expression.Parser.{
  parse_named_expression, parse_plain, parse_components, check_header, is_tchar, named_at,
  named_rest, components_rest, source_header,
}
use libopenapi.Arazzo.Expression.Grammar.{SpellsNamed, SpellsPlain, SpellsAs}

check_header_complete :
    (s : Bytes) (pos : ℕ) (name : Bytes)
    → All (λ c. is_tchar c ≡ true) name
    → check_header s pos name ≡ ok tt
unfolding check_header
check_header_complete s pos [] h = refl
check_header_complete s pos (c ∷ name) h = ground (arith, check_header_complete s (pos + 1) name)

-- A name with a dot and a tail behind it.
named_at_dot :
    (strict : Bool) (s name tail : Bytes) (t : ExpressionType) (e : Expression)
    → e.raw ≡ s
    → e.type ≡ t
    → e.name ≡ name
    → e.tail ≡ tail
    → e.property ≡ []
    → e.json_pointer ≡ []
    → Lacks b'.' name
    → (strict ≡ true → name ≢ [])
    → named_at strict s (name ++ (b'.' ∷ tail)) t (index_byte (name ++ (b'.' ∷ tail)) b'.') ≡ ok e
unfolding named_at
named_at_dot strict s name tail t e a b c d f g l ne =
    rw (index_byte-append name tail b'.' l, named_at)
      (ground (arith, take-append name (b'.' ∷ tail), drop-suc-append name tail b'.', ne))

pub plain_complete :
    (s p : Bytes) (t : ExpressionType) (e : Expression)
    → e.raw ≡ s
    → e.type ≡ t
    → SpellsPlain p e s
    → parse_plain s p t ≡ ok e
unfolding parse_plain
plain_complete s p t e r q k = ground (arith, drop-append p e.name)

named_at_none :
    (strict : Bool) (s : Bytes) (t : ExpressionType) (e : Expression)
    → e.raw ≡ s
    → e.type ≡ t
    → e.tail ≡ []
    → e.property ≡ []
    → e.json_pointer ≡ []
    → Lacks b'.' e.name
    → named_at strict s e.name t (index_byte e.name b'.') ≡ ok e
unfolding named_at
named_at_none strict s t e r q a b c l =
    rw (index_byte-Lacks e.name b'.' l, named_at) (ground arith)

named_rest_complete :
    (s rest : Bytes) (t : ExpressionType) (e : Expression)
    → e.raw ≡ s
    → e.type ≡ t
    → SpellsNamed [] e rest
    → e.name ≢ []
    → named_rest s rest t ≡ ok e
unfolding named_rest
named_rest_complete s rest t e r q (l, inl (w, z), u, v) ne =
    ground (arith, named_at_none true s t e)
named_rest_complete s rest t e r q (l, inr w, u, v) ne =
    ground (arith, named_at_dot true s e.name e.tail t e)

pub named_complete :
    (s p : Bytes) (t : ExpressionType) (e : Expression)
    → e.raw ≡ s
    → e.type ≡ t
    → SpellsNamed p e s
    → e.name ≢ []
    → parse_named_expression s p t ≡ ok e
unfolding parse_named_expression
named_complete s p t e r q k ne = ground (
  arith,
  drop-append p e.name,
  drop-append p (e.name ++ (b'.' ∷ e.tail)),
  named_rest_complete s (drop (length p) s) t e,
)

components_rest_complete :
    (s rest : Bytes) (e : Expression)
    → e.raw ≡ s
    → e.type ≡ components
    → SpellsNamed [] e rest
    → rest ≢ []
    → has_prefix rest (codes "parameters.") ≡ false
    → components_rest s rest ≡ ok e
unfolding components_rest
components_rest_complete s [] e r q k ne f = absurd (ne refl)
components_rest_complete s (c ∷ rest) e r q (l, inl (w, z), u, v) ne f =
    rw f (ground (arith, named_at_none false s components e))
components_rest_complete s (c ∷ rest) e r q (l, inr w, u, v) ne f =
    rw f (ground (arith, named_at_dot false s e.name e.tail components e))

pub source_header_complete :
    (s : Bytes) (pos : ℕ) (t : ExpressionType) (e : Expression)
    → e.raw ≡ s
    → e.type ≡ t
    → e.name ≡ []
    → e.tail ≡ []
    → e.json_pointer ≡ []
    → e.property ≢ []
    → All (λ c. is_tchar c ≡ true) e.property
    → source_header s pos t e.property ≡ ok e
unfolding source_header
source_header_complete s pos t e r q a b c ne l =
    ground (arith, check_header_complete s pos e.property l)

-- What follows the prefix.
components_split :
    (s : Bytes) (e : Expression)
    → SpellsAs components e s
    → (rest : Bytes) × (s ≡ codes "$components." ++ rest)
      × SpellsNamed [] e rest
      × (rest ≢ [])
      × (has_prefix rest (codes "parameters.") ≡ false)
unfolding has_prefix
components_split s e ((l, inl (w, z), u, v), ne, f) = (
  e.name,
  w,
  (l, inl (refl, z), u, v),
  (λ q. ne (w ∙ ap (λ (x : Bytes). codes "$components." ++ x) q)),
  ground arith,
)
components_split s e ((l, inr w, u, v), ne, f) = (
  e.name ++ (b'.' ∷ e.tail),
  w,
  (l, inr refl, u, v),
  (λ q. ne (w ∙ ap (λ (x : Bytes). codes "$components." ++ x) q)),
  ground arith,
)

pub components_complete :
    (s : Bytes) (e : Expression)
    → e.raw ≡ s
    → e.type ≡ components
    → SpellsAs components e s
    → parse_components s ≡ ok e
unfolding parse_components
components_complete s e r q k =
    let (rest, w, n, ne, f) = components_split s e k in
    ground (arith, components_rest_complete s rest e r q n ne f)

pub parameters_complete :
    (s : Bytes) (e : Expression)
    → e.raw ≡ s
    → e.type ≡ component_parameters
    → SpellsAs component_parameters e s
    → parse_components s ≡ ok e
unfolding parse_components has_prefix
parameters_complete s e r q k = ground arith
