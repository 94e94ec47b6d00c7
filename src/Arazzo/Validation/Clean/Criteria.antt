-- ===== src/Arazzo/Validation/Clean/Criteria.antt =====
-- arazzo/validation.go: the checks of criteria and of keys find no error exactly where the rules
-- hold.
use libopenapi.Prelude.{
  Bool, true, false, not, ◌&&◌, ◌||◌, List, [], ◌∷◌, ◌++◌, Option, none, some, Bytes, codes, eqb,
  eqb_iff, is_empty, ◌≡◌, ◌≢◌, ◌↔◌, ◌⊎◌, inl, inr, refl, sym, ap, ◌∙◌, arith, All, Bool-cases,
}
use mathlib.Core.Path.{subst}
use libopenapi.Prelude.Outcome.{Result, ok, err, Result-cases}
use libopenapi.Arazzo.Expression.{Expression, ParseError}
use libopenapi.Arazzo.Expression.Parser.{parse, validate}
use libopenapi.Arazzo.Expression.Grammar.{Spells}
use libopenapi.Arazzo.Expression.Grammar.Sound.{parse_sound}
use libopenapi.Arazzo.Expression.Grammar.Complete.{parse_complete}
use libopenapi.Arazzo.Criterion.{Criterion, CriterionExpressionType, effective_type}
use libopenapi.Arazzo.Engine.References.{Components}
use libopenapi.Arazzo.Validation.{
  Reports, error, error_if, Cause, bad_component_key, bad_output_key, invalid_expression,
}
use libopenapi.Arazzo.Validation.Names.{at_field, is_component_key, check_output_keys}
use libopenapi.Arazzo.Validation.Fields.{
  validate_criterion_expression_type, check_context, validate_criterion, validate_component_keys_of,
  validate_component_keys, component_key_path, entries_of,
}
use libopenapi.Arazzo.Validation.Clean.{
  Tests, both, unless, renamed, negated, non_empty, chosen, refuses, nothing,
}
use libopenapi.Arazzo.Validation.Rules.{
  HasKnownVersion, HasType, IsCriterion, HasOutputKeys, HasComponentKeys, HasKeys,
}

is_simple :
    (t context : Bytes)
    → ((not (eqb t (codes "simple")) && is_empty context) ≡ false)
      ↔ (t ≢ codes "simple" → context ≢ [])
is_simple t [] = (
  λ e h. absurd (h ((eqb_iff t (codes "simple")).0 (ground arith))),
  λ h. elim (Bool-cases (eqb t (codes "simple"))) [
    | inl e ↦ rw e refl
    | inr e ↦
        absurd (h (λ q. let r = sym ((eqb_iff t (codes "simple")).1 q) ∙ e in ground arith) refl)
  ],
)
is_simple t (c ∷ s) = (λ e h q. ground arith, λ h. ground arith)

or_empty :
    (v : Bytes) (b : Bool) {V : Type 0}
    → ((b ≡ true) ↔ V)
    → ((not (is_empty v) && not b) ≡ false) ↔ ((v ≡ []) ⊎ V)
or_empty [] b f = (λ e. inl refl, λ h. refl)
or_empty (c ∷ s) true f = (λ e. inr (f.0 refl), λ h. refl)
or_empty (c ∷ s) false f = (
  λ e. ground arith,
  λ h. elim h [ inl q ↦ ground arith | inr x ↦ let e = f.1 x in ground arith ],
)

guarded_or_empty :
    (x : Bool) (v : Bytes) (b : Bool) {V : Type 0}
    → ((b ≡ true) ↔ V)
    → ((x && not (is_empty v) && not b) ≡ false) ↔ (x ≡ true → (v ≡ []) ⊎ V)
guarded_or_empty true v b f = let (to, from) = or_empty v b f in (λ e q. to e, λ h. from (h refl))
guarded_or_empty false v b f = (λ e q. ground arith, λ h. refl)

one_of_three :
    (v a b c : Bytes) → ((eqb v a || eqb v b || eqb v c) ≡ true) ↔ ((v ≡ a) ⊎ ((v ≡ b) ⊎ (v ≡ c)))
one_of_three v a b c = any (eqb v a) (eqb v b) (eqb v c) (eqb_iff v a) (eqb_iff v b) (eqb_iff v c)
  where
    any :
        (x y z : Bool) {P Q R : Type 0}
        → ((x ≡ true) ↔ P)
        → ((y ≡ true) ↔ Q)
        → ((z ≡ true) ↔ R)
        → ((x || y || z) ≡ true) ↔ (P ⊎ (Q ⊎ R))
    any true y z f g h = (λ e. inl (f.0 refl), λ e. refl)
    any false true z f g h = (λ e. inr (inl (g.0 refl)), λ e. refl)
    any false false z f g h = (
      λ e. inr (inr (h.0 e)),
      elim [
        | inl p ↦ let e = f.1 p in ground arith
        | inr (inl q) ↦ let e = g.1 q in ground arith
        | inr (inr r) ↦ h.1 r
      ],
    )

abbrev json_path_name : Bytes
json_path_name = codes "jsonpath"

abbrev xpath_name : Bytes
xpath_name = codes "xpath"

-- The tests of the type, one behind the other, are rules side by side.
by_type :
    (t : Bytes) {J X : Type 0}
    → ((is_empty t ≡ true → ⊥)
        × (is_empty t ≡ false
            → (eqb t json_path_name ≡ true → J)
              × (eqb t json_path_name ≡ false → eqb t xpath_name ≡ true → X)))
      ↔ ((t ≢ []) × ((t ≡ json_path_name → J) × (t ≡ xpath_name → X)))
unfolding eqb
by_type t = (
  λ (a, b).
      let some_type : t ≢ [] = λ e. a (ap is_empty e) in
      let (j, x) = b ((non_empty t).1 some_type) in
      (
        some_type,
        (
          λ q. j ((eqb_iff t json_path_name).1 q),
          λ q. x (ap (λ s. eqb s json_path_name) q) ((eqb_iff t xpath_name).1 q),
        ),
      ),
  λ (n, (j, x)). (
    λ e. let f = (non_empty t).1 n in ground arith,
    λ e. (λ q. j ((eqb_iff t json_path_name).0 q), λ r q. x ((eqb_iff t xpath_name).0 q)),
  ),
)

expression_type-Tests :
    (path : Bytes) (cet : CriterionExpressionType)
    → Tests (validate_criterion_expression_type path cet) (HasKnownVersion cet)
unfolding validate_criterion_expression_type
expression_type-Tests path cet =
    let draft = codes "draft-goessner-dispatch-jsonpath-00" in
    renamed (by_type cet.type) (
      chosen (is_empty cet.type) (refuses _ _) (
        chosen (eqb cet.type json_path_name)
          (unless _ _ _ (or_empty cet.version (eqb cet.version draft) (eqb_iff cet.version draft)))
          (unless _ _ _ (
            guarded_or_empty (eqb cet.type xpath_name) cet.version _ (
              one_of_three cet.version (codes "xpath-30") (codes "xpath-20") (codes "xpath-10"))))))

validate-Spells : (s : Bytes) → (validate s ≡ none) ↔ ((e : Expression) × Spells s e)
unfolding validate
validate-Spells s = elim (Result-cases (parse s)) [
  | inl (e, q) ↦ (λ h. (e, parse_sound s e q), λ h. ap as_option q)
  | inr (x, q) ↦ (
    λ h. let r = sym (ap as_option q) ∙ h in ground arith,
    λ (e, h). let r = sym (parse_complete s e h) ∙ q in ground arith,
  )
]
  where
    as_option : Result ParseError Expression → Option ParseError
    as_option r = elim r [ ok _ ↦ none | err e ↦ some e ]

check_context-Tests :
    (path context : Bytes)
    → Tests (check_context path context) (context ≢ [] → (e : Expression) × Spells context e)
check_context-Tests path [] = record { rule_of = λ h q. absurd (q refl); clean_of = λ h. tt }
check_context-Tests path (c ∷ s) =
    renamed
      (
        λ h q. (validate-Spells (c ∷ s)).0 h,
        λ h. (validate-Spells (c ∷ s)).1 (h (λ e. ground arith)),
      )
      (accepted (validate (c ∷ s)))
  where
    accepted :
        (o : Option ParseError)
        → Tests (elim o [ none ↦ [] | some e ↦ error path (invalid_expression e) ∷ [] ]) (o ≡ none)
    accepted none = renamed (λ h. refl, λ h. tt) nothing
    accepted (some e) =
        renamed (λ h. absurd h, λ h. ground arith) (refuses path (invalid_expression e))

pub validate_criterion-Tests :
    (path : Bytes) (c : Criterion) → Tests (validate_criterion path c) (IsCriterion c)
unfolding validate_criterion
validate_criterion-Tests path c = both (unless (is_empty c.condition) _ _ (non_empty c.condition)) (
    both
      (unless (not (eqb (effective_type c) (codes "simple")) && is_empty c.context) _ _
        (is_simple (effective_type c) c.context))
      (both (typed c.expression_type) (check_context-Tests _ c.context)))
  where
    typed :
        (o : Option CriterionExpressionType)
        → Tests
            (elim o [
              | none ↦ []
              | some cet ↦ validate_criterion_expression_type (at_field path (codes "type")) cet
            ])
            (HasType o)
    typed none = nothing
    typed (some cet) = expression_type-Tests _ cet

key-Tests :
    {A : Type 0} (path : Bytes → Bytes) (cause : Bytes → Cause) (check : List (Bytes × A) → Reports)
    → (check [] ≡ [])
    → ((k : Bytes) (a : A) (m : List (Bytes × A))
        → check ((k, a) ∷ m) ≡ error_if (not (is_component_key k)) (path k) (cause k) ++ check m)
    → (m : List (Bytes × A)) → Tests (check m) (All (λ e. is_component_key e.0 ≡ true) m)
key-Tests path cause check e f [] = subst (λ rs. Tests rs Unit) (sym e) nothing
key-Tests path cause check e f ((k, a) ∷ m) =
    subst (λ rs. Tests rs ((is_component_key k ≡ true) × All (λ e. is_component_key e.0 ≡ true) m))
      (sym (f k a m))
      (both (unless (not (is_component_key k)) (path k) (cause k) (negated (is_component_key k)))
        (key-Tests path cause check e f m))

pub check_output_keys-Tests :
    (path : Bytes) (outputs : List (Bytes × Bytes))
    → Tests (check_output_keys path outputs) (HasOutputKeys outputs)
unfolding check_output_keys
check_output_keys-Tests path =
    key-Tests (λ k. at_field (at_field path (codes "outputs")) k) bad_output_key
      (check_output_keys path) refl (λ k v m. refl)

keys_of-Tests :
    {A : Type 0} (type : Bytes) (m : List (Bytes × A))
    → Tests (validate_component_keys_of type m) (All (λ e. is_component_key e.0 ≡ true) m)
unfolding validate_component_keys_of
keys_of-Tests type =
    key-Tests (λ k. component_key_path type k) bad_component_key (validate_component_keys_of type)
      refl (λ k a m. refl)

pub validate_component_keys-Tests :
    {F : Type 0} (components : Option (Components F))
    → Tests (validate_component_keys components) (HasComponentKeys components)
unfolding validate_component_keys
validate_component_keys-Tests none = nothing
validate_component_keys-Tests (some c) = both (of (codes "parameters") c.parameters) (
    both (of (codes "successActions") c.success_actions)
      (both (of (codes "failureActions") c.failure_actions) (of (codes "inputs") c.inputs)))
  where
    of :
        {A : Type 0} (type : Bytes) (o : Option (List (Bytes × A)))
        → Tests (validate_component_keys_of type (entries_of o)) (HasKeys o)
    of {A = A} type none = keys_of-Tests {A = A} type []
    of type (some m) = keys_of-Tests type m
