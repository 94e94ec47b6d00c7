-- ===== src/Arazzo/Validation/Clean/Fields.antt =====
-- arazzo/validation.go: the checks of parameters, criteria and component references find no error
-- exactly where the rules hold.
use libopenapi.Prelude.{
  Bool, true, false, not, List, [], ◌∷◌, ◌++◌, Option, none, some, Bytes, codes, eqb, has_prefix,
  has_prefix-drop, has_prefix-append, drop, drop-append, length, is_empty, if◌then◌else◌, ◌≡◌, ◌≢◌,
  ◌↔◌, inl, inr, refl, sym, ap, ◌∙◌, arith, Bool-cases,
}
use mathlib.Core.Path.{subst}
use libopenapi.Yaml.{Node, absent, node}
use libopenapi.Arazzo.Engine.{Parameter, is_reusable}
use libopenapi.Arazzo.Engine.References.{Components}
use libopenapi.Arazzo.Validation.{
  error, error_if, no_components, empty_component_name, unresolved_component_ref,
  missing_parameter_value, missing_parameter_in, invalid_parameter_in,
}
use libopenapi.Arazzo.Validation.Names.{at_index, at_field}
use libopenapi.Arazzo.Validation.Fields.{
  ComponentType, parameters_type, is_absent, has_component, expected_prefix, is_location,
  parameter_key, validate_component_reference, check_in, validate_parameter, validate_parameters,
}
use libopenapi.Arazzo.Validation.Clean.{
  Tests, both, unless, renamed, negated, non_empty, chosen, refuses, nothing, each_seen-Tests,
}
use libopenapi.Arazzo.Validation.Rules.{RefersTo, IsParameter, AreParameters}

-- A reference behind the expected prefix.
after_prefix :
    {P : Bytes → Type 0} (prefix reference : Bytes)
    → ((has_prefix reference prefix ≡ true → P (drop (length prefix) reference))
        × (has_prefix reference prefix ≡ false → ⊥))
      ↔ ((name : Bytes) × ((reference ≡ prefix ++ name) × P name))
after_prefix {P = P} prefix reference = (
  λ (there, gone). elim (Bool-cases (has_prefix reference prefix)) [
    | inl e ↦ (drop (length prefix) reference, (has_prefix-drop reference prefix e, there e))
    | inr e ↦ absurd (gone e)
  ],
  λ (name, (e, p)). (
    λ q. subst P (sym (ap (drop (length prefix)) e ∙ drop-append prefix name)) p,
    λ q.
        let r = sym (ap (λ s. has_prefix s prefix) e ∙ has_prefix-append prefix name) ∙ q in
        ground arith,
  ),
)

pub validate_component_reference-Tests :
    {F : Type 0} (components : Option (Components F)) (reference path : Bytes)
    (type : ComponentType)
    → Tests
        (validate_component_reference components reference path type)
        (RefersTo components type reference)
unfolding validate_component_reference
validate_component_reference-Tests none reference path type = refuses path no_components
validate_component_reference-Tests (some c) reference path type =
    renamed
      (after_prefix {P = λ name. (name ≢ []) × (has_component c type name ≡ true)}
        (expected_prefix type) reference)
      (chosen (has_prefix reference (expected_prefix type))
        (named (drop (length (expected_prefix type)) reference)) (refuses _ _))
  where
    named :
        (name : Bytes)
        → Tests
            (if is_empty name
              then error path (empty_component_name reference) ∷ []
              else error_if
                  (not (has_component c type name))
                  path
                  (unresolved_component_ref reference))
            ((name ≢ []) × (has_component c type name ≡ true))
    named [] =
        renamed (λ h. absurd h, λ h. absurd (h.0 refl))
          (refuses path (empty_component_name reference))
    named (x ∷ s) =
        renamed (λ h. (λ e. ground arith, h), λ h. h.1)
          (unless (not (has_component c type (x ∷ s))) path (unresolved_component_ref reference)
            (negated (has_component c type (x ∷ s))))

check_in-Tests :
    (path location : Bytes) → Tests (check_in path location) (is_location location ≡ true)
unfolding eqb
check_in-Tests path [] =
    renamed (λ h. absurd h, λ h. ground arith) (refuses path missing_parameter_in)
check_in-Tests path (c ∷ s) =
    unless (not (is_location (c ∷ s))) path invalid_parameter_in (negated (is_location (c ∷ s)))

absent-Tests :
    (n : Node) (path : Bytes)
    → Tests (error_if (is_absent n) path missing_parameter_value) (n ≢ absent)
absent-Tests absent path =
    renamed (λ h. absurd h, λ h. absurd (h refl)) (refuses path missing_parameter_value)
absent-Tests (node k t v c) path = renamed (λ h e. ground arith, λ h. tt) nothing

module _ {F : Type 0} (components : Option (Components F)) where
  if_keyed :
      (k : Bytes) (b seen : Bool)
      → ((b ≡ false → seen ≡ false) ↔ ((if b then none else some k) ≢ none → seen ≡ false))
  if_keyed k true seen = (λ h q. absurd (q refl), λ h e. ground arith)
  if_keyed k false seen = (λ h q. h refl, λ h e. h (λ q. ground arith))

  validate_parameter-Tests :
      (path : Bytes) (p : Option Parameter) (seen : Bool)
      → Tests
          (validate_parameter components path p seen)
          (IsParameter components p × (parameter_key p ≢ none → seen ≡ false))
  unfolding validate_parameter
  validate_parameter-Tests path none seen = record {
    rule_of = λ h. absurd h.0;
    clean_of = λ h. absurd h.0;
  }
  validate_parameter-Tests path (some p) seen =
      let (to, from) = if_keyed (p.name ++ (b':' ∷ p.location)) (is_reusable p.reference) seen in
      renamed
        (
          λ (r, f). ((r, λ e. let (a, (b, (c, d))) = f e in (a, (b, c))), to (λ e. (f e).1.1.1)),
          λ ((r, f), d). (r, λ e. let (a, (b, c)) = f e in (a, (b, (c, from d e)))),
        )
        (chosen (is_reusable p.reference)
          (validate_component_reference-Tests components p.reference
            (at_field path (codes "reference")) parameters_type)
          (both (unless (is_empty p.name) _ _ (non_empty p.name)) (
            both (absent-Tests p.value _)
              (both (check_in-Tests _ p.location) (unless seen _ _ (λ e. e, λ e. e))))))

  pub validate_parameters-Tests :
      (path : Bytes) (ps : List (Option Parameter))
      → Tests (validate_parameters components path ps) (AreParameters components ps)
  unfolding validate_parameters
  validate_parameters-Tests path =
      each_seen-Tests parameter_key (IsParameter components)
        (λ i p seen. validate_parameter components (at_index path i) p seen)
        (λ i p seen. validate_parameter-Tests (at_index path i) p seen)
