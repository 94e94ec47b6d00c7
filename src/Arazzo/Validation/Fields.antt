-- ===== src/Arazzo/Validation/Fields.antt =====
-- arazzo/validation.go: parameters, criteria, and references to components and their keys.
use libopenapi.Prelude.{
  Bool, true, false, not, ◌&&◌, ◌||◌, List, [], ◌∷◌, ◌++◌, Option, none, some, Bytes, codes, eqb,
  has_prefix, drop, length, is_empty, if◌then◌else◌,
}
use libopenapi.Prelude.Dict.{lookup}
use libopenapi.Yaml.{Node, absent, node}
use libopenapi.Arazzo.Expression.Parser.{validate}
use libopenapi.Arazzo.Criterion.{Criterion, CriterionExpressionType, effective_type}
use libopenapi.Arazzo.Engine.{Parameter, is_reusable}
use libopenapi.Arazzo.Engine.References.{Components}
use libopenapi.Arazzo.Validation.{
  error, nil_dereference, Reports, error_if, missing_parameter_name, missing_parameter_value,
  missing_parameter_in, invalid_parameter_in, duplicate_parameter, missing_condition,
  missing_context, missing_expression_type, unknown_jsonpath_version, unknown_xpath_version,
  invalid_expression, no_components, bad_reference_start, empty_component_name,
  unresolved_component_ref, bad_component_key,
}
use libopenapi.Arazzo.Validation.Names.{at_index, at_field, is_component_key, each_seen}

-- The values of `componentType` in calls of `validateComponentReference`.
pub data ComponentType : Type 0 where
  parameters_type success_actions_type failure_actions_type : ComponentType

abbrev pub type_name : ComponentType → Bytes
type_name parameters_type = codes "parameters"
type_name success_actions_type = codes "successActions"
type_name failure_actions_type = codes "failureActions"

-- Whether the map has the name; a nil map has none.
unfoldable pub has_entry : {A : Type 0} → Bytes → Option (List (Bytes × A)) → Bool
unfolding lookup
has_entry name none = false
has_entry name (some m) = elim (lookup name m) [ none ↦ false | some a ↦ true ]

abbrev pub has_component : {F : Type 0} → Components F → ComponentType → Bytes → Bool
has_component c parameters_type name = has_entry name c.parameters
has_component c success_actions_type name = has_entry name c.success_actions
has_component c failure_actions_type name = has_entry name c.failure_actions

abbrev pub expected_prefix : ComponentType → Bytes
expected_prefix type = codes "$components." ++ (type_name type ++ codes ".")

abbrev named_component :
    {F : Type 0} → Components F → Bytes → Bytes → ComponentType → Bytes → Reports
named_component c reference path type name =
    if is_empty name
    then error path (empty_component_name reference) ∷ []
    else error_if (not (has_component c type name)) path (unresolved_component_ref reference)

unfoldable pub validate_component_reference :
    {F : Type 0} → Option (Components F) → Bytes → Bytes → ComponentType → Reports
unfolding has_prefix has_entry
validate_component_reference none reference path type = error path no_components ∷ []
validate_component_reference (some c) reference path type =
    if has_prefix reference (expected_prefix type)
    then named_component c reference path type (drop (length (expected_prefix type)) reference)
    else error path (bad_reference_start reference (expected_prefix type)) ∷ []

abbrev pub is_absent : Node → Bool
is_absent absent = true
is_absent (node k t v c) = false

abbrev pub is_location : Bytes → Bool
is_location s =
    eqb s (codes "path")
    || eqb s (codes "query")
    || eqb s (codes "header")
    || eqb s (codes "cookie")

-- `p.Name + ":" + p.In`, of a parameter that is not reusable.
abbrev pub parameter_key : Option Parameter → Option Bytes
parameter_key none = none
parameter_key (some p) =
    if is_reusable p.reference then none else some (p.name ++ (b':' ∷ p.location))

abbrev pub check_in : Bytes → Bytes → Reports
check_in path location =
    if is_empty location
    then error path missing_parameter_in ∷ []
    else error_if (not (is_location location)) path invalid_parameter_in

module _ {F : Type 0} (components : Option (Components F)) where
  -- The body of the loop over the parameters. A nil one is dereferenced.
  unfoldable pub validate_parameter : Bytes → Option Parameter → Bool → Reports
  unfolding validate_component_reference eqb
  validate_parameter path none seen = nil_dereference ∷ []
  validate_parameter path (some p) seen =
      if is_reusable p.reference
      then validate_component_reference components p.reference (at_field path (codes "reference"))
          parameters_type
      else error_if (is_empty p.name) (at_field path (codes "name")) missing_parameter_name
        ++ (error_if (is_absent p.value) (at_field path (codes "value")) missing_parameter_value
            ++ (check_in (at_field path (codes "in")) p.location
                ++ error_if seen path (duplicate_parameter p.name p.location)))

  unfoldable pub validate_parameters : Bytes → List (Option Parameter) → Reports
  unfolding validate_parameter each_seen
  validate_parameters path =
      each_seen parameter_key (λ i p seen. validate_parameter (at_index path i) p seen) 0 []

unfoldable pub validate_criterion_expression_type : Bytes → CriterionExpressionType → Reports
unfolding eqb
validate_criterion_expression_type path cet =
    if is_empty cet.type
    then error (at_field path (codes "type")) missing_expression_type ∷ []
    else if eqb cet.type (codes "jsonpath")
    then error_if
        (not (is_empty cet.version)
          && not (eqb cet.version (codes "draft-goessner-dispatch-jsonpath-00")))
        (at_field path (codes "version")) (unknown_jsonpath_version cet.version)
    else error_if
        (eqb cet.type (codes "xpath")
          && not (is_empty cet.version)
          && not (
              eqb cet.version (codes "xpath-30")
              || eqb cet.version (codes "xpath-20")
              || eqb cet.version (codes "xpath-10")))
        (at_field path (codes "version")) (unknown_xpath_version cet.version)

abbrev pub check_context : Bytes → Bytes → Reports
check_context path context =
    if is_empty context
    then []
    else elim (validate context) [ none ↦ [] | some e ↦ error path (invalid_expression e) ∷ [] ]

unfoldable pub validate_criterion : Bytes → Criterion → Reports
unfolding effective_type eqb validate validate_criterion_expression_type
validate_criterion path c =
    error_if (is_empty c.condition) (at_field path (codes "condition")) missing_condition
    ++ (error_if (not (eqb (effective_type c) (codes "simple")) && is_empty c.context)
          (at_field path (codes "context")) (missing_context (effective_type c))
        ++ (elim c.expression_type [
          | none ↦ []
          | some cet ↦ validate_criterion_expression_type (at_field path (codes "type")) cet
        ]
            ++ check_context (at_field path (codes "context")) c.context))

abbrev pub component_key_path : Bytes → Bytes → Bytes
component_key_path type key = at_field (at_field (codes "components") type) key

unfoldable pub validate_component_keys_of : {A : Type 0} → Bytes → List (Bytes × A) → Reports
unfolding is_component_key
validate_component_keys_of type [] = []
validate_component_keys_of type ((k, a) ∷ m) =
    error_if (not (is_component_key k)) (component_key_path type k) (bad_component_key k)
    ++ validate_component_keys_of type m

abbrev pub entries_of : {A : Type 0} → Option (List (Bytes × A)) → List (Bytes × A)
entries_of none = []
entries_of (some m) = m

unfoldable pub validate_component_keys : {F : Type 0} → Option (Components F) → Reports
unfolding validate_component_keys_of
validate_component_keys none = []
validate_component_keys (some c) =
    validate_component_keys_of (codes "parameters") (entries_of c.parameters)
    ++ (validate_component_keys_of (codes "successActions") (entries_of c.success_actions)
        ++ (validate_component_keys_of (codes "failureActions") (entries_of c.failure_actions)
            ++ validate_component_keys_of (codes "inputs") (entries_of c.inputs)))
