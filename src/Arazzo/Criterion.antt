-- ===== src/Arazzo/Criterion.antt =====
-- arazzo/criterion.go and arazzo/yamlutil.go: criteria, the engine's caches and what the program
-- calls and does not implement. The children evaluate criteria.
pub mod Nodes
pub mod Condition
pub mod Evaluate
pub mod Faithful
pub mod Caching
pub mod Split
pub mod NilBelow
pub mod Tests
use libopenapi.Prelude.{
  ℕ, List, Option, Bytes, Bool, true, false, [], is_empty, if◌then◌else◌, none, some, codes,
}
use libopenapi.Prelude.Outcome.{Result}
use libopenapi.Yaml.{Node}
use libopenapi.Arazzo.Value.{Floats, Value}
use libopenapi.Arazzo.Expression.{Expression}
use libopenapi.Arazzo.Evaluator.Evaluate.{StringError, string_panics}

-- `sprint` is `fmt.Sprint` of a value, `compile` is `regexp.Compile`, `new_path` the JSONPath
-- compiler of pb33f/jsonpath with `Query` of its result, `encode` is `Encode` of a YAML node, and
-- `decode` is `Decode` of one into a value of type `any`.
pub record Host : Type 1 where
  pub floats : Floats
  pub sprint : Value floats.Float → Bytes
  pub compile : Bytes → Option (Bytes → Bool)
  pub new_path : Bytes → Option (Node → List Node)
  pub encode : Value floats.Float → Option Node
  pub decode : Node → Option (Value floats.Float)

-- datamodel/high/arazzo/criterion_expression_type.go.
pub record CriterionExpressionType : Type 0 where
  pub type : Bytes
  pub version : Bytes

pub record Criterion : Type 0 where
  pub context : Bytes
  pub condition : Bytes
  pub type : Bytes
  pub expression_type : Option CriterionExpressionType

-- datamodel/high/arazzo/criterion.go, `GetEffectiveType`.
unfoldable pub effective_type : Criterion → Bytes
effective_type c = elim c.expression_type [
  | some t ↦ t.type
  | none ↦ if is_empty c.type then codes "simple" else c.type
]

-- The engine's caches: parsed expressions, and patterns with what their compilers returned.
pub record Caches : Type 0 where
  pub expressions : List (Bytes × Expression)
  pub regex : List (Bytes × Option (Bytes → Bool))
  pub json_path : List (Bytes × Option (Node → List Node))

abbrev pub new_caches : Caches
new_caches = record { expressions = []; regex = []; json_path = [] }

-- `slice_out_of_range` is no error value of the program but a panic.
pub data CriterionError : Type 0 where
  bad_operand : StringError → CriterionError
  bad_context : StringError → CriterionError
  not_a_boolean : Bytes → CriterionError
  unsupported_operator : Bytes → CriterionError
  xpath_not_supported : CriterionError
  unknown_type : Bytes → CriterionError
  regex_needs_context : CriterionError
  jsonpath_needs_context : CriterionError
  invalid_regex : Bytes → CriterionError
  invalid_jsonpath : Bytes → CriterionError
  bad_target : CriterionError
  slice_out_of_range : CriterionError

abbrev pub criterion_panics : CriterionError → Bool
criterion_panics slice_out_of_range = true
criterion_panics (bad_operand e) = string_panics e
criterion_panics (bad_context e) = string_panics e
criterion_panics _ = false

-- What evaluates with the caches, which are nil outside an engine.
abbrev pub Cached : Type 0 → Type 0
Cached A = Option Caches → Result CriterionError A × Option Caches
