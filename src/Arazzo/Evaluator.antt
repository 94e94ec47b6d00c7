-- ===== src/Arazzo/Evaluator.antt =====
-- arazzo/expression/evaluator.go: contexts and the errors of `Evaluate`.
pub mod Pointer
pub mod Segments
pub mod Evaluate
pub mod Recorded
pub mod Tests
use libopenapi.Prelude.{List, Option, Bytes}
use libopenapi.Prelude.Number.{ℤ}
use libopenapi.Yaml.{Node}
use libopenapi.Arazzo.Value.{Dict}
use Pointer.{PointerError}

pub record StepContext (F : Type 0) : Type 0 where
  pub inputs : Dict F
  pub outputs : Dict F

pub record WorkflowContext (F : Type 0) : Type 0 where
  pub inputs : Dict F
  pub outputs : Dict F

pub record ComponentsContext (F : Type 0) : Type 0 where
  pub parameters : Dict F
  pub success_actions : Dict F
  pub failure_actions : Dict F
  pub inputs : Dict F

-- A map that may be nil, a node or a pointer that may be nil is an option. A source description
-- context holds its URL alone.
pub record Context (F : Type 0) : Type 0 where
  pub url : Bytes
  pub method : Bytes
  pub status_code : ℤ
  pub request_headers : Option (List (Bytes × Bytes))
  pub request_query : Option (List (Bytes × Bytes))
  pub request_path : Option (List (Bytes × Bytes))
  pub request_body : Option Node
  pub response_headers : Option (List (Bytes × Bytes))
  pub response_body : Option Node
  pub inputs : Dict F
  pub outputs : Dict F
  pub steps : Option (List (Bytes × StepContext F))
  pub workflows : Option (List (Bytes × WorkflowContext F))
  pub source_descs : Option (List (Bytes × Bytes))
  pub components : Option (ComponentsContext F)

-- What a message of the evaluator is about.
pub data Subject : Type 0 where
  request_headers request_query request_path request_body : Subject
  response_headers response_query response_path response_body : Subject
  inputs outputs steps workflows source_descriptions components : Subject
  component_parameters component_success_actions component_failure_actions : Subject
  component_inputs : Subject
  step_outputs step_inputs workflow_outputs workflow_inputs : Bytes → Subject

-- One constructor for each shape of message.
pub data EvalError : Type 0 where
  nil_context : EvalError
  not_available : Subject → EvalError
  not_found : Subject → Bytes → EvalError
  not_supported : Subject → EvalError
  unknown_property : Subject → Bytes → Bytes → EvalError
  incomplete_components : Bytes → EvalError
  unknown_component_type : Bytes → EvalError
  deep_not_found : Bytes → Bytes → Bytes → EvalError
  deep_not_traversable : Bytes → Bytes → Bytes → EvalError
  bad_pointer : PointerError → EvalError
