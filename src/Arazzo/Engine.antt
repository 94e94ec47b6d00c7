-- ===== src/Arazzo/Engine.antt =====
-- arazzo/engine.go, arazzo/step.go and arazzo/actions.go: the parts of a document that the engine
-- reads, and its errors. The children resolve values, references and actions.
mod Tests
pub mod Document
pub mod Strings
pub mod Values
pub mod Replacements
pub mod References
pub mod Actions
pub mod Chosen
pub mod Order
pub mod Scheduled
pub mod Edges
pub mod Sorted
pub mod Drained
pub mod Counting
pub mod Graph
pub mod Follows
pub mod Dependencies
pub mod Ordered
pub mod Transitions
pub mod Retried
pub mod Escaping
pub mod Stable
pub mod Literal
pub mod Replaced
use libopenapi.Prelude.{
  ℕ, Bool, true, false, List, Option, none, some, Bytes, is_empty, not, if◌then◌else◌,
}
use libopenapi.Prelude.Outcome.{Result, ok, err}
use libopenapi.Prelude.Number.{ℤ}
use libopenapi.Yaml.{Node}
use libopenapi.Arazzo.Evaluator.Evaluate.{StringError, string_panics}
use libopenapi.Arazzo.Criterion.{Criterion, Caches, CriterionError}

-- One constructor for each shape of message, or of error wrapped. A step failure has the index of
-- a criterion, or none for -1. `external` is an error of the executor, the sleeper or the context.
-- `panicked` and `out_of_fuel` are no errors of the program: they mark a criterion that panics, and
-- a run of the model with too little fuel.
pub data EngineError : Type 0 where
  bad_value : StringError → EngineError
  not_decoded : EngineError
  unresolved_component : Bytes → EngineError
  nil_parameter : EngineError
  step_not_in_workflow : Bytes → EngineError
  workflow_failed : Bytes → EngineError
  empty_pointer : EngineError
  pointer_without_slash : EngineError
  cannot_traverse : Bytes → EngineError
  cannot_set : Bytes → EngineError
  not_an_object_body : Bytes → EngineError
  in_replacement_value : Bytes → Bytes → EngineError → EngineError
  in_replacement : Bytes → Bytes → EngineError → EngineError
  in_parameter : Bytes → Bytes → EngineError → EngineError
  in_request_body : Bytes → EngineError → EngineError
  bad_request_body : Bytes → EngineError
  bad_response_body : EngineError
  executor_not_configured : EngineError
  external : Bytes → EngineError
  in_step_output : Bytes → Bytes → EngineError → EngineError
  in_workflow_output : Bytes → Bytes → EngineError → EngineError
  in_action_criteria : ℕ → CriterionError → EngineError
  step_failure : Bytes → Option ℕ → Option CriterionError → EngineError
  unresolved_workflow : Bytes → EngineError
  dependency_failed : Bytes → EngineError
  in_dependency : Bytes → EngineError → EngineError
  circular_dependency : EngineError
  circular_workflow : Bytes → EngineError
  depth_exceeded : EngineError
  transitions_exceeded : Bytes → EngineError
  panicked : EngineError
  out_of_fuel : EngineError

-- What no code of the engine handles: a panic, and a lack of fuel. It is the whole run's result.
abbrev pub escapes : EngineError → Bool
escapes (bad_value e) = string_panics e
escapes panicked = true
escapes out_of_fuel = true
escapes _ = false

abbrev pub escaping : Option EngineError → Option EngineError
escaping none = none
escaping (some x) = if escapes x then some x else none

-- What is left behind at once by a panic.
abbrev pub unless_escaping : {A : Type 0} → Option EngineError → (EngineError → A) → A → A
unless_escaping x f a = elim (escaping x) [ none ↦ a | some y ↦ f y ]

-- What runs in an engine, on its caches.
abbrev pub Stateful : Type 0 → Type 0
Stateful A = Caches → Result EngineError A × Caches

abbrev pub pure : {A : Type 0} → Result EngineError A → Stateful A
pure r c = (r, c)

-- An error stops; the caches as they are then remain.
abbrev pub after :
    {A B : Type 0}
    → (A → Stateful B)
    → Result EngineError A × Caches
    → Result EngineError B × Caches
after f (ok a, d) = f a d
after f (err e, d) = (err e, d)

infixl 5 ◌>>=◌
unfoldable pub ◌>>=◌ : {A B : Type 0} → Stateful A → (A → Stateful B) → Stateful B
◌>>=◌ m f c = after f (m c)

-- `fmt.Errorf("…: %w", err)`. A panic is not wrapped.
unfoldable pub wrapped : {A : Type 0} → (EngineError → EngineError) → Stateful A → Stateful A
wrapped f m c =
    let (r, d) = m c in
    elim r [ ok a ↦ (ok a, d) | err e ↦ (err (if escapes e then e else f e), d) ]

-- datamodel/high/arazzo/parameter.go. A nil value is an absent node.
pub record Parameter : Type 0 where
  pub name : Bytes
  pub location : Bytes
  pub value : Node
  pub reference : Bytes

-- datamodel/high/arazzo/payload_replacement.go.
pub record PayloadReplacement : Type 0 where
  pub target : Bytes
  pub value : Node

-- datamodel/high/arazzo/success_action.go.
pub record SuccessAction : Type 0 where
  pub name : Bytes
  pub type : Bytes
  pub workflow_id : Bytes
  pub step_id : Bytes
  pub criteria : List Criterion
  pub reference : Bytes

-- datamodel/high/arazzo/failure_action.go.
pub record FailureAction (F : Type 0) : Type 0 where
  pub name : Bytes
  pub type : Bytes
  pub workflow_id : Bytes
  pub step_id : Bytes
  pub retry_after : Option F
  pub retry_limit : Option ℤ
  pub criteria : List Criterion
  pub reference : Bytes

-- `IsReusable`.
abbrev pub is_reusable : Bytes → Bool
is_reusable reference = not (is_empty reference)
