-- ===== src/Arazzo/Engine/Document.antt =====
-- datamodel/high/arazzo: workflows and steps as the engine reads them; and arazzo/result.go, what it
-- makes of them, without durations.
use libopenapi.Prelude.{ℕ, Bool, List, Option, Bytes}
use libopenapi.Prelude.Number.{ℤ}
use libopenapi.Yaml.{Node}
use libopenapi.Arazzo.Value.{Entries, Dict}
use libopenapi.Arazzo.Criterion.{Criterion}
use libopenapi.Arazzo.Engine.{
  EngineError, Parameter, PayloadReplacement, SuccessAction, FailureAction,
}

-- A nil payload is an absent node.
pub record RequestBody : Type 0 where
  pub content_type : Bytes
  pub payload : Node
  pub replacements : List (Option PayloadReplacement)

pub record Step (F : Type 0) : Type 0 where
  pub step_id : Bytes
  pub operation_id : Bytes
  pub operation_path : Bytes
  pub workflow_id : Bytes
  pub parameters : List (Option Parameter)
  pub request_body : Option RequestBody
  pub success_criteria : List Criterion
  pub on_success : List SuccessAction
  pub on_failure : List (FailureAction F)
  pub outputs : List (Bytes × Bytes)

pub record Workflow (F : Type 0) : Type 0 where
  pub workflow_id : Bytes
  pub depends_on : List Bytes
  pub steps : List (Step F)
  pub success_actions : List SuccessAction
  pub failure_actions : List (FailureAction F)
  pub outputs : List (Bytes × Bytes)

pub record StepResult (F : Type 0) : Type 0 where
  pub step_id : Bytes
  pub success : Bool
  pub status_code : ℤ
  pub outputs : Entries F
  pub error : Option EngineError
  pub retries : ℕ

pub record WorkflowResult (F : Type 0) : Type 0 where
  pub workflow_id : Bytes
  pub success : Bool
  pub inputs : Dict F
  pub outputs : Dict F
  pub steps : List (StepResult F)
  pub error : Option EngineError
