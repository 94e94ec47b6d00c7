-- ===== src/Arazzo/Engine/Transitions.antt =====
-- arazzo/actions.go: what an action makes of the run, `processActionTypeResult`. The runner of
-- workflows, which the engine calls without inputs for a workflow to go to, is an argument.
use libopenapi.Prelude.{
  ℕ, zero, suc, Bool, true, false, List, Option, none, some, Bytes, codes, eqb, leb, is_empty,
  if◌then◌else◌,
}
use libopenapi.Prelude.Outcome.{Result, ok, err}
use libopenapi.Prelude.Number.{ℤ, pos, negsuc}
use libopenapi.Prelude.Dict.{lookup}
use libopenapi.Arazzo.Value.{Floats, Dict, no_dict}
use libopenapi.Arazzo.Evaluator.{Context, WorkflowContext}
use libopenapi.Arazzo.Criterion.{Caches}
use libopenapi.Arazzo.Engine.{EngineError, step_not_in_workflow, workflow_failed}
use libopenapi.Arazzo.Engine.Document.{WorkflowResult}

pub record ActionTypeRequest (F : Type 0) : Type 0 where
  pub action_type : Bytes
  pub workflow_id : Bytes
  pub step_id : Bytes
  pub retry_after_sec : F
  pub retry_limit : ℤ
  pub current_retries : ℕ

-- `retry_after` counts nanoseconds. The index -1 is none.
pub record StepActionResult : Type 0 where
  pub end_workflow : Bool
  pub retry_current : Bool
  pub retry_after : ℤ
  pub jump_to_step_idx : Option ℕ

abbrev pub no_transition : StepActionResult
no_transition = record {
  end_workflow = false;
  retry_current = false;
  retry_after = pos 0;
  jump_to_step_idx = none;
}

pub record ExecutionState (F : Type 0) : Type 0 where
  pub workflow_results : List (Bytes × WorkflowResult F)
  pub workflow_contexts : List (Bytes × WorkflowContext F)
  pub active_workflows : List Bytes
  pub depth : ℕ

-- What all workflows of an execution share: the world outside, the engine's caches and the state of
-- the execution.
pub record Shared (F W : Type 0) : Type 0 where
  pub world : W
  pub caches : Caches
  pub execution : ExecutionState F

-- What a step and its actions read and write: what is shared, and the workflow's own expression
-- context.
pub record Run (F W : Type 0) : Type 0 where
  pub shared : Shared F W
  pub context : Context F

-- `runWorkflow`, from an id and inputs.
abbrev pub Runner : Type 0 → Type 0 → Type 0
Runner F W = Bytes → Dict F → Shared F W → Result EngineError (WorkflowResult F) × Shared F W

unfoldable pub workflow_failure_error : {F : Type 0} → Bytes → WorkflowResult F → EngineError
workflow_failure_error id r = elim r.error [ some e ↦ e | none ↦ workflow_failed id ]

-- `exprCtx.Workflows = copyWorkflowContexts(state.workflowContexts)`.
unfoldable pub with_shared : {F W : Type 0} → Shared F W → Context F → Run F W
with_shared shared ctx = record {
  shared = shared;
  context = record ctx { workflows = some shared.execution.workflow_contexts };
}

-- A limit that is not positive counts as one.
abbrev pub effective_limit : ℤ → ℕ
effective_limit (pos zero) = 1
effective_limit (pos (suc n)) = suc n
effective_limit (negsuc n) = 1

-- `nanoseconds` is the conversion of seconds by `math.Round` and `time.Duration`.
module _ (floats : Floats) (nanoseconds : floats.Float → ℤ) where
  abbrev positive_or_zero : ℤ → ℤ
  positive_or_zero (pos n) = pos n
  positive_or_zero (negsuc n) = pos 0

  unfoldable pub retry_delay : floats.Float → ℤ
  retry_delay seconds =
      if floats.float_lt (floats.of_int (pos 0)) seconds
      then positive_or_zero (nanoseconds seconds)
      else pos 0

  unfoldable pub retry_result : ActionTypeRequest floats.Float → StepActionResult
  unfolding retry_delay
  retry_result req =
      if leb (effective_limit req.retry_limit) req.current_retries
      then no_transition
      else record no_transition {
        retry_current = true;
        retry_after = retry_delay req.retry_after_sec;
      }

  abbrev jump : Bytes → Option ℕ → Result EngineError StepActionResult
  jump id none = err (step_not_in_workflow id)
  jump id (some i) = ok (record no_transition { jump_to_step_idx = some i })

  unfoldable pub step_result : Bytes → List (Bytes × ℕ) → Result EngineError StepActionResult
  unfolding lookup
  step_result step_id step_index_by_id =
      if is_empty step_id then ok no_transition else jump step_id (lookup step_id step_index_by_id)

  module _ {W : Type 0} where
    -- After the workflow has run: its contexts are copied, and a failure is an error.
    unfoldable pub workflow_ended :
        Bytes
        → Context floats.Float
        → Result EngineError (WorkflowResult floats.Float) × Shared floats.Float W
        → Result EngineError StepActionResult × Run floats.Float W
    unfolding workflow_failure_error with_shared
    workflow_ended id ctx (err e, shared) = (err e, record { shared = shared; context = ctx })
    workflow_ended id ctx (ok r, shared) = (
      if r.success
          then ok (record no_transition { end_workflow = true })
          else err (workflow_failure_error id r),
      with_shared shared ctx,
    )

    unfoldable pub process_action_type_result :
        Runner floats.Float W
        → ActionTypeRequest floats.Float
        → List (Bytes × ℕ)
        → Run floats.Float W
        → Result EngineError StepActionResult × Run floats.Float W
    unfolding retry_result step_result workflow_ended
    process_action_type_result run req step_index_by_id s =
        if eqb req.action_type (codes "end")
        then (ok (record no_transition { end_workflow = true }), s)
        else if eqb req.action_type (codes "goto")
        then (if is_empty req.workflow_id
            then (step_result req.step_id step_index_by_id, s)
            else workflow_ended req.workflow_id s.context (run req.workflow_id no_dict s.shared))
        else if eqb req.action_type (codes "retry")
        then (ok (retry_result req), s)
        else (ok no_transition, s)
