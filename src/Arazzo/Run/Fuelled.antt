-- ===== src/Arazzo/Run/Fuelled.antt =====
-- arazzo/step.go and arazzo/actions.go: steps and actions on two runners that agree from a depth on.
use libopenapi.Prelude.{
  ℕ, ◌≤◌, List, Option, none, some, Bytes, is_empty, ◌≡◌, refl, ap, arith, inl, inr, Bool-cases,
}
use libopenapi.Prelude.Outcome.{Result, ok, err}
use libopenapi.Arazzo.Value.{Dict, no_dict, Entries}
use libopenapi.Arazzo.Criterion.{Host, Caches}
use libopenapi.Arazzo.Engine.{EngineError}
use libopenapi.Arazzo.Engine.Document.{Step, Workflow, StepResult}
use libopenapi.Arazzo.Engine.Transitions.{
  ActionTypeRequest, Shared, Run, Runner, process_action_type_result,
}
use libopenapi.Arazzo.Run.{Outside, Engine}
use libopenapi.Arazzo.Run.Filling.{with_caches, with_context, cleared}
use libopenapi.Arazzo.Run.Sending.{some_inputs, called, called_with, call_workflow}
use libopenapi.Arazzo.Run.Steps.{attempt, judge, output, step_ended, execute_step}
use libopenapi.Arazzo.Run.Loop.{Round, process}

abbrev pub Agree : {F W : Type 0} → ℕ → Runner F W → Runner F W → Type 0
Agree {F = F} {W = W} d run run' =
    (id : Bytes) (inputs : Dict F) (s : Shared F W)
    → d ≤ s.execution.depth
    → run id inputs s ≡ run' id inputs s

abbrev pub Similar : {F W : Type 0} → ℕ → Round F W → Round F W → Type 0
Similar {F = F} {W = W} d next next' =
    (idx : ℕ) (counts : List (Bytes × ℕ)) (done : List (StepResult F)) (s : Run F W)
    → d ≤ s.shared.execution.depth
    → next idx counts done s ≡ next' idx counts done s

pub kept_depth : {d : ℕ} {a b : List Bytes × ℕ} → a ≡ b → d ≤ b.1 → d ≤ a.1
kept_depth p l = let q = ap (λ x. x.1) p in omega arith

module _ (h : Host) (out : Outside h.floats.Float) (e : Engine h.floats.Float) where
  open out use {World, nanoseconds, ctx_err}

  module _ (d : ℕ) (run run' : Runner h.floats.Float World) (agree : Agree d run run') where
    called_with-Agree :
        (step : Step h.floats.Float) (s : Run h.floats.Float World)
        (f : Option EngineError × Entries h.floats.Float × Caches)
        → d ≤ s.shared.execution.depth
        → called_with h out e run step s f ≡ called_with h out e run' step s f
    called_with-Agree step s (some x, m, c) l = refl
    called_with-Agree step s (none, m, c) l =
        ap (called h out e (some_inputs h out e step m) s.context) (agree step.workflow_id _ _ l)

    attempt-Agree :
        (step : Step h.floats.Float) (s : Run h.floats.Float World)
        → d ≤ s.shared.execution.depth
        → attempt h out e run step s ≡ attempt h out e run' step s
    unfolding attempt call_workflow
    attempt-Agree step s l = elim (Bool-cases (is_empty step.workflow_id)) [
      | inl q ↦ rw q refl
      | inr q ↦ rw q (called_with-Agree step s _ l)
    ]

    pub execute_step-Agree :
        (step : Step h.floats.Float) (s : Run h.floats.Float World)
        → d ≤ s.shared.execution.depth
        → execute_step h out e run step s ≡ execute_step h out e run' step s
    unfolding execute_step
    execute_step-Agree step s l =
        ap (λ a. step_ended h out e step (output h out e step (judge h out e step a)))
          (attempt-Agree step (with_context (cleared s.context) s) l)

    process_action_type_result-Agree :
        (req : ActionTypeRequest h.floats.Float) (steps : List (Bytes × ℕ))
        (s : Run h.floats.Float World)
        → d ≤ s.shared.execution.depth
        → process_action_type_result h.floats nanoseconds run req steps s
          ≡ process_action_type_result h.floats nanoseconds run' req steps s
    unfolding process_action_type_result
    process_action_type_result-Agree req steps s l =
        rw (agree req.workflow_id no_dict s.shared l) refl

    pub process-Agree :
        (wf : Workflow h.floats.Float) (s : Run h.floats.Float World)
        (r : Result EngineError (Option (ActionTypeRequest h.floats.Float)) × Caches)
        → d ≤ s.shared.execution.depth
        → process h out e run wf s r ≡ process h out e run' wf s r
    process-Agree wf s (err x, c) l = refl
    process-Agree wf s (ok none, c) l = refl
    process-Agree wf s (ok (some req), c) l =
        process_action_type_result-Agree req _ (with_caches c s) l
