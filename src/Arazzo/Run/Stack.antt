-- ===== src/Arazzo/Run/Stack.antt =====
-- arazzo/engine.go: the active workflows and the depth of an execution, through steps, actions and
-- workflows.
use libopenapi.Prelude.{
  ℕ, List, Option, none, some, Bytes, is_empty, ◌≡◌, refl, ◌∙◌, arith, inl, inr, Bool-cases,
}
use libopenapi.Prelude.Outcome.{Result, ok, err}
use libopenapi.Yaml.{Node}
use libopenapi.Arazzo.Value.{Dict, Entries}
use libopenapi.Arazzo.Evaluator.{Context}
use libopenapi.Arazzo.Criterion.{Host, Caches}
use libopenapi.Arazzo.Engine.{EngineError}
use libopenapi.Arazzo.Engine.Document.{Step, WorkflowResult}
use libopenapi.Arazzo.Engine.Transitions.{Shared, Run, Runner, with_shared}
use libopenapi.Arazzo.Run.{ExecutionRequest, ExecutionResponse, Outside, Engine}
use libopenapi.Arazzo.Run.Filling.{Attempt, with_context, with_world, cleared}
use libopenapi.Arazzo.Run.Sending.{
  called, called_with, some_inputs, received, answered, sent_with, built, send_request,
  call_workflow,
}
use libopenapi.Arazzo.Run.Steps.{attempt, judge, output, execute_step}

abbrev pub stack : {F W : Type 0} → Shared F W → List Bytes × ℕ
stack s = (s.execution.active_workflows, s.execution.depth)

-- The runner leaves the stack as it was.
abbrev pub Restores : {F W : Type 0} → Runner F W → Type 0
Restores {F = F} {W = W} run =
    (id : Bytes) (inputs : Dict F) (s : Shared F W) → stack (run id inputs s).1 ≡ stack s

module _ (h : Host) (out : Outside h.floats.Float) (e : Engine h.floats.Float) where
  open out use {World}

  pub received-stack :
      (inputs : Dict h.floats.Float) (s : Run h.floats.Float World)
      (resp : ExecutionResponse h.floats.Float) (body : Option Node)
      → stack (received h out e inputs s resp body).run.shared ≡ stack s.shared
  received-stack inputs s resp none = refl
  received-stack inputs s resp (some n) = refl

  pub answered-stack :
      (inputs : Dict h.floats.Float) (s : Run h.floats.Float World)
      (r : Result Bytes (ExecutionResponse h.floats.Float) × World)
      → stack (answered h out e inputs s r).run.shared ≡ stack s.shared
  answered-stack inputs s (err m, w) = refl
  answered-stack inputs s (ok resp, w) = received-stack inputs (with_world w s) resp _

  pub sent_with-stack :
      (req : ExecutionRequest h.floats.Float) (s : Run h.floats.Float World)
      (f : Option (
        ExecutionRequest h.floats.Float
        → World
        → Result Bytes (ExecutionResponse h.floats.Float) × World))
      → stack (sent_with h out e req s f).run.shared ≡ stack s.shared
  sent_with-stack req s none = refl
  sent_with-stack req s (some execute) = answered-stack _ s (execute req s.shared.world)

  pub built-stack :
      (s : Run h.floats.Float World)
      (r : Result EngineError (ExecutionRequest h.floats.Float × Context h.floats.Float) × Caches)
      → stack (built h out e s r).run.shared ≡ stack s.shared
  built-stack s (err x, c) = refl
  built-stack s (ok (req, ctx), c) = sent_with-stack req _ out.execute

  pub judge-stack :
      (step : Step h.floats.Float) (a : Attempt h.floats.Float World)
      → stack (judge h out e step a).run.shared ≡ stack a.run.shared
  unfolding judge
  judge-stack step a = ground arith

  pub output-stack :
      (step : Step h.floats.Float) (a : Attempt h.floats.Float World)
      → stack (output h out e step a).0.run.shared ≡ stack a.run.shared
  unfolding output
  output-stack step a = ground arith

  module _ (run : Runner h.floats.Float World) (restores : Restores run) where
    pub called-stack :
        (inputs : Dict h.floats.Float) (ctx : Context h.floats.Float)
        (r : Result EngineError (WorkflowResult h.floats.Float) × Shared h.floats.Float World)
        → stack (called h out e inputs ctx r).run.shared ≡ stack r.1
    unfolding with_shared
    called-stack inputs ctx (ok r, s) = refl
    called-stack inputs ctx (err x, s) = refl

    pub called_with-stack :
        (step : Step h.floats.Float) (s : Run h.floats.Float World)
        (f : Option EngineError × Entries h.floats.Float × Caches)
        → stack (called_with h out e run step s f).run.shared ≡ stack s.shared
    called_with-stack step s (some x, m, c) = refl
    called_with-stack step s (none, m, c) =
        called-stack (some_inputs h out e step m) s.context _ ∙ restores step.workflow_id _ _

    pub attempt-stack :
        (step : Step h.floats.Float) (s : Run h.floats.Float World)
        → stack (attempt h out e run step s).run.shared ≡ stack s.shared
    unfolding attempt call_workflow send_request
    attempt-stack step s = elim (Bool-cases (is_empty step.workflow_id)) [
      | inl q ↦ rw q (built-stack s _)
      | inr q ↦ rw q (called_with-stack step s _)
    ]

    pub execute_step-stack :
        (step : Step h.floats.Float) (s : Run h.floats.Float World)
        → stack (execute_step h out e run step s).1.shared ≡ stack s.shared
    unfolding execute_step
    execute_step-stack step s =
        output-stack step _
        ∙ judge-stack step _
        ∙ attempt-stack step (with_context (cleared s.context) s)
