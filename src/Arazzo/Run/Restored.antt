-- ===== src/Arazzo/Run/Restored.antt =====
-- arazzo/actions.go and arazzo/engine.go: the active workflows and the depth, through the actions
-- and the loop over the steps.
use libopenapi.Prelude.{
  ℕ, zero, suc, List, Option, none, some, Bytes, eqb, get_elem?, is_empty, ◌≡◌, refl, ◌∙◌, arith,
  inl, inr, Bool-cases, codes,
}
use libopenapi.Prelude.Outcome.{Result, ok, err}
use libopenapi.Arazzo.Value.{no_dict}
use libopenapi.Arazzo.Evaluator.{Context}
use libopenapi.Arazzo.Criterion.{Host, Caches}
use libopenapi.Arazzo.Engine.{EngineError}
use libopenapi.Arazzo.Engine.Escaping.{if_lem, unless_escaping_lem}
use libopenapi.Arazzo.Engine.Document.{Step, Workflow, StepResult, WorkflowResult}
use libopenapi.Arazzo.Engine.Transitions.{
  ActionTypeRequest, StepActionResult, Shared, Run, Runner, workflow_ended,
  process_action_type_result,
}
use libopenapi.Arazzo.Run.{Outside, Engine}
use libopenapi.Arazzo.Run.Filling.{with_caches, with_world}
use libopenapi.Arazzo.Run.Steps.{execute_step}
use libopenapi.Arazzo.Run.Loop.{
  Round, Finished, finished, process, process_success_actions, process_failure_actions, succeeded,
  slept, jumped, not_succeeded, stepped, take_step, checked, guarded_by, too_many, run_steps,
}
use libopenapi.Arazzo.Run.Stack.{stack, Restores, execute_step-stack}

module _ (h : Host) (out : Outside h.floats.Float) (e : Engine h.floats.Float) where
  open out use {World, nanoseconds, ctx_err}

  pub workflow_ended-stack :
      (id : Bytes) (ctx : Context h.floats.Float)
      (r : Result EngineError (WorkflowResult h.floats.Float) × Shared h.floats.Float World)
      → stack (workflow_ended h.floats nanoseconds id ctx r).1.shared ≡ stack r.1
  unfolding workflow_ended
  workflow_ended-stack id ctx (ok r, s) = refl
  workflow_ended-stack id ctx (err x, s) = refl

  abbrev Same : Run h.floats.Float World → Finished h.floats.Float World → Type 0
  Same s f = stack f.run.shared ≡ stack s.shared

  -- The rounds from here on leave the stack as it was.
  abbrev pub Keeps : Round h.floats.Float World → Type 0
  Keeps next =
      (idx : ℕ) (counts : List (Bytes × ℕ)) (done : List (StepResult h.floats.Float))
      (s : Run h.floats.Float World)
      → stack (next idx counts done s).run.shared ≡ stack s.shared

  module _ (run : Runner h.floats.Float World) (restores : Restores run)
      (wf : Workflow h.floats.Float) where
    pub process_action_type_result-stack :
        (req : ActionTypeRequest h.floats.Float) (steps : List (Bytes × ℕ))
        (s : Run h.floats.Float World)
        → stack (process_action_type_result h.floats nanoseconds run req steps s).1.shared
          ≡ stack s.shared
    unfolding process_action_type_result
    process_action_type_result-stack req steps s =
        elim (Bool-cases (eqb req.action_type (codes "end"))) [
          | inl q ↦ rw q refl
          | inr q ↦ elim (Bool-cases (eqb req.action_type (codes "goto"))) [
            | inl g ↦ elim (Bool-cases (is_empty req.workflow_id)) [
              | inl k ↦ rw (q, g, k) refl
              | inr k ↦
                  rw (q, g, k)
                    (workflow_ended-stack req.workflow_id s.context _
                      ∙ restores req.workflow_id no_dict s.shared)
            ]
            | inr g ↦ ground arith
          ]
        ]

    pub process-stack :
        (s : Run h.floats.Float World)
        (r : Result EngineError (Option (ActionTypeRequest h.floats.Float)) × Caches)
        → stack (process h out e run wf s r).1.shared ≡ stack s.shared
    process-stack s (err x, c) = refl
    process-stack s (ok none, c) = refl
    process-stack s (ok (some req), c) = process_action_type_result-stack req _ (with_caches c s)

    pub finished-stack :
        (x : Option EngineError) (done : List (StepResult h.floats.Float))
        (s : Run h.floats.Float World)
        → stack (finished x done s).run.shared ≡ stack s.shared
    finished-stack none done s = refl
    finished-stack (some x) done s = refl

    module _ (next : Round h.floats.Float World) (keeps : Keeps next)
        (step : Step h.floats.Float) where
      pub succeeded-stack :
          (idx : ℕ) (counts : List (Bytes × ℕ)) (done : List (StepResult h.floats.Float))
          (r : Result EngineError StepActionResult × Run h.floats.Float World)
          → stack (succeeded h out e run wf next step idx counts done r).run.shared
            ≡ stack r.1.shared
      succeeded-stack idx counts done (err x, s) = refl
      succeeded-stack idx counts done (ok t, s) = elim (Bool-cases t.end_workflow) [
        | inl q ↦ rw q refl
        | inr q ↦ rw q (keeps _ counts done s)
      ]

      pub slept-stack :
          (idx : ℕ) (counts : List (Bytes × ℕ)) (done : List (StepResult h.floats.Float))
          (s : Run h.floats.Float World) (r : Option Bytes × World)
          → stack (slept h out e run wf next step idx counts done s r).run.shared ≡ stack s.shared
      slept-stack idx counts done s (none, w) = keeps idx counts done (with_world w s)
      slept-stack idx counts done s (some m, w) = refl

      pub jumped-stack :
          (r : StepResult h.floats.Float) (counts : List (Bytes × ℕ))
          (done : List (StepResult h.floats.Float)) (s : Run h.floats.Float World) (j : Option ℕ)
          → stack (jumped h out e run wf next step r counts done s j).run.shared ≡ stack s.shared
      jumped-stack r counts done s none = refl
      jumped-stack r counts done s (some j) = keeps j counts done s

      pub not_succeeded-stack :
          (r : StepResult h.floats.Float) (idx : ℕ) (counts : List (Bytes × ℕ))
          (done : List (StepResult h.floats.Float))
          (a : Result EngineError StepActionResult × Run h.floats.Float World)
          → stack (not_succeeded h out e run wf next step r idx counts done a).run.shared
            ≡ stack a.1.shared
      not_succeeded-stack r idx counts done (err x, s) = refl
      not_succeeded-stack r idx counts done (ok t, s) = elim (Bool-cases t.retry_current) [
        | inl q ↦ rw q (slept-stack idx _ done s _)
        | inr q ↦ elim (Bool-cases t.end_workflow) [
          | inl k ↦ rw (q, k) refl
          | inr k ↦ rw (q, k) (jumped-stack r counts done s t.jump_to_step_idx)
        ]
      ]

      pub stepped-stack :
          (idx : ℕ) (counts : List (Bytes × ℕ)) (done : List (StepResult h.floats.Float))
          (r : StepResult h.floats.Float × Run h.floats.Float World)
          → stack (stepped h out e run wf next step idx counts done r).run.shared ≡ stack r.1.shared
      unfolding process_success_actions process_failure_actions
      stepped-stack idx counts done (r, s) =
          if_lem (Same s) r.success
            (succeeded-stack idx _ _ (process_success_actions h out e run wf step s)
              ∙ process-stack s _)
            (unless_escaping_lem (Same s) r.error (λ y p k. refl)
              (λ p.
                not_succeeded-stack r idx counts _ (process_failure_actions h out e run wf step _ s)
                ∙ process-stack s _))

      pub take_step-stack : Keeps (take_step h out e run wf next step)
      unfolding take_step
      take_step-stack idx counts done s =
          stepped-stack idx counts done (execute_step h out e run step s)
          ∙ execute_step-stack h out e run restores step s

    module _ (go : Step h.floats.Float → Round h.floats.Float World)
        (keeps : (step : Step h.floats.Float) → Keeps (go step)) where
      checked-stack :
          (step : Step h.floats.Float) (idx : ℕ) (counts : List (Bytes × ℕ))
          (done : List (StepResult h.floats.Float)) (s : Run h.floats.Float World)
          (x : Option Bytes × World)
          → stack (checked h out e run wf go step idx counts done s x).run.shared ≡ stack s.shared
      checked-stack step idx counts done s (some m, w) = refl
      checked-stack step idx counts done s (none, w) = keeps step idx counts done (with_world w s)

      guarded_by-stack :
          (step : Option (Step h.floats.Float)) → Keeps (guarded_by h out e run wf go step)
      guarded_by-stack none idx counts done s = refl
      guarded_by-stack (some step) idx counts done s =
          checked-stack step idx counts done s (ctx_err s.shared.world)

    pub run_steps-stack : (left : ℕ) → Keeps (run_steps h out e run wf left)
    unfolding run_steps
    run_steps-stack zero idx counts done s =
        guarded_by-stack (too_many h out e run wf) (λ step i c d t. refl) (get_elem? wf.steps idx)
          idx counts done s
    run_steps-stack (suc left) idx counts done s =
        guarded_by-stack (take_step h out e run wf (run_steps h out e run wf left))
          (take_step-stack (run_steps h out e run wf left) (run_steps-stack left))
          (get_elem? wf.steps idx) idx counts done s
