-- ===== src/Arazzo/Run/Fuel.antt =====
-- arazzo/engine.go: how much fuel `run_workflow` needs.
use libopenapi.Prelude.{
  member, ℕ, zero, suc, ◌+◌, ◌≤◌, false, List, [], Option, none, some, Bytes, leb, get_elem?,
  if◌then◌else◌, ◌≡◌, refl, ap, ◌∙◌, arith, inl, inr, Bool-cases,
}
use libopenapi.Prelude.Outcome.{Result, ok, err}
use libopenapi.Prelude.Dict.{lookup}
use libopenapi.Arazzo.Value.{Dict}
use libopenapi.Arazzo.Criterion.{Host}
use libopenapi.Arazzo.Engine.{EngineError, unless_escaping, circular_workflow}
use libopenapi.Arazzo.Engine.Document.{Step, Workflow, StepResult}
use libopenapi.Arazzo.Engine.Transitions.{StepActionResult, Shared, Run, Runner}
use libopenapi.Arazzo.Run.{Outside, Engine}
use libopenapi.Arazzo.Run.Filling.{with_world}
use libopenapi.Arazzo.Run.Steps.{execute_step}
use libopenapi.Arazzo.Run.Loop.{
  Round, finished, process_success_actions, process_failure_actions, succeeded, slept, jumped,
  not_succeeded, stepped, take_step, checked, guarded_by, too_many, run_steps, max_step_transitions,
}
use libopenapi.Arazzo.Run.Workflows.{
  outputs_of, concluded, enter, left, found, entered, run_entered, run_begun, nested, no_fuel,
  run_workflow, max_workflow_depth,
}
use libopenapi.Arazzo.Run.Contexts.{blank_context, new_expression_context}
use libopenapi.Arazzo.Run.Stack.{Restores, execute_step-stack}
use libopenapi.Arazzo.Run.Restored.{process-stack}
use libopenapi.Arazzo.Run.Balanced.{with_components-stack, run_workflow-Restores}
use libopenapi.Arazzo.Run.Fuelled.{Agree, Similar, kept_depth, execute_step-Agree, process-Agree}

module _ (h : Host) (out : Outside h.floats.Float) (e : Engine h.floats.Float) where
  open out use {World, ctx_err}

  module _ (d : ℕ) (run run' : Runner h.floats.Float World) (agree : Agree d run run')
      (restores : Restores run) (wf : Workflow h.floats.Float) where
    module _ (next next' : Round h.floats.Float World) (similar : Similar d next next')
        (step : Step h.floats.Float) where
      succeeded-Similar :
          (idx : ℕ) (counts : List (Bytes × ℕ)) (done : List (StepResult h.floats.Float))
          (r : Result EngineError StepActionResult × Run h.floats.Float World)
          → d ≤ r.1.shared.execution.depth
          → succeeded h out e run wf next step idx counts done r
            ≡ succeeded h out e run' wf next' step idx counts done r
      succeeded-Similar idx counts done (err x, s) l = refl
      succeeded-Similar idx counts done (ok t, s) l =
          rw (similar (elim t.jump_to_step_idx [ none ↦ suc idx | some j ↦ j ]) counts done s l)
            refl

      slept-Similar :
          (idx : ℕ) (counts : List (Bytes × ℕ)) (done : List (StepResult h.floats.Float))
          (s : Run h.floats.Float World) (r : Option Bytes × World)
          → d ≤ s.shared.execution.depth
          → slept h out e run wf next step idx counts done s r
            ≡ slept h out e run' wf next' step idx counts done s r
      slept-Similar idx counts done s (none, w) l = similar idx counts done (with_world w s) l
      slept-Similar idx counts done s (some m, w) l = refl

      jumped-Similar :
          (r : StepResult h.floats.Float) (counts : List (Bytes × ℕ))
          (done : List (StepResult h.floats.Float)) (s : Run h.floats.Float World) (j : Option ℕ)
          → d ≤ s.shared.execution.depth
          → jumped h out e run wf next step r counts done s j
            ≡ jumped h out e run' wf next' step r counts done s j
      jumped-Similar r counts done s none l = refl
      jumped-Similar r counts done s (some j) l = similar j counts done s l

      not_succeeded-Similar :
          (r : StepResult h.floats.Float) (idx : ℕ) (counts : List (Bytes × ℕ))
          (done : List (StepResult h.floats.Float))
          (a : Result EngineError StepActionResult × Run h.floats.Float World)
          → d ≤ a.1.shared.execution.depth
          → not_succeeded h out e run wf next step r idx counts done a
            ≡ not_succeeded h out e run' wf next' step r idx counts done a
      not_succeeded-Similar r idx counts done (err x, s) l = refl
      not_succeeded-Similar r idx counts done (ok t, s) l = elim (Bool-cases t.retry_current) [
        | inl q ↦ rw q (slept-Similar idx _ done s _ l)
        | inr q ↦ elim (Bool-cases t.end_workflow) [
          | inl k ↦ rw (q, k) refl
          | inr k ↦ rw (q, k) (jumped-Similar r counts done s t.jump_to_step_idx l)
        ]
      ]

      stepped-Similar :
          (idx : ℕ) (counts : List (Bytes × ℕ)) (done : List (StepResult h.floats.Float))
          (r : StepResult h.floats.Float × Run h.floats.Float World)
          → d ≤ r.1.shared.execution.depth
          → stepped h out e run wf next step idx counts done r
            ≡ stepped h out e run' wf next' step idx counts done r
      unfolding process_success_actions process_failure_actions
      stepped-Similar idx counts done (r, s) l = elim (Bool-cases r.success) [
        | inl q ↦ rw q (
            succeeded-Similar idx _ _ (process_success_actions h out e run wf step s)
              (kept_depth (process-stack h out e run restores wf s _) l)
            ∙ ap (succeeded h out e run' wf next' step idx _ _)
                (process-Agree h out e d run run' agree wf s _ l))
        | inr q ↦ rw q (
            ap (unless_escaping r.error (λ x. finished (some x) done s)) (
              not_succeeded-Similar r idx counts _ (process_failure_actions h out e run wf step _ s)
                (kept_depth (process-stack h out e run restores wf s _) l)
              ∙ ap (not_succeeded h out e run' wf next' step r idx counts _)
                  (process-Agree h out e d run run' agree wf s _ l)))
      ]

      take_step-Similar :
          Similar d (take_step h out e run wf next step) (take_step h out e run' wf next' step)
      unfolding take_step
      take_step-Similar idx counts done s l =
          stepped-Similar idx counts done (execute_step h out e run step s)
            (kept_depth (execute_step-stack h out e run restores step s) l)
          ∙ ap (stepped h out e run' wf next' step idx counts done)
              (execute_step-Agree h out e d run run' agree step s l)

    module _ (go go' : Step h.floats.Float → Round h.floats.Float World)
        (similar : (step : Step h.floats.Float) → Similar d (go step) (go' step)) where
      checked-Similar :
          (step : Step h.floats.Float) (idx : ℕ) (counts : List (Bytes × ℕ))
          (done : List (StepResult h.floats.Float)) (s : Run h.floats.Float World)
          (x : Option Bytes × World)
          → d ≤ s.shared.execution.depth
          → checked h out e run wf go step idx counts done s x
            ≡ checked h out e run' wf go' step idx counts done s x
      checked-Similar step idx counts done s (some m, w) l = refl
      checked-Similar step idx counts done s (none, w) l =
          similar step idx counts done (with_world w s) l

      guarded_by-Similar :
          (step : Option (Step h.floats.Float))
          → Similar d (guarded_by h out e run wf go step) (guarded_by h out e run' wf go' step)
      guarded_by-Similar none idx counts done s l = refl
      guarded_by-Similar (some step) idx counts done s l =
          checked-Similar step idx counts done s (ctx_err s.shared.world) l

    run_steps-Similar :
        (n : ℕ) → Similar d (run_steps h out e run wf n) (run_steps h out e run' wf n)
    unfolding run_steps
    run_steps-Similar zero idx counts done s l =
        guarded_by-Similar (too_many h out e run wf) (too_many h out e run' wf)
          (λ step i c t u m. refl) (get_elem? wf.steps idx) idx counts done s l
    run_steps-Similar (suc n) idx counts done s l =
        guarded_by-Similar (take_step h out e run wf (run_steps h out e run wf n))
          (take_step h out e run' wf (run_steps h out e run' wf n))
          (take_step-Similar (run_steps h out e run wf n) (run_steps h out e run' wf n)
            (run_steps-Similar n))
          (get_elem? wf.steps idx) idx counts done s l

    run_begun-Agree :
        (id : Bytes) (inputs : Dict h.floats.Float)
        (x : Option EngineError × Run h.floats.Float World)
        → d ≤ x.1.shared.execution.depth
        → run_begun h out e run wf id inputs x ≡ run_begun h out e run' wf id inputs x
    run_begun-Agree id inputs (some x, s) l = refl
    run_begun-Agree id inputs (none, s) l =
        ap (λ fin. concluded h out e id inputs (outputs_of h out e wf fin))
          (run_steps-Similar max_step_transitions 0 [] [] s l)

    run_entered-Agree : Agree d (run_entered h out e run wf) (run_entered h out e run' wf)
    unfolding run_entered new_expression_context
    run_entered-Agree id inputs s l =
        run_begun-Agree id inputs (new_expression_context h out e inputs s) (
          kept_depth
            (with_components-stack h out e (blank_context h out e inputs s.execution) s
              e.cached_components)
            l)

  found-Agree :
      (d : ℕ) (run run' : Runner h.floats.Float World)
      → Agree (d + 1) run run'
      → Restores run
      → (wf : Option (Workflow h.floats.Float))
      → Agree d (found h out e run wf) (found h out e run' wf)
  found-Agree d run run' agree restores none id inputs s l = refl
  found-Agree d run run' agree restores (some wf) id inputs s l =
      ap (left h out e id)
        (run_entered-Agree (d + 1) run run' agree restores wf id inputs (enter id s) (omega arith))

  -- `run_workflow` behind its guards.
  guarded-Agree :
      (run run' : Runner h.floats.Float World) (id : Bytes) (inputs : Dict h.floats.Float)
      (s : Shared h.floats.Float World)
      → (leb max_workflow_depth s.execution.depth ≡ false
          → found h out e run (lookup id e.workflows) id inputs s
            ≡ found h out e run' (lookup id e.workflows) id inputs s)
      → entered h out e run id inputs s ≡ entered h out e run' id inputs s
  guarded-Agree run run' id inputs s p =
      elim (Bool-cases (leb max_workflow_depth s.execution.depth)) [
        | inl k ↦ rw k refl
        | inr k ↦ rw k (
            ap
              (λ x.
                if member id s.execution.active_workflows
                then (err (circular_workflow id), s)
                else x)
              (p k))
      ]

  not_deep : (d n : ℕ) → max_workflow_depth ≤ d → d ≤ n → ¬ (leb max_workflow_depth n ≡ false)
  not_deep d n b l k = ground arith

  -- Where the fuel reaches `maxWorkflowDepth`, the bottom does not matter.
  nested-Agree :
      (base : Runner h.floats.Float World) (fuel fuel' d : ℕ)
      → max_workflow_depth ≤ fuel + d
      → max_workflow_depth ≤ fuel' + d
      → Agree d (run_workflow h out e (suc fuel)) (nested h out e base (suc fuel'))
  unfolding run_workflow nested
  nested-Agree base zero fuel' d b b' id inputs s l =
      guarded-Agree (run_workflow h out e zero) (nested h out e base fuel') id inputs s
        (λ k. absurd (not_deep d s.execution.depth (omega arith) l k))
  nested-Agree base (suc fuel) zero d b b' id inputs s l =
      guarded-Agree (run_workflow h out e (suc fuel)) (nested h out e base zero) id inputs s
        (λ k. absurd (not_deep d s.execution.depth (omega arith) l k))
  nested-Agree base (suc fuel) (suc fuel') d b b' id inputs s l =
      guarded-Agree (run_workflow h out e (suc fuel)) (nested h out e base (suc fuel')) id inputs s
        (λ k.
          found-Agree d (run_workflow h out e (suc fuel)) (nested h out e base (suc fuel'))
            (nested-Agree base fuel fuel' (d + 1) (omega arith) (omega arith))
            (run_workflow-Restores h out e (suc fuel)) (lookup id e.workflows) id inputs s l)

  -- The runner at the bottom is never called.
  pub run_workflow-nested :
      (base : Runner h.floats.Float World) (id : Bytes) (inputs : Dict h.floats.Float)
      (s : Shared h.floats.Float World)
      → run_workflow h out e (suc max_workflow_depth) id inputs s
        ≡ nested h out e base (suc max_workflow_depth) id inputs s
  run_workflow-nested base id inputs s =
      nested-Agree base max_workflow_depth max_workflow_depth 0 (omega arith) (omega arith) id
        inputs s (omega arith)

  -- More fuel than one unit above `maxWorkflowDepth` changes neither the result nor what is shared.
  pub run_workflow-fuel :
      (n : ℕ) (id : Bytes) (inputs : Dict h.floats.Float) (s : Shared h.floats.Float World)
      → run_workflow h out e (suc (n + max_workflow_depth)) id inputs s
        ≡ run_workflow h out e (suc max_workflow_depth) id inputs s
  unfolding run_workflow
  run_workflow-fuel n id inputs s =
      nested-Agree (no_fuel h out e) (n + max_workflow_depth) max_workflow_depth 0 (omega arith)
        (omega arith) id inputs s (omega arith)
