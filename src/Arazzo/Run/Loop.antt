-- ===== src/Arazzo/Run/Loop.antt =====
-- arazzo/engine.go: the loop of `runWorkflow` over the steps; and arazzo/actions.go, the actions
-- behind a step.
use libopenapi.Prelude.{
  ℕ, zero, suc, Bool, true, false, List, [], ◌∷◌, ◌++◌, Option, none, some, Bytes, get_elem?,
  if◌then◌else◌,
}
use libopenapi.Prelude.Outcome.{Result, ok, err}
use libopenapi.Prelude.Number.{ℤ, pos, negsuc}
use libopenapi.Prelude.Dict.{lookup, insert}
use libopenapi.Arazzo.Criterion.{Host, Caches}
use libopenapi.Arazzo.Engine.{
  EngineError, unless_escaping, external, transitions_exceeded, Stateful, pure, ◌>>=◌,
  SuccessAction, FailureAction,
}
use libopenapi.Arazzo.Engine.Actions.{select_success_action, select_failure_action}
use libopenapi.Arazzo.Engine.Document.{Step, Workflow, StepResult}
use libopenapi.Arazzo.Engine.Order.{step_failure_or_default}
use libopenapi.Arazzo.Engine.Transitions.{
  ActionTypeRequest, StepActionResult, no_transition, Run, Runner, process_action_type_result,
}
use libopenapi.Arazzo.Run.{Outside, Engine}
use libopenapi.Arazzo.Run.Filling.{with_caches, with_world}
use libopenapi.Arazzo.Run.Steps.{execute_step}

abbrev pub max_step_transitions : ℕ
max_step_transitions = 1024

-- `retryCounts[id]`.
abbrev pub retry_count : Bytes → List (Bytes × ℕ) → ℕ
retry_count id counts = elim (lookup id counts) [ none ↦ 0 | some n ↦ n ]

unfoldable pub step_index_by_id :
    {F : Type 0} → ℕ → List (Step F) → List (Bytes × ℕ) → List (Bytes × ℕ)
unfolding insert
step_index_by_id i [] m = m
step_index_by_id i (step ∷ steps) m = step_index_by_id (suc i) steps (insert step.step_id i m)

-- What the loop over the steps leaves: `result.Success`, `result.Error`, `result.Steps` and the run.
pub record Finished (F W : Type 0) : Type 0 where
  pub success : Bool
  pub error : Option EngineError
  pub steps : List (StepResult F)
  pub run : Run F W

abbrev pub finished :
    {F W : Type 0} → Option EngineError → List (StepResult F) → Run F W → Finished F W
finished none done s = record { success = true; error = none; steps = done; run = s }
finished (some x) done s = record { success = false; error = some x; steps = done; run = s }

-- A round of the loop: the step's index, the retry counts, the results so far and the run.
abbrev pub Round : Type 0 → Type 0 → Type 0
Round F W = ℕ → List (Bytes × ℕ) → List (StepResult F) → Run F W → Finished F W

-- `retryAfter` and `retryLimit` of an action that gives none.
abbrev limit_or_zero : Option ℤ → ℤ
limit_or_zero none = pos 0
limit_or_zero (some n) = n

module _ (h : Host) (out : Outside h.floats.Float) (e : Engine h.floats.Float) where
  open out use {World, ctx_err, sleep_func, timer, nanoseconds}

  -- `sleep`; the default sleeper does not wait where the duration is not positive.
  unfoldable pub sleep : ℤ → World → Option Bytes × World
  sleep d w = elim sleep_func [
    | some f ↦ f d w
    | none ↦ elim d [
      | pos zero ↦ (none, w)
      | pos (suc n) ↦ timer (pos (suc n)) w
      | negsuc n ↦ (none, w)
    ]
  ]

  abbrev pub success_request : SuccessAction → ActionTypeRequest h.floats.Float
  success_request a = record {
    action_type = a.type;
    workflow_id = a.workflow_id;
    step_id = a.step_id;
    retry_after_sec = h.floats.of_int (pos 0);
    retry_limit = pos 0;
    current_retries = 0;
  }

  abbrev pub failure_request : FailureAction h.floats.Float → ℕ → ActionTypeRequest h.floats.Float
  failure_request a retries = record {
    action_type = a.type;
    workflow_id = a.workflow_id;
    step_id = a.step_id;
    retry_after_sec = elim a.retry_after [ none ↦ h.floats.of_int (pos 0) | some x ↦ x ];
    retry_limit = limit_or_zero a.retry_limit;
    current_retries = retries;
  }

  module _ (run : Runner h.floats.Float World) (wf : Workflow h.floats.Float) where
    abbrev pub process :
        Run h.floats.Float World
        → Result EngineError (Option (ActionTypeRequest h.floats.Float)) × Caches
        → Result EngineError StepActionResult × Run h.floats.Float World
    process s (err x, c) = (err x, with_caches c s)
    process s (ok none, c) = (ok no_transition, with_caches c s)
    process s (ok (some req), c) =
        process_action_type_result h.floats nanoseconds run req (step_index_by_id 0 wf.steps [])
          (with_caches c s)

    abbrev pub requested_by :
        {A : Type 0}
        → (A → ActionTypeRequest h.floats.Float)
        → Stateful (Option A)
        → Stateful (Option (ActionTypeRequest h.floats.Float))
    requested_by f m = m >>= elim [ none ↦ pure (ok none) | some a ↦ pure (ok (some (f a))) ]

    unfoldable pub process_success_actions :
        Step h.floats.Float
        → Run h.floats.Float World
        → Result EngineError StepActionResult × Run h.floats.Float World
    unfolding process_action_type_result step_index_by_id select_success_action
    process_success_actions step s = process s (
        requested_by success_request
          (select_success_action h e.document.components s.context step.on_success
            wf.success_actions)
          s.shared.caches)

    unfoldable pub process_failure_actions :
        Step h.floats.Float
        → ℕ
        → Run h.floats.Float World
        → Result EngineError StepActionResult × Run h.floats.Float World
    unfolding process_action_type_result step_index_by_id select_failure_action
    process_failure_actions step retries s = process s (
        requested_by (λ a. failure_request a retries)
          (select_failure_action h e.document.components s.context step.on_failure
            wf.failure_actions)
          s.shared.caches)

    module _ (next : Round h.floats.Float World) (step : Step h.floats.Float) where
      abbrev pub succeeded :
          ℕ
          → List (Bytes × ℕ)
          → List (StepResult h.floats.Float)
          → Result EngineError StepActionResult × Run h.floats.Float World
          → Finished h.floats.Float World
      succeeded idx counts done (err x, s) = finished (some x) done s
      succeeded idx counts done (ok t, s) =
          if t.end_workflow
          then finished none done s
          else next (elim t.jump_to_step_idx [ none ↦ suc idx | some j ↦ j ]) counts done s

      abbrev pub slept :
          ℕ
          → List (Bytes × ℕ)
          → List (StepResult h.floats.Float)
          → Run h.floats.Float World
          → Option Bytes × World
          → Finished h.floats.Float World
      slept idx counts done s (none, w) = next idx counts done (with_world w s)
      slept idx counts done s (some m, w) = finished (some (external m)) done (with_world w s)

      abbrev pub jumped :
          StepResult h.floats.Float
          → List (Bytes × ℕ)
          → List (StepResult h.floats.Float)
          → Run h.floats.Float World
          → Option ℕ
          → Finished h.floats.Float World
      jumped r counts done s none =
          finished (some (step_failure_or_default step.step_id r.error)) done s
      jumped r counts done s (some j) = next j counts done s

      abbrev pub not_succeeded :
          StepResult h.floats.Float
          → ℕ
          → List (Bytes × ℕ)
          → List (StepResult h.floats.Float)
          → Result EngineError StepActionResult × Run h.floats.Float World
          → Finished h.floats.Float World
      not_succeeded r idx counts done (err x, s) = finished (some x) done s
      not_succeeded r idx counts done (ok t, s) =
          if t.retry_current
          then slept idx (insert step.step_id (suc (retry_count step.step_id counts)) counts) done s
              (sleep t.retry_after s.shared.world)
          else if t.end_workflow
          then finished (some (step_failure_or_default step.step_id r.error)) done s
          else jumped r counts done s t.jump_to_step_idx

      -- A step that panics has no result, and no actions behind it.
      abbrev pub stepped :
          ℕ
          → List (Bytes × ℕ)
          → List (StepResult h.floats.Float)
          → StepResult h.floats.Float × Run h.floats.Float World
          → Finished h.floats.Float World
      stepped idx counts done (r, s) =
          let n = retry_count step.step_id counts in
          let done' = done ++ (record r { retries = n } ∷ []) in
          if r.success
          then succeeded idx (insert step.step_id 0 counts) done' (process_success_actions step s)
          else unless_escaping r.error (λ x. finished (some x) done s)
              (not_succeeded r idx counts done' (process_failure_actions step n s))

      -- The body of the loop, behind its guards. `next` is the next round.
      unfoldable pub take_step : Round h.floats.Float World
      unfolding execute_step process_success_actions process_failure_actions sleep insert lookup
      take_step idx counts done s = stepped idx counts done (execute_step h out e run step s)

    abbrev pub checked :
        (Step h.floats.Float → Round h.floats.Float World)
        → Step h.floats.Float
        → ℕ
        → List (Bytes × ℕ)
        → List (StepResult h.floats.Float)
        → Run h.floats.Float World
        → Option Bytes × World
        → Finished h.floats.Float World
    checked go step idx counts done s (some m, w) =
        finished (some (external m)) done (with_world w s)
    checked go step idx counts done s (none, w) = go step idx counts done (with_world w s)

    abbrev pub guarded_by :
        (Step h.floats.Float → Round h.floats.Float World)
        → Option (Step h.floats.Float)
        → Round h.floats.Float World
    guarded_by go none idx counts done s = finished none done s
    guarded_by go (some step) idx counts done s =
        checked go step idx counts done s (ctx_err s.shared.world)

    -- The loop's guards: no further step, and a context that is done.
    abbrev pub guarded :
        (Step h.floats.Float → Round h.floats.Float World) → Round h.floats.Float World
    guarded go idx counts done s = guarded_by go (get_elem? wf.steps idx) idx counts done s

    abbrev pub too_many : Step h.floats.Float → Round h.floats.Float World
    too_many step idx counts done s = finished (some (transitions_exceeded wf.workflow_id)) done s

    -- The loop, with the transitions that are left.
    unfoldable pub run_steps : ℕ → Round h.floats.Float World
    unfolding take_step
    run_steps zero = guarded too_many
    run_steps (suc left) = guarded (take_step (run_steps left))
