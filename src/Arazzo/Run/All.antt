-- ===== src/Arazzo/Run/All.antt =====
-- arazzo/engine.go: `RunAll`.
use libopenapi.Prelude.{
  suc, Bool, true, false, ◌&&◌, List, [], ◌∷◌, ◌++◌, Option, none, some, Bytes,
}
use libopenapi.Prelude.Outcome.{Result, ok, err}
use libopenapi.Prelude.Dict.{lookup, insert}
use libopenapi.Arazzo.Value.{Dict, no_dict}
use libopenapi.Arazzo.Criterion.{Host, Caches}
use libopenapi.Arazzo.Engine.{EngineError, external, unless_escaping}
use libopenapi.Arazzo.Engine.Document.{Workflow, WorkflowResult}
use libopenapi.Arazzo.Engine.Order.{topological_sort, dependency_execution_error}
use libopenapi.Arazzo.Engine.Transitions.{Shared, Runner}
use libopenapi.Arazzo.Run.{Outside, Engine}
use libopenapi.Arazzo.Run.Workflows.{max_workflow_depth, new_state, run_workflow}

pub record RunResult (F : Type 0) : Type 0 where
  pub workflows : List (WorkflowResult F)
  pub success : Bool

module _ (h : Host) (out : Outside h.floats.Float) (e : Engine h.floats.Float) where
  open out use {World, ctx_err}

  -- `state.workflowResults[wfId] = …` of a result that `runWorkflow` has not kept.
  abbrev pub kept :
      Bytes
      → WorkflowResult h.floats.Float
      → Shared h.floats.Float World
      → Shared h.floats.Float World
  kept id r s = record s {
    execution = record s.execution { workflow_results = insert id r s.execution.workflow_results };
  }

  abbrev pub failed_result :
      Bytes → Dict h.floats.Float → EngineError → WorkflowResult h.floats.Float
  failed_result id inputs x = record {
    workflow_id = id;
    success = false;
    inputs = inputs;
    outputs = no_dict;
    steps = [];
    error = some x;
  }

  -- An error is a failed result, unless it is a panic.
  abbrev pub ran :
      Bytes
      → Dict h.floats.Float
      → Result EngineError (WorkflowResult h.floats.Float) × Shared h.floats.Float World
      → Result EngineError (WorkflowResult h.floats.Float) × Shared h.floats.Float World
  ran id inputs (ok r, s) = (ok r, s)
  ran id inputs (err x, s) =
      unless_escaping (some x) (λ y. (err y, s))
        (ok (failed_result id inputs x), kept id (failed_result id inputs x) s)

  abbrev pub dependency_error :
      Option (Workflow h.floats.Float) → Shared h.floats.Float World → Option EngineError
  dependency_error none s = none
  dependency_error (some wf) s = dependency_execution_error wf s.execution.workflow_results

  -- `runWorkflow` is an argument.
  module _ (run : Runner h.floats.Float World) (inputs : Bytes → Dict h.floats.Float) where
    abbrev pub run_unless :
        Bytes
        → Shared h.floats.Float World
        → Option EngineError
        → Result EngineError (WorkflowResult h.floats.Float) × Shared h.floats.Float World
    run_unless id s (some x) =
        (ok (failed_result id no_dict x), kept id (failed_result id no_dict x) s)
    run_unless id s none = ran id (inputs id) (run id (inputs id) s)

    -- One workflow of the order: its result, and what is shared then. The error is a panic.
    unfoldable pub run_one :
        Bytes
        → Shared h.floats.Float World
        → Result EngineError (WorkflowResult h.floats.Float) × Shared h.floats.Float World
    unfolding dependency_execution_error insert lookup
    run_one id s = run_unless id s (dependency_error (lookup id e.workflows) s)

    -- The loop of `RunAll` over the order.
    unfoldable pub run_in_order :
        List Bytes
        → RunResult h.floats.Float
        → Shared h.floats.Float World
        → Result EngineError (RunResult h.floats.Float) × Shared h.floats.Float World
    unfolding run_one
    run_in_order [] result s = (ok result, s)
    run_in_order (id ∷ order) result s =
        let (x, w) = ctx_err s.world in
        elim x [
          | some m ↦ (err (external m), record s { world = w })
          | none ↦
              let (y, t) = run_one id (record s { world = w }) in
              elim y [
                | err z ↦ (err z, t)
                | ok r ↦
                    run_in_order order
                      (record {
                        workflows = result.workflows ++ (r ∷ []);
                        success = result.success && r.success;
                      })
                      t
              ]
        ]

    abbrev pub ordered :
        Shared h.floats.Float World
        → Option (Result EngineError (List Bytes))
        → Option (Result EngineError (RunResult h.floats.Float) × Shared h.floats.Float World)
    ordered s none = none
    ordered s (some (err x)) = some (err x, s)
    ordered s (some (ok order)) =
        some (run_in_order order (record { workflows = []; success = true }) s)

    -- `RunAll`. `none` is the model's alone, and stands for a sort that has not ended.
    unfoldable pub run_all_by :
        World
        → Caches
        → Option (Result EngineError (RunResult h.floats.Float) × Shared h.floats.Float World)
    unfolding run_in_order topological_sort
    run_all_by w c =
        ordered (record { world = w; caches = c; execution = new_state })
          (topological_sort e.document.workflows)

  unfoldable pub run_all :
      (Bytes → Dict h.floats.Float)
      → World
      → Caches
      → Option (Result EngineError (RunResult h.floats.Float) × Shared h.floats.Float World)
  unfolding run_all_by run_workflow
  run_all inputs w c = run_all_by (run_workflow h out e (suc max_workflow_depth)) inputs w c
