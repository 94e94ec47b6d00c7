-- ===== src/Arazzo/Run/Workflows.antt =====
-- arazzo/engine.go: `runWorkflow` around its loop, and `RunWorkflow`.
use libopenapi.Prelude.{
  ℕ, zero, suc, ◌+◌, ◌-◌, false, List, [], ◌∷◌, Option, none, some, Bytes, eqb, leb, member,
  if◌then◌else◌,
}
use libopenapi.Prelude.Outcome.{Result, ok, err}
use libopenapi.Prelude.Dict.{lookup, insert}
use libopenapi.Arazzo.Value.{Value, Entries, end, put, Dict, no_dict, dict}
use libopenapi.Arazzo.Criterion.{Host, Caches}
use libopenapi.Arazzo.Engine.{
  EngineError, in_workflow_output, circular_workflow, depth_exceeded, unresolved_workflow,
  out_of_fuel, unless_escaping, wrapped,
}
use libopenapi.Arazzo.Engine.Document.{Workflow, WorkflowResult}
use libopenapi.Arazzo.Engine.Strings.{evaluate_string_value}
use libopenapi.Arazzo.Engine.Transitions.{ExecutionState, Shared, Run, Runner}
use libopenapi.Arazzo.Run.{Outside, Engine}
use libopenapi.Arazzo.Run.Contexts.{new_expression_context}
use libopenapi.Arazzo.Run.Filling.{with_caches, with_context}
use libopenapi.Arazzo.Run.Loop.{max_step_transitions, Finished, run_steps}

abbrev pub max_workflow_depth : ℕ
max_workflow_depth = 32

-- A set of ids is a list.
unfoldable pub delete : Bytes → List Bytes → List Bytes
delete id [] = []
delete id (j ∷ ids) = let rest = delete id ids in if eqb j id then rest else j ∷ rest

abbrev pub enter : {F W : Type 0} → Bytes → Shared F W → Shared F W
enter id s = record s {
  execution = record s.execution {
    active_workflows = id ∷ s.execution.active_workflows;
    depth = s.execution.depth + 1;
  };
}

-- The deferred function.
unfoldable pub leave : {F W : Type 0} → Bytes → Shared F W → Shared F W
unfolding delete
leave id s = record s {
  execution = record s.execution {
    active_workflows = delete id s.execution.active_workflows;
    depth = s.execution.depth - 1;
  };
}

abbrev put_output : {F : Type 0} → Bytes → Value F → Dict F → Dict F
put_output name v no_dict = dict (put name v end)
put_output name v (dict m) = dict (put name v m)

abbrev pub new_state : {F : Type 0} → ExecutionState F
new_state = record {
  workflow_results = [];
  workflow_contexts = [];
  active_workflows = [];
  depth = 0;
}

module _ (h : Host) (out : Outside h.floats.Float) (e : Engine h.floats.Float) where
  open out use {World, ctx_err}

  abbrev pub with_output :
      Bytes → Value h.floats.Float → Run h.floats.Float World → Run h.floats.Float World
  with_output name v s =
      with_context (record s.context { outputs = put_output name v s.context.outputs }) s

  -- The loop of `populateWorkflowOutputs`: an output is in the context of the next one.
  unfoldable pub populate_workflow_outputs :
      Bytes
      → List (Bytes × Bytes)
      → Entries h.floats.Float
      → Run h.floats.Float World
      → Option EngineError × Entries h.floats.Float × Run h.floats.Float World
  unfolding put
  populate_workflow_outputs id [] m s = (none, m, s)
  populate_workflow_outputs id ((name, expression) ∷ rest) m s =
      let (r, c) =
        wrapped (in_workflow_output name id) (evaluate_string_value h s.context expression)
          s.shared.caches in
      elim r [
        | err x ↦ (some x, m, with_caches c s)
        | ok v ↦
            populate_workflow_outputs id rest (put name v m) (with_output name v (with_caches c s))
      ]

  abbrev pub populated :
      Finished h.floats.Float World
      → Option EngineError × Entries h.floats.Float × Run h.floats.Float World
      → Finished h.floats.Float World × Entries h.floats.Float
  populated fin (none, m, s) = (record fin { run = s }, m)
  populated fin (some x, m, s) = (record fin { success = false; error = some x; run = s }, m)

  -- The outputs, if the loop has ended with success.
  abbrev pub outputs_of :
      Workflow h.floats.Float
      → Finished h.floats.Float World
      → Finished h.floats.Float World × Entries h.floats.Float
  outputs_of wf fin =
      if fin.success
      then populated fin (populate_workflow_outputs wf.workflow_id wf.outputs end fin.run)
      else (fin, end)

  abbrev pub result_of :
      Bytes
      → Dict h.floats.Float
      → Finished h.floats.Float World × Entries h.floats.Float
      → WorkflowResult h.floats.Float
  result_of id inputs (fin, m) = record {
    workflow_id = id;
    success = fin.success;
    inputs = inputs;
    outputs = dict m;
    steps = fin.steps;
    error = fin.error;
  }

  abbrev pub remembered :
      Bytes
      → WorkflowResult h.floats.Float
      → Shared h.floats.Float World
      → Shared h.floats.Float World
  remembered id r s = record s {
    execution = record s.execution {
      workflow_results = insert id r s.execution.workflow_results;
      workflow_contexts =
          insert id (record { inputs = r.inputs; outputs = r.outputs })
            s.execution.workflow_contexts;
    };
  }

  -- The result, which the state keeps with the workflow's context; there is none after a panic.
  abbrev pub concluded :
      Bytes
      → Dict h.floats.Float
      → Finished h.floats.Float World × Entries h.floats.Float
      → Result EngineError (WorkflowResult h.floats.Float) × Shared h.floats.Float World
  concluded id inputs (fin, m) =
      let r = result_of id inputs (fin, m) in
      unless_escaping fin.error (λ x. (err x, fin.run.shared))
        (ok r, remembered id r fin.run.shared)

  abbrev pub run_begun :
      Runner h.floats.Float World
      → Workflow h.floats.Float
      → Bytes
      → Dict h.floats.Float
      → Option EngineError × Run h.floats.Float World
      → Result EngineError (WorkflowResult h.floats.Float) × Shared h.floats.Float World
  run_begun run wf id inputs (some x, s) = (err x, s.shared)
  run_begun run wf id inputs (none, s) =
      concluded id inputs (outputs_of wf (run_steps h out e run wf max_step_transitions 0 [] [] s))

  -- `runWorkflow` behind its guards. `run` runs the workflows inside.
  unfoldable pub run_entered :
      Runner h.floats.Float World → Workflow h.floats.Float → Runner h.floats.Float World
  unfolding new_expression_context run_steps populate_workflow_outputs insert
  run_entered run wf id inputs s =
      run_begun run wf id inputs (new_expression_context h out e inputs s)

  abbrev pub left :
      Bytes
      → Result EngineError (WorkflowResult h.floats.Float) × Shared h.floats.Float World
      → Result EngineError (WorkflowResult h.floats.Float) × Shared h.floats.Float World
  left id (r, s) = (r, leave id s)

  abbrev pub found :
      Runner h.floats.Float World → Option (Workflow h.floats.Float) → Runner h.floats.Float World
  found run none id inputs s = (err (unresolved_workflow id), s)
  found run (some wf) id inputs s = left id (run_entered run wf id inputs (enter id s))

  -- The guards of `runWorkflow`.
  abbrev pub entered : Runner h.floats.Float World → Runner h.floats.Float World
  entered run id inputs s =
      if member id s.execution.active_workflows
      then (err (circular_workflow id), s)
      else if leb max_workflow_depth s.execution.depth
      then (err depth_exceeded, s)
      else found run (lookup id e.workflows) id inputs s

  -- `runWorkflow`, where workflows run inside one another as deep as the fuel goes; those at the
  -- bottom are run by `base`.
  unfoldable pub nested : Runner h.floats.Float World → ℕ → Runner h.floats.Float World
  unfolding run_entered member leave lookup
  nested base zero id inputs s = base id inputs s
  nested base (suc fuel) id inputs s = entered (nested base fuel) id inputs s

  abbrev pub no_fuel : Runner h.floats.Float World
  no_fuel id inputs s = (err out_of_fuel, s)

  -- `runWorkflow`.
  unfoldable pub run_workflow : ℕ → Runner h.floats.Float World
  unfolding nested
  run_workflow fuel id inputs s = nested no_fuel fuel id inputs s

  -- `RunWorkflow`, on the caches and the world as they are.
  unfoldable pub run_workflow_alone :
      Bytes
      → Dict h.floats.Float
      → World
      → Caches
      → Result EngineError (WorkflowResult h.floats.Float) × Shared h.floats.Float World
  unfolding run_workflow
  run_workflow_alone id inputs w c =
      run_workflow (suc max_workflow_depth) id inputs
        (record { world = w; caches = c; execution = new_state })
