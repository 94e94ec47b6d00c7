-- ===== src/Arazzo/Run/Concluded.antt =====
-- arazzo/engine.go: what `runWorkflow` returns, and what it keeps of it.
use libopenapi.Prelude.{
  member, ℕ, suc, ◌≤◌, ◌<◌, true, false, List, [], Option, none, some, Bytes, length, leb, ◌≡◌, ◌↔◌,
  ◌⊎◌, refl, arith, inl, inr, Bool-cases,
}
use libopenapi.Prelude.Outcome.{Result, ok, err}
use libopenapi.Prelude.Dict.{lookup, lookup-insert_self}
use libopenapi.Arazzo.Value.{Dict, Entries}
use libopenapi.Arazzo.Criterion.{Host}
use libopenapi.Arazzo.Engine.{
  EngineError, escapes, escaping, circular_workflow, depth_exceeded, unresolved_workflow,
}
use libopenapi.Arazzo.Engine.Escaping.{if_lem, unless_escaping_lem}
use libopenapi.Arazzo.Engine.Document.{Workflow, WorkflowResult}
use libopenapi.Arazzo.Engine.Transitions.{Shared, Run, Runner}
use libopenapi.Arazzo.Run.{Outside, Engine}
use libopenapi.Arazzo.Run.Loop.{Finished, run_steps, max_step_transitions}
use libopenapi.Arazzo.Run.Workflows.{
  max_workflow_depth, enter, leave, outputs_of, concluded, run_entered, left, found, run_workflow,
  nested, populated, run_begun,
}
use libopenapi.Arazzo.Run.Contexts.{blank_context, new_expression_context}
use libopenapi.Arazzo.Run.Escaped.{with_components-escapes}
use libopenapi.Arazzo.Run.Bounds.{run_steps-Adds}

-- A result of a workflow, and the results that the state keeps.
pub record Concluded {F W : Type 0} (id : Bytes) (inputs : Dict F) (r : WorkflowResult F)
    (s : Shared F W) : Type 0 where
  pub named : r.workflow_id ≡ id
  pub given : r.inputs ≡ inputs
  pub error_iff : (r.success ≡ true) ↔ (r.error ≡ none)
  pub handled : escaping r.error ≡ none
  pub bound : length r.steps ≤ max_step_transitions
  pub kept : lookup id s.execution.workflow_results ≡ some r
  pub shown :
      lookup id s.execution.workflow_contexts
      ≡ some (record { inputs = inputs; outputs = r.outputs })

-- What `runWorkflow` returns: one of three errors, and then nothing has changed; or a result; or a
-- panic or a lack of fuel, which is no error that it returns.
pub data Ends {F W : Type 0} (workflows : List (Bytes × Workflow F)) (id : Bytes) (inputs : Dict F)
    (s : Shared F W) (x : Result EngineError (WorkflowResult F) × Shared F W) : Type 0 where
  circular :
      member id s.execution.active_workflows ≡ true
      → x ≡ (err (circular_workflow id), s)
      → Ends workflows id inputs s x
  too_deep :
      member id s.execution.active_workflows ≡ false
      → max_workflow_depth ≤ s.execution.depth
      → x ≡ (err depth_exceeded, s)
      → Ends workflows id inputs s x
  unknown :
      member id s.execution.active_workflows ≡ false
      → s.execution.depth < max_workflow_depth
      → lookup id workflows ≡ none
      → x ≡ (err (unresolved_workflow id), s)
      → Ends workflows id inputs s x
  concludes :
      member id s.execution.active_workflows ≡ false
      → s.execution.depth < max_workflow_depth
      → (wf : Workflow F) → lookup id workflows ≡ some wf
      → (r : WorkflowResult F) → x.0 ≡ ok r
      → Concluded id inputs r x.1
      → Ends workflows id inputs s x
  panics :
      member id s.execution.active_workflows ≡ false
      → s.execution.depth < max_workflow_depth
      → (wf : Workflow F) → lookup id workflows ≡ some wf
      → (y : EngineError) → x.0 ≡ err y
      → escapes y ≡ true
      → Ends workflows id inputs s x

module _ (h : Host) (out : Outside h.floats.Float) (e : Engine h.floats.Float) where
  open out use {World}

  abbrev Concludes :
      Bytes
      → Dict h.floats.Float
      → Result EngineError (WorkflowResult h.floats.Float) × Shared h.floats.Float World
      → Type 0
  Concludes id inputs x =
      ((r : WorkflowResult h.floats.Float) × (x.0 ≡ ok r) × Concluded id inputs r x.1)
      ⊎ ((y : EngineError) × (x.0 ≡ err y) × (escapes y ≡ true))

  abbrev IsReport : Finished h.floats.Float World → Type 0
  IsReport fin =
      (length fin.steps ≤ max_step_transitions) × ((fin.success ≡ true) ↔ (fin.error ≡ none))

  populated-IsReport :
      (fin : Finished h.floats.Float World)
      (r : Option EngineError × Entries h.floats.Float × Run h.floats.Float World)
      → IsReport fin
      → IsReport (populated h out e fin r).0
  populated-IsReport fin (none, m, s) b = b
  populated-IsReport fin (some x, m, s) b = (b.0, (λ p. ground arith, λ p. ground arith))

  outputs_of-IsReport :
      (wf : Workflow h.floats.Float) (fin : Finished h.floats.Float World)
      → IsReport fin
      → IsReport (outputs_of h out e wf fin).0
  outputs_of-IsReport wf fin b =
      if_lem (λ (x : Finished h.floats.Float World × Entries h.floats.Float). IsReport x.0)
        fin.success (populated-IsReport fin _ b) b

  concluded-Concludes :
      (id : Bytes) (inputs : Dict h.floats.Float)
      (x : Finished h.floats.Float World × Entries h.floats.Float)
      → IsReport x.0
      → Concludes id inputs (concluded h out e id inputs x)
  concluded-Concludes id inputs (fin, m) (l, b) =
      unless_escaping_lem (Concludes id inputs) fin.error (λ y p k. inr (y, refl, k))
        (λ p. inl (
          _,
          refl,
          record {
            named = refl;
            given = refl;
            error_iff = b;
            handled = p;
            bound = l;
            kept = lookup-insert_self id _ fin.run.shared.execution.workflow_results;
            shown = lookup-insert_self id _ fin.run.shared.execution.workflow_contexts;
          },
        ))

  run_begun-Concludes :
      (run : Runner h.floats.Float World) (wf : Workflow h.floats.Float) (id : Bytes)
      (inputs : Dict h.floats.Float) (x : Option EngineError × Run h.floats.Float World)
      → ((y : EngineError) → x.0 ≡ some y → escapes y ≡ true)
      → Concludes id inputs (run_begun h out e run wf id inputs x)
  run_begun-Concludes run wf id inputs (some x, s) k = inr (x, refl, k x refl)
  run_begun-Concludes run wf id inputs (none, s) k =
      let fin = run_steps h out e run wf max_step_transitions 0 [] [] s in
      let b = run_steps-Adds h out e run wf max_step_transitions 0 [] [] s in
      concluded-Concludes id inputs (outputs_of h out e wf fin)
        (outputs_of-IsReport wf fin (b.bound, b.error_iff))

  run_entered-Concludes :
      (run : Runner h.floats.Float World) (wf : Workflow h.floats.Float) (id : Bytes)
      (inputs : Dict h.floats.Float) (s : Shared h.floats.Float World)
      → Concludes id inputs (run_entered h out e run wf id inputs s)
  unfolding run_entered new_expression_context
  run_entered-Concludes run wf id inputs s =
      run_begun-Concludes run wf id inputs (new_expression_context h out e inputs s) (
        with_components-escapes h out e (blank_context h out e inputs s.execution) s
          e.cached_components)

  left-Concludes :
      (id : Bytes) (inputs : Dict h.floats.Float)
      (x : Result EngineError (WorkflowResult h.floats.Float) × Shared h.floats.Float World)
      → Concludes id inputs x
      → Concludes id inputs (left h out e id x)
  unfolding leave
  left-Concludes id inputs (x, s) (inr z) = inr z
  left-Concludes id inputs (x, s) (inl (r, q, c)) = inl (
    r,
    q,
    record {
      named = c.named;
      given = c.given;
      error_iff = c.error_iff;
      handled = c.handled;
      bound = c.bound;
      kept = c.kept;
      shown = c.shown;
    },
  )

  found-Ends :
      (run : Runner h.floats.Float World) (id : Bytes) (inputs : Dict h.floats.Float)
      (s : Shared h.floats.Float World)
      → member id s.execution.active_workflows ≡ false
      → s.execution.depth < max_workflow_depth
      → (o : Option (Workflow h.floats.Float)) → lookup id e.workflows ≡ o
      → Ends e.workflows id inputs s (found h out e run o id inputs s)
  found-Ends run id inputs s a b none q = unknown a b q refl
  found-Ends run id inputs s a b (some wf) q =
      elim (left-Concludes id inputs _ (run_entered-Concludes run wf id inputs (enter id s))) [
        | inl (r, p, c) ↦ concludes a b wf q r p c
        | inr (y, p, k) ↦ panics a b wf q y p k
      ]

  -- A workflow that is active, too deep or unknown is an error, and changes nothing. Any other one
  -- gives a result, unless the run panics or lacks fuel: under its id and with its inputs, with an
  -- error, which is no panic, exactly where it has not succeeded, with at most as many steps as a run
  -- has transitions; and the state then holds that result and that context.
  pub run_workflow-Ends :
      (fuel : ℕ) (id : Bytes) (inputs : Dict h.floats.Float) (s : Shared h.floats.Float World)
      → Ends e.workflows id inputs s (run_workflow h out e (suc fuel) id inputs s)
  unfolding run_workflow nested
  run_workflow-Ends fuel id inputs s = elim (Bool-cases (member id s.execution.active_workflows)) [
    | inl q ↦ circular q (rw q refl)
    | inr q ↦ elim (Bool-cases (leb max_workflow_depth s.execution.depth)) [
      | inl k ↦ too_deep q (ground arith) (rw (q, k) refl)
      | inr k ↦
          rw (q, k)
            (found-Ends (run_workflow h out e fuel) id inputs s q (ground arith)
              (lookup id e.workflows) refl)
    ]
  ]
