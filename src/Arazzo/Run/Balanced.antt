-- ===== src/Arazzo/Run/Balanced.antt =====
-- arazzo/engine.go: the active workflows and the depth of an execution, through `runWorkflow`.
use libopenapi.Prelude.{
  member, ℕ, zero, suc, ◌+◌, ◌-◌, false, List, [], ◌∷◌, Option, none, some, Bytes, eqb, eqb_refl,
  leb, ◌≡◌, refl, sym, ap, ◌∙◌, arith, inl, inr, Bool-cases,
}
use libopenapi.Prelude.Outcome.{Result, Result-cases}
use libopenapi.Prelude.Dict.{lookup}
use libopenapi.Arazzo.Value.{Dict, Entries, put}
use libopenapi.Arazzo.Evaluator.{Context, ComponentsContext}
use libopenapi.Arazzo.Criterion.{Host}
use libopenapi.Arazzo.Engine.{EngineError, in_workflow_output, wrapped}
use libopenapi.Arazzo.Engine.Escaping.{if_lem, unless_escaping_lem}
use libopenapi.Arazzo.Engine.Document.{Workflow, WorkflowResult}
use libopenapi.Arazzo.Engine.Transitions.{Shared, Run, Runner}
use libopenapi.Arazzo.Engine.Strings.{evaluate_string_value}
use libopenapi.Arazzo.Run.Filling.{with_caches}
use libopenapi.Arazzo.Run.{Outside, Engine}
use libopenapi.Arazzo.Run.Loop.{Finished, run_steps, max_step_transitions}
use libopenapi.Arazzo.Run.Workflows.{
  delete, enter, leave, with_output, populate_workflow_outputs, populated, outputs_of, concluded,
  run_begun, run_entered, nested, left, found, run_workflow, max_workflow_depth,
}
use libopenapi.Arazzo.Run.Contexts.{blank_context, with_components, new_expression_context}
use libopenapi.Arazzo.Run.Stack.{stack, Restores}
use libopenapi.Arazzo.Run.Restored.{run_steps-stack}

delete-member : (id : Bytes) (ids : List Bytes) → member id ids ≡ false → delete id ids ≡ ids
unfolding delete member
delete-member id [] q = refl
delete-member id (j ∷ ids) q = elim (Bool-cases (eqb j id)) [
  | inl k ↦ ground arith
  | inr k ↦ rw k (ap (λ x. j ∷ x) (delete-member id ids (sym (rw k refl) ∙ q)))
]

delete_entered :
    (id : Bytes) (ids : List Bytes) → member id ids ≡ false → delete id (id ∷ ids) ≡ ids
unfolding delete
delete_entered id ids q = rw (eqb_refl id) (delete-member id ids q)

module _ (h : Host) (out : Outside h.floats.Float) (e : Engine h.floats.Float) where
  open out use {World}

  pub with_components-stack :
      (ctx : Context h.floats.Float) (s : Shared h.floats.Float World)
      (c : Option (ComponentsContext h.floats.Float))
      → stack (with_components h out e ctx s c).1.shared ≡ stack s
  with_components-stack ctx s none = refl
  with_components-stack ctx s (some c) = refl

  populate_workflow_outputs-stack :
      (id : Bytes) (outputs : List (Bytes × Bytes)) (m : Entries h.floats.Float)
      (s : Run h.floats.Float World)
      → stack (populate_workflow_outputs h out e id outputs m s).2.shared ≡ stack s.shared
  unfolding populate_workflow_outputs wrapped evaluate_string_value
  populate_workflow_outputs-stack id [] m s = refl
  populate_workflow_outputs-stack id ((name, x) ∷ outputs) m s =
      let r =
        wrapped (in_workflow_output name id) (evaluate_string_value h s.context x)
          s.shared.caches in
      elim (Result-cases r.0) [
        | inl (v, q) ↦ rw q (
            populate_workflow_outputs-stack id outputs (put name v m)
              (with_output h out e name v (with_caches r.1 s)))
        | inr (x', q) ↦ rw q refl
      ]

  populated-stack :
      (fin : Finished h.floats.Float World)
      (r : Option EngineError × Entries h.floats.Float × Run h.floats.Float World)
      → stack (populated h out e fin r).0.run.shared ≡ stack r.2.shared
  populated-stack fin (none, m, s) = refl
  populated-stack fin (some x, m, s) = refl

  outputs_of-stack :
      (wf : Workflow h.floats.Float) (fin : Finished h.floats.Float World)
      → stack (outputs_of h out e wf fin).0.run.shared ≡ stack fin.run.shared
  outputs_of-stack wf fin =
      if_lem
        (λ (x : Finished h.floats.Float World × Entries h.floats.Float).
          stack x.0.run.shared ≡ stack fin.run.shared)
        fin.success
        (populated-stack fin _
          ∙ populate_workflow_outputs-stack wf.workflow_id wf.outputs _ fin.run)
        refl

  concluded-stack :
      (id : Bytes) (inputs : Dict h.floats.Float)
      (x : Finished h.floats.Float World × Entries h.floats.Float)
      → stack (concluded h out e id inputs x).1 ≡ stack x.0.run.shared
  concluded-stack id inputs (fin, m) =
      unless_escaping_lem
        (λ (r : Result EngineError (WorkflowResult h.floats.Float) × Shared h.floats.Float World).
          stack r.1 ≡ stack fin.run.shared)
        fin.error (λ y p k. refl) (λ p. refl)

  run_begun-stack :
      (run : Runner h.floats.Float World)
      → Restores run
      → (wf : Workflow h.floats.Float) (id : Bytes) (inputs : Dict h.floats.Float)
        (x : Option EngineError × Run h.floats.Float World)
      → stack (run_begun h out e run wf id inputs x).1 ≡ stack x.1.shared
  run_begun-stack run restores wf id inputs (some x, s) = refl
  run_begun-stack run restores wf id inputs (none, s) =
      let fin = run_steps h out e run wf max_step_transitions 0 [] [] s in
      concluded-stack id inputs (outputs_of h out e wf fin)
      ∙ outputs_of-stack wf fin
      ∙ run_steps-stack h out e run restores wf max_step_transitions 0 [] [] s

  run_entered-Restores :
      (run : Runner h.floats.Float World)
      → Restores run
      → (wf : Workflow h.floats.Float) → Restores (run_entered h out e run wf)
  unfolding run_entered new_expression_context
  run_entered-Restores run restores wf id inputs s =
      run_begun-stack run restores wf id inputs (new_expression_context h out e inputs s)
      ∙ with_components-stack (blank_context h out e inputs s.execution) s e.cached_components

  one_back : (n : ℕ) → n + 1 - 1 ≡ n
  one_back n = omega arith

  left-stack :
      (id : Bytes) (s : Shared h.floats.Float World)
      (r : Result EngineError (WorkflowResult h.floats.Float) × Shared h.floats.Float World)
      → member id s.execution.active_workflows ≡ false
      → stack r.1 ≡ stack (enter id s)
      → stack (left h out e id r).1 ≡ stack s
  unfolding leave
  left-stack id s r q p =
      ap (λ x. (delete id x.0, x.1 - 1)) p
      ∙ (λ i. (delete_entered id s.execution.active_workflows q i, one_back s.execution.depth i))

  found-stack :
      (run : Runner h.floats.Float World)
      → Restores run
      → (wf : Option (Workflow h.floats.Float)) (id : Bytes) (inputs : Dict h.floats.Float)
        (s : Shared h.floats.Float World)
      → member id s.execution.active_workflows ≡ false
      → stack (found h out e run wf id inputs s).1 ≡ stack s
  found-stack run restores none id inputs s q = refl
  found-stack run restores (some wf) id inputs s q =
      left-stack id s (run_entered h out e run wf id inputs (enter id s)) q
        (run_entered-Restores run restores wf id inputs (enter id s))

  -- A workflow leaves the active workflows and the depth as it found them, however it ends.
  pub run_workflow-Restores : (fuel : ℕ) → Restores (run_workflow h out e fuel)
  unfolding run_workflow nested
  run_workflow-Restores zero id inputs s = refl
  run_workflow-Restores (suc fuel) id inputs s =
      elim (Bool-cases (member id s.execution.active_workflows)) [
        | inl q ↦ rw q refl
        | inr q ↦ elim (Bool-cases (leb max_workflow_depth s.execution.depth)) [
          | inl k ↦ rw (q, k) refl
          | inr k ↦
              rw (q, k)
                (found-stack (run_workflow h out e fuel) (run_workflow-Restores fuel)
                  (lookup id e.workflows) id inputs s q)
        ]
      ]
