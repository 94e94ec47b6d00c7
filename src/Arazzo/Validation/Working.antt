-- ===== src/Arazzo/Validation/Working.antt =====
-- arazzo/validation.go, arazzo/actions.go and arazzo/step.go: what the references and targets that
-- `Validate` checks are to the engine.
use libopenapi.Prelude.{All-map, false, List, [], Option, some, Bytes, ◌≡◌, All}
use libopenapi.Prelude.Number.{ℤ}
use libopenapi.Arazzo.Value.{Floats}
use libopenapi.Arazzo.Engine.{SuccessAction, FailureAction, is_reusable}
use libopenapi.Arazzo.Engine.References.{
  resolve_parameter, resolve_success_action, resolve_failure_action,
}
use libopenapi.Arazzo.Engine.Document.{Step, Workflow}
use libopenapi.Arazzo.Engine.Transitions.{step_result}
use libopenapi.Arazzo.Run.Loop.{step_index_by_id}
use libopenapi.Arazzo.Validation.{Arazzo}
use libopenapi.Arazzo.Validation.Names.{id_set}
use libopenapi.Arazzo.Validation.Operations.{Locations, OperationResolver}
use libopenapi.Arazzo.Validation.Mapping.{build_operation_lookup_context}
use libopenapi.Arazzo.Validation.Cycles.{Adjacency}
use libopenapi.Arazzo.Validation.Cycles.Ranked.{Ranges}
use libopenapi.Arazzo.Validation.Validate.{validate}
use libopenapi.Arazzo.Validation.Rules.{IsSuccessAction, IsFailureAction, IsStep, IsWorkflow}
use libopenapi.Arazzo.Validation.Accepted.{validate-IsDocument}
use libopenapi.Arazzo.Validation.Documents.{HasNoErrors, IsDocument}
use libopenapi.Arazzo.Validation.Resolved.{
  IsOk, resolve_parameter-IsOk, resolve_success_action-IsOk, resolve_failure_action-IsOk,
  step_result-IsOk,
}

-- What the engine does with a document: every reference to a component resolves, and every target
-- step of an action that is no reference is found.
module _ (floats : Floats) (nanoseconds : floats.Float → ℤ) (doc : Arazzo floats.Float) where
  abbrev Finds : List (Step floats.Float) → Bytes → Bytes → Type 0
  Finds steps reference step_id =
      is_reusable reference ≡ false
      → IsOk (step_result floats nanoseconds step_id (step_index_by_id 0 steps []))

  abbrev SuccessWorks : List (Step floats.Float) → SuccessAction → Type 0
  SuccessWorks steps a =
      IsOk (resolve_success_action doc.components a) × Finds steps a.reference a.step_id

  abbrev FailureWorks : List (Step floats.Float) → FailureAction floats.Float → Type 0
  FailureWorks steps a =
      IsOk (resolve_failure_action doc.components a) × Finds steps a.reference a.step_id

  abbrev StepWorks : List (Step floats.Float) → Step floats.Float → Type 0
  StepWorks steps step =
      All (λ p. IsOk (resolve_parameter doc.components p)) step.parameters
      × (All (SuccessWorks steps) step.on_success × All (FailureWorks steps) step.on_failure)

  abbrev pub WorkflowWorks : Workflow floats.Float → Type 0
  WorkflowWorks w =
      All (StepWorks w.steps) w.steps
      × (All (SuccessWorks w.steps) w.success_actions
          × All (FailureWorks w.steps) w.failure_actions)

module _ (loc : Locations) (floats : Floats) (nanoseconds : floats.Float → ℤ)
    (doc : Arazzo floats.Float) (w : Workflow floats.Float) (workflow_ids : List Bytes) where
  abbrev ids : List Bytes
  ids = id_set (λ s. s.step_id) w.steps

  success_works :
      (xs : List SuccessAction)
      → All (IsSuccessAction ids workflow_ids floats doc.components) xs
      → All (SuccessWorks floats nanoseconds doc w.steps) xs
  success_works = All-map _ _ λ a (r, f). (
    resolve_success_action-IsOk doc.components a r,
    λ e. step_result-IsOk floats nanoseconds w.steps a.step_id (f e).1.1.1.1.1,
  )

  failure_works :
      (xs : List (FailureAction floats.Float))
      → All (IsFailureAction ids workflow_ids floats doc.components) xs
      → All (FailureWorks floats nanoseconds doc w.steps) xs
  failure_works = All-map _ _ λ a (r, f). (
    resolve_failure_action-IsOk doc.components a r,
    λ e. step_result-IsOk floats nanoseconds w.steps a.step_id (f e).1.1.0.1.1.1,
  )

  step_works :
      (op_lookup : Option OperationResolver) (steps : List (Step floats.Float))
      → All (IsStep loc floats doc.components op_lookup workflow_ids ids) steps
      → All (StepWorks floats nanoseconds doc w.steps) steps
  step_works op_lookup = All-map _ _ λ s (t, (u, (l, ((ps, d), (cs, ((sa, e), ((fa, g), k))))))). (
    All-map _ _ (resolve_parameter-IsOk doc.components) s.parameters ps,
    (success_works s.on_success sa, failure_works s.on_failure fa),
  )

  workflow_works :
      (op_lookup : Option OperationResolver)
      → IsWorkflow loc floats doc.components op_lookup workflow_ids w
      → WorkflowWorks floats nanoseconds doc w
  workflow_works op_lookup (n, (deps, (named_steps, (distinct, (ss, ((sa, d), ((fa, e), k))))))) = (
    step_works op_lookup w.steps ss,
    (success_works w.success_actions sa, failure_works w.failure_actions fa),
  )

module _ (order : Adjacency → List Bytes) (ranges : (adj : Adjacency) → Ranges adj (order adj))
    (loc : Locations) (floats : Floats) (nanoseconds : floats.Float → ℤ)
    (doc : Arazzo floats.Float) where
  -- In a document in which Validate finds no error, the engine resolves each parameter and action of
  -- a workflow and its steps, whether a reference or not, and finds the step that an action names
  -- which is no reference.
  pub validate-WorkflowWorks :
      HasNoErrors (validate loc floats order (some doc))
      → All (WorkflowWorks floats nanoseconds doc) doc.workflows
  validate-WorkflowWorks h =
      let d : IsDocument loc floats doc = (validate-IsDocument order ranges loc floats doc).0 h in
      All-map _ _
        (λ w.
          workflow_works loc floats nanoseconds doc w (id_set (λ v. v.workflow_id) doc.workflows)
            (build_operation_lookup_context loc doc.open_api_source_docs doc.source_descriptions).0)
        doc.workflows d.workflows
