-- ===== src/Arazzo/Validation/Clean/Workflows.antt =====
-- arazzo/validation.go: the checks of workflows and steps find no error exactly where the
-- rules hold.
use libopenapi.Prelude.{
  ℕ, Bool, true, false, not, List, [], ◌∷◌, Option, none, some, Bytes, codes, member, is_empty,
  if◌then◌else◌, ◌≡◌, ◌≢◌, refl, arith,
}
use libopenapi.Arazzo.Value.{Floats}
use libopenapi.Arazzo.Engine.References.{Components}
use libopenapi.Arazzo.Engine.Document.{Step, Workflow}
use libopenapi.Arazzo.Validation.{
  SourceDescription, OpenApi, Reports, error, Cause, missing_step_id, duplicate_step_id,
}
use libopenapi.Arazzo.Validation.Names.{at_index, at_field, named, id_set}
use libopenapi.Arazzo.Validation.Operations.{Locations, OperationResolver}
use libopenapi.Arazzo.Validation.Mapping.{
  Candidate, Mapped, unique_docs, open_api_sources, unmapped_sources, both_passes, mapped_context,
  lookup_context, build_operation_lookup_context,
}
use libopenapi.Arazzo.Validation.Workflows.{
  check_step_id, is_one_of_three, look_up, validate_step, check_depends_on, validate_workflow,
}
use libopenapi.Arazzo.Validation.Clean.{
  Clean, Tests, both, unless, warned, renamed, negated, optional, refuses, nothing, each-Tests,
  each_seen-Tests,
}
use libopenapi.Arazzo.Validation.Clean.Fields.{validate_parameters-Tests}
use libopenapi.Arazzo.Validation.Clean.Criteria.{validate_criterion-Tests, check_output_keys-Tests}
use libopenapi.Arazzo.Validation.Clean.Actions.{
  validate_success_actions-Tests, validate_failure_actions-Tests,
}
use libopenapi.Arazzo.Validation.Rules.{HasOperation, IsStep, IsWorkflow, IsCriterion}
use libopenapi.Arazzo.Validation.Clean.Sources.{alone, one_target, if_one, lookup-Tests}

module _ (loc : Locations) (floats : Floats) (components : Option (Components floats.Float))
    (op_lookup : Option OperationResolver) (workflow_ids : List Bytes) where
  look_up-Tests :
      (path : Bytes) (step : Step floats.Float) (o : Option OperationResolver)
      → Tests
          (look_up loc floats components op_lookup workflow_ids path step o)
          (HasOperation loc o step)
  look_up-Tests path step none = nothing
  look_up-Tests path step (some r) = lookup-Tests loc r path step

  validate_step-Tests :
      (step_ids : List Bytes) (path : Bytes) (step : Step floats.Float)
      → Tests
          (validate_step loc floats components op_lookup workflow_ids step_ids path step)
          (IsStep loc floats components op_lookup workflow_ids step_ids step)
  unfolding validate_step
  validate_step-Tests step_ids path step =
      let one = is_one_of_three step.operation_id step.operation_path step.workflow_id in
      let (to, from) = one_target step.operation_id step.operation_path step.workflow_id in
      renamed
        (
          λ (t, (w, (l, rest))). (to t, (w, (l ((negated one).0 t), rest))),
          λ (t, (w, (l, rest))). (from t, (w, (λ e. l, rest))),
        )
        (both (unless (not one) _ _ (λ e. e, λ e. e)) (
          both (unless _ _ _ (optional step.workflow_id (member step.workflow_id workflow_ids))) (
            both (if_one one (look_up-Tests path step op_lookup)) (
              both (validate_parameters-Tests components _ step.parameters) (
                both
                  (each-Tests IsCriterion _
                    (λ i c.
                      validate_criterion-Tests
                        (at_index (at_field path (codes "successCriteria")) i) c)
                    0 step.success_criteria)
                  (both
                    (validate_success_actions-Tests step_ids workflow_ids floats components _
                      step.on_success)
                    (both
                      (validate_failure_actions-Tests step_ids workflow_ids floats components _
                        step.on_failure)
                      (check_output_keys-Tests path step.outputs))))))))

  check_step_id-Tests :
      (prefix : Bytes) (j : ℕ) (s : Step floats.Float) (seen : Bool)
      → Tests
          (check_step_id prefix j s seen)
          ((s.step_id ≢ []) × (named s.step_id ≢ none → seen ≡ false))
  unfolding check_step_id
  check_step_id-Tests prefix j s seen =
      alone s.step_id _ missing_step_id (duplicate_step_id s.step_id) seen

  if_steps :
      {A : Type 0} (steps : List A) (path : Bytes) (cause : Cause) {xs : Reports} {P : Type 0}
      → Tests xs P
      → Tests (if is_empty steps then error path cause ∷ [] else xs) ((steps ≢ []) × P)
  if_steps [] path cause f = renamed (λ h. absurd h, λ (n, p). n refl) (refuses path cause)
  if_steps (s ∷ steps) path cause f = renamed (λ p. ((λ q. ground arith), p), λ (n, p). p) f

  pub validate_workflow-Tests :
      (i : ℕ) (w : Workflow floats.Float)
      → Tests
          (validate_workflow loc floats components op_lookup workflow_ids i w)
          (IsWorkflow loc floats components op_lookup workflow_ids w)
  unfolding validate_workflow check_depends_on
  validate_workflow-Tests i w =
      let prefix = at_index (codes "workflows") i in
      let step_ids = id_set (λ s. s.step_id) w.steps in
      if_steps w.steps _ _ (
        renamed (λ (d, ((n, u), p)). (d, (n, (u, p))), λ (d, (n, (u, p))). (d, ((n, u), p)))
          (both
            (each-Tests (λ dep. member dep workflow_ids ≡ true) _
              (λ j dep.
                unless (not (member dep workflow_ids)) _ _ (negated (member dep workflow_ids)))
              0 w.depends_on)
            (both
              (each_seen-Tests (λ s. named s.step_id) (λ s. s.step_id ≢ []) (check_step_id prefix)
                (check_step_id-Tests prefix) w.steps)
              (both
                (each-Tests (IsStep loc floats components op_lookup workflow_ids step_ids) _
                  (λ j s.
                    validate_step-Tests step_ids (at_index (at_field prefix (codes "steps")) j) s)
                  0 w.steps)
                (both
                  (validate_success_actions-Tests step_ids workflow_ids floats components
                    (at_field prefix (codes "successActions")) w.success_actions)
                  (both
                    (validate_failure_actions-Tests step_ids workflow_ids floats components
                      (at_field prefix (codes "failureActions")) w.failure_actions)
                    (check_output_keys-Tests prefix w.outputs)))))))

-- The mapping of sources to documents warns at most.
unmapped-Clean : (m : Mapped) (cs : List Candidate) → Clean (unmapped_sources m cs)
unfolding unmapped_sources
unmapped-Clean m [] = tt
unmapped-Clean m ((i, source) ∷ cs) =
    (both (warned _ _ _)
        (record { rule_of = λ u. tt; clean_of = λ u. unmapped-Clean m cs })).clean_of
      (tt, tt)

mapped-Clean :
    (loc : Locations) (docs : List OpenApi) (cs : List Candidate)
    → Clean (mapped_context loc docs cs).1
mapped-Clean loc docs [] = (tt, tt)
mapped-Clean loc docs (c ∷ cs) = unmapped-Clean (both_passes loc (c ∷ cs) docs) (c ∷ cs)

context-Clean :
    (loc : Locations) (docs : List OpenApi) (sources : List SourceDescription)
    → Clean (lookup_context loc docs sources).1
context-Clean loc [] sources = tt
context-Clean loc (doc ∷ docs) sources =
    mapped-Clean loc (doc ∷ docs) (open_api_sources loc 0 sources)

pub build_operation_lookup_context-Clean :
    (loc : Locations) (attached : List (Option OpenApi)) (sources : List SourceDescription)
    → Clean (build_operation_lookup_context loc attached sources).1
unfolding build_operation_lookup_context
build_operation_lookup_context-Clean loc attached sources =
    context-Clean loc (unique_docs [] attached) sources
