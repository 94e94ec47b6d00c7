-- ===== src/Arazzo/Validation/Workflows.antt =====
-- arazzo/validation.go: source descriptions, workflow ids, workflows and their steps.
use libopenapi.Prelude.{
  ℕ, Bool, true, false, not, ◌&&◌, List, [], ◌∷◌, ◌++◌, Option, none, some, Bytes, codes, eqb,
  member, is_empty, if◌then◌else◌,
}
use libopenapi.Arazzo.Value.{Floats}
use libopenapi.Arazzo.Engine.Document.{Step, Workflow}
use libopenapi.Arazzo.Engine.References.{Components}
use libopenapi.Arazzo.Validation.{
  SourceDescription, Reports, error, error_if, warning_if, each, missing_source_name,
  duplicate_source_name, unusual_source_name, unknown_source_type, missing_url, missing_workflow_id,
  duplicate_workflow_id, empty_steps, unresolved_workflow_ref, missing_step_id, duplicate_step_id,
  step_mutual_exclusion,
}
use libopenapi.Arazzo.Validation.Names.{
  at_index, at_field, is_source_name, each_seen, named, keys, id_set, check_output_keys,
}
use libopenapi.Arazzo.Validation.Fields.{validate_parameters, validate_criterion}
use libopenapi.Arazzo.Validation.Actions.{validate_success_actions, validate_failure_actions}
use libopenapi.Arazzo.Validation.Operations.{
  Locations, OperationResolver, validate_step_operation_lookup,
}

-- The body of the loop of `checkUniqueSourceDescNames`.
unfoldable pub check_source : Bytes → SourceDescription → Bool → Reports
unfolding is_source_name eqb
check_source path sd seen =
    if is_empty sd.name
    then error (at_field path (codes "name")) missing_source_name ∷ []
    else error_if seen (at_field path (codes "name")) (duplicate_source_name sd.name)
      ++ (warning_if (not (is_source_name sd.name)) (at_field path (codes "name"))
            (unusual_source_name sd.name)
          ++ (error_if
                (not (is_empty sd.type)
                  && not (eqb sd.type (codes "openapi"))
                  && not (eqb sd.type (codes "arazzo")))
                (at_field path (codes "type")) (unknown_source_type sd.type)
              ++ error_if (is_empty sd.url) (at_field path (codes "url")) missing_url))

unfoldable pub check_unique_source_desc_names : List SourceDescription → Reports
unfolding each_seen check_source
check_unique_source_desc_names =
    each_seen (λ sd. named sd.name)
      (λ i sd seen. check_source (at_index (codes "sourceDescriptions") i) sd seen) 0 []

unfoldable pub check_workflow_id : {F : Type 0} → ℕ → Workflow F → Bool → Reports
check_workflow_id i w seen =
    let path = at_field (at_index (codes "workflows") i) (codes "workflowId") in
    if is_empty w.workflow_id
    then error path missing_workflow_id ∷ []
    else error_if seen path (duplicate_workflow_id w.workflow_id)

unfoldable pub check_unique_workflow_ids : {F : Type 0} → List (Workflow F) → Reports
unfolding each_seen check_workflow_id
check_unique_workflow_ids = each_seen (λ w. named w.workflow_id) check_workflow_id 0 []

unfoldable pub build_workflow_id_set : {F : Type 0} → List (Workflow F) → List Bytes
unfolding keys
build_workflow_id_set ws = id_set (λ w. w.workflow_id) ws

unfoldable pub check_step_id : {F : Type 0} → Bytes → ℕ → Step F → Bool → Reports
check_step_id prefix i step seen =
    let path = at_field (at_index (at_field prefix (codes "steps")) i) (codes "stepId") in
    if is_empty step.step_id
    then error path missing_step_id ∷ []
    else error_if seen path (duplicate_step_id step.step_id)

-- `count == 1`.
abbrev pub is_one_of_three : Bytes → Bytes → Bytes → Bool
is_one_of_three [] [] (w ∷ ws) = true
is_one_of_three [] (p ∷ ps) [] = true
is_one_of_three (o ∷ os) [] [] = true
is_one_of_three _ _ _ = false

module _ (loc : Locations) (floats : Floats) (components : Option (Components floats.Float))
    (op_lookup : Option OperationResolver) (workflow_ids : List Bytes) where
  abbrev pub look_up : Bytes → Step floats.Float → Option OperationResolver → Reports
  look_up path step none = []
  look_up path step (some r) = validate_step_operation_lookup loc r path step

  unfoldable pub validate_step : List Bytes → Bytes → Step floats.Float → Reports
  unfolding member validate_step_operation_lookup validate_parameters each validate_criterion
      validate_success_actions validate_failure_actions check_output_keys
  validate_step step_ids path step =
      let one = is_one_of_three step.operation_id step.operation_path step.workflow_id in
      error_if (not one) path step_mutual_exclusion
      ++ (error_if (not (is_empty step.workflow_id) && not (member step.workflow_id workflow_ids))
            (at_field path (codes "workflowId")) (unresolved_workflow_ref step.workflow_id)
          ++ ((if one then look_up path step op_lookup else [])
              ++ (validate_parameters components (at_field path (codes "parameters"))
                    step.parameters
                  ++ (each
                        (λ i c.
                          validate_criterion (at_index (at_field path (codes "successCriteria")) i)
                            c)
                        0 step.success_criteria
                      ++ (validate_success_actions step_ids workflow_ids floats components
                            (at_field path (codes "onSuccess")) step.on_success
                          ++ (validate_failure_actions step_ids workflow_ids floats components
                                (at_field path (codes "onFailure")) step.on_failure
                              ++ check_output_keys path step.outputs))))))

  unfoldable pub check_depends_on : Bytes → ℕ → Bytes → Reports
  unfolding member
  check_depends_on prefix j dep =
      error_if (not (member dep workflow_ids)) (at_index (at_field prefix (codes "dependsOn")) j)
        (unresolved_workflow_ref dep)

  unfoldable pub validate_workflow : ℕ → Workflow floats.Float → Reports
  unfolding each check_depends_on each_seen check_step_id keys validate_step
      validate_success_actions validate_failure_actions check_output_keys
  validate_workflow i w =
      let prefix = at_index (codes "workflows") i in
      let step_ids = id_set (λ s. s.step_id) w.steps in
      if is_empty w.steps
      then error (at_field prefix (codes "steps")) empty_steps ∷ []
      else each (check_depends_on prefix) 0 w.depends_on
        ++ (each_seen (λ s. named s.step_id) (check_step_id prefix) 0 [] w.steps
            ++ (each
                  (λ j s. validate_step step_ids (at_index (at_field prefix (codes "steps")) j) s) 0
                  w.steps
                ++ (validate_success_actions step_ids workflow_ids floats components
                      (at_field prefix (codes "successActions")) w.success_actions
                    ++ (validate_failure_actions step_ids workflow_ids floats components
                          (at_field prefix (codes "failureActions")) w.failure_actions
                        ++ check_output_keys prefix w.outputs))))
