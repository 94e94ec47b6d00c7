-- ===== src/Arazzo/Validation/Actions.antt =====
-- arazzo/validation.go: success and failure actions.
use libopenapi.Prelude.{
  Bool, true, false, not, ◌&&◌, List, [], ◌++◌, Option, none, some, Bytes, codes, eqb, member,
  is_empty, if◌then◌else◌,
}
use libopenapi.Prelude.Number.{ℤ, pos, negsuc}
use libopenapi.Arazzo.Value.{Floats}
use libopenapi.Arazzo.Engine.{SuccessAction, FailureAction, is_reusable}
use libopenapi.Arazzo.Engine.References.{Components}
use libopenapi.Arazzo.Validation.{
  Reports, error_if, invalid_success_type, invalid_failure_type, missing_action_name,
  missing_action_type, action_mutual_exclusion, goto_requires_target, unresolved_workflow_ref,
  step_id_not_in_workflow, duplicate_action_name, negative_retry_after, negative_retry_limit,
}
use libopenapi.Arazzo.Validation.Names.{at_index, at_field, named, each_seen}
use libopenapi.Arazzo.Validation.Fields.{
  success_actions_type, failure_actions_type, validate_component_reference,
}

-- The key under which a loop remembers an action that is not reusable.
abbrev pub action_key : Bytes → Bytes → Option Bytes
action_key reference name = if is_reusable reference then none else named name

-- `step_ids` and `workflow_ids` are the sets of the ids that are known.
module _ (step_ids workflow_ids : List Bytes) where
  -- `seen` says whether the loop has seen the name, which it looks up where it is not empty.
  unfoldable pub validate_action_common :
      (name type workflow_id step_id path : Bytes) → Bool → Reports
  unfolding eqb member
  validate_action_common name type workflow_id step_id path seen =
      error_if (is_empty name) (at_field path (codes "name")) missing_action_name
      ++ (error_if (is_empty type) (at_field path (codes "type")) missing_action_type
          ++ (error_if (not (is_empty workflow_id) && not (is_empty step_id)) path
                action_mutual_exclusion
              ++ (error_if (eqb type (codes "goto") && is_empty workflow_id && is_empty step_id)
                    path goto_requires_target
                  ++ (error_if (not (is_empty workflow_id) && not (member workflow_id workflow_ids))
                        (at_field path (codes "workflowId")) (unresolved_workflow_ref workflow_id)
                      ++ (error_if (not (is_empty step_id) && not (member step_id step_ids))
                            (at_field path (codes "stepId")) (step_id_not_in_workflow step_id)
                          ++ error_if seen (at_field path (codes "name"))
                              (duplicate_action_name name))))))

  module _ (floats : Floats) (components : Option (Components floats.Float)) where
    -- The bodies of the loops over the actions.
    unfoldable pub validate_success_action : Bytes → SuccessAction → Bool → Reports
    unfolding validate_component_reference validate_action_common eqb
    validate_success_action path a seen =
        if is_reusable a.reference
        then validate_component_reference components a.reference (at_field path (codes "reference"))
            success_actions_type
        else error_if
            (not (is_empty a.type)
              && not (eqb a.type (codes "end"))
              && not (eqb a.type (codes "goto")))
            (at_field path (codes "type")) invalid_success_type
          ++ validate_action_common a.name a.type a.workflow_id a.step_id path seen

    abbrev pub is_negative : Option floats.Float → Bool
    is_negative none = false
    is_negative (some x) = floats.float_lt x (floats.of_int (pos 0))

    abbrev pub check_retry_limit : Bytes → Option ℤ → Reports
    check_retry_limit path none = []
    check_retry_limit path (some (pos n)) = []
    check_retry_limit path (some (negsuc n)) = error_if true path (negative_retry_limit (negsuc n))

    unfoldable pub validate_failure_action : Bytes → FailureAction floats.Float → Bool → Reports
    unfolding validate_component_reference validate_action_common eqb
    validate_failure_action path a seen =
        if is_reusable a.reference
        then validate_component_reference components a.reference (at_field path (codes "reference"))
            failure_actions_type
        else error_if
            (not (is_empty a.type)
              && not (eqb a.type (codes "end"))
              && not (eqb a.type (codes "retry"))
              && not (eqb a.type (codes "goto")))
            (at_field path (codes "type")) invalid_failure_type
          ++ (validate_action_common a.name a.type a.workflow_id a.step_id path seen
              ++ (error_if (is_negative a.retry_after) (at_field path (codes "retryAfter"))
                    negative_retry_after
                  ++ check_retry_limit (at_field path (codes "retryLimit")) a.retry_limit))

    unfoldable pub validate_success_actions : Bytes → List SuccessAction → Reports
    unfolding validate_success_action each_seen
    validate_success_actions path =
        each_seen (λ a. action_key a.reference a.name)
          (λ i a seen. validate_success_action (at_index path i) a seen) 0 []

    unfoldable pub validate_failure_actions : Bytes → List (FailureAction floats.Float) → Reports
    unfolding validate_failure_action each_seen
    validate_failure_actions path =
        each_seen (λ a. action_key a.reference a.name)
          (λ i a seen. validate_failure_action (at_index path i) a seen) 0 []
