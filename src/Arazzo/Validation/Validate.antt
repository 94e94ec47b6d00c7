-- ===== src/Arazzo/Validation/Validate.antt =====
-- arazzo/validation.go: `Validate`.
use libopenapi.Prelude.{
  Bool, true, false, not, ◌||◌, List, [], ◌∷◌, ◌++◌, Option, none, some, Bytes, codes, has_prefix,
  is_empty, if◌then◌else◌,
}
use libopenapi.Prelude.Outcome.{Result, ok, ◌>>=◌}
use libopenapi.Arazzo.Value.{Floats}
use libopenapi.Arazzo.Validation.{
  Arazzo, Info, error, Reports, error_if, each, Stop, ValidationResult, collected, has_errors,
  has_warnings, invalid_arazzo, missing_arazzo_field, unsupported_version, missing_info,
  missing_title, missing_version, missing_source_descriptions, missing_workflows,
}
use libopenapi.Arazzo.Validation.Fields.{validate_component_keys}
use libopenapi.Arazzo.Validation.Operations.{Locations, OperationResolver}
use libopenapi.Arazzo.Validation.Mapping.{build_operation_lookup_context}
use libopenapi.Arazzo.Validation.Workflows.{
  check_unique_source_desc_names, check_unique_workflow_ids, build_workflow_id_set,
  validate_workflow,
}
use libopenapi.Arazzo.Validation.Cycles.{Adjacency, check_circular_dependencies}

unfoldable pub check_version : Bytes → Reports
unfolding has_prefix
check_version version =
    if is_empty version
    then error (codes "arazzo") missing_arazzo_field ∷ []
    else error_if (not (has_prefix version (codes "1.0."))) (codes "arazzo")
        (unsupported_version version)

unfoldable pub check_info : Option Info → Reports
check_info none = error (codes "info") missing_info ∷ []
check_info (some info) =
    error_if (is_empty info.title) (codes "info.title") missing_title
    ++ error_if (is_empty info.version) (codes "info.version") missing_version

unfoldable pub check_required_fields : {F : Type 0} → Arazzo F → Reports
unfolding check_info
check_required_fields doc =
    check_info doc.info
    ++ (error_if (is_empty doc.source_descriptions) (codes "sourceDescriptions")
          missing_source_descriptions
        ++ error_if (is_empty doc.workflows) (codes "workflows") missing_workflows)

abbrev pub is_nil : {A : Type 0} → Option A → Bool
is_nil none = true
is_nil (some a) = false

abbrev pub nil_if_clean : ValidationResult → Option ValidationResult
nil_if_clean r = if has_errors r || has_warnings r then some r else none

-- `order` is the order in which a run ranges over a map.
module _ (loc : Locations) (floats : Floats) (order : Adjacency → List Bytes) where
  abbrev pub workflow_reports : Arazzo floats.Float → Option OperationResolver → Reports
  workflow_reports doc op_lookup =
      each
        (validate_workflow loc floats doc.components op_lookup
          (build_workflow_id_set doc.workflows))
        0 doc.workflows
      ++ (check_circular_dependencies order doc.workflows ++ validate_component_keys doc.components)

  abbrev pub context_reports : Arazzo floats.Float → Option OperationResolver × Reports → Reports
  context_reports doc (op_lookup, warnings) = warnings ++ workflow_reports doc op_lookup

  -- The checks behind those of the required fields.
  unfoldable pub further_checks : Arazzo floats.Float → Reports
  unfolding check_unique_source_desc_names check_unique_workflow_ids build_operation_lookup_context
      each validate_workflow build_workflow_id_set check_circular_dependencies
      validate_component_keys
  further_checks doc =
      check_unique_source_desc_names doc.source_descriptions
      ++ (check_unique_workflow_ids doc.workflows
          ++ context_reports doc
              (build_operation_lookup_context loc doc.open_api_source_docs doc.source_descriptions))

  unfoldable pub all_checks : Arazzo floats.Float → Reports
  unfolding check_version check_required_fields further_checks
  all_checks doc =
      check_version doc.arazzo
      ++ (check_required_fields doc
          ++ (if is_nil doc.info || is_empty doc.source_descriptions || is_empty doc.workflows
              then []
              else further_checks doc))

  -- A nil result is none.
  unfoldable pub validate : Option (Arazzo floats.Float) → Result Stop (Option ValidationResult)
  unfolding all_checks collected
  validate none =
      ok (some (record { errors = (codes "document", invalid_arazzo) ∷ []; warnings = [] }))
  validate (some doc) = (collected (all_checks doc) >>= λ r. ok (nil_if_clean r))
