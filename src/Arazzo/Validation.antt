-- ===== src/Arazzo/Validation.antt =====
-- arazzo/validation.go and arazzo/errors.go: the document that `Validate` reads, and what it
-- reports. A line and a column, which only the low-level model has, are left out of the reports.
pub mod Names
pub mod Fields
pub mod Actions
pub mod Operations
pub mod Mapping
pub mod Workflows
pub mod Cycles
pub mod Validate
pub mod Clean
pub mod Rules
pub mod Documents
pub mod Accepted
pub mod Scheduling
pub mod Resolved
pub mod Working
pub mod Agreement
mod Tests
use libopenapi.Prelude.{
  ℕ, suc, Bool, true, false, List, [], ◌∷◌, ◌++◌, Option, none, some, Bytes, is_empty,
}
use libopenapi.Prelude.Outcome.{Result, ok, err}
use libopenapi.Prelude.Number.{ℤ}
use libopenapi.Arazzo.Expression.{ParseError}
use libopenapi.Arazzo.Engine.Document.{Workflow}
use libopenapi.Arazzo.Engine.References.{Components}

-- datamodel/high/arazzo/info.go.
pub record Info : Type 0 where
  pub title : Bytes
  pub version : Bytes

-- datamodel/high/arazzo/source_description.go.
pub record SourceDescription : Type 0 where
  pub name : Bytes
  pub url : Bytes
  pub type : Bytes

-- datamodel/high/v3, a document as far as operations are looked up in it: its address, the
-- absolute path in its index if there is an index, and its path items, with what `GetOperations`
-- returns of each: a method and an operation id, by the order of the methods.
pub record OpenApi : Type 0 where
  pub address : ℕ
  pub spec_absolute_path : Option Bytes
  pub paths : Option (List (Bytes × Option (List (Bytes × Bytes))))

-- datamodel/high/arazzo/arazzo.go. The slices hold no nil pointers but among the attached documents.
pub record Arazzo (F : Type 0) : Type 0 where
  pub arazzo : Bytes
  pub info : Option Info
  pub source_descriptions : List SourceDescription
  pub workflows : List (Workflow F)
  pub components : Option (Components F)
  pub open_api_source_docs : List (Option OpenApi)

-- One constructor for each shape of message, or of error wrapped.
pub data Cause : Type 0 where
  invalid_arazzo missing_arazzo_field missing_info missing_title missing_version : Cause
  missing_source_descriptions missing_workflows missing_source_name missing_url : Cause
  missing_workflow_id empty_steps missing_step_id step_mutual_exclusion : Cause
  missing_parameter_name missing_parameter_value missing_parameter_in invalid_parameter_in : Cause
  invalid_success_type invalid_failure_type missing_action_name missing_action_type : Cause
  action_mutual_exclusion goto_requires_target negative_retry_after : Cause
  missing_condition missing_expression_type no_components : Cause
  unsupported_version : Bytes → Cause
  duplicate_source_name : Bytes → Cause
  unknown_source_type : Bytes → Cause
  duplicate_workflow_id : Bytes → Cause
  unresolved_workflow_ref : Bytes → Cause
  unresolved_operation_ref : Bytes → Cause
  duplicate_step_id : Bytes → Cause
  bad_output_key : Bytes → Cause
  duplicate_parameter : Bytes → Bytes → Cause
  step_id_not_in_workflow : Bytes → Cause
  duplicate_action_name : Bytes → Cause
  negative_retry_limit : ℤ → Cause
  missing_context : Bytes → Cause
  unknown_jsonpath_version : Bytes → Cause
  unknown_xpath_version : Bytes → Cause
  invalid_expression : ParseError → Cause
  bad_reference_start : Bytes → Bytes → Cause
  empty_component_name : Bytes → Cause
  unresolved_component_ref : Bytes → Cause
  circular_dependencies : List Bytes → Cause
  bad_component_key : Bytes → Cause

pub data Message : Type 0 where
  unusual_source_name : Bytes → Message
  no_open_api_sources : Message
  unmapped_source : Bytes → Message
  no_attached_documents : Message
  unsupported_pointer : Bytes → Message

-- What a check appends to the result. `nil_dereference` is no report but a panic, and
-- `unfinished` marks a search of the model with too little fuel: neither has anything behind it.
pub data Report : Type 0 where
  error : Bytes → Cause → Report
  warning : Bytes → Message → Report
  nil_dereference : Report
  unfinished : Report

abbrev pub Reports : Type 0
Reports = List Report

-- `if test { v.addError(path, …, cause) }`.
abbrev pub error_if : Bool → Bytes → Cause → Reports
error_if true path cause = error path cause ∷ []
error_if false path cause = []

abbrev pub warning_if : Bool → Bytes → Message → Reports
warning_if true path message = warning path message ∷ []
warning_if false path message = []

pub record ValidationResult : Type 0 where
  pub errors : List (Bytes × Cause)
  pub warnings : List (Bytes × Message)

pub data Stop : Type 0 where
  panicked out_of_fuel : Stop

abbrev pub add_error : Bytes → Cause → Result Stop ValidationResult → Result Stop ValidationResult
add_error path cause (ok r) = ok (record r { errors = (path, cause) ∷ r.errors })
add_error path cause (err e) = err e

abbrev pub add_warning :
    Bytes → Message → Result Stop ValidationResult → Result Stop ValidationResult
add_warning path message (ok r) = ok (record r { warnings = (path, message) ∷ r.warnings })
add_warning path message (err e) = err e

-- `v.result` behind the checks.
unfoldable pub collected : Reports → Result Stop ValidationResult
collected [] = ok (record { errors = []; warnings = [] })
collected (error path cause ∷ rest) = add_error path cause (collected rest)
collected (warning path message ∷ rest) = add_warning path message (collected rest)
collected (nil_dereference ∷ rest) = err panicked
collected (unfinished ∷ rest) = err out_of_fuel

-- `HasErrors`, `HasWarnings`.
abbrev pub has_errors : ValidationResult → Bool
has_errors r = elim r.errors [ [] ↦ false | e ∷ es ↦ true ]

abbrev pub has_warnings : ValidationResult → Bool
has_warnings r = elim r.warnings [ [] ↦ false | w ∷ ws ↦ true ]

-- A loop over a slice, with the index of each element.
unfoldable pub each : {A : Type 0} → (ℕ → A → Reports) → ℕ → List A → Reports
each check i [] = []
each check i (a ∷ rest) = check i a ++ each check (suc i) rest
