-- ===== src/Arazzo/Evaluator/Evaluate.antt =====
-- arazzo/expression/evaluator.go: `Evaluate` and its helpers.
use libopenapi.Prelude.{
  suc, Bool, true, false, List, [], ◌∷◌, Option, none, some, Bytes, codes, eqb, index_byte,
  is_empty, split, split_from, take, drop, if◌then◌else◌,
}
use libopenapi.Prelude.Outcome.{Result, ok, err, ◌>>=◌, wrap_err}
use libopenapi.Prelude.Dict.{lookup}
use libopenapi.Yaml.{Node}
use libopenapi.Arazzo.Value.{
  Floats, Value, text, integer, int, object, yaml, step_context, workflow_context, source_context,
  Dict, no_dict, dict, get,
}
use libopenapi.Arazzo.Expression.{
  ExpressionType, url, method, status_code, request_header, request_query, request_path,
  request_body, response_header, response_query, response_path, response_body, inputs, outputs,
  steps, workflows, source_descriptions, components, component_parameters, Expression,
}
use libopenapi.Arazzo.Expression.Parser.{parse}
use libopenapi.Arazzo.Expression.{ParseError}
use libopenapi.Arazzo.Evaluator.{
  StepContext, WorkflowContext, ComponentsContext, Context, Subject, EvalError, nil_context,
  not_available, not_found, not_supported, unknown_property, incomplete_components,
  unknown_component_type, deep_not_found, deep_not_traversable, bad_pointer,
}
use libopenapi.Arazzo.Evaluator.Pointer.{resolve_json_pointer, nil_dereference}

-- The tail up to the first dot, and what follows the dot.
unfoldable pub split_tail : Bytes → Bytes × Bytes
unfolding index_byte
split_tail tail = elim (index_byte tail b'.') [
  | none ↦ (tail, [])
  | some i ↦ (take i tail, drop (suc i) tail)
]

-- `if m == nil { … }; v, ok := m[k]; if !ok { … }`.
unfoldable pub entry_of {ℓ} :
    {V : Type ℓ} → Subject → Option (List (Bytes × V)) → Bytes → Result EvalError V
unfolding lookup
entry_of what none k = err (not_available what)
entry_of what (some m) k = elim (lookup k m) [ some v ↦ ok v | none ↦ err (not_found what k) ]

module _ {F : Type 0} where
  -- The same for a map of values.
  unfoldable pub field_of : Subject → Dict F → Bytes → Result EvalError (Value F)
  unfolding get
  field_of what no_dict k = err (not_available what)
  field_of what (dict m) k = elim (get k m) [ some v ↦ ok v | none ↦ err (not_found what k) ]

  -- The whole map, or one entry of it if a name follows.
  unfoldable pub map_or_field : Subject → Dict F → Bytes → Result EvalError (Value F)
  unfolding field_of
  map_or_field what no_dict rest = err (not_available what)
  map_or_field what (dict m) rest =
      if is_empty rest then ok (object m) else field_of what (dict m) rest

  resolve_step_segment : StepContext F → Bytes → Bytes × Bytes → Result EvalError (Value F)
  resolve_step_segment sc name (segment, rest) =
      if eqb segment (codes "outputs")
      then map_or_field (Subject.step_outputs name) sc.outputs rest
      else if eqb segment (codes "inputs")
      then map_or_field (Subject.step_inputs name) sc.inputs rest
      else err (unknown_property Subject.steps segment name)

  unfoldable pub resolve_step_tail : Bytes → StepContext F → Bytes → Result EvalError (Value F)
  unfolding resolve_step_segment split_tail eqb
  resolve_step_tail tail sc name = resolve_step_segment sc name (split_tail tail)

  unfoldable pub resolve_steps : Expression → Context F → Result EvalError (Value F)
  resolve_steps e ctx = entry_of Subject.steps ctx.steps e.name >>= λ sc.
      if is_empty e.tail
      then ok (step_context sc.inputs sc.outputs)
      else resolve_step_tail e.tail sc e.name

  resolve_workflow_segment : WorkflowContext F → Bytes → Bytes × Bytes → Result EvalError (Value F)
  resolve_workflow_segment wc name (segment, rest) =
      if eqb segment (codes "outputs")
      then map_or_field (Subject.workflow_outputs name) wc.outputs rest
      else if eqb segment (codes "inputs")
      then map_or_field (Subject.workflow_inputs name) wc.inputs rest
      else err (unknown_property Subject.workflows segment name)

  unfoldable pub resolve_workflows : Expression → Context F → Result EvalError (Value F)
  unfolding resolve_workflow_segment split_tail eqb
  resolve_workflows e ctx = entry_of Subject.workflows ctx.workflows e.name >>= λ wc.
      if is_empty e.tail
      then ok (workflow_context wc.inputs wc.outputs)
      else resolve_workflow_segment wc e.name (split_tail e.tail)

  unfoldable pub resolve_source_descriptions : Expression → Context F → Result EvalError (Value F)
  unfolding entry_of eqb
  resolve_source_descriptions e ctx =
      entry_of Subject.source_descriptions ctx.source_descs e.name >>= λ location.
      if is_empty e.tail
      then ok (source_context location)
      else if eqb e.tail (codes "url")
      then ok (text location)
      else err (unknown_property Subject.source_descriptions e.tail e.name)

  -- The loop over the segments of a path into a component's value.
  unfoldable pub deep : Bytes → Bytes → Value F → List Bytes → Result EvalError (Value F)
  unfolding get
  deep kind name v [] = ok v
  deep kind name (object m) (seg ∷ segs) = elim (get seg m) [
    | some next ↦ deep kind name next segs
    | none ↦ err (deep_not_found seg kind name)
  ]
  deep kind name v (seg ∷ segs) = err (deep_not_traversable seg kind name)

  unfoldable pub resolve_deep_value : Value F → Bytes → Bytes → Bytes → Result EvalError (Value F)
  unfolding deep split_from
  resolve_deep_value v path kind name = deep kind name v (split path b'.')

  component_map : ComponentsContext F → Bytes → Bytes → Result EvalError (Value F)
  component_map c kind segment =
      if eqb kind (codes "parameters")
      then field_of Subject.component_parameters c.parameters segment
      else if eqb kind (codes "successActions")
      then field_of Subject.component_success_actions c.success_actions segment
      else if eqb kind (codes "failureActions")
      then field_of Subject.component_failure_actions c.failure_actions segment
      else if eqb kind (codes "inputs")
      then field_of Subject.component_inputs c.inputs segment
      else err (unknown_component_type kind)

  component_segment : ComponentsContext F → Bytes → Bytes × Bytes → Result EvalError (Value F)
  component_segment c kind (segment, rest) = component_map c kind segment >>= λ v.
      if is_empty rest then ok v else resolve_deep_value v rest kind segment

  unfoldable pub resolve_components : Expression → Context F → Result EvalError (Value F)
  unfolding component_segment component_map split_tail field_of resolve_deep_value eqb
  resolve_components e ctx = elim ctx.components [
    | none ↦ err (not_available Subject.components)
    | some c ↦
        if is_empty e.tail
        then err (incomplete_components e.name)
        else component_segment c e.name (split_tail e.tail)
  ]

  component_parameter : Option (ComponentsContext F) → Bytes → Result EvalError (Value F)
  component_parameter none name = err (not_available Subject.component_parameters)
  component_parameter (some c) name = field_of Subject.component_parameters c.parameters name

  text_entry : Subject → Option (List (Bytes × Bytes)) → Bytes → Result EvalError (Value F)
  text_entry what m k = entry_of what m k >>= λ v. ok (text v)

module _ (floats : Floats) where
  open floats use {Float}

  body_value : Subject → Option Node → Bytes → Result EvalError (Value Float)
  body_value what none pointer = err (not_available what)
  body_value what (some n) pointer =
      if is_empty pointer
      then ok (yaml n)
      else wrap_err bad_pointer (resolve_json_pointer floats n pointer)

  -- The switch on the kind of expression.
  unfoldable pub evaluate_as :
      ExpressionType → Expression → Context Float → Result EvalError (Value Float)
  unfolding text_entry body_value component_parameter
  evaluate_as url e ctx = ok (text ctx.url)
  evaluate_as method e ctx = ok (text ctx.method)
  evaluate_as status_code e ctx = ok (integer int ctx.status_code)
  evaluate_as request_header e ctx =
      text_entry Subject.request_headers ctx.request_headers e.property
  evaluate_as request_query e ctx = text_entry Subject.request_query ctx.request_query e.property
  evaluate_as request_path e ctx = text_entry Subject.request_path ctx.request_path e.property
  evaluate_as request_body e ctx = body_value Subject.request_body ctx.request_body e.json_pointer
  evaluate_as response_header e ctx =
      text_entry Subject.response_headers ctx.response_headers e.property
  evaluate_as response_query e ctx = err (not_supported Subject.response_query)
  evaluate_as response_path e ctx = err (not_supported Subject.response_path)
  evaluate_as response_body e ctx =
      body_value Subject.response_body ctx.response_body e.json_pointer
  evaluate_as inputs e ctx = field_of Subject.inputs ctx.inputs e.name
  evaluate_as outputs e ctx = field_of Subject.outputs ctx.outputs e.name
  evaluate_as steps e ctx = resolve_steps e ctx
  evaluate_as workflows e ctx = resolve_workflows e ctx
  evaluate_as source_descriptions e ctx = resolve_source_descriptions e ctx
  evaluate_as components e ctx = resolve_components e ctx
  evaluate_as component_parameters e ctx = component_parameter ctx.components e.name

  unfoldable pub evaluate : Expression → Option (Context Float) → Result EvalError (Value Float)
  unfolding evaluate_as
  evaluate e none = err nil_context
  evaluate e (some ctx) = evaluate_as e.type e ctx

-- The errors of `EvaluateString`.
pub data StringError : Type 0 where
  bad_expression : ParseError → StringError
  bad_evaluation : EvalError → StringError

-- A pointer that goes on below a nil node panics.
abbrev pub string_panics : StringError → Bool
string_panics (bad_evaluation (bad_pointer nil_dereference)) = true
string_panics _ = false

unfoldable pub evaluate_string :
    (floats : Floats)
    → Bytes
    → Option (Context floats.Float)
    → Result StringError (Value floats.Float)
evaluate_string floats input ctx =
    wrap_err bad_expression (parse input) >>= λ e. wrap_err bad_evaluation (evaluate floats e ctx)
