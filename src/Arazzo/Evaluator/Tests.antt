-- ===== src/Arazzo/Evaluator/Tests.antt =====
-- Runs of the evaluator, and its theorems at concrete inputs.
use libopenapi.Prelude.{Bool, false, [], ◌≡◌, some, none, refl, arith, codes, eqb, ◌==◌, split_from}
use libopenapi.Prelude.Outcome.{ok}
use libopenapi.Prelude.Number.{ℤ, pos, negsuc, parse_int}
use libopenapi.Prelude.Dict.{insert}
use libopenapi.Yaml.{node, Nodes, nil, cons, mapping_node, sequence_node, scalar}
use libopenapi.Arazzo.Value.{Floats, text, no_dict, dict, end, put}
use libopenapi.Arazzo.Evaluator.{Context}
use libopenapi.Arazzo.Evaluator.Pointer.{
  resolve_json_pointer, unescape_json_pointer, descend, scalar_value, yaml_node_to_value,
}
use libopenapi.Arazzo.Evaluator.Segments.{
  resolve_json_pointer-follow, unescape_json_pointer-escape, escape,
}
use libopenapi.Arazzo.Evaluator.Evaluate.{evaluate_string}
use libopenapi.Arazzo.Evaluator.Recorded.{
  output_text, evaluate_string-step_output, evaluate_string-workflow_output,
}

-- Integers in place of floating-point numbers.
abbrev integer_eq : ℤ → ℤ → Bool
integer_eq (pos a) (pos b) = a == b
integer_eq (negsuc a) (negsuc b) = a == b
integer_eq _ _ = false

abbrev pub integers : Floats
integers = record {
  Float = ℤ;
  parse_float = parse_int;
  format_float = λ x. [];
  of_int = λ x. x;
  float_eq = integer_eq;
  float_lt = λ x y. false;
}

abbrev pub empty_context : Context ℤ
empty_context = record {
  url = codes "https://a.b";
  method = codes "GET";
  status_code = pos 200;
  request_headers = none;
  request_query = none;
  request_path = none;
  request_body = none;
  response_headers = none;
  response_body = none;
  inputs = no_dict;
  outputs = no_dict;
  steps = none;
  workflows = none;
  source_descs = none;
  components = none;
}

-- The nodes of `{"a/b": ["x", "y"]}`.
abbrev slashed : Nodes
slashed = cons (scalar (codes "!!str") (codes "a/b")) (
    cons
      (node sequence_node (codes "!!seq") []
        (cons (scalar (codes "!!str") (codes "x")) (cons (scalar (codes "!!str") (codes "y")) nil)))
      nil)

resolve_slashed :
    resolve_json_pointer integers (node mapping_node (codes "!!map") [] slashed) (codes "/a~1b/1")
    ≡ ok (text (codes "y"))
unfolding resolve_json_pointer eqb
resolve_slashed = refl

resolve_json_pointer-follow_example :
    resolve_json_pointer integers (node mapping_node (codes "!!map") [] slashed) (codes "/a~1b/1")
    ≡ ok (text (codes "y"))
unfolding yaml_node_to_value scalar_value split_from descend unescape_json_pointer
resolve_json_pointer-follow_example =
    resolve_json_pointer-follow integers (node mapping_node (codes "!!map") [] slashed)
      (codes "/a~1b/1")

evaluate_string-step_output_example :
    evaluate_string integers (output_text (codes "$steps.") (codes "login") (codes "token")) (
      some (record empty_context {
        steps = some (
            insert
              (codes "login")
              (record {
                inputs = no_dict;
                outputs = dict (put (codes "token") (text (codes "t")) end);
              })
              []);
      }))
    ≡ ok (text (codes "t"))
evaluate_string-step_output_example =
    evaluate_string-step_output integers empty_context (codes "login") (codes "token")
      (ground arith) (λ e. ground arith) (λ e. ground arith) no_dict end (text (codes "t")) []

evaluate_string-workflow_output_example :
    evaluate_string integers (output_text (codes "$workflows.") (codes "sign-in") (codes "token")) (
      some (record empty_context {
        workflows = some (
            insert
              (codes "sign-in")
              (record {
                inputs = no_dict;
                outputs = dict (put (codes "token") (text (codes "t")) end);
              })
              []);
      }))
    ≡ ok (text (codes "t"))
evaluate_string-workflow_output_example =
    evaluate_string-workflow_output integers empty_context (codes "sign-in") (codes "token")
      (ground arith) (λ e. ground arith) (λ e. ground arith) no_dict end (text (codes "t")) []

unescape_json_pointer-escape_example :
    unescape_json_pointer (escape (codes "a~1/b")) ≡ codes "a~1/b"
unescape_json_pointer-escape_example = unescape_json_pointer-escape (codes "a~1/b")
