-- ===== src/Arazzo/Criterion/Tests.antt =====
-- Criteria at concrete inputs.
use libopenapi.Prelude.{
  arith, true, [], ◌≡◌, ◌≢◌, some, none, inr, refl, codes, has_prefix, index, index_byte,
}
use libopenapi.Prelude.Outcome.{err}
use libopenapi.Prelude.Space.{trim_space}
use libopenapi.Arazzo.Value.{text}
use libopenapi.Arazzo.Evaluator.Tests.{integers, empty_context}
use libopenapi.Yaml
use libopenapi.Yaml.{Node, node, absent, mapping_node, scalar}
use libopenapi.Arazzo.Value.{object, entry, null, end}
use libopenapi.Arazzo.Evaluator.Pointer.{resolve_json_pointer, nil_dereference}
use libopenapi.Arazzo.Criterion.Nodes.{to_yaml_node, direct_yaml_node}
use libopenapi.Arazzo.Criterion.NilBelow.{to_yaml_node-nil_below}
use libopenapi.Arazzo.Criterion.{Host, Criterion, new_caches, slice_out_of_range}
use libopenapi.Arazzo.Criterion.Condition.{
  split_simple_condition, try_operators, compare_simple_values,
}
use libopenapi.Arazzo.Criterion.Evaluate.{
  evaluate_simple_operand, evaluate_criterion, evaluate_criterion_impl,
}
use libopenapi.Arazzo.Criterion.Faithful.{AreFaithful, new_caches-IsFaithful}
use libopenapi.Arazzo.Criterion.Caching.{evaluate_criterion_impl-cached}
use libopenapi.Arazzo.Criterion.Split.{
  Decides, split_simple_condition-compare, evaluate_simple_operand-lone_quote,
}

-- Patterns that match everything and paths that find nothing.
abbrev pub host : Host
host = record {
  floats = integers;
  sprint = λ v. [];
  compile = λ raw. some (λ s. true);
  new_path = λ raw. none;
  encode = λ v. none;
  decode = λ n. none;
}

abbrev simple_criterion : Criterion
simple_criterion = record {
  context = [];
  condition = codes "$statusCode == 200";
  type = [];
  expression_type = none;
}

evaluate_criterion_impl-cached_example :
    ((evaluate_criterion_impl host empty_context simple_criterion (some new_caches)).0
      ≡ evaluate_criterion host empty_context simple_criterion)
    × AreFaithful host
        (evaluate_criterion_impl host empty_context simple_criterion (some new_caches)).1
evaluate_criterion_impl-cached_example =
    evaluate_criterion_impl-cached host empty_context simple_criterion new_caches
      (new_caches-IsFaithful host)

split_example :
    split_simple_condition (codes "$method == GET")
    ≡ some (codes "$method", codes "==", codes "GET")
unfolding split_simple_condition has_prefix index_byte try_operators index trim_space
split_example = refl

split_simple_condition-compare_example :
    (codes "$method" ≢ [])
    × (codes "GET" ≢ [])
    × Decides (compare_simple_values host (text (codes "GET")) (text (codes "GET"))) (codes "==")
split_simple_condition-compare_example =
    split_simple_condition-compare host (codes "$method == GET") (codes "$method") (codes "==")
      (codes "GET") (text (codes "GET")) (text (codes "GET")) split_example

trim_quote : trim_space (codes " ' ") ≡ codes "'"
unfolding trim_space
trim_quote = refl

evaluate_simple_operand-lone_quote_example :
    evaluate_simple_operand host empty_context (codes " ' ") none ≡ (err slice_out_of_range, none)
evaluate_simple_operand-lone_quote_example =
    evaluate_simple_operand-lone_quote host empty_context none (codes " ' ") (inr trim_quote)

-- `{"a": nil}`, and a pointer to `/a/b`.
abbrev null_map : Node
null_map =
    node mapping_node (codes "!!map") []
      (Yaml.cons (scalar (codes "!!str") (codes "a")) (Yaml.cons absent Yaml.nil))

null_map_node : to_yaml_node host (object (entry (codes "a") null end)) ≡ some null_map
unfolding to_yaml_node direct_yaml_node
null_map_node = refl

to_yaml_node-nil_below_example :
    resolve_json_pointer integers null_map (codes "/a/b") ≡ err nil_dereference
to_yaml_node-nil_below_example =
    to_yaml_node-nil_below host (codes "a") end null_map b'b' [] null_map_node (ground arith)
      (ground arith) (λ e. ground arith)
