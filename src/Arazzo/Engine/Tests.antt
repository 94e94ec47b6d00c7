-- ===== src/Arazzo/Engine/Tests.antt =====
-- The engine's parts at concrete inputs.
use libopenapi.Prelude.{
  member, true, List, [], ◌∷◌, map, none, some, Bytes, codes, split, has_prefix, index, All, ◌↔◌,
  split_from, replace_from, eqb, ◌≡◌, ◌≢◌, refl,
}
use libopenapi.Prelude.Outcome.{ok}
use libopenapi.Prelude.Number.{pos}
use libopenapi.Arazzo.Value.{
  Value, Entries, text, boolean, slice, object, nil, cons, end, entry, get,
}
use libopenapi.Arazzo.Evaluator.Pointer.{unescape_json_pointer}
use libopenapi.Arazzo.Evaluator.Tests.{empty_context}
use libopenapi.Arazzo.Criterion.{Caches, new_caches}
use libopenapi.Arazzo.Criterion.Tests.{host}
use libopenapi.Arazzo.Engine.{SuccessAction, FailureAction}
use libopenapi.Arazzo.Engine.Values.{resolve_expression_values}
use libopenapi.Arazzo.Engine.Replacements.{set_json_pointer_value}
use libopenapi.Arazzo.Engine.Actions.{
  select_success_action, find_matching_success_action, select_failure_action,
  find_matching_failure_action,
}
use libopenapi.Arazzo.Value.{no_dict}
use libopenapi.Arazzo.Engine.Document.{Workflow, WorkflowResult}
use libopenapi.Arazzo.Engine.Transitions.{Shared, Runner}
use libopenapi.Arazzo.Engine.Order.{topological_sort, dependency_execution_error}
use libopenapi.Arazzo.Engine.Literal.{resolve_expression_values-literal}
use libopenapi.Arazzo.Engine.Replaced.{get_along, set_json_pointer_value-get_along}
use libopenapi.Arazzo.Engine.Chosen.{select_success_action-append, select_failure_action-append}
use libopenapi.Prelude.Number.{ℤ}
use libopenapi.Prelude.Outcome.{err}
use libopenapi.Arazzo.Evaluator.Tests.{integers}
use libopenapi.Arazzo.Criterion.Faithful.{IsFaithful, new_caches-IsFaithful}
use libopenapi.Arazzo.Engine.{circular_dependency}
use libopenapi.Arazzo.Engine.Transitions.{
  ActionTypeRequest, no_transition, Run, process_action_type_result,
}
use libopenapi.Arazzo.Engine.Retried.{MayRetry, process_action_type_result-retry}
use libopenapi.Arazzo.Engine.Stable.{IsStable-value, resolve_expression_values-cached}
use libopenapi.Arazzo.Engine.Edges.{open_edges}
use libopenapi.Arazzo.Engine.Sorted.{Follows}
use libopenapi.Arazzo.Engine.Graph.{edges, edges_among}
use libopenapi.Arazzo.Engine.Follows.{topological_sort-Follows}
use libopenapi.Arazzo.Engine.Scheduled.{
  HasSucceeded, topological_sort_ends, dependency_execution_error_lem,
}

-- `{"tags": ["a", true]}`.
abbrev tags : Value host.floats.Float
tags = object (entry (codes "tags") (slice (cons (text (codes "a")) (cons (boolean true) nil))) end)

resolve_expression_values-literal_example :
    resolve_expression_values host empty_context tags new_caches ≡ (ok tags, new_caches)
unfolding has_prefix index
resolve_expression_values-literal_example =
    resolve_expression_values-literal host empty_context new_caches tags
      (((refl, refl), (tt, tt)), tt)

abbrev x_text : Value host.floats.Float
x_text = text (codes "x")

-- The replacement at `/user/a~1b`, where the root has no `user`.
abbrev replaced : Entries host.floats.Float
replaced = entry (codes "user") (object (entry (codes "a/b") (text (codes "x")) end)) end

set_replaced : set_json_pointer_value end (codes "/user/a~1b") x_text ≡ ok replaced
unfolding set_json_pointer_value split_from replace_from
set_replaced = refl

segments_replaced :
    map unescape_json_pointer (split (codes "user/a~1b") b'/') ≡ codes "user" ∷ codes "a/b" ∷ []
unfolding unescape_json_pointer split_from replace_from
segments_replaced = refl

set_json_pointer_value-get_along_example :
    (get_along (codes "user" ∷ codes "a/b" ∷ []) (object replaced) ≡ some (text (codes "x")))
    × ((k : Bytes) → k ≢ codes "user" → get k replaced ≡ get k end)
set_json_pointer_value-get_along_example =
    set_json_pointer_value-get_along end replaced (codes "user/a~1b") (codes "user")
      (codes "a/b" ∷ []) (text (codes "x")) segments_replaced set_replaced

abbrev success : Bytes → Bytes → SuccessAction
success name reference = record {
  name = name;
  type = codes "end";
  workflow_id = [];
  step_id = [];
  criteria = [];
  reference = reference;
}

select_success_action-append_example :
    select_success_action host none empty_context [] (success (codes "done") [] ∷ []) new_caches
    ≡ find_matching_success_action host none empty_context
        (success (codes "done") [] ∷ [])
        new_caches
select_success_action-append_example =
    select_success_action-append host none empty_context new_caches []
      (success (codes "done") [] ∷ [])

abbrev failure : Bytes → FailureAction host.floats.Float
failure type = record {
  name = codes "again";
  type = type;
  workflow_id = [];
  step_id = [];
  retry_after = none;
  retry_limit = some (pos 3);
  criteria = [];
  reference = [];
}

select_failure_action-append_example :
    select_failure_action host none empty_context
      (failure (codes "retry") ∷ [])
      (failure (codes "end") ∷ [])
      new_caches
    ≡ find_matching_failure_action host none empty_context
        (failure (codes "retry") ∷ failure (codes "end") ∷ [])
        new_caches
select_failure_action-append_example =
    select_failure_action-append host none empty_context new_caches (failure (codes "retry") ∷ [])
      (failure (codes "end") ∷ [])

abbrev workflow : Bytes → List Bytes → Workflow ℤ
workflow id deps = record {
  workflow_id = id;
  depends_on = deps;
  steps = [];
  success_actions = [];
  failure_actions = [];
  outputs = [];
}

-- The second workflow depends on the first, and on one that is not known.
abbrev two_workflows : List (Workflow ℤ)
two_workflows = workflow (codes "b") (codes "a" ∷ codes "x" ∷ []) ∷ workflow (codes "a") [] ∷ []

sort_two : topological_sort two_workflows ≡ some (ok (codes "a" ∷ codes "b" ∷ []))
unfolding topological_sort eqb
sort_two = refl

topological_sort_ends_example : topological_sort two_workflows ≢ none
topological_sort_ends_example = topological_sort_ends two_workflows

abbrev results : List (Bytes × WorkflowResult ℤ)
results =
    (
      codes "a",
      record {
        workflow_id = codes "a";
        success = true;
        inputs = no_dict;
        outputs = no_dict;
        steps = [];
        error = none;
      },
    )
    ∷ []

dependency_execution_error_lem_example :
    (dependency_execution_error (workflow (codes "b") (codes "a" ∷ [])) results ≡ none)
    ↔ All (HasSucceeded results) (codes "a" ∷ [])
dependency_execution_error_lem_example =
    dependency_execution_error_lem (workflow (codes "b") (codes "a" ∷ [])) results

abbrev login_input : Value host.floats.Float
login_input = slice (cons (text (codes "$inputs.login")) nil)

-- With what a first resolution has cached.
abbrev filled : Caches
filled = (resolve_expression_values host empty_context login_input new_caches).1

filled-IsFaithful : IsFaithful host filled
filled-IsFaithful =
    (IsStable-value host empty_context login_input new_caches (new_caches-IsFaithful host)).1

resolve_expression_values-cached_example :
    ((resolve_expression_values host empty_context login_input filled).0
      ≡ (resolve_expression_values host empty_context login_input new_caches).0)
    × IsFaithful host (resolve_expression_values host empty_context login_input filled).1
resolve_expression_values-cached_example =
    resolve_expression_values-cached host empty_context login_input filled filled-IsFaithful

-- A second retry of three.
abbrev retry_request : ActionTypeRequest ℤ
retry_request = record {
  action_type = codes "retry";
  workflow_id = [];
  step_id = [];
  retry_after_sec = pos 0;
  retry_limit = pos 3;
  current_retries = 1;
}

abbrev pub first_shared : Shared ℤ (Unit {0})
first_shared = record {
  world = tt;
  caches = new_caches;
  execution = record {
    workflow_results = [];
    workflow_contexts = [];
    active_workflows = [];
    depth = 0;
  };
}

abbrev first_run : Run ℤ (Unit {0})
first_run = record { shared = first_shared; context = empty_context }

abbrev no_workflows : Runner ℤ (Unit {0})
no_workflows id inputs s = (err circular_dependency, s)

retried :
    process_action_type_result integers (λ x. x) no_workflows retry_request [] first_run
    ≡ (ok (record no_transition { retry_current = true }), first_run)
unfolding process_action_type_result eqb
retried = refl

process_action_type_result-retry_example :
    ((record no_transition { retry_current = true }).retry_current ≡ true) ↔ (
      (retry_request.action_type ≡ codes "retry")
      × MayRetry retry_request.current_retries retry_request.retry_limit)
process_action_type_result-retry_example =
    process_action_type_result-retry integers (λ x. x) no_workflows retry_request [] first_run
      first_run (record no_transition { retry_current = true }) retried

topological_sort-Follows_example : Follows (edges two_workflows) [] (codes "a" ∷ codes "b" ∷ [])
unfolding member eqb
topological_sort-Follows_example =
    topological_sort-Follows two_workflows (codes "a" ∷ codes "b" ∷ []) (refl, (refl, tt)) sort_two

-- `b` waits for `a`, and for nothing that is not in the document.
open_b : open_edges (edges two_workflows) [] (codes "b") ≡ 1
unfolding open_edges edges_among member eqb
open_b = refl
