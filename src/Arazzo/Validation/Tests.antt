-- ===== src/Arazzo/Validation/Tests.antt =====
-- The validation of concrete documents.
use libopenapi.Prelude.{
  List, [], ◌∷◌, none, some, Bytes, codes, eqb_iff, member, ◌≡◌, refl, ◌↔◌, arith,
}
use libopenapi.Prelude.Number.{format_int}
use libopenapi.Prelude.Outcome.{ok}
use libopenapi.Arazzo.Evaluator.Tests.{integers}
use libopenapi.Arazzo.Engine.{SuccessAction}
use libopenapi.Arazzo.Engine.Document.{Step, Workflow}
use libopenapi.Arazzo.Engine.Order.{topological_sort}
use libopenapi.Arazzo.Engine.Graph.{workflow_ids, edges}
use libopenapi.Arazzo.Engine.Sorted.{Follows}
use libopenapi.Arazzo.Engine.Ordered.{Lists}
use libopenapi.Arazzo.Validation.{Arazzo, step_id_not_in_workflow, step_mutual_exclusion}
use libopenapi.Arazzo.Validation.Operations.{Locations}
use libopenapi.Arazzo.Validation.Cycles.{Adjacency, cycles}
use libopenapi.Arazzo.Validation.Cycles.Fuel.{cycles_end}
use libopenapi.Arazzo.Validation.Cycles.Acyclic.{cycles-IsAcyclic}
use libopenapi.Arazzo.Validation.Cycles.Ranked.{Ranges, IsAcyclic}
use libopenapi.Arazzo.Validation.Validate.{validate}
use libopenapi.Arazzo.Validation.Accepted.{validate-IsDocument}
use libopenapi.Arazzo.Validation.Documents.{HasNoErrors, IsDocument}
use libopenapi.Arazzo.Validation.Scheduling.{validate-topological_sort}
use libopenapi.Arazzo.Validation.Working.{WorkflowWorks, validate-WorkflowWorks}
use libopenapi.Arazzo.Validation.Agreement.{cycles-topological_sort}
use libopenapi.Prelude.Number.{ℤ, pos}
use libopenapi.Prelude.{eqb, ◌≢◌, All}
use libopenapi.Arazzo.Validation.Cycles.{adjacency}
use libopenapi.Arazzo.Engine.Edges.{IsDistinct}
use libopenapi.Arazzo.Engine.References.{Components}

-- Locations without URLs, on which the functions of package filepath do nothing.
abbrev plain : Locations
plain = record {
  Url = Unit;
  parse = λ s. none;
  scheme = λ u. [];
  path = λ u. [];
  without_fragment = λ u. u;
  with_path = λ s u. u;
  print = λ u. [];
  clean = λ s. s;
  to_slash = λ s. s;
  abs = λ s. some s;
  to_lower = λ s. s;
}

-- The keys as they stand.
abbrev in_order : Adjacency → List Bytes
in_order [] = []
in_order ((k, deps) ∷ adj) = k ∷ in_order adj

wider : (k : Bytes) (ids : List Bytes) (adj : Adjacency) → Ranges adj ids → Ranges adj (k ∷ ids)
unfolding member
wider k ids [] h = tt
wider k ids ((j, deps) ∷ adj) (p, h) = (ground arith, wider k ids adj h)

in_order-Ranges : (adj : Adjacency) → Ranges adj (in_order adj)
unfolding member
in_order-Ranges [] = tt
in_order-Ranges ((k, deps) ∷ adj) =
    (ground (arith, eqb_iff k k), wider k (in_order adj) adj (in_order-Ranges adj))

abbrev goto_first : SuccessAction
goto_first = record {
  name = codes "again";
  type = codes "goto";
  workflow_id = [];
  step_id = codes "first";
  criteria = [];
  reference = [];
}

abbrev step : Bytes → List SuccessAction → Step integers.Float
step id actions = record {
  step_id = id;
  operation_id = codes "getPet";
  operation_path = [];
  workflow_id = [];
  parameters = [];
  request_body = none;
  success_criteria = [];
  on_success = actions;
  on_failure = [];
  outputs = [];
}

abbrev workflow : Bytes → List Bytes → List (Step integers.Float) → Workflow integers.Float
workflow id deps steps = record {
  workflow_id = id;
  depends_on = deps;
  steps = steps;
  success_actions = [];
  failure_actions = [];
  outputs = [];
}

abbrev document : List (Workflow integers.Float) → Arazzo integers.Float
document ws = record {
  arazzo = codes "1.0.1";
  info = some (record { title = codes "t"; version = codes "1" });
  source_descriptions =
      record { name = codes "pets"; url = codes "p.yaml"; type = codes "openapi" } ∷ [];
  workflows = ws;
  components = none;
  open_api_source_docs = [];
}

-- An action that is a reference to a component.
abbrev finish : SuccessAction
finish = record goto_first {
  name = [];
  type = [];
  step_id = [];
  reference = codes "$components.successActions.done";
}

abbrev shared : Components integers.Float
shared = record {
  parameters = none;
  success_actions = some (
      (codes "done", record goto_first { name = codes "done"; type = codes "end"; step_id = [] })
      ∷ []);
  failure_actions = none;
  inputs = none;
}

-- `b` depends on `a`, and its second step goes back to the first or refers to a component.
abbrev sample : Arazzo integers.Float
sample =
    record (document (
      workflow (codes "b") (codes "a" ∷ [])
        (step (codes "first") [] ∷ step (codes "second") (goto_first ∷ finish ∷ []) ∷ [])
      ∷ workflow (codes "a") [] (step (codes "only") [] ∷ [])
      ∷ [])) { components = some shared }

sample_valid : validate plain integers in_order (some sample) ≡ ok none
unfolding validate
sample_valid = refl

-- A goto to a step that is not there, and a step with an operation and a workflow.
sample_invalid :
    validate plain integers in_order (
      some (
        document (
          workflow
            (codes "a")
            []
            (record (step (codes "second") (goto_first ∷ [])) { workflow_id = codes "a" } ∷ [])
          ∷ [])))
    ≡ ok (
        some (record {
          errors =
              (codes "workflows[0].steps[0]", step_mutual_exclusion)
              ∷ (
                codes "workflows[0].steps[0].onSuccess[0].stepId",
                step_id_not_in_workflow (codes "first"),
              )
              ∷ [];
          warnings = [];
        }))
unfolding validate format_int
sample_invalid = refl

-- Where `a` depends on itself and `b` on `a`, an order that begins with `a` leaves it on the stack,
-- and the way from `b` to `a` is reported as a cycle; the other order reports one cycle.
abbrev around : Adjacency
around = (codes "a", codes "a" ∷ []) ∷ (codes "b", codes "a" ∷ []) ∷ []

around_twice :
    cycles around (codes "a" ∷ codes "b" ∷ [])
    ≡ some ((codes "a" ∷ codes "a" ∷ []) ∷ (codes "b" ∷ codes "a" ∷ []) ∷ [])
unfolding cycles
around_twice = refl

around_once :
    cycles around (codes "b" ∷ codes "a" ∷ [])
    ≡ some ((codes "b" ∷ codes "a" ∷ codes "a" ∷ []) ∷ [])
unfolding cycles
around_once = refl

validate-IsDocument_example :
    HasNoErrors (validate plain integers in_order (some sample)) ↔ IsDocument plain integers sample
validate-IsDocument_example = validate-IsDocument in_order in_order-Ranges plain integers sample

cycles-IsAcyclic_example : (cycles around (in_order around) ≡ some []) ↔ IsAcyclic around
cycles-IsAcyclic_example = cycles-IsAcyclic around (in_order around) (in_order-Ranges around)

cycles_end_example :
    (paths : List (List Bytes)) × (cycles around (codes "a" ∷ codes "b" ∷ []) ≡ some paths)
cycles_end_example = cycles_end around (codes "a" ∷ codes "b" ∷ [])

sample_clean : HasNoErrors (validate plain integers in_order (some sample))
unfolding validate
sample_clean = tt

validate-topological_sort_example :
    (ids : List Bytes) × ((topological_sort sample.workflows ≡ some (ok ids))
      × (Lists (workflow_ids sample.workflows) ids × Follows (edges sample.workflows) [] ids))
validate-topological_sort_example =
    validate-topological_sort in_order in_order-Ranges plain integers sample sample_clean

abbrev no_time : integers.Float → ℤ
no_time x = pos 0

validate-WorkflowWorks_example : All (WorkflowWorks integers no_time sample) sample.workflows
validate-WorkflowWorks_example =
    validate-WorkflowWorks in_order in_order-Ranges plain integers no_time sample sample_clean

sample_named : All (λ w. w.workflow_id ≢ []) sample.workflows
sample_named = ((λ e. ground arith), ((λ e. ground arith), tt))

sample_distinct : IsDistinct (workflow_ids sample.workflows)
unfolding member eqb
sample_distinct = (refl, (refl, tt))

cycles-topological_sort_example :
    (cycles (adjacency sample.workflows []) (in_order (adjacency sample.workflows [])) ≡ some [])
    ↔ ((ids : List Bytes) × (topological_sort sample.workflows ≡ some (ok ids)))
cycles-topological_sort_example =
    cycles-topological_sort sample.workflows (in_order (adjacency sample.workflows []))
      (in_order-Ranges (adjacency sample.workflows [])) sample_named sample_distinct
