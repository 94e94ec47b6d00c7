-- ===== src/Arazzo/Run/Tests.antt =====
-- Runs of workflows at concrete inputs.
mod Order
use libopenapi.Prelude.{
  arith, Bool, Option, suc, ◌+◌, true, false, List, [], ◌∷◌, none, some, Bytes, codes, length, eqb,
  index_byte, All, ◌≡◌, ◌↔◌, refl,
}
use libopenapi.Prelude.Outcome.{Result, ok, err}
use libopenapi.Prelude.Number.{ℤ, pos, parse_bool}
use libopenapi.Prelude.Dict.{lookup}
use libopenapi.Arazzo.Value.{integer, int, get, null, no_dict, Dict}
use libopenapi.Arazzo.Evaluator.Tests.{empty_context, integers}
use libopenapi.Arazzo.Evaluator.Evaluate.{evaluate, evaluate_string}
use libopenapi.Arazzo.Engine.{wrapped}
use libopenapi.Arazzo.Engine.Strings.{evaluate_string_value}
use libopenapi.Arazzo.Criterion.Evaluate.{
  parse_expression, evaluate_simple_criterion, evaluate_simple_operand, evaluate_expr_string,
}
use libopenapi.Arazzo.Criterion.Condition.{split_simple_condition, try_operators, unquote}
use libopenapi.Prelude.Space.{trim_space}
use libopenapi.Arazzo.Expression.Parser.{parse, dispatch}
use libopenapi.Arazzo.Evaluator.Recorded.{output_text}
use libopenapi.Arazzo.Run.Steps.{execute_step}
use libopenapi.Arazzo.Run.Recalled.{execute_step-evaluate_string}
use libopenapi.Arazzo.Criterion.{Criterion, new_caches}
use libopenapi.Arazzo.Criterion.Tests.{host}
use libopenapi.Arazzo.Engine.{
  EngineError, ◌>>=◌, SuccessAction, circular_workflow, transitions_exceeded, panicked,
}
use libopenapi.Arazzo.Engine.Actions.{find_matching_action, evaluate_action_criteria}
use libopenapi.Arazzo.Engine.References.{resolve_success_action}
use libopenapi.Arazzo.Engine.Document.{StepResult, Step, Workflow, WorkflowResult}
use libopenapi.Arazzo.Engine.Order.{topological_sort}
use libopenapi.Arazzo.Engine.Scheduled.{HasSucceeded}
use libopenapi.Arazzo.Engine.Transitions.{Shared, Run, Runner}
use libopenapi.Arazzo.Run.{Outside, Document, Engine, new_engine}
use libopenapi.Arazzo.Run.Loop.{Finished, run_steps}
use libopenapi.Arazzo.Run.Workflows.{
  new_state, run_workflow, run_workflow_alone, max_workflow_depth, nested,
}
use libopenapi.Arazzo.Run.All.{RunResult, failed_result, run_one, run_all_by, run_all}
use libopenapi.Arazzo.Run.Stack.{stack}
use libopenapi.Arazzo.Run.Balanced.{run_workflow-Restores}
use libopenapi.Arazzo.Run.Bounds.{Bounded, run_steps-Adds}
use libopenapi.Arazzo.Run.Concluded.{Ends, run_workflow-Ends}
use libopenapi.Arazzo.Run.Fuel.{run_workflow-fuel}
use libopenapi.Arazzo.Run.Reports.{ids, AllSucceeded, run_one-HasSucceeded, run_all-AllSucceeded}
use libopenapi.Arazzo.Run.Ending.{Finishes, run_all_ends}

-- An executor that answers 200, and a context that is never done.
abbrev pub outside : Outside ℤ
outside = record {
  World = Unit {0};
  execute = some (λ req w. (
    ok (record {
      status_code = pos 200;
      headers = [];
      body = null;
      url = [];
      method = codes "GET";
    }),
    w,
  ));
  ctx_err = λ w. (none, w);
  sleep_func = none;
  timer = λ d w. (none, w);
  nanoseconds = λ x. x;
}

abbrev pub operation_step : Bytes → List SuccessAction → Step ℤ
operation_step id actions = record {
  step_id = id;
  operation_id = codes "op";
  operation_path = [];
  workflow_id = [];
  parameters = [];
  request_body = none;
  success_criteria = [];
  on_success = actions;
  on_failure = [];
  outputs = [];
}

abbrev workflow_step : Bytes → Bytes → Step ℤ
workflow_step id target = record (operation_step id []) { operation_id = []; workflow_id = target }

abbrev pub workflow : Bytes → List Bytes → List (Step ℤ) → Workflow ℤ
workflow id deps steps = record {
  workflow_id = id;
  depends_on = deps;
  steps = steps;
  success_actions = [];
  failure_actions = [];
  outputs = [];
}

-- `b` depends on `a`, and runs it; `c` runs itself.
abbrev pub document : Document ℤ
document = record {
  source_descriptions = [];
  workflows =
      workflow (codes "b") (codes "a" ∷ []) (workflow_step (codes "s2") (codes "a") ∷ [])
      ∷ workflow (codes "a") [] (operation_step (codes "s1") [] ∷ [])
      ∷ workflow (codes "c") [] (workflow_step (codes "s3") (codes "c") ∷ [])
      ∷ [];
  components = none;
}

abbrev engine : Engine ℤ
engine = new_engine document []

abbrev pub start : Shared ℤ (Unit {0})
start = record { world = tt; caches = new_caches; execution = new_state }

abbrev has_succeeded : Result EngineError (WorkflowResult ℤ) → Bool
has_succeeded (ok r) = r.success
has_succeeded (err x) = false

-- The error of a workflow's result.
abbrev failure : Result EngineError (WorkflowResult ℤ) → Option EngineError
failure (ok r) = r.error
failure (err x) = some x

run_b :
    has_succeeded (run_workflow_alone host outside engine (codes "b") no_dict tt new_caches).0
    ≡ true
unfolding run_workflow_alone eqb new_engine lookup ◌>>=◌ find_matching_action
run_b = refl

run_c :
    failure (run_workflow_alone host outside engine (codes "c") no_dict tt new_caches).0
    ≡ some (circular_workflow (codes "c"))
unfolding run_workflow_alone eqb new_engine lookup ◌>>=◌ find_matching_action
run_c = refl

run_workflow-Restores_example :
    stack (run_workflow host outside engine 33 (codes "b") no_dict start).1 ≡ stack start
run_workflow-Restores_example =
    run_workflow-Restores host outside engine 33 (codes "b") no_dict start

run_workflow-fuel_example :
    run_workflow host outside engine (suc (7 + max_workflow_depth)) (codes "b") no_dict start
    ≡ run_workflow host outside engine (suc max_workflow_depth) (codes "b") no_dict start
run_workflow-fuel_example = run_workflow-fuel host outside engine 7 (codes "b") no_dict start

run_workflow-Ends_example :
    Ends engine.workflows
      (codes "c")
      no_dict
      start
      (run_workflow host outside engine 33 (codes "c") no_dict start)
run_workflow-Ends_example = run_workflow-Ends host outside engine 32 (codes "c") no_dict start

abbrev again : SuccessAction
again = record {
  name = codes "again";
  type = codes "goto";
  workflow_id = [];
  step_id = codes "s1";
  criteria = [];
  reference = [];
}

-- A step that goes back to itself.
abbrev endless : Workflow ℤ
endless = workflow (codes "d") [] (operation_step (codes "s1") (again ∷ []) ∷ [])

abbrev first_run : Run ℤ (Unit {0})
first_run = record { shared = start; context = empty_context }

abbrev three_steps : Finished ℤ (Unit {0})
three_steps =
    run_steps host outside engine (run_workflow host outside engine 0) endless 3 0 [] [] first_run

run_endless :
    (three_steps.error ≡ some (transitions_exceeded (codes "d"))) × (length three_steps.steps ≡ 3)
unfolding run_steps eqb lookup ◌>>=◌ find_matching_action resolve_success_action
    evaluate_action_criteria
run_endless = (refl, refl)

run_steps-Adds_example : Bounded 3 three_steps
run_steps-Adds_example =
    run_steps-Adds host outside engine (run_workflow host outside engine 0) endless 3 0 [] []
      first_run

abbrev status_step : Step ℤ
status_step = record (operation_step (codes "s1") []) {
  outputs = (codes "code", codes "$statusCode") ∷ [];
}

abbrev status_run : StepResult ℤ × Run ℤ (Unit {0})
status_run =
    execute_step host outside engine (run_workflow host outside engine 0) status_step first_run

status_output : get (codes "code") status_run.0.outputs ≡ some (integer int (pos 200))
unfolding execute_step eqb get ◌>>=◌ wrapped evaluate_string_value parse_expression parse dispatch
    evaluate
status_output = refl

execute_step-evaluate_string_example :
    evaluate_string integers
      (output_text (codes "$steps.") (codes "s1") (codes "code"))
      (some status_run.1.context)
    ≡ ok (integer int (pos 200))
execute_step-evaluate_string_example =
    execute_step-evaluate_string host outside engine (run_workflow host outside engine 0)
      status_step first_run (codes "code") (integer int (pos 200)) (ground arith)
      (λ e. ground arith) (λ e. ground arith) status_output
