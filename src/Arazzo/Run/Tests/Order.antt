-- ===== src/Arazzo/Run/Tests/Order.antt =====
-- Runs of all workflows at concrete inputs.
use libopenapi.Prelude.{
  Option, suc, true, [], ◌∷◌, none, some, Bytes, codes, eqb, index_byte, All, ◌≡◌, ◌↔◌, refl,
}
use libopenapi.Prelude.Outcome.{Result, ok, err}
use libopenapi.Prelude.Number.{ℤ, parse_bool}
use libopenapi.Prelude.Dict.{lookup}
use libopenapi.Arazzo.Value.{no_dict, Dict}
use libopenapi.Arazzo.Evaluator.Evaluate.{evaluate}
use libopenapi.Arazzo.Criterion.Evaluate.{
  parse_expression, evaluate_simple_criterion, evaluate_simple_operand, evaluate_expr_string,
}
use libopenapi.Arazzo.Criterion.Condition.{split_simple_condition, try_operators, unquote}
use libopenapi.Prelude.Space.{trim_space}
use libopenapi.Arazzo.Expression.Parser.{parse, dispatch}
use libopenapi.Arazzo.Criterion.{Criterion, new_caches}
use libopenapi.Arazzo.Criterion.Tests.{host}
use libopenapi.Arazzo.Engine.{EngineError, ◌>>=◌, panicked}
use libopenapi.Arazzo.Engine.Actions.{find_matching_action}
use libopenapi.Arazzo.Engine.Document.{WorkflowResult}
use libopenapi.Arazzo.Engine.Order.{topological_sort}
use libopenapi.Arazzo.Engine.Scheduled.{HasSucceeded}
use libopenapi.Arazzo.Engine.Transitions.{Shared, Runner}
use libopenapi.Arazzo.Run.{Document, Engine, new_engine}
use libopenapi.Arazzo.Run.Workflows.{run_workflow, max_workflow_depth, nested}
use libopenapi.Arazzo.Run.All.{RunResult, failed_result, run_one, run_all_by, run_all}
use libopenapi.Arazzo.Run.Reports.{ids, AllSucceeded, run_one-HasSucceeded, run_all-AllSucceeded}
use libopenapi.Arazzo.Run.Ending.{Finishes, run_all_ends}
use libopenapi.Arazzo.Run.Tests.{outside, operation_step, workflow, document, start}

abbrev ordered_document : Document ℤ
ordered_document = record document {
  workflows =
      workflow (codes "b") (codes "a" ∷ []) []
      ∷ workflow (codes "a") [] (operation_step (codes "s1") [] ∷ [])
      ∷ [];
}

abbrev second_engine : Engine ℤ
second_engine = new_engine ordered_document []

abbrev no_inputs : Bytes → Dict ℤ
no_inputs id = no_dict

abbrev all_results : Option (Result EngineError (RunResult ℤ) × Shared ℤ (Unit {0}))
all_results = run_all host outside second_engine no_inputs tt new_caches

abbrev report :
    Option (Result EngineError (RunResult ℤ) × Shared ℤ (Unit {0}))
    → RunResult ℤ × Shared ℤ (Unit {0})
report (some (ok r, s)) = (r, s)
report _ = (record { workflows = []; success = true }, start)

run_ordered : all_results ≡ some (ok (report all_results).0, (report all_results).1)
unfolding run_all eqb new_engine lookup ◌>>=◌ find_matching_action
run_ordered = refl

run_all-AllSucceeded_example :
    (((report all_results).0.success ≡ true) ↔ AllSucceeded (report all_results).0.workflows)
    × (topological_sort second_engine.document.workflows
        ≡ some (ok (ids (report all_results).0.workflows)))
run_all-AllSucceeded_example =
    run_all-AllSucceeded host outside second_engine no_inputs tt new_caches (report all_results).0
      (report all_results).1 run_ordered

abbrev second_runner : Runner ℤ (Unit {0})
second_runner = run_workflow host outside second_engine (suc max_workflow_depth)

run_all_ends_example :
    Finishes host outside second_engine
      (topological_sort second_engine.document.workflows)
      all_results
    × ((base : Runner ℤ (Unit {0}))
        → all_results
          ≡ run_all_by host outside second_engine
              (nested host outside second_engine base (suc max_workflow_depth))
              no_inputs
              tt
              new_caches)
run_all_ends_example = run_all_ends host outside second_engine (λ w. refl) no_inputs tt new_caches

-- What is shared when `a` has run.
abbrev after_a : Shared ℤ (Unit {0})
after_a = (run_one host outside second_engine second_runner no_inputs (codes "a") start).1

known_b :
    lookup (codes "b") second_engine.workflows ≡ some (workflow (codes "b") (codes "a" ∷ []) [])
unfolding lookup eqb new_engine
known_b = refl

abbrev ran_b : Result EngineError (WorkflowResult ℤ)
ran_b = (run_one host outside second_engine second_runner no_inputs (codes "b") after_a).0

abbrev result_b : WorkflowResult ℤ
result_b = elim ran_b [ ok r ↦ r | err x ↦ failed_result host outside second_engine [] no_dict x ]

run_one_b : ran_b ≡ ok result_b
unfolding run_one run_workflow eqb new_engine lookup ◌>>=◌ find_matching_action
run_one_b = refl

success_b : result_b.success ≡ true
unfolding run_one run_workflow eqb new_engine lookup ◌>>=◌ find_matching_action
success_b = refl

run_one-HasSucceeded_example :
    All (HasSucceeded after_a.execution.workflow_results) (codes "a" ∷ [])
run_one-HasSucceeded_example =
    run_one-HasSucceeded host outside second_engine no_inputs (codes "b") after_a
      (workflow (codes "b") (codes "a" ∷ []) []) result_b known_b run_one_b success_b

-- A criterion with a lone quote.
abbrev lone_quote : Criterion
lone_quote = record {
  context = [];
  condition = codes "$method == '";
  type = [];
  expression_type = none;
}

abbrev panicking_document : Document ℤ
panicking_document = record document {
  workflows =
      workflow (codes "a") []
        (record (operation_step (codes "s1") []) { success_criteria = lone_quote ∷ [] } ∷ [])
      ∷ [];
}

-- The panic is what the whole run comes to.
run_panicking :
    elim (run_all host outside (new_engine panicking_document []) no_inputs tt new_caches) [
      | none ↦ none
      | some x ↦ some x.0
    ]
    ≡ some (err panicked)
unfolding run_all run_workflow eqb new_engine lookup ◌>>=◌ find_matching_action
    evaluate_simple_criterion trim_space parse_bool split_simple_condition index_byte try_operators
    libopenapi.Arazzo.Criterion.Evaluate.◌>>=◌ evaluate_simple_operand evaluate_expr_string parse
    dispatch evaluate unquote
run_panicking = refl
