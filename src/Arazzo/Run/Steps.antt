-- ===== src/Arazzo/Run/Steps.antt =====
-- arazzo/step.go: `executeStep`. The runner of workflows is an argument.
use libopenapi.Prelude.{false, [], Option, none, some, is_empty, if◌then◌else◌}
use libopenapi.Prelude.Outcome.{Result, ok, err}
use libopenapi.Prelude.Dict.{insert}
use libopenapi.Arazzo.Value.{Entries, end, dict}
use libopenapi.Arazzo.Evaluator.{Context, StepContext}
use libopenapi.Arazzo.Criterion.{Host, Caches}
use libopenapi.Arazzo.Engine.{EngineError, unless_escaping}
use libopenapi.Arazzo.Engine.Document.{Step, StepResult}
use libopenapi.Arazzo.Engine.Transitions.{Run, Runner}
use libopenapi.Arazzo.Run.{Outside, Engine}
use libopenapi.Arazzo.Run.Filling.{
  with_caches, with_context, Attempt, cleared, evaluate_step_success_criteria,
  populate_step_outputs,
}
use libopenapi.Arazzo.Run.Sending.{call_workflow, send_request}

module _ (h : Host) (out : Outside h.floats.Float) (e : Engine h.floats.Float) where
  open out use {World}

  abbrev pub failing :
      Attempt h.floats.Float World → EngineError → Caches → Attempt h.floats.Float World
  failing a x c = record a { success = false; error = some x; run = with_caches c a.run }

  abbrev pub judged :
      Attempt h.floats.Float World
      → Result EngineError (Unit {0}) × Caches
      → Attempt h.floats.Float World
  judged a (err x, c) = failing a x c
  judged a (ok u, c) = record a { run = with_caches c a.run }

  -- The success criteria, if there is no failure. Where one of them panics, the error is `panicked`.
  unfoldable pub judge :
      Step h.floats.Float → Attempt h.floats.Float World → Attempt h.floats.Float World
  unfolding evaluate_step_success_criteria
  judge step a =
      if a.success
      then judged a (evaluate_step_success_criteria h a.run.context step a.run.shared.caches)
      else a

  -- The outputs up to the first error; none after a panic.
  abbrev pub output_of :
      Attempt h.floats.Float World
      → Option EngineError × Entries h.floats.Float × Caches
      → Attempt h.floats.Float World × Entries h.floats.Float
  output_of a (none, m, c) = (record a { run = with_caches c a.run }, m)
  output_of a (some x, m, c) =
      unless_escaping (some x) (λ y. (failing a y c, end)) (failing a x c, m)

  -- The outputs, if there is no failure.
  unfoldable pub output :
      Step h.floats.Float
      → Attempt h.floats.Float World
      → Attempt h.floats.Float World × Entries h.floats.Float
  unfolding populate_step_outputs
  output step a =
      if a.success
      then output_of a (populate_step_outputs h a.run.context step a.run.shared.caches)
      else (a, end)

  -- `exprCtx.Steps[step.StepId] = …`.
  abbrev pub recorded :
      Step h.floats.Float
      → StepContext h.floats.Float
      → Context h.floats.Float
      → Context h.floats.Float
  recorded step r ctx = record ctx {
    steps = some (insert step.step_id r (elim ctx.steps [ none ↦ [] | some m ↦ m ]));
  }

  abbrev pub step_ended :
      Step h.floats.Float
      → Attempt h.floats.Float World × Entries h.floats.Float
      → StepResult h.floats.Float × Run h.floats.Float World
  step_ended step (a, m) = (
    record {
      step_id = step.step_id;
      success = a.success;
      status_code = a.status_code;
      outputs = m;
      error = a.error;
      retries = 0;
    },
    with_context (recorded step (record { inputs = a.inputs; outputs = dict m }) a.run.context)
        a.run,
  )

  unfoldable pub attempt :
      Runner h.floats.Float World
      → Step h.floats.Float
      → Run h.floats.Float World
      → Attempt h.floats.Float World
  unfolding call_workflow send_request
  attempt run step s =
      if is_empty step.workflow_id
      then send_request h out e step s
      else call_workflow h out e run step s

  -- Where a part panics, the result is not one of the program: its error is the panic, which the loop
  -- over the steps passes on.
  unfoldable pub execute_step :
      Runner h.floats.Float World
      → Step h.floats.Float
      → Run h.floats.Float World
      → StepResult h.floats.Float × Run h.floats.Float World
  unfolding attempt judge output insert
  execute_step run step s =
      step_ended step
        (output step (judge step (attempt run step (with_context (cleared s.context) s))))
