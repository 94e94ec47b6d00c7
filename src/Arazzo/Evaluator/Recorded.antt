-- ===== src/Arazzo/Evaluator/Recorded.antt =====
-- arazzo/expression/evaluator.go: expressions that name a step's or a workflow's outputs.
use libopenapi.Prelude.{[], ◌∷◌, ◌++◌, List, some, ◌≡◌, ◌≢◌, inr, refl, Bytes, codes, Lacks}
use libopenapi.Prelude.Outcome.{ok}
use libopenapi.Prelude.Dict.{insert, lookup-insert_self}
use libopenapi.Arazzo.Value.{Floats, Value, Entries, Dict, dict, put, get-put_self}
use libopenapi.Arazzo.Expression.{Expression, zero_expression, ExpressionType, steps, workflows}
use libopenapi.Arazzo.Expression.Parser.{parse}
use libopenapi.Arazzo.Expression.Grammar.Complete.{parse_complete}
use libopenapi.Arazzo.Evaluator.{StepContext, WorkflowContext, Context, Subject}
use libopenapi.Arazzo.Evaluator.Evaluate.{
  evaluate, evaluate_string, resolve_steps, resolve_workflows, entry_of, field_of, map_or_field,
  resolve_step_tail,
}

-- `$steps.{name}.outputs.{output}` and `$workflows.{name}.outputs.{output}`.
abbrev pub output_text : Bytes → Bytes → Bytes → Bytes
output_text prefix name output = prefix ++ (name ++ (b'.' ∷ (codes "outputs." ++ output)))

abbrev output_expression : ExpressionType → Bytes → Bytes → Bytes → Expression
output_expression t prefix name output = record zero_expression {
  type = t;
  raw = output_text prefix name output;
  name = name;
  tail = codes "outputs." ++ output;
}

pub parse_step_output :
    (name output : Bytes)
    → Lacks b'.' name
    → name ≢ []
    → parse (output_text (codes "$steps.") name output)
      ≡ ok (output_expression steps (codes "$steps.") name output)
parse_step_output name output l ne =
    parse_complete _ (output_expression steps (codes "$steps.") name output)
      (refl, ((l, inr refl, refl, refl), ne))

parse_workflow_output :
    (name output : Bytes)
    → Lacks b'.' name
    → name ≢ []
    → parse (output_text (codes "$workflows.") name output)
      ≡ ok (output_expression workflows (codes "$workflows.") name output)
parse_workflow_output name output l ne =
    parse_complete _ (output_expression workflows (codes "$workflows.") name output)
      (refl, ((l, inr refl, refl, refl), ne))

pub entry_of-insert {ℓ} :
    {V : Type ℓ} (what : Subject) (k : Bytes) (v : V) (m : List (Bytes × V))
    → entry_of what (some (insert k v m)) k ≡ ok v
unfolding entry_of
entry_of-insert what k v m = rw (lookup-insert_self k v m, entry_of)

field_of-put :
    {F : Type 0} (what : Subject) (k : Bytes) (v : Value F) (m : Entries F)
    → field_of what (dict (put k v m)) k ≡ ok v
unfolding field_of
field_of-put what k v m = rw (get-put_self k v m, field_of)

map_or_field-put :
    {F : Type 0} (what : Subject) (k : Bytes) (v : Value F) (m : Entries F)
    → k ≢ []
    → map_or_field what (dict (put k v m)) k ≡ ok v
unfolding map_or_field
map_or_field-put what [] v m h = absurd (h refl)
map_or_field-put what (c ∷ k) v m h = field_of-put what (c ∷ k) v m

module _ (floats : Floats) (ctx : Context floats.Float) (name output : Bytes)
    (no_dot : Lacks b'.' name) (named : name ≢ []) (output_named : output ≢ [])
    (inputs : Dict floats.Float) (outputs : Entries floats.Float) (v : Value floats.Float) where
  -- Once a step has recorded an output, the expression that names the step and the output
  -- evaluates to the recorded value, whatever other steps and outputs are recorded. A step's name
  -- is not empty and has no dot, an output's name is not empty.
  pub evaluate_string-step_output :
      (m : List (Bytes × StepContext floats.Float))
      → evaluate_string floats (output_text (codes "$steps.") name output) (
          some (record ctx {
            steps =
                some (
                  insert name
                    (record { inputs = inputs; outputs = dict (put output v outputs) })
                    m);
          }))
        ≡ ok v
  unfolding evaluate_string evaluate resolve_steps resolve_step_tail
  evaluate_string-step_output m = rw (
    parse_step_output name output no_dot named,
    entry_of-insert,
    map_or_field-put _ output v outputs output_named,
  )

  -- Once a workflow has recorded an output, the expression that names the workflow and the output
  -- evaluates to the recorded value, whatever other workflows and outputs are recorded. A workflow's
  -- id is not empty and has no dot, an output's name is not empty.
  pub evaluate_string-workflow_output :
      (m : List (Bytes × WorkflowContext floats.Float))
      → evaluate_string floats (output_text (codes "$workflows.") name output) (
          some (record ctx {
            workflows =
                some (
                  insert name
                    (record { inputs = inputs; outputs = dict (put output v outputs) })
                    m);
          }))
        ≡ ok v
  unfolding evaluate_string evaluate resolve_workflows
  evaluate_string-workflow_output m = rw (
    parse_workflow_output name output no_dot named,
    entry_of-insert,
    map_or_field-put _ output v outputs output_named,
  )
