-- ===== src/Arazzo/Run/Recalled.antt =====
-- arazzo/step.go and arazzo/expression/evaluator.go: what an expression finds of a step that has run.
use libopenapi.Prelude.{[], ◌∷◌, some, Bytes, codes, Lacks, ◌≡◌, ◌≢◌, refl}
use libopenapi.Prelude.Outcome.{ok}
use libopenapi.Arazzo.Value.{Value, Entries, dict, get}
use libopenapi.Arazzo.Criterion.{Host}
use libopenapi.Arazzo.Evaluator.{Subject}
use libopenapi.Arazzo.Evaluator.Evaluate.{
  evaluate, evaluate_string, resolve_steps, field_of, map_or_field, resolve_step_tail,
}
use libopenapi.Arazzo.Evaluator.Recorded.{output_text, parse_step_output, entry_of-insert}
use libopenapi.Arazzo.Engine.Document.{Step}
use libopenapi.Arazzo.Engine.Transitions.{Run, Runner}
use libopenapi.Arazzo.Run.{Outside, Engine}
use libopenapi.Arazzo.Run.Steps.{execute_step}

map_or_field-get :
    {F : Type 0} (what : Subject) (k : Bytes) (v : Value F) (m : Entries F)
    → k ≢ []
    → get k m ≡ some v
    → map_or_field what (dict m) k ≡ ok v
unfolding map_or_field field_of
map_or_field-get what [] v m h q = absurd (h refl)
map_or_field-get what (c ∷ k) v m h q = rw (field_of, q) refl

module _ (h : Host) (out : Outside h.floats.Float) (e : Engine h.floats.Float) where
  open out use {World}

  -- When a step has run, the expression for one of its outputs evaluates to the value that its result
  -- has under that name, for names that are not empty and a step's name without a dot.
  pub execute_step-evaluate_string :
      (run : Runner h.floats.Float World) (step : Step h.floats.Float)
      (s : Run h.floats.Float World) (output : Bytes) (v : Value h.floats.Float)
      → Lacks b'.' step.step_id
      → step.step_id ≢ []
      → output ≢ []
      → get output (execute_step h out e run step s).0.outputs ≡ some v
      → evaluate_string h.floats
          (output_text (codes "$steps.") step.step_id output)
          (some (execute_step h out e run step s).1.context)
        ≡ ok v
  unfolding execute_step evaluate_string evaluate resolve_steps resolve_step_tail
  execute_step-evaluate_string run step s output v no_dot named output_named q = rw (
    parse_step_output step.step_id output no_dot named,
    entry_of-insert,
    map_or_field-get _ output v _ output_named q,
  )
