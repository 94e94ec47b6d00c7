-- ===== src/Arazzo/Run/Filling.antt =====
-- arazzo/step.go: the success criteria and the outputs of a step.
use libopenapi.Prelude.{ℕ, suc, Bool, true, false, List, [], ◌∷◌, Option, none, some, Bytes}
use libopenapi.Prelude.Outcome.{ok, err}
use libopenapi.Prelude.Number.{ℤ, pos}
use libopenapi.Arazzo.Value.{Value, Entries, end, put, Dict}
use libopenapi.Arazzo.Evaluator.{Context}
use libopenapi.Arazzo.Criterion.{Host, Criterion, Caches}
use libopenapi.Arazzo.Engine.{
  EngineError, step_failure, in_step_output, Stateful, pure, wrapped, ◌>>=◌,
}
use libopenapi.Arazzo.Engine.Actions.{check_criterion}
use libopenapi.Arazzo.Engine.Document.{Step}
use libopenapi.Arazzo.Engine.Strings.{evaluate_string_value}
use libopenapi.Arazzo.Engine.Transitions.{Run}

abbrev pub with_caches : {F W : Type 0} → Caches → Run F W → Run F W
with_caches c s = record s { shared = record s.shared { caches = c } }

abbrev pub with_world : {F W : Type 0} → W → Run F W → Run F W
with_world w s = record s { shared = record s.shared { world = w } }

abbrev pub with_context : {F W : Type 0} → Context F → Run F W → Run F W
with_context ctx s = record s { context = ctx }

-- What a step has come to before its criteria and outputs: `result.Success`, `result.Error`,
-- `result.StatusCode`, `stepInputs` and the run.
pub record Attempt (F W : Type 0) : Type 0 where
  pub success : Bool
  pub error : Option EngineError
  pub status_code : ℤ
  pub inputs : Dict F
  pub run : Run F W

-- The fields that each step clears.
abbrev pub cleared : {F : Type 0} → Context F → Context F
cleared ctx = record ctx {
  status_code = pos 0;
  request_headers = none;
  request_query = none;
  request_path = none;
  request_body = none;
  response_headers = none;
  response_body = none;
}

module _ (h : Host) where
  -- A loop that fills a map until an error stops it: what the map has then is kept.
  unfoldable pub fill :
      {A : Type 0}
      → (A → Stateful (Bytes × Value h.floats.Float))
      → List A
      → Entries h.floats.Float
      → Caches
      → Option EngineError × Entries h.floats.Float × Caches
  unfolding put
  fill one [] m c = (none, m, c)
  fill one (a ∷ rest) m c =
      let (r, d) = one a c in
      elim r [ err e ↦ (some e, m, d) | ok (name, v) ↦ fill one rest (put name v m) d ]

  -- The loop of `evaluateStepSuccessCriteria`, from index `i`. A panic is no step failure but the
  -- error `panicked`.
  unfoldable pub success_criteria :
      Context h.floats.Float → Bytes → ℕ → List Criterion → Stateful (Unit {0})
  unfolding check_criterion
  success_criteria ctx step_id i [] = pure (ok tt)
  success_criteria ctx step_id i (criterion ∷ rest) =
      check_criterion h ctx (λ cause. step_failure step_id (some i) (some cause)) criterion
      >>= elim [
        | false ↦ pure (err (step_failure step_id (some i) none))
        | true ↦ success_criteria ctx step_id (suc i) rest
      ]

  unfoldable pub evaluate_step_success_criteria :
      Context h.floats.Float → Step h.floats.Float → Stateful (Unit {0})
  unfolding success_criteria
  evaluate_step_success_criteria ctx step =
      success_criteria ctx step.step_id 0 step.success_criteria

  -- One output of a step. A panic is not wrapped.
  unfoldable pub step_output :
      Context h.floats.Float → Bytes → Bytes × Bytes → Stateful (Bytes × Value h.floats.Float)
  step_output ctx step_id (name, expression) =
      wrapped (in_step_output name step_id) (evaluate_string_value h ctx expression) >>= λ v.
      pure (ok (name, v))

  unfoldable pub populate_step_outputs :
      Context h.floats.Float
      → Step h.floats.Float
      → Caches
      → Option EngineError × Entries h.floats.Float × Caches
  unfolding fill step_output
  populate_step_outputs ctx step = fill (step_output ctx step.step_id) step.outputs end
