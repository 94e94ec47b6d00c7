-- ===== src/Arazzo/Engine/Retried.antt =====
-- arazzo/actions.go: when `processActionTypeResult` asks for a retry.
use libopenapi.Prelude.{
  ℕ, zero, suc, ◌<◌, ◌⊎◌, refl, Bool, true, false, List, Bytes, codes, eqb, eqb_iff, ◌≡◌, ◌≢◌, ◌↔◌,
  inl, inr, arith, Bool-cases,
}
use libopenapi.Prelude.Outcome.{Result, ok, err}
use libopenapi.Prelude.Number.{ℤ, pos, negsuc}
use libopenapi.Arazzo.Value.{Floats, no_dict}
use libopenapi.Arazzo.Evaluator.{Context}
use libopenapi.Arazzo.Engine.{EngineError}
use libopenapi.Arazzo.Engine.Document.{WorkflowResult}
use libopenapi.Arazzo.Engine.Transitions.{
  ActionTypeRequest, StepActionResult, Shared, Run, Runner, effective_limit, retry_result,
  step_result, workflow_ended, process_action_type_result,
}

-- The first retry, or one below the limit.
abbrev pub MayRetry : ℕ → ℤ → Type 0
MayRetry retries limit = (retries ≡ 0) ⊎ ((k : ℕ) × (limit ≡ pos k) × (retries < k))

below_limit : (retries : ℕ) (limit : ℤ) → (retries < effective_limit limit) ↔ MayRetry retries limit
below_limit n (pos zero) =
    (λ l. inl (omega arith), elim [ inl p ↦ omega arith | inr (k, q, l) ↦ ground arith ])
below_limit n (pos (suc k)) =
    (λ l. inr (suc k, refl, l), elim [ inl p ↦ omega arith | inr (j, q, l) ↦ ground arith ])
below_limit n (negsuc k) =
    (λ l. inl (omega arith), elim [ inl p ↦ omega arith | inr (j, q, l) ↦ ground arith ])

module _ (floats : Floats) (nanoseconds : floats.Float → ℤ) where
  -- Whatever the runner of workflows does.
  step_result-retry :
      (id : Bytes) (m : List (Bytes × ℕ)) (r : StepActionResult)
      → step_result floats nanoseconds id m ≡ ok r
      → r.retry_current ≡ false
  unfolding step_result
  step_result-retry id m r e = ground arith

  workflow_ended-retry :
      {W : Type 0} (id : Bytes) (ctx : Context floats.Float)
      (w : Result EngineError (WorkflowResult floats.Float) × Shared floats.Float W)
      (r : StepActionResult) (s : Run floats.Float W)
      → workflow_ended floats nanoseconds id ctx w ≡ (ok r, s)
      → r.retry_current ≡ false
  unfolding workflow_ended
  workflow_ended-retry id ctx (ok x, t) r s e = ground arith
  workflow_ended-retry id ctx (err x, t) r s e = ground arith

  retry_result-retry :
      (req : ActionTypeRequest floats.Float)
      → ((retry_result floats nanoseconds req).retry_current ≡ true)
        ↔ MayRetry req.current_retries req.retry_limit
  unfolding retry_result
  retry_result-retry req =
      let (to, from) = below_limit req.current_retries req.retry_limit in
      (λ p. to (ground arith), λ m. let l = from m in ground arith)

  no_retry :
      (a : Bytes) (M : Type 0) (b : Bool)
      → b ≡ false
      → a ≢ codes "retry"
      → (b ≡ true) ↔ ((a ≡ codes "retry") × M)
  no_retry a M b e h = (λ q. ground arith, λ (q, l). absurd (h q))

  retry_alone :
      (a : Bytes) (M : Type 0) (b : Bool)
      → a ≡ codes "retry"
      → (b ≡ true) ↔ M
      → (b ≡ true) ↔ ((a ≡ codes "retry") × M)
  retry_alone a M b e h = (λ q. (e, h.0 q), λ (q, l). h.1 l)

  -- Where the run of an action gives no error, a retry is asked for exactly where the action is a
  -- retry, and the step has not been retried yet or has been retried less often than the action's
  -- limit; whatever the runner of workflows does.
  pub process_action_type_result-retry :
      {W : Type 0} (run : Runner floats.Float W) (req : ActionTypeRequest floats.Float)
      (steps : List (Bytes × ℕ)) (s t : Run floats.Float W) (r : StepActionResult)
      → process_action_type_result floats nanoseconds run req steps s ≡ (ok r, t)
      → (r.retry_current ≡ true)
        ↔ ((req.action_type ≡ codes "retry") × MayRetry req.current_retries req.retry_limit)
  unfolding process_action_type_result retry_result
  process_action_type_result-retry run req steps s t r e =
      elim (Bool-cases (eqb req.action_type (codes "end"))) [
        | inl p ↦
            no_retry _ _ _ (ground arith)
              (λ q. ground (arith, (eqb_iff req.action_type (codes "end")).0 p))
        | inr p ↦ elim (Bool-cases (eqb req.action_type (codes "goto"))) [
          | inl q ↦
              no_retry _ _ _
                (ground (
                  arith,
                  step_result-retry req.step_id steps r,
                  workflow_ended-retry req.workflow_id s.context
                      (run req.workflow_id no_dict s.shared) r t,
                ))
                (λ k. ground (arith, (eqb_iff req.action_type (codes "goto")).0 q))
          | inr q ↦ elim (Bool-cases (eqb req.action_type (codes "retry"))) [
            | inl k ↦
                retry_alone _ _ _ ((eqb_iff req.action_type (codes "retry")).0 k)
                  (ground (arith, retry_result-retry req))
            | inr k ↦
                no_retry _ _ _ (ground (arith))
                  (λ l. ground (arith, (eqb_iff req.action_type (codes "retry")).1 l))
          ]
        ]
      ]
