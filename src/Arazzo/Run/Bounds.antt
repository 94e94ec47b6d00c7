-- ===== src/Arazzo/Run/Bounds.antt =====
-- arazzo/engine.go: how many results the loop over the steps leaves, and its success and error.
use libopenapi.Prelude.{
  ℕ, zero, suc, ◌+◌, ◌≤◌, true, List, [], ◌∷◌, ◌++◌, Option, none, some, Bytes, length,
  length-append, get_elem?, ◌≡◌, ◌↔◌, refl, arith, inl, inr, Bool-cases,
}
use libopenapi.Prelude.Outcome.{Result, ok, err}
use libopenapi.Arazzo.Criterion.{Host}
use libopenapi.Arazzo.Engine.{EngineError, external}
use libopenapi.Arazzo.Engine.Escaping.{if_lem, unless_escaping_lem}
use libopenapi.Arazzo.Engine.Document.{Step, Workflow, StepResult}
use libopenapi.Arazzo.Engine.Transitions.{StepActionResult, Run, Runner}
use libopenapi.Arazzo.Run.{Outside, Engine}
use libopenapi.Arazzo.Run.Filling.{with_world}
use libopenapi.Arazzo.Run.Steps.{execute_step}
use libopenapi.Arazzo.Run.Loop.{
  Finished, Round, finished, retry_count, process_success_actions, process_failure_actions,
  succeeded, slept, jumped, not_succeeded, stepped, take_step, checked, guarded_by, too_many,
  run_steps,
}

-- At most `n` results, and an error exactly where there is no success.
pub record Bounded {F W : Type 0} (n : ℕ) (f : Finished F W) : Type 0 where
  pub bound : length f.steps ≤ n
  pub error_iff : (f.success ≡ true) ↔ (f.error ≡ none)

-- At most `n` results more.
abbrev pub Adds : {F W : Type 0} → ℕ → Round F W → Type 0
Adds {F = F} {W = W} n next =
    (idx : ℕ) (counts : List (Bytes × ℕ)) (done : List (StepResult F)) (s : Run F W)
    → Bounded (length done + n) (next idx counts done s)

finished-Bounded :
    {F W : Type 0} (n : ℕ) (x : Option EngineError) (done : List (StepResult F)) (s : Run F W)
    → Bounded (length done + n) (finished x done s)
finished-Bounded n none done s = record { bound = omega arith; error_iff = (λ p. refl, λ p. refl) }
finished-Bounded n (some x) done s = record {
  bound = omega arith;
  error_iff = (λ p. ground arith, λ p. ground arith);
}

module _ (h : Host) (out : Outside h.floats.Float) (e : Engine h.floats.Float) where
  open out use {World, ctx_err}

  module _ (run : Runner h.floats.Float World) (wf : Workflow h.floats.Float) where
    module _ (n : ℕ) (next : Round h.floats.Float World) (adds : Adds n next)
        (step : Step h.floats.Float) where
      succeeded-Bounded :
          (idx : ℕ) (counts : List (Bytes × ℕ)) (done : List (StepResult h.floats.Float))
          (r : Result EngineError StepActionResult × Run h.floats.Float World)
          → Bounded (length done + n) (succeeded h out e run wf next step idx counts done r)
      succeeded-Bounded idx counts done (err x, s) = finished-Bounded n (some x) done s
      succeeded-Bounded idx counts done (ok t, s) = elim (Bool-cases t.end_workflow) [
        | inl q ↦ rw q (finished-Bounded n none done s)
        | inr q ↦
            rw q (adds (elim t.jump_to_step_idx [ none ↦ suc idx | some j ↦ j ]) counts done s)
      ]

      slept-Bounded :
          (idx : ℕ) (counts : List (Bytes × ℕ)) (done : List (StepResult h.floats.Float))
          (s : Run h.floats.Float World) (r : Option Bytes × World)
          → Bounded (length done + n) (slept h out e run wf next step idx counts done s r)
      slept-Bounded idx counts done s (none, w) = adds idx counts done (with_world w s)
      slept-Bounded idx counts done s (some m, w) =
          finished-Bounded n (some (external m)) done (with_world w s)

      jumped-Bounded :
          (r : StepResult h.floats.Float) (counts : List (Bytes × ℕ))
          (done : List (StepResult h.floats.Float)) (s : Run h.floats.Float World) (j : Option ℕ)
          → Bounded (length done + n) (jumped h out e run wf next step r counts done s j)
      jumped-Bounded r counts done s none = finished-Bounded n (some _) done s
      jumped-Bounded r counts done s (some j) = adds j counts done s

      not_succeeded-Bounded :
          (r : StepResult h.floats.Float) (idx : ℕ) (counts : List (Bytes × ℕ))
          (done : List (StepResult h.floats.Float))
          (a : Result EngineError StepActionResult × Run h.floats.Float World)
          → Bounded (length done + n) (not_succeeded h out e run wf next step r idx counts done a)
      not_succeeded-Bounded r idx counts done (err x, s) = finished-Bounded n (some x) done s
      not_succeeded-Bounded r idx counts done (ok t, s) = elim (Bool-cases t.retry_current) [
        | inl q ↦ rw q (slept-Bounded idx _ done s _)
        | inr q ↦ elim (Bool-cases t.end_workflow) [
          | inl k ↦ rw (q, k) (finished-Bounded n (some _) done s)
          | inr k ↦ rw (q, k) (jumped-Bounded r counts done s t.jump_to_step_idx)
        ]
      ]

      one_more :
          (done : List (StepResult h.floats.Float)) (r : StepResult h.floats.Float)
          → length done + suc n ≡ length (done ++ (r ∷ [])) + n
      one_more done r = let q = length-append done (r ∷ []) in omega arith

      abbrev retried : StepResult h.floats.Float → List (Bytes × ℕ) → StepResult h.floats.Float
      retried r counts = record r { retries = retry_count step.step_id counts }

      stepped-Bounded :
          (idx : ℕ) (counts : List (Bytes × ℕ)) (done : List (StepResult h.floats.Float))
          (r : StepResult h.floats.Float × Run h.floats.Float World)
          → Bounded (length done + suc n) (stepped h out e run wf next step idx counts done r)
      unfolding process_success_actions process_failure_actions
      stepped-Bounded idx counts done (r, s) =
          if_lem (Bounded (length done + suc n)) r.success
            (rw (one_more done (retried r counts)) (
              succeeded-Bounded idx _ (done ++ (retried r counts ∷ []))
                (process_success_actions h out e run wf step s)))
            (unless_escaping_lem (Bounded (length done + suc n)) r.error
              (λ y p k. finished-Bounded (suc n) (some y) done s)
              (λ p. rw (one_more done (retried r counts)) (
                not_succeeded-Bounded r idx counts (done ++ (retried r counts ∷ []))
                  (process_failure_actions h out e run wf step _ s))))

      take_step-Adds : Adds (suc n) (take_step h out e run wf next step)
      unfolding take_step
      take_step-Adds idx counts done s =
          stepped-Bounded idx counts done (execute_step h out e run step s)

    module _ (n : ℕ) (go : Step h.floats.Float → Round h.floats.Float World)
        (adds : (step : Step h.floats.Float) → Adds n (go step)) where
      checked-Bounded :
          (step : Step h.floats.Float) (idx : ℕ) (counts : List (Bytes × ℕ))
          (done : List (StepResult h.floats.Float)) (s : Run h.floats.Float World)
          (x : Option Bytes × World)
          → Bounded (length done + n) (checked h out e run wf go step idx counts done s x)
      checked-Bounded step idx counts done s (some m, w) =
          finished-Bounded n (some (external m)) done (with_world w s)
      checked-Bounded step idx counts done s (none, w) = adds step idx counts done (with_world w s)

      guarded_by-Adds :
          (step : Option (Step h.floats.Float)) → Adds n (guarded_by h out e run wf go step)
      guarded_by-Adds none idx counts done s = finished-Bounded n none done s
      guarded_by-Adds (some step) idx counts done s =
          checked-Bounded step idx counts done s (ctx_err s.shared.world)

    -- The loop appends at most as many results as it has transitions left; and it ends with an error
    -- exactly where it ends without success.
    pub run_steps-Adds : (n : ℕ) → Adds n (run_steps h out e run wf n)
    unfolding run_steps
    run_steps-Adds zero idx counts done s =
        guarded_by-Adds zero (too_many h out e run wf)
          (λ step i c t u. finished-Bounded zero (some _) t u) (get_elem? wf.steps idx) idx counts
          done s
    run_steps-Adds (suc n) idx counts done s =
        guarded_by-Adds (suc n) (take_step h out e run wf (run_steps h out e run wf n))
          (take_step-Adds n (run_steps h out e run wf n) (run_steps-Adds n))
          (get_elem? wf.steps idx) idx counts done s
