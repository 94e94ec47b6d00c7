-- ===== src/Arazzo/Engine/Actions.antt =====
-- arazzo/actions.go: the choice of a success or a failure action, and of what a retry does. The
-- slices of actions hold no nil pointers, which the program dereferences.
use libopenapi.Prelude.{ℕ, suc, Bool, true, false, List, [], ◌∷◌, Option, none, some, if◌then◌else◌}
use libopenapi.Prelude.Outcome.{Result, ok, err}
use libopenapi.Arazzo.Evaluator.{Context}
use libopenapi.Arazzo.Criterion.{Host, Criterion, Caches, CriterionError, criterion_panics}
use libopenapi.Arazzo.Criterion.Evaluate.{evaluate_criterion_impl}
use libopenapi.Arazzo.Engine.{
  EngineError, in_action_criteria, panicked, Stateful, pure, ◌>>=◌, SuccessAction, FailureAction,
}
use libopenapi.Arazzo.Engine.References.{Components, resolve_success_action, resolve_failure_action}

-- The caches after an evaluation that was given some.
abbrev pub caches_or : Caches → Option Caches → Caches
caches_or c none = c
caches_or c (some d) = d

module _ (h : Host) (ctx : Context h.floats.Float) where
  -- A criterion in an engine. `wrap` wraps its error, if that is no panic.
  unfoldable pub check_criterion : (CriterionError → EngineError) → Criterion → Stateful Bool
  unfolding evaluate_criterion_impl
  check_criterion wrap criterion c =
      let (r, d) = evaluate_criterion_impl h ctx criterion (some c) in
      (
        elim r [ ok b ↦ ok b | err e ↦ err (if criterion_panics e then panicked else wrap e) ],
        caches_or c d,
      )

  -- The loop over the criteria, from index `i`.
  unfoldable pub criteria_from : ℕ → List Criterion → Stateful Bool
  unfolding check_criterion
  criteria_from i [] = pure (ok true)
  criteria_from i (criterion ∷ rest) =
      check_criterion (in_action_criteria i) criterion
      >>= elim [ false ↦ pure (ok false) | true ↦ criteria_from (suc i) rest ]

  unfoldable pub evaluate_action_criteria : List Criterion → Stateful Bool
  unfolding criteria_from
  evaluate_action_criteria criteria = criteria_from 0 criteria

abbrev pub matched : {A : Type 0} → A → Stateful (Option A) → Bool → Stateful (Option A)
matched a rest true = pure (ok (some a))
matched a rest false = rest

-- The first action whose criteria all pass. `none` is the zero value.
unfoldable pub find_matching_action :
    {A : Type 0}
    → (A → Result EngineError A)
    → (A → List Criterion)
    → (List Criterion → Stateful Bool)
    → List A
    → Stateful (Option A)
find_matching_action resolve criteria eval [] = pure (ok none)
find_matching_action resolve criteria eval (action ∷ actions) =
    pure (resolve action) >>= λ resolved.
    eval (criteria resolved)
    >>= matched resolved (find_matching_action resolve criteria eval actions)

abbrev pub otherwise : {A : Type 0} → Stateful (Option A) → Option A → Stateful (Option A)
otherwise rest none = rest
otherwise rest (some a) = pure (ok (some a))

module _ (h : Host) (components : Option (Components h.floats.Float))
    (ctx : Context h.floats.Float) where
  unfoldable pub find_matching_success_action : List SuccessAction → Stateful (Option SuccessAction)
  find_matching_success_action =
      find_matching_action (resolve_success_action components) (λ a. a.criteria)
        (evaluate_action_criteria h ctx)

  unfoldable pub find_matching_failure_action :
      List (FailureAction h.floats.Float) → Stateful (Option (FailureAction h.floats.Float))
  find_matching_failure_action =
      find_matching_action (resolve_failure_action components) (λ a. a.criteria)
        (evaluate_action_criteria h ctx)

  -- The step's actions, then the workflow's.
  unfoldable pub select_success_action :
      List SuccessAction → List SuccessAction → Stateful (Option SuccessAction)
  unfolding find_matching_success_action
  select_success_action step_actions workflow_actions =
      find_matching_success_action step_actions
      >>= otherwise (find_matching_success_action workflow_actions)

  unfoldable pub select_failure_action :
      List (FailureAction h.floats.Float)
      → List (FailureAction h.floats.Float)
      → Stateful (Option (FailureAction h.floats.Float))
  unfolding find_matching_failure_action
  select_failure_action step_actions workflow_actions =
      find_matching_failure_action step_actions
      >>= otherwise (find_matching_failure_action workflow_actions)
