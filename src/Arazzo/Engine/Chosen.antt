-- ===== src/Arazzo/Engine/Chosen.antt =====
-- arazzo/actions.go: the choice among a step's and a workflow's actions as one search.
use libopenapi.Prelude.{Bool, true, false, List, [], ◌∷◌, ◌++◌, Option, ◌≡◌, refl, sym}
use libopenapi.Prelude.Outcome.{Result, ok, err}
use libopenapi.Arazzo.Evaluator.{Context}
use libopenapi.Arazzo.Criterion.{Host, Criterion, Caches}
use libopenapi.Arazzo.Engine.{
  EngineError, Stateful, pure, after, ◌>>=◌, SuccessAction, FailureAction,
}
use libopenapi.Arazzo.Engine.References.{Components}
use libopenapi.Arazzo.Engine.Actions.{
  matched, otherwise, find_matching_action, find_matching_success_action,
  find_matching_failure_action, select_success_action, select_failure_action,
}

-- A first step is the same on both sides.
bind-otherwise :
    {A B : Type 0} (m : Stateful B) (f g : B → Stateful (Option A)) (n : Stateful (Option A))
    (c : Caches)
    → ((b : B) (d : Caches) → f b d ≡ (g b >>= otherwise n) d)
    → (m >>= f) c ≡ ((m >>= g) >>= otherwise n) c
unfolding ◌>>=◌
bind-otherwise {A} {B} m f g n c k = go (m c)
  where
    go : (r : Result EngineError B × Caches) → after f r ≡ after (otherwise n) (after g r)
    go (ok b, d) = k b d
    go (err e, d) = refl

matched-otherwise :
    {A : Type 0} (a : A) (m n o : Stateful (Option A)) (b : Bool) (c : Caches)
    → m c ≡ (n >>= otherwise o) c
    → matched a m b c ≡ (matched a n b >>= otherwise o) c
unfolding ◌>>=◌
matched-otherwise a m n o true c e = refl
matched-otherwise a m n o false c e = e

module _ {A : Type 0} (resolve : A → Result EngineError A) (criteria : A → List Criterion)
    (eval : List Criterion → Stateful Bool) where
  pub find_matching_action-append :
      (xs ys : List A) (c : Caches)
      → find_matching_action resolve criteria eval (xs ++ ys) c
        ≡ (find_matching_action resolve criteria eval xs
              >>= otherwise (find_matching_action resolve criteria eval ys))
            c
  unfolding find_matching_action ◌>>=◌
  find_matching_action-append [] ys c = refl
  find_matching_action-append (x ∷ xs) ys c =
      bind-otherwise (pure (resolve x))
        (λ resolved.
          eval (criteria resolved)
          >>= matched resolved (find_matching_action resolve criteria eval (xs ++ ys)))
        (λ resolved.
          eval (criteria resolved)
          >>= matched resolved (find_matching_action resolve criteria eval xs))
        _ c
        λ resolved d.
          bind-otherwise (eval (criteria resolved)) _
            (matched resolved (find_matching_action resolve criteria eval xs)) _ d
            λ b e.
              matched-otherwise resolved _ (find_matching_action resolve criteria eval xs) _ b e
                (find_matching_action-append xs ys e)

module _ (h : Host) (components : Option (Components h.floats.Float)) (ctx : Context h.floats.Float)
    (c : Caches) where
  -- The choice of a success action is one search through the step's actions and then the
  -- workflow's: a workflow's action is chosen only where no action of the step matches, an error
  -- in the step's part stops it, and the caches go through both parts.
  pub select_success_action-append :
      (step_actions workflow_actions : List SuccessAction)
      → select_success_action h components ctx step_actions workflow_actions c
        ≡ find_matching_success_action h components ctx (step_actions ++ workflow_actions) c
  unfolding select_success_action find_matching_success_action
  select_success_action-append step_actions workflow_actions =
      sym (find_matching_action-append _ _ _ step_actions workflow_actions c)

  -- The same of a failure action.
  pub select_failure_action-append :
      (step_actions workflow_actions : List (FailureAction h.floats.Float))
      → select_failure_action h components ctx step_actions workflow_actions c
        ≡ find_matching_failure_action h components ctx (step_actions ++ workflow_actions) c
  unfolding select_failure_action find_matching_failure_action
  select_failure_action-append step_actions workflow_actions =
      sym (find_matching_action-append _ _ _ step_actions workflow_actions c)
