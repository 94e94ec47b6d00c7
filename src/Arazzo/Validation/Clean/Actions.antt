-- ===== src/Arazzo/Validation/Clean/Actions.antt =====
-- arazzo/validation.go: the checks of actions find no error exactly where the rules hold.
use libopenapi.Prelude.{
  Bool, true, false, not, ◌&&◌, List, [], ◌∷◌, Option, none, some, Bytes, codes, member, eqb,
  eqb_iff, is_empty, if◌then◌else◌, ◌≡◌, ◌≢◌, ◌↔◌, ◌⊎◌, inl, inr, refl, sym, ◌∙◌, arith,
}
use libopenapi.Arazzo.Engine.{is_reusable}
use libopenapi.Arazzo.Engine.References.{Components}
use libopenapi.Arazzo.Validation.{error_if}
use libopenapi.Arazzo.Validation.Names.{at_index}
use libopenapi.Arazzo.Validation.Clean.{
  Tests, both, unless, renamed, non_empty, optional, chosen, refuses, nothing, each_seen-Tests,
  one_of_two, one_of_three,
}
use libopenapi.Prelude.Number.{ℤ, pos, negsuc}
use libopenapi.Arazzo.Value.{Floats}
use libopenapi.Arazzo.Engine.{SuccessAction, FailureAction}
use libopenapi.Arazzo.Validation.Names.{named}
use libopenapi.Arazzo.Validation.{negative_retry_after, negative_retry_limit}
use libopenapi.Arazzo.Validation.Fields.{success_actions_type, failure_actions_type}
use libopenapi.Arazzo.Validation.Actions.{
  action_key, validate_action_common, validate_success_action, validate_failure_action, is_negative,
  check_retry_limit, validate_success_actions, validate_failure_actions,
}
use libopenapi.Arazzo.Validation.Clean.Fields.{validate_component_reference-Tests}
use libopenapi.Arazzo.Validation.Rules.{
  HasTarget, IsSuccessAction, IsFailureAction, IsNotNegative, HasLimit, AreSuccessActions,
  AreFailureActions,
}

-- Not both of two texts, and not neither of them.
not_both : (s t : Bytes) → ((not (is_empty s) && not (is_empty t)) ≡ false) ↔ ((s ≡ []) ⊎ (t ≡ []))
not_both [] t = (λ e. inl refl, λ h. refl)
not_both (c ∷ s) [] = (λ e. inr refl, λ h. refl)
not_both (c ∷ s) (d ∷ t) =
    (λ e. ground arith, λ h. elim h [ inl q ↦ ground arith | inr q ↦ ground arith ])

not_neither :
    (b : Bool) (s t : Bytes) {P : Type 0}
    → ((b ≡ true) ↔ P)
    → ((b && is_empty s && is_empty t) ≡ false) ↔ (P → (s ≢ []) ⊎ (t ≢ []))
not_neither true [] [] f = (
  λ e. ground arith,
  λ h. elim (h (f.0 refl)) [ inl q ↦ absurd (q refl) | inr q ↦ absurd (q refl) ],
)
not_neither true [] (d ∷ t) f = (λ e p. inr (λ q. ground arith), λ h. refl)
not_neither true (c ∷ s) t f = (λ e p. inl (λ q. ground arith), λ h. refl)
not_neither false s t f = (λ e p. let q = f.1 p in ground arith, λ h. refl)

not_nil : {t u : Bytes} → t ≡ u → u ≢ [] → t ≢ []
not_nil p h q = h (sym p ∙ q)

success_type_not_nil : {t : Bytes} → (t ≡ codes "end" ⊎ t ≡ codes "goto") → t ≢ []
success_type_not_nil (inl q) = not_nil q (λ x. ground arith)
success_type_not_nil (inr q) = not_nil q (λ x. ground arith)

failure_type_not_nil :
    {t : Bytes} → (t ≡ codes "end" ⊎ (t ≡ codes "retry" ⊎ t ≡ codes "goto")) → t ≢ []
failure_type_not_nil (inl q) = not_nil q (λ x. ground arith)
failure_type_not_nil (inr (inl q)) = not_nil q (λ x. ground arith)
failure_type_not_nil (inr (inr q)) = not_nil q (λ x. ground arith)

-- An action's name is its key, where it has one.
if_named :
    (name : Bytes) (reused seen : Bool)
    → (reused ≡ false → name ≢ [] → seen ≡ false)
      ↔ ((if reused then none else named name) ≢ none → seen ≡ false)
if_named name true seen = (λ h q. absurd (q refl), λ h e. ground arith)
if_named [] false seen = (λ h q. absurd (q refl), λ h e q. absurd (q refl))
if_named (c ∷ s) false seen = (λ h q. h refl (λ e. ground arith), λ h e q. h (λ r. ground arith))

module _ (step_ids workflow_ids : List Bytes) where
  validate_action_common-Tests :
      (name type workflow_id step_id path : Bytes) (seen : Bool)
      → Tests
          (validate_action_common step_ids workflow_ids name type workflow_id step_id path seen)
          ((name ≢ [])
            × ((type ≢ [])
                × (HasTarget step_ids workflow_ids type workflow_id step_id × (seen ≡ false))))
  unfolding validate_action_common
  validate_action_common-Tests name type workflow_id step_id path seen =
      renamed
        (
          λ (n, (t, (a, (b, (c, (d, s)))))). (n, (t, ((a, (b, (c, d))), s))),
          λ (n, (t, ((a, (b, (c, d))), s))). (n, (t, (a, (b, (c, (d, s)))))),
        )
        (both (unless (is_empty name) _ _ (non_empty name)) (
          both (unless (is_empty type) _ _ (non_empty type)) (
            both
              (unless (not (is_empty workflow_id) && not (is_empty step_id)) _ _
                (not_both workflow_id step_id))
              (both
                (unless (eqb type (codes "goto") && is_empty workflow_id && is_empty step_id) _ _ (
                  not_neither (eqb type (codes "goto")) workflow_id step_id
                    (eqb_iff type (codes "goto"))))
                (both
                  (unless (not (is_empty workflow_id) && not (member workflow_id workflow_ids)) _ _
                    (optional workflow_id (member workflow_id workflow_ids)))
                  (both
                    (unless (not (is_empty step_id) && not (member step_id step_ids)) _ _
                      (optional step_id (member step_id step_ids)))
                    (unless seen _ _ (λ e. e, λ e. e))))))))

  module _ (floats : Floats) (components : Option (Components floats.Float)) where
    validate_success_action-Tests :
        (path : Bytes) (a : SuccessAction) (seen : Bool)
        → Tests (validate_success_action step_ids workflow_ids floats components path a seen) (
            IsSuccessAction step_ids workflow_ids floats components a
            × (action_key a.reference a.name ≢ none → seen ≡ false))
    unfolding validate_success_action
    validate_success_action-Tests path a seen =
        let (to, from) = if_named a.name (is_reusable a.reference) seen in
        renamed
          (
            λ (r, f). (
              (r, λ e. let (t, (n, (u, (g, d)))) = f e in (t u, (n, g))),
              to (λ e n. (f e).1.1.1.1),
            ),
            λ ((r, f), d). (
              r,
              λ e.
                  let (t, (n, g)) = f e in (λ u. t, (n, (success_type_not_nil t, (g, from d e n)))),
            ),
          )
          (chosen (is_reusable a.reference)
            (validate_component_reference-Tests components a.reference _ success_actions_type)
            (both
              (unless _ _ _ (
                one_of_two (is_empty a.type) (eqb a.type (codes "end")) (eqb a.type (codes "goto"))
                  (non_empty a.type) (eqb_iff a.type (codes "end"))
                  (eqb_iff a.type (codes "goto"))))
              (validate_action_common-Tests a.name a.type a.workflow_id a.step_id path seen)))

    retry_after-Tests :
        (path : Bytes) (o : Option floats.Float)
        → Tests
            (error_if
              (is_negative step_ids workflow_ids floats components o)
              path
              negative_retry_after)
            (IsNotNegative step_ids workflow_ids floats components o)
    retry_after-Tests path none = nothing
    retry_after-Tests path (some x) =
        unless (floats.float_lt x (floats.of_int (pos 0))) path _ (λ e. e, λ e. e)

    retry_limit-Tests :
        (path : Bytes) (o : Option ℤ)
        → Tests
            (check_retry_limit step_ids workflow_ids floats components path o)
            (HasLimit step_ids workflow_ids floats components o)
    retry_limit-Tests path none = nothing
    retry_limit-Tests path (some (pos n)) = renamed (λ h. (n, refl), λ h. tt) nothing
    retry_limit-Tests path (some (negsuc n)) =
        renamed (λ h. absurd h, λ (k, e). ground arith)
          (refuses path (negative_retry_limit (negsuc n)))

    validate_failure_action-Tests :
        (path : Bytes) (a : FailureAction floats.Float) (seen : Bool)
        → Tests (validate_failure_action step_ids workflow_ids floats components path a seen) (
            IsFailureAction step_ids workflow_ids floats components a
            × (action_key a.reference a.name ≢ none → seen ≡ false))
    unfolding validate_failure_action
    validate_failure_action-Tests path a seen =
        let (to, from) = if_named a.name (is_reusable a.reference) seen in
        renamed
          (
            λ (r, f). (
              (r, λ e. let (t, ((n, (u, (g, d))), (ra, rl))) = f e in (t u, (n, (g, (ra, rl))))),
              to (λ e n. (f e).1.0.1.1.1),
            ),
            λ ((r, f), d). (
              r,
              λ e.
                  let (t, (n, (g, (ra, rl)))) = f e in
                  (λ u. t, ((n, (failure_type_not_nil t, (g, from d e n))), (ra, rl))),
            ),
          )
          (chosen (is_reusable a.reference)
            (validate_component_reference-Tests components a.reference _ failure_actions_type)
            (both
              (unless _ _ _ (
                one_of_three (is_empty a.type) (eqb a.type (codes "end"))
                  (eqb a.type (codes "retry")) (eqb a.type (codes "goto")) (non_empty a.type)
                  (eqb_iff a.type (codes "end")) (eqb_iff a.type (codes "retry"))
                  (eqb_iff a.type (codes "goto"))))
              (both (validate_action_common-Tests a.name a.type a.workflow_id a.step_id path seen)
                (both (retry_after-Tests _ a.retry_after) (retry_limit-Tests _ a.retry_limit)))))

    pub validate_success_actions-Tests :
        (path : Bytes) (xs : List SuccessAction)
        → Tests
            (validate_success_actions step_ids workflow_ids floats components path xs)
            (AreSuccessActions step_ids workflow_ids floats components xs)
    unfolding validate_success_actions
    validate_success_actions-Tests path =
        each_seen-Tests (λ a. action_key a.reference a.name) _ _
          (λ i a seen. validate_success_action-Tests (at_index path i) a seen)

    pub validate_failure_actions-Tests :
        (path : Bytes) (xs : List (FailureAction floats.Float))
        → Tests
            (validate_failure_actions step_ids workflow_ids floats components path xs)
            (AreFailureActions step_ids workflow_ids floats components xs)
    unfolding validate_failure_actions
    validate_failure_actions-Tests path =
        each_seen-Tests (λ a. action_key a.reference a.name) _ _
          (λ i a seen. validate_failure_action-Tests (at_index path i) a seen)
