-- ===== src/Arazzo/Validation/Resolved.antt =====
-- arazzo/validation.go, arazzo/actions.go and arazzo/step.go: a reference and a target that the
-- checks let pass are found by the engine.
use libopenapi.Prelude.{
  ℕ, suc, Bool, true, false, ◌||◌, List, [], ◌∷◌, ◌++◌, Option, none, some, Bytes, codes, eqb,
  member, has_prefix-append, drop-append, if◌then◌else◌, ◌≡◌, ◌≢◌, refl, sym, ap, ◌∙◌, arith, inl,
  inr, Bool-cases, Option-cases,
}
use mathlib.Core.Path.{subst}
use libopenapi.Prelude.Outcome.{Result, ok, err, ◌>>=◌}
use libopenapi.Prelude.Number.{ℤ}
use libopenapi.Prelude.Dict.{lookup, insert, lookup-insert}
use libopenapi.Arazzo.Value.{Floats}
use libopenapi.Arazzo.Engine.{
  unresolved_component, Parameter, SuccessAction, FailureAction, is_reusable,
}
use libopenapi.Arazzo.Engine.References.{
  Components, lookup_component, resolve_parameter, resolve_success_action, resolve_failure_action,
}
use libopenapi.Arazzo.Engine.Document.{Step}
use libopenapi.Arazzo.Engine.Graph.{is_some}
use libopenapi.Arazzo.Engine.Transitions.{step_result}
use libopenapi.Arazzo.Run.Loop.{step_index_by_id}
use libopenapi.Arazzo.Validation.Names.{named, see, keys, id_set}
use libopenapi.Arazzo.Validation.Fields.{
  parameters_type, success_actions_type, failure_actions_type, has_entry, expected_prefix,
}
use libopenapi.Arazzo.Validation.Rules.{RefersTo, IsParameter}

abbrev pub IsOk : {E A : Type 0} → Result E A → Type 0
IsOk (ok a) = Unit
IsOk (err e) = ⊥

abbrev is_some_index : Option ℕ → Bool
is_some_index none = false
is_some_index (some n) = true

-- A name that a map has is found in it.
lookup_component-IsOk :
    {A : Type 0} (prefix name : Bytes) (o : Option (List (Bytes × A)))
    → has_entry name o ≡ true
    → IsOk (lookup_component (prefix ++ name) prefix o)
unfolding lookup_component has_entry
lookup_component-IsOk prefix name none h = ground arith
lookup_component-IsOk prefix name (some m) h = elim (Option-cases (lookup name m)) [
  | inl e ↦ let q = sym (ap is_some e) in ground arith
  | inr (a, e) ↦ rw (has_prefix-append prefix name, drop-append prefix name, e) tt
]

bind-IsOk : {E A B : Type 0} (r : Result E A) (f : A → B) → IsOk r → IsOk (r >>= λ a. ok (f a))
bind-IsOk (ok a) f h = tt
bind-IsOk (err e) f h = h

put_first :
    (sid id : Bytes) (rest : List Bytes) (i : ℕ) (o : Option ℕ)
    → (is_some_index o || member id (see (named sid) rest)) ≡ true
    → (is_some_index (if eqb sid id then some i else o) || member id rest) ≡ true
unfolding member
put_first sid id rest i o h = elim (Bool-cases (eqb sid id)) [
  | inl e ↦ rw e refl
  | inr e ↦ rw e (other sid h e)
]
  where
    other :
        (sid : Bytes)
        → (is_some_index o || member id (see (named sid) rest)) ≡ true
        → eqb sid id ≡ false
        → (is_some_index o || member id rest) ≡ true
    other [] h e = h
    other (c ∷ s) h e = ground arith

module _ {F : Type 0} where
  pub resolve_parameter-IsOk :
      (components : Option (Components F)) (p : Option Parameter)
      → IsParameter components p
      → IsOk (resolve_parameter components p)
  unfolding resolve_parameter
  resolve_parameter-IsOk components none h = absurd h
  resolve_parameter-IsOk components (some p) (r, f) = elim (Bool-cases (is_reusable p.reference)) [
    | inl e ↦ rw (resolve_parameter, e) (bind-IsOk _ _ (by components (r e)))
    | inr e ↦ rw (resolve_parameter, e) tt
  ]
    where
      by :
          (o : Option (Components F))
          → RefersTo o parameters_type p.reference
          → IsOk (
              lookup_component p.reference
                (codes "$components.parameters.")
                (elim o [ none ↦ none | some c ↦ c.parameters ]))
      by none h = absurd h
      by (some c) (name, (e, (n, h))) =
          subst (λ s. IsOk (lookup_component s (expected_prefix parameters_type) c.parameters))
            (sym e) (lookup_component-IsOk (expected_prefix parameters_type) name c.parameters h)

  pub resolve_success_action-IsOk :
      (components : Option (Components F)) (a : SuccessAction)
      → (is_reusable a.reference ≡ true → RefersTo components success_actions_type a.reference)
      → IsOk (resolve_success_action components a)
  unfolding resolve_success_action
  resolve_success_action-IsOk components a r = elim (Bool-cases (is_reusable a.reference)) [
    | inl e ↦ rw (resolve_success_action, e) (by components (r e))
    | inr e ↦ rw (resolve_success_action, e) tt
  ]
    where
      by :
          (o : Option (Components F))
          → RefersTo o success_actions_type a.reference
          → IsOk (elim o [
            | none ↦ err (unresolved_component a.reference)
            | some c ↦
                lookup_component a.reference (codes "$components.successActions.") c.success_actions
          ])
      by none h = absurd h
      by (some c) (name, (e, (n, h))) =
          subst
            (λ s.
              IsOk (lookup_component s (expected_prefix success_actions_type) c.success_actions))
            (sym e)
            (lookup_component-IsOk (expected_prefix success_actions_type) name c.success_actions h)

  pub resolve_failure_action-IsOk :
      (components : Option (Components F)) (a : FailureAction F)
      → (is_reusable a.reference ≡ true → RefersTo components failure_actions_type a.reference)
      → IsOk (resolve_failure_action components a)
  unfolding resolve_failure_action
  resolve_failure_action-IsOk components a r = elim (Bool-cases (is_reusable a.reference)) [
    | inl e ↦ rw (resolve_failure_action, e) (by components (r e))
    | inr e ↦ rw (resolve_failure_action, e) tt
  ]
    where
      by :
          (o : Option (Components F))
          → RefersTo o failure_actions_type a.reference
          → IsOk (elim o [
            | none ↦ err (unresolved_component a.reference)
            | some c ↦
                lookup_component a.reference (codes "$components.failureActions.") c.failure_actions
          ])
      by none h = absurd h
      by (some c) (name, (e, (n, h))) =
          subst
            (λ s.
              IsOk (lookup_component s (expected_prefix failure_actions_type) c.failure_actions))
            (sym e)
            (lookup_component-IsOk (expected_prefix failure_actions_type) name c.failure_actions h)

  -- A step that is listed has an index.
  indexed :
      (i : ℕ) (steps : List (Step F)) (m : List (Bytes × ℕ)) (id : Bytes)
      → (is_some_index (lookup id m) || member id (id_set (λ s. s.step_id) steps)) ≡ true
      → is_some_index (lookup id (step_index_by_id i steps m)) ≡ true
  unfolding step_index_by_id keys member
  indexed i [] m id h = ground arith
  indexed i (s ∷ steps) m id h = indexed (suc i) steps (insert s.step_id i m) id (
      ap (λ o. is_some_index o || member id (id_set (λ s. s.step_id) steps))
        (lookup-insert s.step_id id i m)
      ∙ put_first s.step_id id (id_set (λ s. s.step_id) steps) i (lookup id m) h)

  pub step_result-IsOk :
      (floats : Floats) (nanoseconds : floats.Float → ℤ) (steps : List (Step F)) (id : Bytes)
      → (id ≢ [] → member id (id_set (λ s. s.step_id) steps) ≡ true)
      → IsOk (step_result floats nanoseconds id (step_index_by_id 0 steps []))
  unfolding step_result lookup
  step_result-IsOk floats nanoseconds steps [] h = tt
  step_result-IsOk floats nanoseconds steps (c ∷ s) h =
      elim (Option-cases (lookup (c ∷ s) (step_index_by_id 0 steps []))) [
        | inl e ↦
            let q = sym (indexed 0 steps [] (c ∷ s) (h (λ e. ground arith))) ∙ ap is_some_index e in
            ground arith
        | inr (n, e) ↦ rw e tt
      ]
