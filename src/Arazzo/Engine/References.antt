-- ===== src/Arazzo/Engine/References.antt =====
-- arazzo/actions.go and arazzo/step.go: references to the document's components, and the source
-- of a step. The components are those of the engine's document.
use libopenapi.Prelude.{
  List, [], Option, none, some, Bytes, codes, has_prefix, drop, length, if◌then◌else◌,
}
use libopenapi.Prelude.Outcome.{Result, ok, err, ◌>>=◌}
use libopenapi.Prelude.Dict.{lookup}
use libopenapi.Yaml.{Node, absent, node}
use libopenapi.Arazzo.Engine.{
  EngineError, unresolved_component, nil_parameter, Parameter, SuccessAction, FailureAction,
  is_reusable,
}

-- datamodel/high/arazzo/components.go, the maps that the engine looks names up in. Each may be nil.
pub record Components (F : Type 0) : Type 0 where
  pub parameters : Option (List (Bytes × Parameter))
  pub success_actions : Option (List (Bytes × SuccessAction))
  pub failure_actions : Option (List (Bytes × FailureAction F))
  pub inputs : Option (List (Bytes × Node))

abbrev found_or : {A : Type 0} → EngineError → Option A → Result EngineError A
found_or e none = err e
found_or e (some a) = ok a

abbrev lookup_in : {A : Type 0} → Bytes → Bytes → Option (List (Bytes × A)) → Result EngineError A
lookup_in reference name none = err (unresolved_component reference)
lookup_in reference name (some m) = found_or (unresolved_component reference) (lookup name m)

unfoldable pub lookup_component :
    {A : Type 0} → Bytes → Bytes → Option (List (Bytes × A)) → Result EngineError A
unfolding has_prefix lookup
lookup_component reference prefix components =
    if has_prefix reference prefix
    then lookup_in reference (drop (length prefix) reference) components
    else err (unresolved_component reference)

-- What a reusable object's own value replaces.
abbrev override : Node → Parameter → Parameter
override absent p = record p { reference = [] }
override (node k t v c) p = record p { value = node k t v c; reference = [] }

module _ {F : Type 0} (components : Option (Components F)) where
  -- A nil parameter is an error.
  unfoldable pub resolve_parameter : Option Parameter → Result EngineError Parameter
  unfolding lookup_component
  resolve_parameter none = err nil_parameter
  resolve_parameter (some p) =
      if is_reusable p.reference
      then (lookup_component p.reference (codes "$components.parameters.")
            (elim components [ none ↦ none | some c ↦ c.parameters ])
          >>= λ found. ok (override p.value found))
      else ok p

  unfoldable pub resolve_success_action : SuccessAction → Result EngineError SuccessAction
  unfolding lookup_component
  resolve_success_action action =
      if is_reusable action.reference
      then (elim components [
        | none ↦ err (unresolved_component action.reference)
        | some c ↦
            lookup_component action.reference (codes "$components.successActions.")
              c.success_actions
      ])
      else ok action

  unfoldable pub resolve_failure_action : FailureAction F → Result EngineError (FailureAction F)
  unfolding lookup_component
  resolve_failure_action action =
      if is_reusable action.reference
      then (elim components [
        | none ↦ err (unresolved_component action.reference)
        | some c ↦
            lookup_component action.reference (codes "$components.failureActions.")
              c.failure_actions
      ])
      else ok action
