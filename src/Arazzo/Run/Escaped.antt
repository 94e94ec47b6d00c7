-- ===== src/Arazzo/Run/Escaped.antt =====
-- arazzo/engine.go: `newExpressionContext` passes on no error but a panic.
use libopenapi.Prelude.{
  List, [], ◌∷◌, Option, none, some, Bytes, true, ◌≡◌, arith, inl, inr, Bool-cases,
}
use libopenapi.Prelude.Outcome.{Result-cases}
use libopenapi.Yaml.{Node}
use libopenapi.Arazzo.Value.{Entries, end, put, yaml}
use libopenapi.Arazzo.Evaluator.{Context, ComponentsContext}
use libopenapi.Arazzo.Criterion.{Host, Caches}
use libopenapi.Arazzo.Engine.{EngineError, escapes}
use libopenapi.Arazzo.Engine.References.{Components}
use libopenapi.Arazzo.Engine.Values.{resolve_yaml_node_value}
use libopenapi.Arazzo.Engine.Transitions.{Shared}
use libopenapi.Arazzo.Run.{Outside, Engine}
use libopenapi.Arazzo.Run.Contexts.{component_inputs, given_inputs, inputs_of, with_components}

module _ (h : Host) (out : Outside h.floats.Float) (e : Engine h.floats.Float) where
  open out use {World}

  component_inputs-escapes :
      (ctx : Context h.floats.Float) (inputs : List (Bytes × Node)) (m : Entries h.floats.Float)
      (c : Caches) (y : EngineError)
      → (component_inputs h out e ctx inputs m c).0 ≡ some y
      → escapes y ≡ true
  unfolding component_inputs
  component_inputs-escapes ctx [] m c y = λ p. ground arith
  component_inputs-escapes ctx ((name, input) ∷ rest) m c y =
      let r = resolve_yaml_node_value h ctx input c in
      elim (Result-cases r.0) [
        | inl (v, q) ↦
            rw (component_inputs, q) (component_inputs-escapes ctx rest (put name v m) r.1 y)
        | inr (x, q) ↦ elim (Bool-cases (escapes x)) [
          | inl k ↦ rw (component_inputs, q, k) (λ p. ground arith)
          | inr k ↦
              rw (component_inputs, q, k)
                (component_inputs-escapes ctx rest (put name (yaml input) m) r.1 y)
        ]
      ]

  given_inputs-escapes :
      (ctx : Context h.floats.Float) (inputs : Option (List (Bytes × Node))) (c : Caches)
      (y : EngineError)
      → (given_inputs h out e ctx inputs c).0 ≡ some y
      → escapes y ≡ true
  given_inputs-escapes ctx none c y p = ground arith
  given_inputs-escapes ctx (some inputs) c y p = component_inputs-escapes ctx inputs end c y p

  inputs_of-escapes :
      (ctx : Context h.floats.Float) (components : Option (Components h.floats.Float)) (c : Caches)
      (y : EngineError)
      → (inputs_of h out e ctx components c).0 ≡ some y
      → escapes y ≡ true
  inputs_of-escapes ctx none c y p = ground arith
  inputs_of-escapes ctx (some components) c y p = given_inputs-escapes ctx components.inputs c y p

  pub with_components-escapes :
      (ctx : Context h.floats.Float) (s : Shared h.floats.Float World)
      (c : Option (ComponentsContext h.floats.Float)) (y : EngineError)
      → (with_components h out e ctx s c).0 ≡ some y
      → escapes y ≡ true
  with_components-escapes ctx s none y p = ground arith
  with_components-escapes ctx s (some cached) y p =
      inputs_of-escapes ctx e.document.components s.caches y p
