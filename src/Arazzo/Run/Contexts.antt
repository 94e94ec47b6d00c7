-- ===== src/Arazzo/Run/Contexts.antt =====
-- arazzo/engine.go: `newExpressionContext`.
use libopenapi.Prelude.{List, [], ◌∷◌, Option, none, some, Bytes}
use libopenapi.Prelude.Outcome.{ok, err}
use libopenapi.Prelude.Number.{pos}
use libopenapi.Yaml.{Node}
use libopenapi.Arazzo.Value.{yaml, Entries, end, put, Dict, no_dict, dict}
use libopenapi.Arazzo.Evaluator.{Context, ComponentsContext}
use libopenapi.Arazzo.Criterion.{Host, Caches}
use libopenapi.Arazzo.Engine.{EngineError, escaping}
use libopenapi.Arazzo.Engine.References.{Components}
use libopenapi.Arazzo.Engine.Values.{resolve_yaml_node_value}
use libopenapi.Arazzo.Engine.Transitions.{ExecutionState, Shared, Run}
use libopenapi.Arazzo.Run.{ResolvedSource, Outside, Engine}

abbrev pub source_urls : List (Bytes × ResolvedSource) → List (Bytes × Bytes)
source_urls [] = []
source_urls ((name, s) ∷ m) = (name, s.url) ∷ source_urls m

module _ (h : Host) (out : Outside h.floats.Float) (e : Engine h.floats.Float) where
  open out use {World}

  -- The component inputs: what does not resolve stays as it is. The error is a panic.
  unfoldable pub component_inputs :
      Context h.floats.Float
      → List (Bytes × Node)
      → Entries h.floats.Float
      → Caches
      → Option EngineError × Entries h.floats.Float × Caches
  unfolding put
  component_inputs ctx [] m c = (none, m, c)
  component_inputs ctx ((name, input) ∷ rest) m c =
      let (r, d) = resolve_yaml_node_value h ctx input c in
      elim r [
        | ok v ↦ component_inputs ctx rest (put name v m) d
        | err x ↦ elim (escaping (some x)) [
          | some y ↦ (some y, m, d)
          | none ↦ component_inputs ctx rest (put name (yaml input) m) d
        ]
      ]

  abbrev pub blank_context :
      Dict h.floats.Float → ExecutionState h.floats.Float → Context h.floats.Float
  blank_context inputs x = record {
    url = [];
    method = [];
    status_code = pos 0;
    request_headers = none;
    request_query = none;
    request_path = none;
    request_body = none;
    response_headers = none;
    response_body = none;
    inputs = inputs;
    outputs = dict end;
    steps = some [];
    workflows = some x.workflow_contexts;
    source_descs = some (source_urls e.sources);
    components = none;
  }

  abbrev pub given_inputs :
      Context h.floats.Float
      → Option (List (Bytes × Node))
      → Caches
      → Option EngineError × Dict h.floats.Float × Caches
  given_inputs ctx none c = (none, no_dict, c)
  given_inputs ctx (some inputs) c =
      let (x, m, d) = component_inputs ctx inputs end c in (x, dict m, d)

  abbrev pub inputs_of :
      Context h.floats.Float
      → Option (Components h.floats.Float)
      → Caches
      → Option EngineError × Dict h.floats.Float × Caches
  inputs_of ctx none c = (none, no_dict, c)
  inputs_of ctx (some components) c = given_inputs ctx components.inputs c

  abbrev pub with_components :
      Context h.floats.Float
      → Shared h.floats.Float World
      → Option (ComponentsContext h.floats.Float)
      → Option EngineError × Run h.floats.Float World
  with_components ctx s none = (none, record { shared = s; context = ctx })
  with_components ctx s (some cached) =
      let (x, m, c) = inputs_of ctx e.document.components s.caches in
      (
        x,
        record {
          shared = record s { caches = c };
          context = record ctx { components = some (record cached { inputs = m }) };
        },
      )

  -- `newExpressionContext`, whose error the caller drops, unless it is a panic.
  unfoldable pub new_expression_context :
      Dict h.floats.Float
      → Shared h.floats.Float World
      → Option EngineError × Run h.floats.Float World
  unfolding component_inputs
  new_expression_context inputs s =
      with_components (blank_context inputs s.execution) s e.cached_components
