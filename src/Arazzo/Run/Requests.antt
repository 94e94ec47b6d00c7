-- ===== src/Arazzo/Run/Requests.antt =====
-- arazzo/step.go: the request that a step sends, `buildExecutionRequest`, and the headers of its
-- response.
use libopenapi.Prelude.{
  ◌||◌, List, [], ◌∷◌, Option, none, some, Bytes, codes, ◌==◌, eqb, index, drop, length, is_empty,
  has_prefix, if◌then◌else◌,
}
use libopenapi.Prelude.Outcome.{Result, ok, err}
use libopenapi.Prelude.Dict.{lookup, insert}
use libopenapi.Yaml.{Node, absent, node}
use libopenapi.Arazzo.Value.{Value, null, Entries, end, put}
use libopenapi.Arazzo.Evaluator.{Context}
use libopenapi.Arazzo.Criterion.{Host}
use libopenapi.Arazzo.Criterion.Nodes.{to_yaml_node}
use libopenapi.Arazzo.Engine.{
  EngineError, in_parameter, in_request_body, bad_request_body, Stateful, pure, wrapped, ◌>>=◌,
  Parameter, PayloadReplacement,
}
use libopenapi.Arazzo.Engine.Document.{Step, RequestBody}
use libopenapi.Arazzo.Engine.References.{resolve_parameter}
use libopenapi.Arazzo.Engine.Values.{resolve_yaml_node_value}
use libopenapi.Arazzo.Engine.Replacements.{apply_payload_replacements}
use libopenapi.Arazzo.Run.{ResolvedSource, ExecutionRequest, Engine}

-- The loop to the end of a source's name.
unfoldable pub name_end : Bytes → Bytes
name_end [] = []
name_end (c ∷ s) =
    let rest = name_end s in
    if c == b'.' || (c == b'}' || (c == b'/' || c == b'#')) then [] else c ∷ rest

abbrev pub not_empty : Bytes → Option Bytes
not_empty [] = none
not_empty (c ∷ s) = some (c ∷ s)

-- arazzo/validation.go.
unfoldable pub extract_source_name_from_operation_path : Bytes → Option Bytes
unfolding name_end index has_prefix
extract_source_name_from_operation_path path = elim (index path (codes "$sourceDescriptions.")) [
  | none ↦ none
  | some i ↦ not_empty (name_end (drop (length (codes "$sourceDescriptions.")) (drop i path)))
]

-- The first source of the document's order that is there.
unfoldable pub first_source : List Bytes → List (Bytes × ResolvedSource) → Option ResolvedSource
unfolding lookup
first_source [] sources = none
first_source (name ∷ names) sources =
    let rest = first_source names sources in
    elim (lookup name sources) [ some s ↦ some s | none ↦ rest ]

abbrev pub named_source : Option Bytes → List (Bytes × ResolvedSource) → Option ResolvedSource
named_source none sources = none
named_source (some name) sources = lookup name sources

unfoldable pub resolve_step_source : {F : Type 0} → Engine F → Step F → Option ResolvedSource
unfolding extract_source_name_from_operation_path first_source lookup
resolve_step_source e step = if is_empty e.sources then none else elim e.default_source [
  | some s ↦ some s
  | none ↦
      elim (named_source (extract_source_name_from_operation_path step.operation_path) e.sources) [
        | some s ↦ some s
        | none ↦ first_source e.source_order e.sources
      ]
]

-- An empty map is nil.
abbrev pub map_or_nil : List (Bytes × Bytes) → Option (List (Bytes × Bytes))
map_or_nil [] = none
map_or_nil (e ∷ m) = some (e ∷ m)

unfoldable pub first_values : List (Bytes × List Bytes) → List (Bytes × Bytes)
first_values [] = []
first_values ((name, []) ∷ hs) = first_values hs
first_values ((name, v ∷ vs) ∷ hs) = (name, v) ∷ first_values hs

-- Nil if there are no headers, and empty where none of them has a value.
unfoldable pub first_header_values : List (Bytes × List Bytes) → Option (List (Bytes × Bytes))
unfolding first_values
first_header_values [] = none
first_header_values (e ∷ hs) = some (first_values (e ∷ hs))

-- `*yaml.Node`, where nil is none.
abbrev pub node_or_nil : Node → Option Node
node_or_nil absent = none
node_or_nil (node k t v c) = some (node k t v c)

-- What the loop over the parameters fills.
pub record Gathered (F : Type 0) : Type 0 where
  pub parameters : Entries F
  pub headers : List (Bytes × Bytes)
  pub query : List (Bytes × Bytes)
  pub path : List (Bytes × Bytes)

abbrev pub nothing_gathered : {F : Type 0} → Gathered F
nothing_gathered = record { parameters = end; headers = []; query = []; path = [] }

module _ (h : Host) (e : Engine h.floats.Float) where
  unfoldable pub place :
      Parameter → Value h.floats.Float → Gathered h.floats.Float → Gathered h.floats.Float
  unfolding insert put
  place p v g =
      let g' = record g { parameters = put p.name v g.parameters } in
      if eqb p.location (codes "header")
      then record g' { headers = insert p.name (h.sprint v) g.headers }
      else if eqb p.location (codes "query")
      then record g' { query = insert p.name (h.sprint v) g.query }
      else if eqb p.location (codes "path")
      then record g' { path = insert p.name (h.sprint v) g.path }
      else g'

  module _ (ctx : Context h.floats.Float) (step : Step h.floats.Float) where
    -- One parameter, resolved, and its value.
    unfoldable pub evaluate_parameter :
        Option Parameter → Stateful (Parameter × Value h.floats.Float)
    evaluate_parameter p = pure (resolve_parameter e.document.components p) >>= λ q.
        wrapped (in_parameter q.name step.step_id) (resolve_yaml_node_value h ctx q.value) >>= λ v.
        pure (ok (q, v))

    unfoldable pub gather :
        List (Option Parameter) → Gathered h.floats.Float → Stateful (Gathered h.floats.Float)
    unfolding evaluate_parameter place
    gather [] g = pure (ok g)
    gather (p ∷ ps) g = evaluate_parameter p >>= λ (q, v). gather ps (place q v g)

    abbrev replaced :
        List (Option PayloadReplacement) → Value h.floats.Float → Stateful (Value h.floats.Float)
    replaced [] v = pure (ok v)
    replaced (r ∷ rs) v = apply_payload_replacements h ctx step.step_id v (r ∷ rs)

    abbrev body_node : Option Node → Result EngineError Node
    body_node none = err (bad_request_body step.step_id)
    body_node (some n) = ok n

    -- The body as a value and as a node.
    unfoldable pub build_body : RequestBody → Stateful (Value h.floats.Float × Node)
    build_body b =
        wrapped (in_request_body step.step_id) (resolve_yaml_node_value h ctx b.payload) >>= λ v.
        replaced b.replacements v >>= λ w.
        pure (body_node (to_yaml_node h w)) >>= λ n. pure (ok (w, n))

    abbrev request :
        Gathered h.floats.Float → Value h.floats.Float → Bytes → ExecutionRequest h.floats.Float
    request g body content_type = record {
      source = resolve_step_source e step;
      operation_id = step.operation_id;
      operation_path = step.operation_path;
      parameters = g.parameters;
      request_body = body;
      content_type = content_type;
    }

    abbrev requested : Gathered h.floats.Float → Option Node → Context h.floats.Float
    requested g body = record ctx {
      request_body = body;
      request_headers = map_or_nil g.headers;
      request_query = map_or_nil g.query;
      request_path = map_or_nil g.path;
    }

    -- The request, and the context with the request in it. The context that is given has none.
    unfoldable pub build_execution_request :
        Stateful (ExecutionRequest h.floats.Float × Context h.floats.Float)
    unfolding gather build_body resolve_step_source
    build_execution_request = gather step.parameters nothing_gathered >>= λ g.
        elim step.request_body [
          | none ↦ pure (ok (request g null [], requested g none))
          | some b ↦ build_body b >>= λ (v, n).
              pure (ok (request g v b.content_type, requested g (node_or_nil n)))
        ]
