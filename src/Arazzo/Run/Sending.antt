-- ===== src/Arazzo/Run/Sending.antt =====
-- arazzo/step.go: `executeStep` up to the success criteria. The runner of workflows is an argument.
use libopenapi.Prelude.{true, false, Option, none, some, Bytes, is_empty, if◌then◌else◌}
use libopenapi.Prelude.Outcome.{Result, ok, err}
use libopenapi.Prelude.Number.{ℤ, pos}
use libopenapi.Yaml.{Node}
use libopenapi.Arazzo.Value.{Value, Entries, end, Dict, no_dict, dict}
use libopenapi.Arazzo.Evaluator.{Context}
use libopenapi.Arazzo.Criterion.{Host, Caches}
use libopenapi.Arazzo.Criterion.Nodes.{to_yaml_node}
use libopenapi.Arazzo.Engine.{
  EngineError, executor_not_configured, external, bad_response_body, Stateful, pure, ◌>>=◌,
  Parameter,
}
use libopenapi.Arazzo.Engine.Document.{Step, WorkflowResult}
use libopenapi.Arazzo.Engine.Transitions.{Shared, Run, Runner, with_shared}
use libopenapi.Arazzo.Run.{ExecutionRequest, ExecutionResponse, Outside, Engine}
use libopenapi.Arazzo.Run.Requests.{
  evaluate_parameter, build_execution_request, first_header_values, node_or_nil,
}
use libopenapi.Arazzo.Run.Filling.{with_caches, with_world, with_context, Attempt, fill}

module _ (h : Host) (out : Outside h.floats.Float) (e : Engine h.floats.Float) where
  open out use {World}

  abbrev pub failed :
      EngineError
      → ℤ
      → Dict h.floats.Float
      → Run h.floats.Float World
      → Attempt h.floats.Float World
  failed x status inputs s = record {
    success = false;
    error = some x;
    status_code = status;
    inputs = inputs;
    run = s;
  }

  -- A failed workflow may have no error.
  abbrev pub called :
      Dict h.floats.Float
      → Context h.floats.Float
      → Result EngineError (WorkflowResult h.floats.Float) × Shared h.floats.Float World
      → Attempt h.floats.Float World
  called inputs ctx (err x, shared) = failed x (pos 0) inputs (with_shared shared ctx)
  called inputs ctx (ok r, shared) = record {
    success = r.success;
    error = if r.success then none else r.error;
    status_code = pos 0;
    inputs = inputs;
    run = with_shared shared ctx;
  }

  abbrev pub step_input :
      Context h.floats.Float
      → Step h.floats.Float
      → Option Parameter
      → Stateful (Bytes × Value h.floats.Float)
  step_input ctx step p = evaluate_parameter h e ctx step p >>= λ (q, v). pure (ok (q.name, v))

  -- The inputs are nil where the step has no parameters.
  abbrev pub some_inputs : Step h.floats.Float → Entries h.floats.Float → Dict h.floats.Float
  some_inputs step m = if is_empty step.parameters then no_dict else dict m

  abbrev pub called_with :
      Runner h.floats.Float World
      → Step h.floats.Float
      → Run h.floats.Float World
      → Option EngineError × Entries h.floats.Float × Caches
      → Attempt h.floats.Float World
  called_with run step s (some x, m, c) = failed x (pos 0) (some_inputs step m) (with_caches c s)
  called_with run step s (none, m, c) =
      called (some_inputs step m) s.context
        (run step.workflow_id (some_inputs step m) (with_caches c s).shared)

  -- A step that runs a workflow.
  unfoldable pub call_workflow :
      Runner h.floats.Float World
      → Step h.floats.Float
      → Run h.floats.Float World
      → Attempt h.floats.Float World
  unfolding fill with_shared
  call_workflow run step s =
      called_with run step s
        (fill h (step_input s.context step) step.parameters end s.shared.caches)

  -- The response in the context.
  abbrev pub responded :
      ExecutionResponse h.floats.Float
      → Option Node
      → Context h.floats.Float
      → Context h.floats.Float
  responded resp body ctx = record ctx {
    status_code = resp.status_code;
    url = resp.url;
    method = resp.method;
    response_headers = first_header_values resp.headers;
    response_body = body;
  }

  abbrev pub received :
      Dict h.floats.Float
      → Run h.floats.Float World
      → ExecutionResponse h.floats.Float
      → Option Node
      → Attempt h.floats.Float World
  received inputs s resp none =
      failed bad_response_body resp.status_code inputs
        (with_context (responded resp none s.context) s)
  received inputs s resp (some n) = record {
    success = true;
    error = none;
    status_code = resp.status_code;
    inputs = inputs;
    run = with_context (responded resp (node_or_nil n) s.context) s;
  }

  abbrev pub answered :
      Dict h.floats.Float
      → Run h.floats.Float World
      → Result Bytes (ExecutionResponse h.floats.Float) × World
      → Attempt h.floats.Float World
  answered inputs s (err m, w) = failed (external m) (pos 0) inputs (with_world w s)
  answered inputs s (ok resp, w) = received inputs (with_world w s) resp (to_yaml_node h resp.body)

  abbrev pub sent_with :
      ExecutionRequest h.floats.Float
      → Run h.floats.Float World
      → Option (
          ExecutionRequest h.floats.Float
          → World
          → Result Bytes (ExecutionResponse h.floats.Float) × World)
      → Attempt h.floats.Float World
  sent_with req s none = failed executor_not_configured (pos 0) (dict req.parameters) s
  sent_with req s (some execute) = answered (dict req.parameters) s (execute req s.shared.world)

  abbrev pub sent :
      ExecutionRequest h.floats.Float → Run h.floats.Float World → Attempt h.floats.Float World
  sent req s = sent_with req s out.execute

  abbrev pub built :
      Run h.floats.Float World
      → Result EngineError (ExecutionRequest h.floats.Float × Context h.floats.Float) × Caches
      → Attempt h.floats.Float World
  built s (err x, c) = failed x (pos 0) no_dict (with_caches c s)
  built s (ok (req, ctx), c) = sent req (with_context ctx (with_caches c s))

  -- A step that sends a request.
  unfoldable pub send_request :
      Step h.floats.Float → Run h.floats.Float World → Attempt h.floats.Float World
  unfolding build_execution_request first_header_values to_yaml_node
  send_request step s = built s (build_execution_request h e s.context step s.shared.caches)
