-- ===== src/Arazzo/Run.antt =====
-- arazzo/engine.go and arazzo/step.go: an engine, what it calls outside, and the runs of steps and
-- workflows in the children.
mod Tests
pub mod Requests
pub mod Filling
pub mod Sending
pub mod Steps
pub mod Recalled
pub mod Loop
pub mod Contexts
pub mod Workflows
pub mod All
pub mod Stack
pub mod Restored
pub mod Balanced
pub mod Bounds
pub mod Escaped
pub mod Concluded
pub mod Reports
pub mod Fuelled
pub mod Fuel
pub mod Ending
use libopenapi.Prelude.{
  ℕ, zero, suc, ◌+◌, ◌*◌, Bool, List, [], ◌∷◌, map, Option, none, some, Bytes, length, ◌==◌,
  if◌then◌else◌,
}
use libopenapi.Prelude.Outcome.{Result}
use libopenapi.Prelude.Number.{ℤ}
use libopenapi.Prelude.Dict.{insert}
use libopenapi.Arazzo.Value.{Value, other, Entries, end, entry, Dict, no_dict, dict}
use libopenapi.Arazzo.Evaluator.{ComponentsContext}
use libopenapi.Arazzo.Criterion.{Caches, new_caches}
use libopenapi.Arazzo.Engine.Document.{Workflow}
use libopenapi.Arazzo.Engine.References.{Components}

-- arazzo/resolve.go, without the documents of the source.
pub record ResolvedSource : Type 0 where
  pub name : Bytes
  pub url : Bytes

-- The engine never sets the field `Method`. A nil body is `null`.
pub record ExecutionRequest (F : Type 0) : Type 0 where
  pub source : Option ResolvedSource
  pub operation_id : Bytes
  pub operation_path : Bytes
  pub parameters : Entries F
  pub request_body : Value F
  pub content_type : Bytes

pub record ExecutionResponse (F : Type 0) : Type 0 where
  pub status_code : ℤ
  pub headers : List (Bytes × List Bytes)
  pub body : Value F
  pub url : Bytes
  pub method : Bytes

-- What the engine calls: the executor, if there is one; `ctx.Err()`; the configured sleeper, if
-- there is one, and the timer of the default one; and `time.Duration(math.Round(…))` of seconds.
-- `World` is what these depend on and change.
pub record Outside (F : Type 0) : Type 1 where
  pub World : Type 0
  pub execute : Option (ExecutionRequest F → World → Result Bytes (ExecutionResponse F) × World)
  pub ctx_err : World → Option Bytes × World
  pub sleep_func : Option (ℤ → World → Option Bytes × World)
  pub timer : ℤ → World → Option Bytes × World
  pub nanoseconds : F → ℤ

-- A document's parts, where `source_descriptions` has their names.
pub record Document (F : Type 0) : Type 0 where
  pub source_descriptions : List Bytes
  pub workflows : List (Workflow F)
  pub components : Option (Components F)

-- The fields of `Engine` that do not change in a run.
pub record Engine (F : Type 0) : Type 0 where
  pub document : Document F
  pub sources : List (Bytes × ResolvedSource)
  pub default_source : Option ResolvedSource
  pub source_order : List Bytes
  pub workflows : List (Bytes × Workflow F)
  pub cached_components : Option (ComponentsContext F)

unfoldable pub source_map :
    List ResolvedSource → List (Bytes × ResolvedSource) → List (Bytes × ResolvedSource)
unfolding insert
source_map [] m = m
source_map (s ∷ ss) m = source_map ss (insert s.name s m)

unfoldable pub workflow_map :
    {F : Type 0} → List (Workflow F) → List (Bytes × Workflow F) → List (Bytes × Workflow F)
unfolding insert
workflow_map [] m = m
workflow_map (w ∷ ws) m = workflow_map ws (insert w.workflow_id w m)

abbrev pub only_source : List (Bytes × ResolvedSource) → Option ResolvedSource
only_source ((name, s) ∷ []) = some s
only_source _ = none

-- The objects of a map as values: pointers, told apart by `tag` and their place.
abbrev pub pointers : {F A : Type 0} → ℕ → List (Bytes × A) → Entries F
pointers tag [] = end
pointers tag ((name, a) ∷ m) = entry name (other tag) (pointers (tag + 3) m)

abbrev pub pointer_map : {F A : Type 0} → ℕ → Option (List (Bytes × A)) → Dict F
pointer_map tag none = no_dict
pointer_map tag (some m) = dict (pointers tag m)

unfoldable pub build_cached_components :
    {F : Type 0} → Option (Components F) → Option (ComponentsContext F)
build_cached_components none = none
build_cached_components (some c) = some (record {
  parameters = pointer_map 0 c.parameters;
  success_actions = pointer_map 1 c.success_actions;
  failure_actions = pointer_map 2 c.failure_actions;
  inputs = no_dict;
})

unfoldable pub new_engine : {F : Type 0} → Document F → List ResolvedSource → Engine F
unfolding source_map workflow_map build_cached_components
new_engine doc sources = record {
  document = doc;
  sources = source_map sources [];
  default_source = only_source (source_map sources []);
  source_order = doc.source_descriptions;
  workflows = workflow_map doc.workflows [];
  cached_components = build_cached_components doc.components;
}

-- `ClearCaches`.
abbrev pub clear_caches : Caches → Caches
clear_caches c = new_caches
