-- ===== src/Lib.antt =====
-- libopenapi: the Arazzo subsystem (arazzo/), which parses and evaluates runtime expressions, decides
-- criteria, validates an Arazzo document and runs its workflows; and the merge of overlays (overlay/).
--
-- The parts, from the bottom up. An expression such as `$steps.login.outputs.token` is parsed by
-- `Parse`, and text with `{$…}` blocks by `ParseEmbedded` (Arazzo/Expression: arazzo/expression/parser.go).
-- `Evaluate` looks the parsed expression up in a context of inputs, outputs, steps, workflows, request
-- and response, and follows JSON pointers into YAML nodes (Arazzo/Evaluator:
-- arazzo/expression/evaluator.go). A criterion compares, matches or queries evaluated values, and
-- keeps parsed expressions and compiled patterns in caches of the engine (Arazzo/Criterion:
-- arazzo/criterion.go, arazzo/yamlutil.go, `parseExpression` of arazzo/engine.go). The engine resolves
-- the values of parameters and payloads, applies replacements to payloads, chooses the action behind
-- a step and what it does to the run, and orders the workflows (Arazzo/Engine: arazzo/step.go,
-- arazzo/actions.go, arazzo/engine.go). A run builds the request of a step, executes the step, goes
-- on from step to step as the actions say, and runs workflows inside a workflow and in the order of
-- their dependencies (Arazzo/Run: `executeStep`, `runWorkflow`, `RunAll` of the same files).
-- `Validate` reads the same document before a run and reports what is wrong with its ids,
-- references, targets, dependencies and keys, and with its operations where OpenAPI documents are
-- attached (Arazzo/Validation: arazzo/validation.go, arazzo/operation_resolver.go, arazzo/errors.go).
-- Its rules are stated apart from the checks (Arazzo/Validation/Rules), and what they say about
-- dependencies is carried over to the engine's order (Arazzo/Validation/Scheduling).
-- Apart from it, an overlay's update is merged into a node, and a child is removed from its parent
-- (Overlay: overlay/engine.go).
--
-- Correspondence. Text is a list of bytes; a byte position is a native number. Go's `(value, error)`
-- is `Result`, with one constructor of the error type for each message; a panic of the program is
-- an error constructor of its own (`nil_dereference`, `slice_out_of_range`, `panicked`). In the engine
-- no code handles it: it is not wrapped, leaves the loops over steps and workflows at once, and is
-- what the whole run comes to (`escapes`, Arazzo/Engine); deferred functions are still run. Maps are association
-- lists (Prelude/Dict), values of type `any` the data type `Value` (Arazzo/Value), `*yaml.Node` the
-- data type `Node` (Yaml), where a nil node is `absent`. Functions keep their names, in lower case with
-- underscores; a helper beside a function stands for the part of it that the helper's comment names.
-- What an engine does with its caches is a function from caches to a result and caches. A check of
-- `Validate` is a function to the reports that it appends to the result, without line and column,
-- and a loop with a map of what it has seen is `each_seen` (Arazzo/Validation/Names).
--
-- Parameters. The record `Floats` (Arazzo/Value) has floating-point numbers, the record `Host`
-- (Arazzo/Criterion) has `fmt.Sprint`, the compilers of regular expressions and JSONPath, and the
-- YAML encoder and decoder. The record `Outside` (Arazzo/Run) has the executor, `ctx.Err`, the
-- sleeper, the timer and the conversion of seconds, each a function of a state of the world, which
-- a run passes on. The record `Locations` (Arazzo/Validation/Operations) has what the validation calls
-- of net/url, path/filepath and for lower case. `order` in Arazzo/Validation is the order in which a
-- run ranges over a map; it is assumed to list the keys. One theorem assumes that the context is
-- never done; otherwise nothing is assumed of them.
--
-- Loops. The loops of `ParseEmbedded` and `resolveJSONPointer` run on fuel: as many rounds as the
-- input has bytes, since each round consumes one at least. The last loop of `topologicalSort` has
-- a round for each entry of its queue and each known workflow: an entry that joins the queue
-- takes a degree from one to zero. `run_workflow` runs on 33 units of fuel, one for each workflow
-- inside another and one for the check of the depth; `nested` is the same with any runner at the
-- bottom in place of the lack of fuel. The loop over the steps of a workflow has the
-- 1024 transitions that are left as its argument, as the program counts them. The search of
-- `checkCircularDependencies` has a level for each key of its graph and one more, since every level
-- but the last visits a new key. All other loops are structural.
--
-- Limits. Values are trees, so a change in place of a map that is shared is not seen. The
-- entries of a map are in the order of the list, where Go's order is random; this decides which of
-- several errors is returned. A value of a further Go type (`other`, Arazzo/Value) is opaque, and
-- the types `yaml.Node` and `[]string` are left out. Slices of actions, criteria,
-- workflows, steps and source descriptions hold no nil pointers, and neither do the paths of
-- attached documents hold nil operations.
--
-- Not modelled: durations, and the option to drop a response body, which no expression reads; source
-- resolution (arazzo/resolve.go), which is file and network access; the queries and actions of
-- overlays (`Apply` of overlay/engine.go), since a result of a query may lie inside another one; and
-- the other parts of the repository: the index and its resolver (index/), the bundler (bundler/), the
-- comparison of documents (what-changed/), the data models (datamodel/), which are records read from
-- YAML, and rendering, generators and utilities.
mod Prelude
pub mod Yaml
pub mod Arazzo
pub mod Overlay
