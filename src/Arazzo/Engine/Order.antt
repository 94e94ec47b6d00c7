-- ===== src/Arazzo/Engine/Order.antt =====
-- arazzo/engine.go: the order in which `RunAll` takes the workflows, `topologicalSort`, and what it
-- asks of a workflow's dependencies.
use libopenapi.Prelude.{
  ℕ, zero, suc, ◌+◌, Bool, true, false, List, [], ◌∷◌, ◌++◌, Option, none, some, Bytes, ◌==◌,
  length, if◌then◌else◌,
}
use libopenapi.Prelude.Outcome.{Result, ok, err}
use libopenapi.Prelude.Number.{ℤ, pos, negsuc}
use libopenapi.Prelude.Dict.{lookup, insert}
use libopenapi.Arazzo.Engine.Document.{Workflow, WorkflowResult}
use libopenapi.Arazzo.Engine.{
  EngineError, circular_dependency, unresolved_workflow, dependency_failed, in_dependency,
  step_failure,
}

-- `inDegree`, where a missing key counts zero, and `adj`.
abbrev pub Degrees : Type 0
Degrees = List (Bytes × ℤ)

abbrev pub degree : Bytes → Degrees → ℤ
degree id m = elim (lookup id m) [ none ↦ pos 0 | some n ↦ n ]

abbrev pub increment : ℤ → ℤ
increment (pos n) = pos (suc n)
increment (negsuc zero) = pos 0
increment (negsuc (suc n)) = negsuc n

abbrev pub decrement : ℤ → ℤ
decrement (pos zero) = negsuc zero
decrement (pos (suc n)) = pos n
decrement (negsuc n) = negsuc (suc n)

abbrev pub is_zero : ℤ → Bool
is_zero (pos zero) = true
is_zero _ = false

abbrev pub dependents : Bytes → List (Bytes × List Bytes) → List Bytes
dependents id adj = elim (lookup id adj) [ none ↦ [] | some ids ↦ ids ]

-- The first loop over the workflows, without nil ones.
unfoldable pub zero_degrees : {F : Type 0} → List (Workflow F) → Degrees → Degrees
unfolding lookup insert
zero_degrees [] m = m
zero_degrees (w ∷ ws) m = elim (lookup w.workflow_id m) [
  | none ↦ zero_degrees ws (insert w.workflow_id (pos 0) m)
  | some n ↦ zero_degrees ws m
]

-- The inner loop of the second one. `known` has the keys of `workflowIds`.
unfoldable pub add_edges :
    Degrees
    → Bytes
    → List Bytes
    → List (Bytes × List Bytes) × Degrees
    → List (Bytes × List Bytes) × Degrees
unfolding lookup insert
add_edges known id [] graph = graph
add_edges known id (dep ∷ deps) (adj, m) = elim (lookup dep known) [
  | none ↦ add_edges known id deps (adj, m)
  | some n ↦
      add_edges known id deps
        (insert dep (dependents dep adj ++ (id ∷ [])) adj, insert id (increment (degree id m)) m)
]

unfoldable pub all_edges :
    {F : Type 0}
    → Degrees
    → List (Workflow F)
    → List (Bytes × List Bytes) × Degrees
    → List (Bytes × List Bytes) × Degrees
unfolding add_edges
all_edges known [] graph = graph
all_edges known (w ∷ ws) graph =
    all_edges known ws (add_edges known w.workflow_id w.depends_on graph)

unfoldable pub ready : {F : Type 0} → List (Workflow F) → Degrees → List Bytes
unfolding lookup
ready [] m = []
ready (w ∷ ws) m =
    let rest = ready ws m in if is_zero (degree w.workflow_id m) then w.workflow_id ∷ rest else rest

-- The inner loop of the last one: the degrees after it, and what it appends to the queue.
unfoldable pub relax : List Bytes → Degrees → Degrees × List Bytes
unfolding lookup insert
relax [] m = (m, [])
relax (id ∷ ids) m =
    let n = decrement (degree id m) in
    let (changed, more) = relax ids (insert id n m) in
    (changed, if is_zero n then id ∷ more else more)

-- The last loop, on the part of the queue from `head`. It returns the order. `none` marks too few
-- rounds.
unfoldable pub drain : ℕ → List (Bytes × List Bytes) → List Bytes → Degrees → Option (List Bytes)
unfolding relax
drain fuel adj [] m = some []
drain zero adj (id ∷ queue) m = none
drain (suc fuel) adj (id ∷ queue) m =
    let (changed, more) = relax (dependents id adj) m in
    elim (drain fuel adj (queue ++ more) changed) [ none ↦ none | some order ↦ some (id ∷ order) ]

abbrev pub complete : ℕ → List Bytes → Result EngineError (List Bytes)
complete n order = if length order == n then ok order else err circular_dependency

-- `none` is the model's alone. The fuel is a round for each entry of the queue and each degree.
unfoldable pub topological_sort :
    {F : Type 0} → List (Workflow F) → Option (Result EngineError (List Bytes))
unfolding zero_degrees all_edges ready drain
topological_sort [] = some (ok [])
topological_sort (w ∷ ws) =
    let known = zero_degrees (w ∷ ws) [] in
    let (adj, m) = all_edges known (w ∷ ws) ([], known) in
    let queue = ready (w ∷ ws) m in
    elim (drain (length queue + length m) adj queue m) [
      | none ↦ none
      | some order ↦ some (complete (length m) order)
    ]

-- What is wrong with a dependency, if something is.
abbrev pub failed_dependency : {F : Type 0} → Bytes → Option (WorkflowResult F) → Option EngineError
failed_dependency dep none = some (unresolved_workflow dep)
failed_dependency dep (some r) =
    if r.success
    then none
    else some (elim r.error [ some e ↦ in_dependency dep e | none ↦ dependency_failed dep ])

unfoldable pub first_failed :
    {F : Type 0} → List Bytes → List (Bytes × WorkflowResult F) → Option EngineError
unfolding lookup
first_failed [] results = none
first_failed (dep ∷ deps) results =
    let rest = first_failed deps results in
    elim (failed_dependency dep (lookup dep results)) [ none ↦ rest | some e ↦ some e ]

unfoldable pub dependency_execution_error :
    {F : Type 0} → Workflow F → List (Bytes × WorkflowResult F) → Option EngineError
unfolding first_failed
dependency_execution_error w results = first_failed w.depends_on results

-- The index -1 of a criterion is none.
abbrev pub step_failure_or_default : Bytes → Option EngineError → EngineError
step_failure_or_default step_id (some e) = e
step_failure_or_default step_id none = step_failure step_id none none
