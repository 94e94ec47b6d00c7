-- ===== src/Arazzo/Engine/Scheduled.antt =====
-- arazzo/engine.go: the rounds of `topologicalSort`, and what `dependencyExecutionError` accepts.
use libopenapi.Prelude.{
  ℕ, zero, suc, ◌+◌, ◌≤◌, true, List, [], ◌∷◌, ◌++◌, Option, none, some, Bytes, length,
  length-append, if◌then◌else◌, All, ◌≡◌, ◌≢◌, ◌↔◌, refl, arith, inl, inr, Bool-cases, Option-cases,
}
use libopenapi.Prelude.Number.{ℤ, pos, negsuc}
use libopenapi.Prelude.Dict.{lookup, insert}
use libopenapi.Arazzo.Engine.Document.{Workflow, WorkflowResult}
use libopenapi.Arazzo.Engine.Order.{
  Degrees, degree, decrement, is_zero, dependents, zero_degrees, all_edges, ready, relax, drain,
  topological_sort, failed_dependency, first_failed, dependency_execution_error,
}

abbrev positive : ℤ → ℕ
positive (pos (suc n)) = 1
positive _ = 0

-- How many degrees are above zero.
abbrev positives : Degrees → ℕ
positives [] = 0
positives ((id, n) ∷ m) = positive n + positives m

positive-le : (n : ℤ) → positive n ≤ 1
positive-le (pos zero) = omega arith
positive-le (pos (suc n)) = omega arith
positive-le (negsuc n) = omega arith

positives-length : (m : Degrees) → positives m ≤ length m
positives-length [] = omega arith
positives-length ((id, n) ∷ m) = omega (arith, positives-length m, positive-le n)

positives-insert :
    (id : Bytes) (n : ℤ) (m : Degrees)
    → positives (insert id n m) + positive (degree id m) ≡ positives m + positive n
unfolding insert lookup
positives-insert id n [] = omega arith
positives-insert id n ((j, k) ∷ m) = ground (arith, positives-insert id n m)

-- A degree that reaches zero was one.
positive-decrement :
    (n : ℤ) → (if is_zero (decrement n) then 1 else 0) + positive (decrement n) ≡ positive n
positive-decrement (pos zero) = refl
positive-decrement (pos (suc zero)) = refl
positive-decrement (pos (suc (suc n))) = refl
positive-decrement (negsuc n) = refl

-- What joins the queue leaves the positive degrees.
length-relax :
    (ids : List Bytes) (m : Degrees)
    → length (relax ids m).1 + positives (relax ids m).0 ≡ positives m
unfolding relax
length-relax [] m = omega arith
length-relax (id ∷ ids) m = ground (
  arith,
  length-relax ids (insert id (decrement (degree id m)) m),
  positives-insert id (decrement (degree id m)) m,
  positive-decrement (degree id m),
)

drain-enough :
    (fuel : ℕ) (adj : List (Bytes × List Bytes)) (queue : List Bytes) (m : Degrees)
    → length queue + positives m ≤ fuel
    → drain fuel adj queue m ≢ none
unfolding drain
drain-enough fuel adj [] m h = λ e. ground arith
drain-enough zero adj (id ∷ queue) m h = λ e. omega arith
drain-enough (suc fuel) adj (id ∷ queue) m h = λ e. ground (
  arith,
  drain-enough fuel adj (queue ++ (relax (dependents id adj) m).1) (relax (dependents id adj) m).0,
  length-append queue (relax (dependents id adj) m).1,
  length-relax (dependents id adj) m,
)

completed-some :
    {A B : Type 0} (f : A → B) (o : Option A)
    → o ≢ none
    → Path (Option B) (elim o [ none ↦ none | some a ↦ some (f a) ]) none
    → ⊥
completed-some f none h e = h refl
completed-some f (some a) h e = ground arith

-- The sort always ends with an order or the error, for every list of workflows: those with the same
-- id, with unknown dependencies and with cycles too.
pub topological_sort_ends : {F : Type 0} (ws : List (Workflow F)) → topological_sort ws ≢ none
unfolding topological_sort
topological_sort_ends [] = λ e. ground arith
topological_sort_ends (w ∷ ws) =
    let known = zero_degrees (w ∷ ws) [] in
    let (adj, m) = all_edges known (w ∷ ws) ([], known) in
    completed-some _ _ (
      drain-enough (length (ready (w ∷ ws) m) + length m) adj (ready (w ∷ ws) m) m
        (omega (arith, positives-length m)))

abbrev pub HasSucceeded : {F : Type 0} → List (Bytes × WorkflowResult F) → Bytes → Type 0
HasSucceeded {F = F} results dep =
    (r : WorkflowResult F) × ((lookup dep results ≡ some r) × (r.success ≡ true))

failed_dependency-none :
    {F : Type 0} (dep : Bytes) (o : Option (WorkflowResult F))
    → (failed_dependency dep o ≡ none)
      ↔ ((r : WorkflowResult F) × ((o ≡ some r) × (r.success ≡ true)))
failed_dependency-none dep none = (λ e. ground arith, λ (r, (e, s)). ground arith)
failed_dependency-none dep (some r) = elim (Bool-cases r.success) [
  | inl e ↦ (λ q. (r, (refl, e)), λ q. rw e)
  | inr e ↦ (λ q. ground arith, λ (x, (p, s)). ground arith)
]

first_failed-none :
    {F : Type 0} (deps : List Bytes) (results : List (Bytes × WorkflowResult F))
    → (first_failed deps results ≡ none) ↔ All (HasSucceeded results) deps
unfolding first_failed
first_failed-none [] results = (λ e. tt, λ e. refl)
first_failed-none (dep ∷ deps) results =
    elim (Option-cases (failed_dependency dep (lookup dep results))) [
      | inl e ↦ (
        λ q. (
          (failed_dependency-none dep (lookup dep results)).0 e,
          (first_failed-none deps results).0 (ground arith),
        ),
        λ (p, ps). rw (first_failed, e) ((first_failed-none deps results).1 ps),
      )
      | inr (x, e) ↦ (
        λ q. ground arith,
        λ (p, ps). ground (arith, (failed_dependency-none dep (lookup dep results)).1 p),
      )
    ]

-- `dependencyExecutionError` lets a workflow run exactly where each of its dependencies has a
-- result, and it is a success.
pub dependency_execution_error_lem :
    {F : Type 0} (w : Workflow F) (results : List (Bytes × WorkflowResult F))
    → (dependency_execution_error w results ≡ none) ↔ All (HasSucceeded results) w.depends_on
unfolding dependency_execution_error
dependency_execution_error_lem w results = first_failed-none w.depends_on results
