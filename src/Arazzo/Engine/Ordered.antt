-- ===== src/Arazzo/Engine/Ordered.antt =====
-- arazzo/engine.go: `topologicalSort` of workflows whose dependencies have no cycle.
use libopenapi.Prelude.{
  ℕ, zero, suc, ◌+◌, ◌≤◌, ◌<◌, Bool, true, List, [], ◌∷◌, length, ◌==◌, Bytes, eqb, eqb_iff, member,
  Option, none, some, if◌then◌else◌, ◌≡◌, refl, sym, ap, ◌∙◌, arith, inl, inr, Bool-cases, All,
}
use mathlib.Core.Path.{subst}
use libopenapi.Prelude.Outcome.{Result, ok, err}
use libopenapi.Prelude.Number.{pos}
use libopenapi.Arazzo.Engine.{EngineError, circular_dependency}
use libopenapi.Arazzo.Engine.Document.{Workflow}
use libopenapi.Arazzo.Engine.Order.{
  Degrees, degree, is_zero, zero_degrees, all_edges, ready, drain, complete, topological_sort,
}
use libopenapi.Arazzo.Engine.Edges.{Edges, open_edges, IsDistinct}
use libopenapi.Arazzo.Engine.Drained.{Awaits, Taken, TakenAll, joins, drain-Taken}
use libopenapi.Arazzo.Engine.Graph.{workflow_ids, edges_among, edges, Graph, edges-Graph}
use libopenapi.Arazzo.Engine.Follows.{ready-Waits, ready_lem}
use libopenapi.Arazzo.Engine.Scheduled.{topological_sort_ends}
use libopenapi.Arazzo.Engine.Counting.{length-le_of_members, degrees-length}
use libopenapi.Arazzo.Engine.Dependencies.{
  OfDependencies, edges_among-All, edges_among-Ends, target-member,
}

-- The dependencies of each workflow that are among `ids` stand below it.
abbrev pub IsRankedAmong : {F : Type 0} → (Bytes → ℕ) → List Bytes → List (Workflow F) → Type 0
IsRankedAmong rank ids = All (λ w.
    (d : Bytes) → member d ids ≡ true → member d w.depends_on ≡ true → rank d < rank w.workflow_id)

module _ (rank : Bytes → ℕ) (ids : List Bytes) where
  -- An edge from an id, upwards.
  abbrev Rises : Bytes × Bytes → Type 0
  Rises (dep, id) = (member dep ids ≡ true) × (rank dep < rank id)

  edges_among-Rises :
      {F : Type 0} (ws : List (Workflow F))
      → IsRankedAmong rank ids ws
      → All Rises (edges_among ids ws)
  edges_among-Rises ws r = (edges_among-All Rises ids ws).0 (known ws r)
    where
      known :
          {F : Type 0} (ws : List (Workflow F))
          → IsRankedAmong rank ids ws
          → OfDependencies Rises ids ws
      known [] r = tt
      known (w ∷ ws) (r, rs) = (λ d q s. (q, r d q s), known ws rs)

  closed :
      (es : Edges) (done : List Bytes) (i : Bytes)
      → All Rises es
      → ((d : Bytes) → member d ids ≡ true → rank d < rank i → member d done ≡ true)
      → open_edges es done i ≡ 0
  unfolding open_edges
  closed [] done i h k = refl
  closed ((dep, id) ∷ es) done i ((p, r), h) k =
      let rest = closed es done i h k in
      elim (Bool-cases (eqb id i)) [
        | inl e ↦
            let there = k dep p (subst (λ j. rank dep < rank j) ((eqb_iff id i).0 e) r) in
            rw (open_edges, e, there) rest
        | inr e ↦ rw (open_edges, e) rest
      ]

  ranks_covered :
      (es : Edges) (order : List Bytes)
      → All Rises es
      → Taken es ids [] order
      → (n : ℕ) (i : Bytes) → rank i < n
      → member i ids ≡ true
      → member i order ≡ true
  ranks_covered es order h t zero i q r = ground arith
  ranks_covered es order h t (suc n) i q r =
      t.all i r
        (closed es order i h (λ d there below. ranks_covered es order h t n d (omega arith) there))

ready-member :
    {F : Type 0} (ws : List (Workflow F)) (m : Degrees) (i : Bytes)
    → member i (workflow_ids ws) ≡ true
    → is_zero (degree i m) ≡ true
    → member i (ready ws m) ≡ true
unfolding ready member
ready-member [] m i q z = q
ready-member (w ∷ ws) m i q z =
    joins (is_zero (degree w.workflow_id m)) w.workflow_id i (ready ws m)
      (elim (Bool-cases (eqb w.workflow_id i)) [
        | inl e ↦ inr (ap (λ k. is_zero (degree k m)) ((eqb_iff w.workflow_id i).0 e) ∙ z, e)
        | inr e ↦ inl (ready-member ws m i (ground arith) z)
      ])

ready-Awaits :
    {F : Type 0} (ws : List (Workflow F)) (es : Edges) (adj : List (Bytes × List Bytes))
    (m : Degrees)
    → Graph es (adj, m)
    → Awaits es (workflow_ids ws) [] (ready ws m)
unfolding member
ready-Awaits ws es adj m g = record {
  taken = λ i q c. ready-member ws m i q (ap is_zero (g.counts i ∙ ap pos c));
  known = λ i q. (ready_lem ws m i q).0;
}

abbrev Sorting : Type 0
Sorting = Option (Result EngineError (List Bytes))

abbrev order_of : Sorting → List Bytes
order_of (some (ok xs)) = xs
order_of _ = []

-- An order of all ids, each of them once.
abbrev pub Lists : List Bytes → List Bytes → Type 0
Lists ids order =
    IsDistinct order
    × ((i : Bytes) → member i order ≡ true → member i ids ≡ true)
    × ((i : Bytes) → member i ids ≡ true → member i order ≡ true)

completes :
    (es : Edges) (ids : List Bytes) (n : ℕ) (o : Option (List Bytes))
    → TakenAll es ids [] o
    → ((order : List Bytes) → Taken es ids [] order → Lists ids order × (length order ≡ n))
    → ¬ (Path Sorting (elim o [ none ↦ none | some order ↦ some (complete n order) ]) none)
    → (order : List Bytes) × (Path Sorting
        (elim o [ none ↦ none | some order ↦ some (complete n order) ])
        (some (ok order)))
      × Lists ids order
completes es ids n none t h e = absurd (e refl)
completes es ids n (some order) t h e =
    let (lists, size) = h order t in
    let same : (length order == n) ≡ true = ground arith in
    (order, ap (λ b. some (if b then ok order else err circular_dependency)) same, lists)

length-map_ids : {F : Type 0} (ws : List (Workflow F)) → length (workflow_ids ws) ≡ length ws
length-map_ids [] = refl
length-map_ids (w ∷ ws) = ap suc (length-map_ids ws)

-- What the last loop of `topologicalSort` takes, for every list of workflows of different ids.
abbrev sorted_order : {F : Type 0} → List (Workflow F) → Option (List Bytes)
sorted_order ws =
    let known = zero_degrees ws [] in
    let (adj, m) = all_edges known ws ([], known) in
    drain (length (ready ws m) + length m) adj (ready ws m) m

sorted_order-TakenAll :
    {F : Type 0} (ws : List (Workflow F))
    → IsDistinct (workflow_ids ws)
    → TakenAll (edges ws) (workflow_ids ws) [] (sorted_order ws)
sorted_order-TakenAll ws d =
    let known = zero_degrees ws [] in
    let g = all_edges known ws ([], known) in
    let graph = edges-Graph ws in
    drain-Taken (edges ws) (workflow_ids ws)
      (target-member (workflow_ids ws) (edges ws)
        (edges_among-Ends (workflow_ids ws) ws (λ i q. q)))
      g.0 graph.following _ [] (ready ws g.1) g.1 (ready-Waits ws (edges ws) g.0 g.1 d graph)
      (ready-Awaits ws (edges ws) g.0 g.1 graph)

-- Workflows of different ids, whose dependencies on each other have no cycle, are sorted: the order
-- has each of them once.
pub topological_sort-Lists :
    {F : Type 0} (ws : List (Workflow F)) (rank : Bytes → ℕ)
    → IsDistinct (workflow_ids ws)
    → IsRankedAmong rank (workflow_ids ws) ws
    → (order : List Bytes) × (topological_sort ws ≡ some (ok order)) × Lists (workflow_ids ws) order
unfolding topological_sort member
topological_sort-Lists [] rank d r = ([], refl, (tt, λ i q. q, λ i q. q))
topological_sort-Lists (w ∷ ws) rank d r =
    let ids = workflow_ids (w ∷ ws) in
    let es = edges (w ∷ ws) in
    let rises = edges_among-Rises rank ids (w ∷ ws) r in
    completes es ids _ _ (sorted_order-TakenAll (w ∷ ws) d)
      (λ order t.
        let all = ranks_covered rank ids es order rises t in
        let lists : Lists ids order =
          (t.distinct, t.known, λ i q. all (suc (rank i)) i (omega arith) q) in
        (
          lists,
          omega (
            arith,
            degrees-length (w ∷ ws) d,
            length-le_of_members order ids t.distinct t.known,
            length-le_of_members ids order d lists.2,
            length-map_ids (w ∷ ws),
          ),
        ))
      (topological_sort_ends (w ∷ ws))

-- An order without duplicates that is as long as the list of all ids, of which it takes some, has
-- them all.
covers :
    (ids order : List Bytes)
    → IsDistinct order
    → ((i : Bytes) → member i order ≡ true → member i ids ≡ true)
    → length ids ≤ length order
    → (i : Bytes) → member i ids ≡ true
    → member i order ≡ true
unfolding member
covers ids order d h size i q = elim (Bool-cases (member i order)) [
  | inl e ↦ e
  | inr e ↦
      let less =
        length-le_of_members (i ∷ order) ids (e, d)
          (λ j r. elim (Bool-cases (eqb i j)) [
            | inl x ↦ let y = ap (λ k. member k ids) ((eqb_iff i j).0 x) in ground arith
            | inr x ↦ h j (ground arith)
          ]) in
      ground arith
]

completed :
    (ids : List Bytes) (es : Edges) (n : ℕ) (o : Option (List Bytes)) (order : List Bytes)
    → TakenAll es ids [] o
    → length ids ≡ n
    → Path Sorting (elim o [ none ↦ none | some xs ↦ some (complete n xs) ]) (some (ok order))
    → Lists ids order
completed ids es n none order t q e = ground arith
completed ids es n (some xs) order t q e =
    let by : Bool → Sorting = λ b. some (if b then ok xs else err circular_dependency) in
    elim (Bool-cases (length xs == n)) [
      | inl r ↦
          subst (Lists ids) (sym (ap order_of (ap by r)) ∙ ap order_of e)
            (t.distinct, t.known, covers ids xs t.distinct t.known (ground arith))
      | inr r ↦ let p = sym (ap by r) ∙ e in ground arith
    ]

-- Where workflows of different ids are sorted, the order has each of them once.
pub topological_sort-sorted-Lists :
    {F : Type 0} (ws : List (Workflow F)) (order : List Bytes)
    → IsDistinct (workflow_ids ws)
    → topological_sort ws ≡ some (ok order)
    → Lists (workflow_ids ws) order
unfolding topological_sort member
topological_sort-sorted-Lists [] order d e =
    subst (Lists []) (ap order_of e) (tt, λ i q. q, λ i q. q)
topological_sort-sorted-Lists (w ∷ ws) order d e =
    completed (workflow_ids (w ∷ ws)) (edges (w ∷ ws)) _ _ order (sorted_order-TakenAll (w ∷ ws) d)
      (omega (arith, degrees-length (w ∷ ws) d, length-map_ids (w ∷ ws))) e
