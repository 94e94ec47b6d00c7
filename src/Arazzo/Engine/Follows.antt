-- ===== src/Arazzo/Engine/Follows.antt =====
-- arazzo/engine.go: the first queue of `topologicalSort`, and its order.
use libopenapi.Prelude.{
  ℕ, zero, suc, Bool, true, false, List, [], ◌∷◌, length, ◌==◌, Bytes, eqb, eqb_iff, member, Option,
  none, some, if◌then◌else◌, ◌≡◌, refl, sym, ap, ◌∙◌, arith, inl, inr, ◌⊎◌, Bool-cases,
}
use mathlib.Core.Path.{subst}
use libopenapi.Prelude.Outcome.{Result, ok, err}
use libopenapi.Prelude.Number.{ℤ, pos}
use libopenapi.Arazzo.Engine.{EngineError, circular_dependency}
use libopenapi.Arazzo.Engine.Document.{Workflow}
use libopenapi.Arazzo.Engine.Order.{
  Degrees, degree, is_zero, zero_degrees, all_edges, ready, complete, topological_sort,
}
use libopenapi.Arazzo.Engine.Edges.{Edges, open_edges, targets, IsDistinct}
use libopenapi.Arazzo.Engine.Sorted.{Follows, FollowsAll, Waits, drain-Follows}
use libopenapi.Arazzo.Engine.Graph.{workflow_ids, edges, Graph, edges-Graph}

joined :
    (b : Bool) (x : Bytes) (rest : List Bytes) (i : Bytes)
    → member i (if b then x ∷ rest else rest) ≡ true
    → ((eqb x i ≡ true) × (b ≡ true)) ⊎ (member i rest ≡ true)
unfolding member
joined true x rest i q = elim (Bool-cases (eqb x i)) [
  | inl e ↦ inl (e, refl)
  | inr e ↦ inr (sym (ap (λ b. if b then true else member i rest) e) ∙ q)
]
joined false x rest i q = inr q

if-IsDistinct :
    (b : Bool) (x : Bytes) (rest : List Bytes)
    → member x rest ≡ false
    → IsDistinct rest
    → IsDistinct (if b then x ∷ rest else rest)
if-IsDistinct true x rest q d = (q, d)
if-IsDistinct false x rest q d = d

-- The first queue: ids of the document that wait for nothing.
pub ready_lem :
    {F : Type 0} (ws : List (Workflow F)) (m : Degrees) (i : Bytes)
    → member i (ready ws m) ≡ true
    → (member i (workflow_ids ws) ≡ true) × (is_zero (degree i m) ≡ true)
unfolding ready member
ready_lem [] m i q = ground arith
ready_lem (w ∷ ws) m i q =
    elim (joined (is_zero (degree w.workflow_id m)) w.workflow_id (ready ws m) i q) [
      | inl (e, z) ↦ (
        ap (λ b. if b then true else member i (workflow_ids ws)) e,
        ap (λ k. is_zero (degree k m)) (sym ((eqb_iff w.workflow_id i).0 e)) ∙ z,
      )
      | inr r ↦ let (a, z) = ready_lem ws m i r in (ground arith, z)
    ]

ready-IsDistinct :
    {F : Type 0} (ws : List (Workflow F)) (m : Degrees)
    → IsDistinct (workflow_ids ws)
    → IsDistinct (ready ws m)
unfolding ready member
ready-IsDistinct [] m d = tt
ready-IsDistinct (w ∷ ws) m (a, d) =
    if-IsDistinct (is_zero (degree w.workflow_id m)) w.workflow_id (ready ws m)
      (elim (Bool-cases (member w.workflow_id (ready ws m))) [
        | inl e ↦ let (r, z) = ready_lem ws m w.workflow_id e in ground arith
        | inr e ↦ e
      ])
      (ready-IsDistinct ws m d)

zero_open : (n : ℕ) (k : ℤ) → k ≡ pos n → is_zero k ≡ true → n ≡ 0
zero_open zero k q z = refl
zero_open (suc n) k q z = ground arith

pub ready-Waits :
    {F : Type 0} (ws : List (Workflow F)) (es : Edges) (adj : List (Bytes × List Bytes))
    (m : Degrees)
    → IsDistinct (workflow_ids ws)
    → Graph es (adj, m)
    → Waits es [] (ready ws m) m
unfolding member
ready-Waits ws es adj m d g = record {
  counts = g.counts;
  distinct = ready-IsDistinct ws m d;
  fresh = λ i q. refl;
  settled = λ i q. zero_open (open_edges es [] i) (degree i m) (g.counts i) (ready_lem ws m i q).1;
  closed = λ i q. ground arith;
}

abbrev Sorting : Type 0
Sorting = Option (Result EngineError (List Bytes))

abbrev order_of : Sorting → List Bytes
order_of (some (ok xs)) = xs
order_of _ = []

completed-Follows :
    (es : Edges) (n : ℕ) (o : Option (List Bytes)) (order : List Bytes)
    → FollowsAll es [] o
    → Path Sorting (elim o [ none ↦ none | some xs ↦ some (complete n xs) ]) (some (ok order))
    → Follows es [] order
completed-Follows es n none order f e = ground arith
completed-Follows es n (some xs) order f e =
    let by : Bool → Sorting = λ b. some (if b then ok xs else err circular_dependency) in
    elim (Bool-cases (length xs == n)) [
      | inl q ↦ subst (Follows es []) (sym (ap order_of (ap by q)) ∙ ap order_of e) f
      | inr q ↦ let p = sym (ap by q) ∙ e in ground arith
    ]

-- For a document without two workflows of one id, the order of `topologicalSort` has each workflow
-- behind all workflows of the document that it depends on.
pub topological_sort-Follows :
    {F : Type 0} (ws : List (Workflow F)) (order : List Bytes)
    → IsDistinct (workflow_ids ws)
    → topological_sort ws ≡ some (ok order)
    → Follows (edges ws) [] order
unfolding topological_sort targets open_edges
topological_sort-Follows [] order d e = subst (Follows (edges []) []) (ap order_of e) tt
topological_sort-Follows (w ∷ ws) order d e =
    let known = zero_degrees (w ∷ ws) [] in
    let g = all_edges known (w ∷ ws) ([], known) in
    let graph = edges-Graph (w ∷ ws) in
    completed-Follows (edges (w ∷ ws)) _ _ order
      (drain-Follows (edges (w ∷ ws)) g.0 graph.following _ [] (ready (w ∷ ws) g.1) g.1
        (ready-Waits (w ∷ ws) (edges (w ∷ ws)) g.0 g.1 d graph))
      e
