-- ===== src/Arazzo/Validation/Agreement.antt =====
-- arazzo/validation.go and arazzo/engine.go: the search of `checkCircularDependencies` and the queue
-- of `topologicalSort` find the same cycles.
use libopenapi.Prelude.{
  All-map, ℕ, suc, ◌<◌, true, false, List, [], ◌∷◌, ◌++◌, some, Bytes, eqb, eqb_iff, eqb_refl,
  member, ◌==◌, if◌then◌else◌, ◌≡◌, ◌≢◌, ◌↔◌, ◌⊎◌, refl, sym, ap, ◌∙◌, arith, inl, inr, All,
  Bool-cases,
}
use mathlib.Core.Path.{subst}
use libopenapi.Prelude.Outcome.{ok}
use libopenapi.Prelude.Dict.{lookup}
use libopenapi.Arazzo.Engine.Document.{Workflow}
use libopenapi.Arazzo.Engine.Order.{dependents, topological_sort}
use libopenapi.Arazzo.Engine.Edges.{Edges, open_edges, IsDistinct, member_last}
use libopenapi.Arazzo.Engine.Graph.{workflow_ids, edges}
use libopenapi.Arazzo.Engine.Sorted.{Follows}
use libopenapi.Arazzo.Engine.Follows.{topological_sort-Follows}
use libopenapi.Arazzo.Engine.Dependencies.{OfDependencies, edges_among-All, Ends, edges_among-Ends}
use libopenapi.Arazzo.Engine.Ordered.{Lists, topological_sort-Lists, topological_sort-sorted-Lists}
use libopenapi.Arazzo.Validation.Cycles.{Adjacency, adjacency, cycles}
use libopenapi.Arazzo.Validation.Cycles.Acyclic.{cycles-IsAcyclic}
use libopenapi.Arazzo.Validation.Cycles.Ranked.{IsAcyclic, Ranges}
use libopenapi.Arazzo.Validation.Scheduling.{
  dependents-adjacency, adjacency-depends_on, ranked_among,
}

-- A dependency is done where none is open.
abbrev Closes : Edges → Bytes × Bytes → Type 0
Closes es (d, i) = (done : List Bytes) → open_edges es done i ≡ 0 → member d done ≡ true

edges-Closes : (es : Edges) → All (Closes es) es
unfolding open_edges
edges-Closes [] = tt
edges-Closes ((d, i) ∷ es) = (
  λ done q. ground (arith, eqb_refl i),
  All-map (Closes es) _ (λ (e, j) h done q. h done (ground arith)) es (edges-Closes es),
)

-- The place of an id in an order, from one on, or zero.
unfoldable place : List Bytes → Bytes → ℕ
place [] i = 0
place (j ∷ js) i = let n = place js i in if eqb j i then 1 else if n == 0 then 0 else suc n

place-member : (order : List Bytes) (i : Bytes) → member i order ≡ true → 0 < place order i
unfolding place member
place-member [] i q = ground arith
place-member (j ∷ js) i q = ground (arith, place-member js i)

module _ (es : Edges) (d i : Bytes) (c : Closes es (d, i)) where
  Follows-place :
      (done order : List Bytes)
      → Follows es done order
      → member i order ≡ true
      → (member d done ≡ true) ⊎ ((0 < place order d) × (place order d < place order i))
  unfolding place member
  Follows-place done [] f q = ground arith
  Follows-place done (x ∷ xs) (zero_open, f) q = elim (Bool-cases (eqb x i)) [
    | inl e ↦ inl (c done (ap (open_edges es done) (sym ((eqb_iff x i).0 e)) ∙ zero_open))
    | inr e ↦
        let later : member i xs ≡ true = ground arith in
        let there = place-member xs i later in
        elim (Follows-place (done ++ (x ∷ [])) xs f later) [
          | inl p ↦ elim (Bool-cases (member d done)) [
            | inl r ↦ inl r
            | inr r ↦
                let is_x : eqb x d ≡ true = ground (arith, member_last d x done) in
                inr (ground arith)
          ]
          | inr (p, less) ↦ inr (ground arith)
        ]
  ]

place-not_member : (order : List Bytes) (i : Bytes) → member i order ≡ false → place order i ≡ 0
unfolding place member
place-not_member [] i q = refl
place-not_member (j ∷ js) i q = ground (arith, place-not_member js i)

abbrev Rises : List Bytes → Bytes × Bytes → Type 0
Rises order (d, i) = place order d < place order i

-- An order in which each id stands behind its open dependencies gives them places below its own.
rises :
    (ids order : List Bytes) (es all_edges : Edges)
    → Follows all_edges [] order
    → ((i : Bytes) → member i ids ≡ true → member i order ≡ true)
    → All (Ends ids) es
    → All (Closes all_edges) es
    → All (Rises order) es
unfolding member
rises ids order [] all_edges f h ends c = tt
rises ids order ((d, i) ∷ es) all_edges f h (e, ends) (c, cs) = (
  elim (Follows-place all_edges d i c [] order f (h i e)) [
    | inl q ↦ ground arith
    | inr (p, less) ↦ less
  ],
  rises ids order es all_edges f h ends cs,
)

-- What holds of every workflow's id holds of every id of the document.
of_ids :
    {F : Type 0} (P : Bytes → Type 0) (ws : List (Workflow F)) (i : Bytes)
    → All (λ w. P w.workflow_id) ws
    → member i (workflow_ids ws) ≡ true
    → P i
unfolding member
of_ids P [] i h q = ground arith
of_ids P (w ∷ ws) i (p, h) q = elim (Bool-cases (eqb w.workflow_id i)) [
  | inl e ↦ subst P ((eqb_iff w.workflow_id i).0 e) p
  | inr e ↦ of_ids P ws i h (ground arith)
]

module _ (ids order : List Bytes) (adj : Adjacency) (lists : Lists ids order) where
  abbrev Placed : Bytes → Type 0
  Placed i = (d : Bytes) → member d (dependents i adj) ≡ true → place order d < place order i

  placed :
      {F : Type 0} (ws : List (Workflow F))
      → ((i : Bytes) → member i (workflow_ids ws) ≡ true → member i ids ≡ true)
      → All (λ w. dependents w.workflow_id adj ≡ w.depends_on) ws
      → OfDependencies (Rises order) ids ws
      → All (λ w. Placed w.workflow_id) ws
  unfolding member
  placed [] h e r = tt
  placed (w ∷ ws) h (e, es) (r, rs) = (
    λ d q. elim (Bool-cases (member d ids)) [
      | inl k ↦ r d k (sym (ap (member d) e) ∙ q)
      | inr k ↦
          let there =
            place-member order w.workflow_id
              (lists.2 w.workflow_id (h w.workflow_id (ground (arith, eqb_refl w.workflow_id)))) in
          omega (arith, place-not_member order d (absent d k), there)
    ],
    placed ws (λ i q. h i (ground arith)) es rs,
  )
    where
      absent : (d : Bytes) → member d ids ≡ false → member d order ≡ false
      absent d k = elim (Bool-cases (member d order)) [
        | inl e ↦ let x = lists.1 d e in ground arith
        | inr e ↦ e
      ]

sorted-IsAcyclic :
    {F : Type 0} (ws : List (Workflow F)) (order : List Bytes)
    → All (λ w. w.workflow_id ≢ []) ws
    → IsDistinct (workflow_ids ws)
    → topological_sort ws ≡ some (ok order)
    → IsAcyclic (adjacency ws [])
unfolding lookup member
sorted-IsAcyclic ws order n d e =
    let ids = workflow_ids ws in
    let adj = adjacency ws [] in
    let lists = topological_sort-sorted-Lists ws order d e in
    let rise =
      rises ids order (edges ws) (edges ws) (topological_sort-Follows ws order d e) lists.2
        (edges_among-Ends ids ws (λ i q. q)) (edges-Closes (edges ws)) in
    let all =
      placed ids order adj lists ws (λ i q. q) (adjacency-depends_on ws [] n d)
        ((edges_among-All (Rises order) ids ws).1 rise) in
    (
      place order,
      λ i dep q. elim (Bool-cases (member i ids)) [
        | inl k ↦ of_ids (Placed ids order adj lists) ws i all k dep q
        | inr k ↦
            let gone = sym (ap (member dep) (dependents-adjacency ws [] i k)) ∙ q in ground arith
      ],
    )

-- For workflows with ids of their own, checkCircularDependencies reports no cycle exactly where
-- topologicalSort succeeds, in every order of the keys.
pub cycles-topological_sort :
    {F : Type 0} (ws : List (Workflow F)) (order : List Bytes)
    → Ranges (adjacency ws []) order
    → All (λ w. w.workflow_id ≢ []) ws
    → IsDistinct (workflow_ids ws)
    → (cycles (adjacency ws []) order ≡ some [])
      ↔ ((ids : List Bytes) × (topological_sort ws ≡ some (ok ids)))
cycles-topological_sort ws order r n d =
    let (to, from) = cycles-IsAcyclic (adjacency ws []) order r in
    (
      λ c.
          let (rank, ranked) = to c in
          let (ids, sorted, lists) = topological_sort-Lists ws rank d (
            ranked_among rank (workflow_ids ws) (adjacency ws []) ws ranked
              (adjacency-depends_on ws [] n d)) in
          (ids, sorted),
      λ (ids, e). from (sorted-IsAcyclic ws ids n d e),
    )
