-- ===== src/Arazzo/Engine/Dependencies.antt =====
-- arazzo/engine.go: the edges that `topologicalSort` counts, as dependencies of workflows.
use libopenapi.Prelude.{
  ◌<◌, true, List, [], ◌∷◌, Bytes, eqb, eqb_iff, eqb_refl, member, if◌then◌else◌, ◌≡◌, ap, arith,
  inl, inr, Bool-cases, All, All-append, append-All, ◌↔◌,
}
use mathlib.Core.Path.{subst}
use libopenapi.Arazzo.Engine.Document.{Workflow}
use libopenapi.Arazzo.Engine.Edges.{Edges, targets, occurrences}
use libopenapi.Arazzo.Engine.Graph.{workflow_ids, edges_to, edges_among}

module _ (P : Bytes × Bytes → Type 0) (ids : List Bytes) where
  -- What holds of the dependencies of workflows that are among `ids`.
  abbrev pub OfDependencies : {F : Type 0} → List (Workflow F) → Type 0
  OfDependencies =
      All (λ w.
        (d : Bytes) → member d ids ≡ true → member d w.depends_on ≡ true → P (d, w.workflow_id))

  edges_to-All :
      (id : Bytes) (deps : List Bytes)
      → ((d : Bytes) → member d ids ≡ true → member d deps ≡ true → P (d, id))
        ↔ All P (edges_to ids id deps)
  unfolding edges_to member
  edges_to-All id [] = (λ h. tt, λ h d q r. ground arith)
  edges_to-All id (dep ∷ deps) =
      let (to, from) = edges_to-All id deps in
      elim (Bool-cases (member dep ids)) [
        | inl e ↦ (
          λ h.
              rw (edges_to, e)
                (h dep e (ground (arith, eqb_refl dep)), to (λ d q r. h d q (ground arith))),
          λ h d q r.
              let (p, ps) =
                subst (All P)
                  (ap (λ b. if b then (dep, id) ∷ edges_to ids id deps else edges_to ids id deps) e)
                  h in
              elim (Bool-cases (eqb dep d)) [
                | inl x ↦ subst (λ k. P (k, id)) ((eqb_iff dep d).0 x) p
                | inr x ↦ from ps d q (ground arith)
              ],
        )
        | inr e ↦ (
          λ h. rw (edges_to, e) (to (λ d q r. h d q (ground arith))),
          λ h d q r.
              let ps =
                subst (All P)
                  (ap (λ b. if b then (dep, id) ∷ edges_to ids id deps else edges_to ids id deps) e)
                  h in
              elim (Bool-cases (eqb dep d)) [
                | inl x ↦ let y = ap (λ k. member k ids) ((eqb_iff dep d).0 x) in ground arith
                | inr x ↦ from ps d q (ground arith)
              ],
        )
      ]

  -- The edges are these dependencies.
  pub edges_among-All :
      {F : Type 0} (ws : List (Workflow F)) → OfDependencies ws ↔ All P (edges_among ids ws)
  unfolding edges_among
  edges_among-All [] = (λ h. tt, λ h. tt)
  edges_among-All (w ∷ ws) =
      let (to, from) = edges_to-All w.workflow_id w.depends_on in
      let (f, g) = edges_among-All ws in
      (
        λ (p, ps).
            All-append P (edges_to ids w.workflow_id w.depends_on) (edges_among ids ws) (to p)
              (f ps),
        λ h.
            let (p, ps) =
              append-All P (edges_to ids w.workflow_id w.depends_on) (edges_among ids ws) h in
            (from p, g ps),
      )

module _ (ids : List Bytes) where
  abbrev pub Ends : Bytes × Bytes → Type 0
  Ends (dep, id) = member id ids ≡ true

  own_ids :
      {F : Type 0} (ws : List (Workflow F))
      → ((i : Bytes) → member i (workflow_ids ws) ≡ true → member i ids ≡ true)
      → OfDependencies Ends ids ws
  unfolding member
  own_ids [] h = tt
  own_ids (w ∷ ws) h = (
    λ d q r. h w.workflow_id (ground (arith, eqb_refl w.workflow_id)),
    own_ids ws (λ i q. h i (ground arith)),
  )

  pub edges_among-Ends :
      {F : Type 0} (ws : List (Workflow F))
      → ((i : Bytes) → member i (workflow_ids ws) ≡ true → member i ids ≡ true)
      → All Ends (edges_among ids ws)
  edges_among-Ends ws h = (edges_among-All Ends ids ws).0 (own_ids ws h)

  pub target-member :
      (es : Edges)
      → All Ends es
      → (d i : Bytes) → 0 < occurrences i (targets d es)
      → member i ids ≡ true
  unfolding targets occurrences
  target-member [] h d i q = ground arith
  target-member ((dep, id) ∷ es) (q, h) d i s = ground (arith, target-member es h d i, eqb_iff id i)
