-- ===== src/Arazzo/Engine/Graph.antt =====
-- arazzo/engine.go: the graph that `topologicalSort` builds of the dependencies of a document.
use libopenapi.Prelude.{
  suc, ◌+◌, Bool, true, false, ◌||◌, List, [], ◌∷◌, ◌++◌, append_assoc, append-nil, map, Bytes, eqb,
  eqb_iff, member, Option, none, some, if◌then◌else◌, ◌≡◌, refl, sym, ap, ◌∙◌, arith, inl, inr,
  Bool-cases, Option-cases,
}
use mathlib.Core.Path.{subst}
use libopenapi.Prelude.Number.{ℤ, pos}
use libopenapi.Prelude.Dict.{lookup, insert, lookup-insert}
use libopenapi.Arazzo.Engine.Document.{Workflow}
use libopenapi.Arazzo.Engine.Order.{
  Degrees, degree, increment, dependents, zero_degrees, add_edges, all_edges,
}
use libopenapi.Arazzo.Engine.Edges.{Edges, open_edges, targets, degree-insert, Counts}

abbrev pub workflow_ids : {F : Type 0} → List (Workflow F) → List Bytes
workflow_ids ws = map (λ w. w.workflow_id) ws

-- The dependencies of a workflow that are among `ids`.
unfoldable pub edges_to : List Bytes → Bytes → List Bytes → Edges
edges_to ids id [] = []
edges_to ids id (dep ∷ deps) =
    let rest = edges_to ids id deps in if member dep ids then (dep, id) ∷ rest else rest

unfoldable pub edges_among : {F : Type 0} → List Bytes → List (Workflow F) → Edges
unfolding edges_to
edges_among ids [] = []
edges_among ids (w ∷ ws) = edges_to ids w.workflow_id w.depends_on ++ edges_among ids ws

-- The dependencies of a document on its own workflows.
abbrev pub edges : {F : Type 0} → List (Workflow F) → Edges
edges ws = edges_among (workflow_ids ws) ws

abbrev pub is_some : {A : Type 0} → Option A → Bool
is_some none = false
is_some (some a) = true

abbrev or_empty : Option (List Bytes) → List Bytes
or_empty o = elim o [ none ↦ [] | some ids ↦ ids ]

or_empty-if :
    (b : Bool) (v : List Bytes) (o : Option (List Bytes))
    → or_empty (if b then some v else o) ≡ (if b then v else or_empty o)
or_empty-if true v o = refl
or_empty-if false v o = refl

dependents-insert :
    (k j : Bytes) (v : List Bytes) (adj : List (Bytes × List Bytes))
    → dependents j (insert k v adj) ≡ (if eqb k j then v else dependents j adj)
dependents-insert k j v adj =
    ap or_empty (lookup-insert k j v adj) ∙ or_empty-if (eqb k j) v (lookup j adj)

-- What the second loop has built.
pub record Graph (es : Edges) (g : List (Bytes × List Bytes) × Degrees) : Type 0 where
  pub following : (i : Bytes) → dependents i g.0 ≡ targets i es
  pub counts : Counts g.1 (open_edges es [])

module _ (dep id : Bytes) where
  targets-append :
      (i : Bytes) (es : Edges)
      → targets i (es ++ ((dep, id) ∷ [])) ≡ targets i es ++ (if eqb i dep then id ∷ [] else [])
  unfolding targets
  targets-append i [] = refl
  targets-append i ((d, j) ∷ es) = elim (Bool-cases (eqb i d)) [
    | inl e ↦ rw e (ap (λ xs. j ∷ xs) (targets-append i es))
    | inr e ↦ rw e (targets-append i es)
  ]

  open_edges_last :
      (i : Bytes) (es : Edges)
      → open_edges (es ++ ((dep, id) ∷ [])) [] i ≡ open_edges es [] i + (if eqb id i then 1 else 0)
  unfolding open_edges member
  open_edges_last i [] = elim (Bool-cases (eqb id i)) [ inl e ↦ rw e refl | inr e ↦ rw e refl ]
  open_edges_last i ((d, j) ∷ es) = ground (arith, open_edges_last i es)

or_false : (b : Bool) → b ≡ (b || false)
or_false true = refl
or_false false = refl

pub is_some-insert :
    (k d : Bytes) (n : ℤ) (m : Degrees)
    → is_some (lookup d (insert k n m)) ≡ (is_some (lookup d m) || eqb k d)
is_some-insert k d n m = ap is_some (lookup-insert k d n m) ∙ by (eqb k d) (lookup d m)
  where
    by : (b : Bool) (o : Option ℤ) → is_some (if b then some n else o) ≡ (is_some o || b)
    by true none = refl
    by true (some k) = refl
    by false none = refl
    by false (some k) = refl

pub known_lem :
    {F : Type 0} (ws : List (Workflow F)) (d : Bytes) (m : Degrees)
    → is_some (lookup d (zero_degrees ws m)) ≡ (is_some (lookup d m) || member d (workflow_ids ws))
unfolding zero_degrees member
known_lem [] d m = or_false (is_some (lookup d m))
known_lem (w ∷ ws) d m = elim (Option-cases (lookup w.workflow_id m)) [
  | inl q ↦
      rw (zero_degrees, q)
        (known_lem ws d (insert w.workflow_id (pos 0) m)
          ∙ ap (λ b. b || member d (workflow_ids ws)) (is_some-insert w.workflow_id d (pos 0) m)
          ∙ regroup (is_some (lookup d m)) (eqb w.workflow_id d) (member d (workflow_ids ws)))
  | inr (n, q) ↦
      rw (zero_degrees, q)
        (known_lem ws d m
          ∙ absorb (is_some (lookup d m)) (eqb w.workflow_id d) (member d (workflow_ids ws)) (λ e.
            ap (λ k. is_some (lookup k m)) (sym ((eqb_iff w.workflow_id d).0 e)) ∙ ap is_some q))
]
  where
    regroup : (a b c : Bool) → ((a || b) || c) ≡ (a || (if b then true else c))
    regroup a b c = ground arith

    absorb : (a b c : Bool) → (b ≡ true → a ≡ true) → (a || c) ≡ (a || (if b then true else c))
    absorb a b c h = ground arith

pub zero_degrees-zero :
    {F : Type 0} (ws : List (Workflow F)) (m : Degrees)
    → Counts m (λ i. 0)
    → Counts (zero_degrees ws m) (λ i. 0)
unfolding zero_degrees
zero_degrees-zero [] m h = h
zero_degrees-zero (w ∷ ws) m h = elim (Option-cases (lookup w.workflow_id m)) [
  | inl q ↦
      rw (zero_degrees, q)
        (zero_degrees-zero ws (insert w.workflow_id (pos 0) m) (λ i.
          degree-insert w.workflow_id i (pos 0) m ∙ still (eqb w.workflow_id i) (degree i m) (h i)))
  | inr (n, q) ↦ rw (zero_degrees, q) (zero_degrees-zero ws m h)
]
  where
    still : (b : Bool) (n : ℤ) → n ≡ pos 0 → (if b then pos 0 else n) ≡ pos 0
    still true n q = refl
    still false n q = q

eqb_sym : (a b : Bytes) → eqb a b ≡ eqb b a
eqb_sym a b = ground (arith, eqb_iff a b, eqb_iff b a)

module _ (es : Edges) (adj : List (Bytes × List Bytes)) (m : Degrees) (dep id : Bytes)
    (g : Graph es (adj, m)) where
  follow :
      (i : Bytes) (b : Bool)
      → (b ≡ true → dep ≡ i)
      → (if b then dependents dep adj ++ (id ∷ []) else dependents i adj)
        ≡ targets i es ++ (if b then id ∷ [] else [])
  follow i true h =
      ap (λ xs. xs ++ (id ∷ [])) (g.following dep) ∙ ap (λ k. targets k es ++ (id ∷ [])) (h refl)
  follow i false h = g.following i ∙ sym (append-nil (targets i es))

  recount :
      (i : Bytes) (b : Bool)
      → (b ≡ true → id ≡ i)
      → (if b then increment (degree id m) else degree i m)
        ≡ pos (open_edges es [] i + (if b then 1 else 0))
  recount i true h =
      ap increment (g.counts id)
      ∙ ap (λ k. pos (suc (open_edges es [] k))) (h refl)
      ∙ ap pos one_more
    where
      one_more : suc (open_edges es [] i) ≡ open_edges es [] i + 1
      one_more = omega arith
  recount i false h = g.counts i ∙ ap pos none_more
    where
      none_more : open_edges es [] i ≡ open_edges es [] i + 0
      none_more = omega arith

  added-Graph :
      Graph
        (es ++ ((dep, id) ∷ []))
        (insert dep (dependents dep adj ++ (id ∷ [])) adj, insert id (increment (degree id m)) m)
  added-Graph = record {
    following = λ i.
        dependents-insert dep i (dependents dep adj ++ (id ∷ [])) adj
        ∙ follow i (eqb dep i) (eqb_iff dep i).0
        ∙ ap (λ b. targets i es ++ (if b then id ∷ [] else [])) (eqb_sym dep i)
        ∙ sym (targets-append dep id i es);
    counts = λ i.
        degree-insert id i (increment (degree id m)) m
        ∙ recount i (eqb id i) (eqb_iff id i).0
        ∙ ap pos (sym (open_edges_last dep id i es));
  }

module _ (known : Degrees) (ids : List Bytes)
    (knows : (d : Bytes) → is_some (lookup d known) ≡ member d ids) where
  add_edges-Graph :
      (id : Bytes) (deps : List Bytes) (es : Edges) (g : List (Bytes × List Bytes) × Degrees)
      → Graph es g
      → Graph (es ++ edges_to ids id deps) (add_edges known id deps g)
  unfolding add_edges edges_to
  add_edges-Graph id [] es g h = subst (λ x. Graph x g) (sym (append-nil es)) h
  add_edges-Graph id (dep ∷ deps) es (adj, m) h = elim (Option-cases (lookup dep known)) [
    | inl q ↦
        rw (add_edges, q, sym (knows dep) ∙ ap is_some q) (add_edges-Graph id deps es (adj, m) h)
    | inr (n, q) ↦
        rw (add_edges, q, sym (knows dep) ∙ ap is_some q)
          (subst
            (λ x. Graph x (
              add_edges known id deps (
                insert dep (dependents dep adj ++ (id ∷ [])) adj,
                insert id (increment (degree id m)) m,
              )))
            (append_assoc es ((dep, id) ∷ []) (edges_to ids id deps))
            (add_edges-Graph id deps (es ++ ((dep, id) ∷ [])) _ (added-Graph es adj m dep id h)))
  ]

  pub all_edges-Graph :
      {F : Type 0} (ws : List (Workflow F)) (es : Edges) (g : List (Bytes × List Bytes) × Degrees)
      → Graph es g
      → Graph (es ++ edges_among ids ws) (all_edges known ws g)
  unfolding all_edges edges_among
  all_edges-Graph [] es g h = subst (λ x. Graph x g) (sym (append-nil es)) h
  all_edges-Graph (w ∷ ws) es g h =
      subst (λ x. Graph x (all_edges known ws (add_edges known w.workflow_id w.depends_on g)))
        (append_assoc es (edges_to ids w.workflow_id w.depends_on) (edges_among ids ws))
        (all_edges-Graph ws (es ++ edges_to ids w.workflow_id w.depends_on)
          (add_edges known w.workflow_id w.depends_on g)
          (add_edges-Graph w.workflow_id w.depends_on es g h))

-- The graph of a document.
pub edges-Graph :
    {F : Type 0} (ws : List (Workflow F))
    → Graph (edges ws) (all_edges (zero_degrees ws []) ws ([], zero_degrees ws []))
unfolding targets open_edges lookup
edges-Graph ws =
    all_edges-Graph (zero_degrees ws []) (workflow_ids ws) (λ i. known_lem ws i []) ws []
      ([], zero_degrees ws [])
      (record { following = λ i. refl; counts = zero_degrees-zero ws [] (λ i. refl) })
