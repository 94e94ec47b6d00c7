-- ===== src/Arazzo/Validation/Scheduling.antt =====
-- arazzo/validation.go and arazzo/engine.go: what the dependencies that `Validate` checks are to
-- `topologicalSort`.
use libopenapi.Prelude.{
  ℕ, false, List, [], ◌∷◌, Option, none, some, Bytes, eqb, member, is_empty, if◌then◌else◌, ◌≡◌,
  ◌≢◌, refl, ap, ◌∙◌, arith, All,
}
use mathlib.Core.Path.{subst}
use libopenapi.Prelude.Outcome.{ok}
use libopenapi.Prelude.Dict.{lookup, insert, lookup-insert, lookup-insert_self}
use libopenapi.Arazzo.Value.{Floats}
use libopenapi.Arazzo.Engine.Document.{Workflow}
use libopenapi.Arazzo.Engine.Order.{dependents, topological_sort}
use libopenapi.Arazzo.Engine.Edges.{IsDistinct}
use libopenapi.Arazzo.Engine.Graph.{workflow_ids, edges}
use libopenapi.Arazzo.Engine.Sorted.{Follows}
use libopenapi.Arazzo.Engine.Follows.{topological_sort-Follows}
use libopenapi.Arazzo.Engine.Ordered.{IsRankedAmong, Lists, topological_sort-Lists}
use libopenapi.Arazzo.Validation.{Arazzo}
use libopenapi.Arazzo.Validation.Names.{named, see, keys, id_set}
use libopenapi.Arazzo.Validation.Operations.{Locations}
use libopenapi.Arazzo.Validation.Cycles.{Adjacency, adjacency}
use libopenapi.Arazzo.Validation.Cycles.Ranked.{IsRanked, Ranges}
use libopenapi.Arazzo.Validation.Validate.{validate}
use libopenapi.Arazzo.Validation.Accepted.{validate-IsDocument}
use libopenapi.Arazzo.Validation.Documents.{HasNoErrors, IsDocument}

named-cons : (id : Bytes) (ids : List Bytes) → id ≢ [] → see (named id) ids ≡ id ∷ ids
named-cons [] ids h = absurd (h refl)
named-cons (c ∷ s) ids h = refl

-- Where every id is named, the set of ids has them all.
pub id_set-workflow_ids :
    {F : Type 0} (ws : List (Workflow F))
    → All (λ w. w.workflow_id ≢ []) ws
    → id_set (λ w. w.workflow_id) ws ≡ workflow_ids ws
unfolding keys
id_set-workflow_ids [] h = refl
id_set-workflow_ids (w ∷ ws) (n, h) =
    ap (see (named w.workflow_id)) (id_set-workflow_ids ws h)
    ∙ named-cons w.workflow_id (workflow_ids ws) n

abbrev added : Bytes → List Bytes → Adjacency → Adjacency
added id deps adj = if is_empty id then adj else insert id deps adj

dependents-added :
    (id : Bytes) (deps : List Bytes) (adj : Adjacency)
    → id ≢ []
    → dependents id (added id deps adj) ≡ deps
dependents-added [] deps adj n = absurd (n refl)
dependents-added (c ∷ s) deps adj n =
    ap (λ o. elim o [ none ↦ [] | some ids ↦ ids ]) (lookup-insert_self (c ∷ s) deps adj)

abbrev list_or_none : Option (List Bytes) → List Bytes
list_or_none o = elim o [ none ↦ [] | some ids ↦ ids ]

dependents-added_other :
    (id i : Bytes) (deps : List Bytes) (adj : Adjacency)
    → eqb id i ≡ false
    → dependents i (added id deps adj) ≡ dependents i adj
dependents-added_other [] i deps adj q = refl
dependents-added_other (c ∷ s) i deps adj q =
    ap list_or_none
      (lookup-insert (c ∷ s) i deps adj ∙ ap (λ b. if b then some deps else lookup i adj) q)

pub dependents-adjacency :
    {F : Type 0} (ws : List (Workflow F)) (adj : Adjacency) (i : Bytes)
    → member i (workflow_ids ws) ≡ false
    → dependents i (adjacency ws adj) ≡ dependents i adj
unfolding adjacency member
dependents-adjacency [] adj i q = refl
dependents-adjacency (w ∷ ws) adj i q =
    dependents-adjacency ws (added w.workflow_id w.depends_on adj) i (ground arith)
    ∙ dependents-added_other w.workflow_id i w.depends_on adj (ground arith)

-- Each workflow has its dependencies in the graph that `checkCircularDependencies` builds.
pub adjacency-depends_on :
    {F : Type 0} (ws : List (Workflow F)) (adj : Adjacency)
    → All (λ w. w.workflow_id ≢ []) ws
    → IsDistinct (workflow_ids ws)
    → All (λ w. dependents w.workflow_id (adjacency ws adj) ≡ w.depends_on) ws
unfolding adjacency
adjacency-depends_on [] adj h d = tt
adjacency-depends_on (w ∷ ws) adj (n, h) (new, d) = (
  dependents-adjacency ws (added w.workflow_id w.depends_on adj) w.workflow_id new
      ∙ dependents-added w.workflow_id w.depends_on adj n,
  adjacency-depends_on ws (added w.workflow_id w.depends_on adj) h d,
)

pub ranked_among :
    {F : Type 0} (rank : Bytes → ℕ) (ids : List Bytes) (adj : Adjacency) (ws : List (Workflow F))
    → IsRanked adj rank
    → All (λ w. dependents w.workflow_id adj ≡ w.depends_on) ws
    → IsRankedAmong rank ids ws
ranked_among rank ids adj [] r h = tt
ranked_among rank ids adj (w ∷ ws) r (e, h) =
    (λ d known dep. r w.workflow_id d (ap (member d) e ∙ dep), ranked_among rank ids adj ws r h)

module _ (order : Adjacency → List Bytes) (ranges : (adj : Adjacency) → Ranges adj (order adj))
    (loc : Locations) (floats : Floats) (doc : Arazzo floats.Float) where
  -- For a document in which Validate finds no error, topologicalSort succeeds: its order has each
  -- workflow once and none else, each behind all that it depends on.
  pub validate-topological_sort :
      HasNoErrors (validate loc floats order (some doc))
      → (ids : List Bytes) × ((topological_sort doc.workflows ≡ some (ok ids))
          × (Lists (workflow_ids doc.workflows) ids × Follows (edges doc.workflows) [] ids))
  validate-topological_sort h =
      let d : IsDocument loc floats doc = (validate-IsDocument order ranges loc floats doc).0 h in
      let ws = doc.workflows in
      let distinct = subst IsDistinct (id_set-workflow_ids ws d.named) d.ids in
      let (rank, ranked) = d.acyclic in
      let (ids, sorted, lists) = topological_sort-Lists ws rank distinct (
        ranked_among rank (workflow_ids ws) (adjacency ws []) ws ranked
          (adjacency-depends_on ws [] d.named distinct)) in
      (ids, (sorted, (lists, topological_sort-Follows ws ids distinct sorted)))
