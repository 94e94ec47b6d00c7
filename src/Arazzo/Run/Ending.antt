-- ===== src/Arazzo/Run/Ending.antt =====
-- arazzo/engine.go: how `RunAll` ends.
use libopenapi.Prelude.{
  suc, List, [], ◌∷◌, Option, none, some, Bytes, true, ◌≡◌, ◌≢◌, ◌⊎◌, refl, ap, inl, inr,
}
use mathlib.Core.Path.{subst}
use libopenapi.Prelude.Outcome.{Result, ok, err, Result-cases}
use libopenapi.Prelude.Dict.{lookup}
use libopenapi.Arazzo.Value.{Dict}
use libopenapi.Arazzo.Criterion.{Host, Caches}
use libopenapi.Arazzo.Engine.{EngineError, escapes}
use libopenapi.Arazzo.Engine.Escaping.{unless_escaping_lem}
use libopenapi.Arazzo.Engine.Document.{WorkflowResult}
use libopenapi.Arazzo.Engine.Order.{topological_sort}
use libopenapi.Arazzo.Engine.Scheduled.{topological_sort_ends}
use libopenapi.Arazzo.Engine.Transitions.{Shared, Runner}
use libopenapi.Arazzo.Run.{Outside, Engine}
use libopenapi.Arazzo.Run.Workflows.{max_workflow_depth, run_workflow, nested}
use libopenapi.Arazzo.Run.Fuel.{run_workflow-nested}
use libopenapi.Arazzo.Run.All.{
  RunResult, ran, run_unless, run_one, dependency_error, run_in_order, ordered, run_all_by, run_all,
}

module _ (h : Host) (out : Outside h.floats.Float) (e : Engine h.floats.Float) where
  open out use {World, ctx_err}

  -- No error but a panic.
  abbrev OnlyPanics : {A : Type 0} → Result EngineError A → Type 0
  OnlyPanics (ok a) = Unit
  OnlyPanics (err y) = escapes y ≡ true

  -- The error of the order, or a result, or a panic.
  abbrev pub Finishes :
      Option (Result EngineError (List Bytes))
      → Option (Result EngineError (RunResult h.floats.Float) × Shared h.floats.Float World)
      → Type 0
  Finishes o x =
      ((y : EngineError) × (o ≡ some (err y))
        × (s : Shared h.floats.Float World) × (x ≡ some (err y, s)))
      ⊎ ((order : List Bytes) × (o ≡ some (ok order))
          × (r : Result EngineError (RunResult h.floats.Float)) × (s : Shared h.floats.Float World)
          × (x ≡ some (r, s))
          × OnlyPanics r)

  ran-OnlyPanics :
      (id : Bytes) (inputs : Dict h.floats.Float)
      (x : Result EngineError (WorkflowResult h.floats.Float) × Shared h.floats.Float World)
      → OnlyPanics (ran h out e id inputs x).0
  ran-OnlyPanics id inputs (ok r, s) = tt
  ran-OnlyPanics id inputs (err x, s) =
      unless_escaping_lem
        (λ (y : Result EngineError (WorkflowResult h.floats.Float) × Shared h.floats.Float World).
          OnlyPanics y.0)
        (some x) (λ y p k. k) (λ p. tt)

  module _ (run : Runner h.floats.Float World) (inputs : Bytes → Dict h.floats.Float) where
    run_unless-OnlyPanics :
        (id : Bytes) (s : Shared h.floats.Float World) (x : Option EngineError)
        → OnlyPanics (run_unless h out e run inputs id s x).0
    run_unless-OnlyPanics id s (some x) = tt
    run_unless-OnlyPanics id s none = ran-OnlyPanics id (inputs id) (run id (inputs id) s)

    run_in_order-OnlyPanics :
        ((w : World) → (ctx_err w).0 ≡ none)
        → (order : List Bytes) (result : RunResult h.floats.Float) (s : Shared h.floats.Float World)
        → OnlyPanics (run_in_order h out e run inputs order result s).0
    unfolding run_in_order run_one
    run_in_order-OnlyPanics never [] result s = tt
    run_in_order-OnlyPanics never (id ∷ order) result s =
        let t = record s { world = (ctx_err s.world).1 } in
        let x = run_one h out e run inputs id t in
        elim (Result-cases x.0) [
          | inl (r, p) ↦
              rw (run_in_order, never s.world, p) (run_in_order-OnlyPanics never order _ x.1)
          | inr (y, p) ↦
              rw (run_in_order, never s.world, p)
                (subst OnlyPanics p
                  (run_unless-OnlyPanics id t (dependency_error h out e (lookup id e.workflows) t)))
        ]

    ordered-Finishes :
        ((w : World) → (ctx_err w).0 ≡ none)
        → (s : Shared h.floats.Float World) (o : Option (Result EngineError (List Bytes)))
        → o ≢ none
        → Finishes o (ordered h out e run inputs s o)
    ordered-Finishes never s none q = absurd (q refl)
    ordered-Finishes never s (some (err x)) q = inl (x, refl, s, refl)
    ordered-Finishes never s (some (ok order)) q =
        inr (order, refl, _, _, refl, run_in_order-OnlyPanics never order _ s)

  -- While the context is never done, `RunAll` ends for every document: with the error of the order,
  -- with a result, or with a panic. No workflow runs more than `maxWorkflowDepth` deep inside others:
  -- what is run below that depth makes no difference.
  pub run_all_ends :
      ((w : World) → (ctx_err w).0 ≡ none)
      → (inputs : Bytes → Dict h.floats.Float) (w : World) (c : Caches)
      → Finishes (topological_sort e.document.workflows) (run_all h out e inputs w c)
        × ((base : Runner h.floats.Float World)
            → run_all h out e inputs w c
              ≡ run_all_by h out e (nested h out e base (suc max_workflow_depth)) inputs w c)
  unfolding run_all run_all_by
  run_all_ends never inputs w c = (
    ordered-Finishes (run_workflow h out e (suc max_workflow_depth)) inputs never _
        (topological_sort e.document.workflows) (topological_sort_ends e.document.workflows),
    λ base.
        ap (λ (run : Runner h.floats.Float World). run_all_by h out e run inputs w c)
          (λ i id m s. run_workflow-nested h out e base id m s i),
  )
