-- ===== src/Arazzo/Run/Reports.antt =====
-- arazzo/engine.go: the results that `RunAll` returns.
use libopenapi.Prelude.{
  Bool, true, false, ◌&&◌, List, [], ◌∷◌, ◌++◌, append_assoc, append-nil, map, Option, none, some,
  suc, Bytes, All, All-append, append-All, ◌≡◌, ◌↔◌, refl, sym, ap, ◌∙◌, arith, inl, inr,
  Option-cases,
}
use mathlib.Core.Path.{subst}
use libopenapi.Prelude.Outcome.{Result, ok, err, Result-cases}
use libopenapi.Prelude.Dict.{lookup}
use libopenapi.Arazzo.Value.{Dict}
use libopenapi.Arazzo.Criterion.{Host, Caches}
use libopenapi.Arazzo.Engine.{EngineError, out_of_fuel}
use libopenapi.Arazzo.Engine.Document.{Workflow, WorkflowResult}
use libopenapi.Arazzo.Engine.Order.{topological_sort}
use libopenapi.Arazzo.Engine.Escaping.{unless_escaping_lem}
use libopenapi.Arazzo.Engine.Scheduled.{HasSucceeded, dependency_execution_error_lem}
use libopenapi.Arazzo.Engine.Transitions.{Shared, Runner}
use libopenapi.Arazzo.Run.{Outside, Engine}
use libopenapi.Arazzo.Run.Workflows.{run_workflow, max_workflow_depth}
use libopenapi.Arazzo.Run.All.{
  RunResult, ran, run_unless, run_one, dependency_error, run_in_order, ordered, run_all_by, run_all,
}
use libopenapi.Arazzo.Run.Concluded.{
  Ends, circular, too_deep, unknown, concludes, panics, run_workflow-Ends,
}

abbrev pub ids : {F : Type 0} → List (WorkflowResult F) → List Bytes
ids rs = map (λ r. r.workflow_id) rs

abbrev pub AllSucceeded : {F : Type 0} → List (WorkflowResult F) → Type 0
AllSucceeded rs = All (λ r. r.success ≡ true) rs

module _ (h : Host) (out : Outside h.floats.Float) (e : Engine h.floats.Float) where
  open out use {World, ctx_err}

  -- A result, if there is one, has the id.
  abbrev IsNamed : Bytes → Result EngineError (WorkflowResult h.floats.Float) → Type 0
  IsNamed id (ok r) = r.workflow_id ≡ id
  IsNamed id (err x) = Unit

  ran-IsNamed :
      (id : Bytes) (inputs : Dict h.floats.Float) (s : Shared h.floats.Float World)
      (x : Result EngineError (WorkflowResult h.floats.Float) × Shared h.floats.Float World)
      → Ends e.workflows id inputs s x
      → IsNamed id (ran h out e id inputs x).0
  ran-IsNamed id inputs s (err x, t) ends =
      unless_escaping_lem
        (λ (y : Result EngineError (WorkflowResult h.floats.Float) × Shared h.floats.Float World).
          IsNamed id y.0)
        (some x) (λ y p k. tt) (λ p. refl)
  ran-IsNamed id inputs s (ok r, t) (circular a p) = ground arith
  ran-IsNamed id inputs s (ok r, t) (too_deep a b p) = ground arith
  ran-IsNamed id inputs s (ok r, t) (unknown a b q p) = ground arith
  ran-IsNamed id inputs s (ok r, t) (concludes a b wf q r' p c) =
      ap (λ x. elim x [ ok a ↦ a.workflow_id | err y ↦ id ]) p ∙ c.named
  ran-IsNamed id inputs s (ok r, t) (panics a b wf q y p k) = ground arith

  abbrev run : Runner h.floats.Float World
  run = run_workflow h out e (suc max_workflow_depth)

  run_unless-IsNamed :
      (inputs : Bytes → Dict h.floats.Float) (id : Bytes) (s : Shared h.floats.Float World)
      (x : Option EngineError)
      → IsNamed id (run_unless h out e run inputs id s x).0
  run_unless-IsNamed inputs id s (some x) = refl
  run_unless-IsNamed inputs id s none =
      ran-IsNamed id (inputs id) s _ (run_workflow-Ends h out e max_workflow_depth id (inputs id) s)

  run_unless-success :
      (inputs : Bytes → Dict h.floats.Float) (id : Bytes) (s : Shared h.floats.Float World)
      (x : Option EngineError) (r : WorkflowResult h.floats.Float)
      → (run_unless h out e run inputs id s x).0 ≡ ok r
      → r.success ≡ true
      → x ≡ none
  run_unless-success inputs id s (some x) r p q = ground arith
  run_unless-success inputs id s none r p q = refl

  -- A workflow of the order that succeeds has had, before, a successful result of each workflow that
  -- it depends on.
  pub run_one-HasSucceeded :
      (inputs : Bytes → Dict h.floats.Float) (id : Bytes) (s : Shared h.floats.Float World)
      (wf : Workflow h.floats.Float) (r : WorkflowResult h.floats.Float)
      → lookup id e.workflows ≡ some wf
      → (run_one h out e (run_workflow h out e (suc max_workflow_depth)) inputs id s).0 ≡ ok r
      → r.success ≡ true
      → All (HasSucceeded s.execution.workflow_results) wf.depends_on
  unfolding run_one
  run_one-HasSucceeded inputs id s wf r q p k =
      (dependency_execution_error_lem wf s.execution.workflow_results).0 (
        sym (ap (λ o. dependency_error h out e o s) q)
        ∙ run_unless-success inputs id s (dependency_error h out e (lookup id e.workflows) s) r p k)

  abbrev Sound : RunResult h.floats.Float → Type 0
  Sound result = (result.success ≡ true) ↔ AllSucceeded result.workflows

  both : (a b : Bool) → (a && b ≡ true) ↔ ((a ≡ true) × (b ≡ true))
  both true b = (λ p. (refl, p), λ (p, q). q)
  both false b = (λ p. ground arith, λ (p, q). ground arith)

  abbrev extended :
      RunResult h.floats.Float → WorkflowResult h.floats.Float → RunResult h.floats.Float
  extended result r = record {
    workflows = result.workflows ++ (r ∷ []);
    success = result.success && r.success;
  }

  extended-Sound :
      (result : RunResult h.floats.Float) (r : WorkflowResult h.floats.Float)
      → Sound result
      → Sound (extended result r)
  extended-Sound result r (there, back) = (
    λ p.
        let (a, b) = (both result.success r.success).0 p in
        All-append _ result.workflows (r ∷ []) (there a) (b, tt),
    λ ps.
        let (a, b) = append-All _ result.workflows (r ∷ []) ps in
        (both result.success r.success).1 (back a, b.0),
  )

  ids-append : (rs qs : List (WorkflowResult h.floats.Float)) → ids (rs ++ qs) ≡ ids rs ++ ids qs
  ids-append [] qs = refl
  ids-append (r ∷ rs) qs = ap (λ x. r.workflow_id ∷ x) (ids-append rs qs)

  -- The results are those of the order, in the order, behind what there was; and the run is a
  -- success exactly where all of them are.
  abbrev Reported :
      List Bytes → RunResult h.floats.Float → Result EngineError (RunResult h.floats.Float) → Type 0
  Reported order result (err x) = Unit
  Reported order result (ok fin) = Sound fin × (ids fin.workflows ≡ ids result.workflows ++ order)

  extended-Reported :
      (id : Bytes) (order : List Bytes) (result : RunResult h.floats.Float)
      (r : WorkflowResult h.floats.Float)
      → r.workflow_id ≡ id
      → (x : Result EngineError (RunResult h.floats.Float)) → Reported order (extended result r) x
      → Reported (id ∷ order) result x
  extended-Reported id order result r q (err x) tt = tt
  extended-Reported id order result r q (ok fin) (sound, p) = (
    sound,
    p
        ∙ ap (λ xs. xs ++ order) (ids-append result.workflows (r ∷ []))
        ∙ append_assoc (ids result.workflows) (r.workflow_id ∷ []) order
        ∙ ap (λ j. ids result.workflows ++ (j ∷ order)) q,
  )

  run_one-IsNamed :
      (inputs : Bytes → Dict h.floats.Float) (id : Bytes) (s : Shared h.floats.Float World)
      → IsNamed id (run_one h out e run inputs id s).0
  unfolding run_one
  run_one-IsNamed inputs id s =
      run_unless-IsNamed inputs id s (dependency_error h out e (lookup id e.workflows) s)

  run_in_order-Reported :
      (inputs : Bytes → Dict h.floats.Float) (order : List Bytes)
      (result : RunResult h.floats.Float) (s : Shared h.floats.Float World)
      → Sound result
      → Reported order result (run_in_order h out e run inputs order result s).0
  unfolding run_in_order
  run_in_order-Reported inputs [] result s sound = (sound, sym (append-nil (ids result.workflows)))
  run_in_order-Reported inputs (id ∷ order) result s sound =
      elim (Option-cases (ctx_err s.world).0) [
        | inl q ↦
            let x = run_one h out e run inputs id (record s { world = (ctx_err s.world).1 }) in
            elim (Result-cases x.0) [
              | inl (r, p) ↦
                  rw (run_in_order, q, p)
                    (extended-Reported id order result r
                      (subst (IsNamed id) p
                        (run_one-IsNamed inputs id (record s { world = (ctx_err s.world).1 })))
                      _
                      (run_in_order-Reported inputs order (extended result r) x.1
                        (extended-Sound result r sound)))
              | inr (y, p) ↦ rw (run_in_order, q, p) tt
            ]
        | inr (m, q) ↦ rw (run_in_order, q) tt
      ]

  first :
      Option (Result EngineError (RunResult h.floats.Float) × Shared h.floats.Float World)
      → Result EngineError (RunResult h.floats.Float)
  first none = err out_of_fuel
  first (some x) = x.0

  ordered-AllSucceeded :
      (inputs : Bytes → Dict h.floats.Float) (w : Shared h.floats.Float World)
      (fin : RunResult h.floats.Float) (s : Shared h.floats.Float World)
      (o : Option (Result EngineError (List Bytes)))
      → ordered h out e run inputs w o ≡ some (ok fin, s)
      → ((fin.success ≡ true) ↔ AllSucceeded fin.workflows) × (o ≡ some (ok (ids fin.workflows)))
  unfolding first run_in_order
  ordered-AllSucceeded inputs w fin s none p = ground arith
  ordered-AllSucceeded inputs w fin s (some (err x)) p = ground arith
  ordered-AllSucceeded inputs w fin s (some (ok order)) p =
      let (sound, q) =
        subst (Reported order (record { workflows = []; success = true })) (ap first p)
          (run_in_order-Reported inputs order _ w (λ q. tt, λ q. refl)) in
      (sound, ap (λ x. some (ok x)) (sym q))

  -- `RunAll` has one result for each id of the order, in the order; and it is a success exactly where
  -- all of them are.
  pub run_all-AllSucceeded :
      (inputs : Bytes → Dict h.floats.Float) (w : World) (c : Caches)
      (fin : RunResult h.floats.Float) (s : Shared h.floats.Float World)
      → run_all h out e inputs w c ≡ some (ok fin, s)
      → ((fin.success ≡ true) ↔ AllSucceeded fin.workflows)
        × (topological_sort e.document.workflows ≡ some (ok (ids fin.workflows)))
  unfolding run_all run_all_by
  run_all-AllSucceeded inputs w c fin s p =
      ordered-AllSucceeded inputs _ fin s (topological_sort e.document.workflows) p
