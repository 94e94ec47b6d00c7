-- ===== src/Arazzo/Validation/Documents.antt =====
-- arazzo/validation.go: the results of `Validate` without errors, and the rules of a document.
use libopenapi.Prelude.{
  true, List, [], ◌∷◌, Option, none, some, Bytes, codes, has_prefix, ◌≡◌, ◌≢◌, ◌↔◌, refl, arith,
  All,
}
use libopenapi.Prelude.Outcome.{Result, ok, err, ◌>>=◌}
use libopenapi.Arazzo.Value.{Floats}
use libopenapi.Arazzo.Engine.Edges.{IsDistinct}
use libopenapi.Arazzo.Validation.{
  Arazzo, Cause, Message, add_error, add_warning, error, warning, nil_dereference, unfinished,
  Reports, Stop, ValidationResult, collected,
}
use libopenapi.Arazzo.Validation.Names.{id_set}
use libopenapi.Arazzo.Validation.Operations.{Locations}
use libopenapi.Arazzo.Validation.Mapping.{build_operation_lookup_context}
use libopenapi.Arazzo.Validation.Cycles.{adjacency}
use libopenapi.Arazzo.Validation.Cycles.Ranked.{IsAcyclic}
use libopenapi.Arazzo.Validation.Validate.{nil_if_clean}
use libopenapi.Arazzo.Validation.Clean.{Clean}
use libopenapi.Arazzo.Validation.Rules.{IsSource, IsWorkflow, HasComponentKeys, HasInfo}

-- A nil result, or one without errors.
abbrev pub HasNoErrors : Result Stop (Option ValidationResult) → Type 0
HasNoErrors (ok none) = Unit
HasNoErrors (ok (some r)) = r.errors ≡ []
HasNoErrors (err stop) = ⊥

-- A result without errors.
abbrev NoErrors : Result Stop ValidationResult → Type 0
NoErrors (ok r) = r.errors ≡ []
NoErrors (err stop) = ⊥

add_error-NoErrors :
    (path : Bytes) (cause : Cause) (r : Result Stop ValidationResult)
    → ¬ NoErrors (add_error path cause r)
add_error-NoErrors path cause (ok r) h = ground arith
add_error-NoErrors path cause (err stop) h = h

add_warning-NoErrors :
    (path : Bytes) (message : Message) (r : Result Stop ValidationResult)
    → NoErrors (add_warning path message r) ↔ NoErrors r
add_warning-NoErrors path message (ok r) = (λ h. h, λ h. h)
add_warning-NoErrors path message (err stop) = (λ h. h, λ h. h)

pub collected-NoErrors : (rs : Reports) → Clean rs ↔ NoErrors (collected rs)
unfolding collected
collected-NoErrors [] = (λ h. refl, λ h. tt)
collected-NoErrors (error path cause ∷ rs) =
    (λ h. absurd h.0, λ h. absurd (add_error-NoErrors path cause (collected rs) h))
collected-NoErrors (warning path message ∷ rs) =
    let (to, from) = collected-NoErrors rs in
    let (f, g) = add_warning-NoErrors path message (collected rs) in
    (λ h. g (to h.1), λ h. (tt, from (f h)))
collected-NoErrors (nil_dereference ∷ rs) = (λ h. h.0, λ h. absurd h)
collected-NoErrors (unfinished ∷ rs) = (λ h. h.0, λ h. absurd h)

pub result-NoErrors :
    (r : Result Stop ValidationResult) → NoErrors r ↔ HasNoErrors (r >>= λ v. ok (nil_if_clean v))
result-NoErrors (ok r) = by r.errors r.warnings
  where
    by :
        (es : List (Bytes × Cause)) (ws : List (Bytes × Message))
        → (es ≡ []) ↔ HasNoErrors (ok (nil_if_clean (record { errors = es; warnings = ws })))
    by [] [] = (λ h. tt, λ h. refl)
    by [] (w ∷ ws) = (λ h. refl, λ h. refl)
    by (e ∷ es) ws = (λ h. h, λ h. h)
result-NoErrors (err stop) = (λ h. h, λ h. h)

-- What a document keeps to that `Validate` accepts.
pub record IsDocument (loc : Locations) (floats : Floats) (doc : Arazzo floats.Float) : Type 0 where
  pub version : has_prefix doc.arazzo (codes "1.0.") ≡ true
  pub info : HasInfo doc.info
  pub some_source : doc.source_descriptions ≢ []
  pub some_workflow : doc.workflows ≢ []
  pub sources : All IsSource doc.source_descriptions
  pub source_names : IsDistinct (id_set (λ sd. sd.name) doc.source_descriptions)
  pub named : All (λ w. w.workflow_id ≢ []) doc.workflows
  pub ids : IsDistinct (id_set (λ w. w.workflow_id) doc.workflows)
  pub workflows :
      All
        (IsWorkflow loc floats doc.components
          (build_operation_lookup_context loc doc.open_api_source_docs doc.source_descriptions).0
          (id_set (λ w. w.workflow_id) doc.workflows))
        doc.workflows
  pub acyclic : IsAcyclic (adjacency doc.workflows [])
  pub component_keys : HasComponentKeys doc.components
