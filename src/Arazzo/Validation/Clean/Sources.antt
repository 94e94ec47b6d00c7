-- ===== src/Arazzo/Validation/Clean/Sources.antt =====
-- arazzo/validation.go: the checks of sources, ids and operations find no error exactly where the
-- rules hold.
use libopenapi.Prelude.{
  Bool, true, false, not, List, [], ◌∷◌, Option, none, some, Bytes, codes, eqb, eqb_iff, is_empty,
  if◌then◌else◌, ◌≡◌, ◌≢◌, ◌↔◌, ◌⊎◌, inl, inr, refl, arith, All,
}
use libopenapi.Prelude.Dict.{lookup}
use libopenapi.Arazzo.Engine.Document.{Step, Workflow}
use libopenapi.Arazzo.Engine.Edges.{IsDistinct}
use libopenapi.Arazzo.Run.Requests.{extract_source_name_from_operation_path}
use libopenapi.Arazzo.Validation.{
  SourceDescription, OpenApi, Reports, error, error_if, warning, Cause, Message,
}
use libopenapi.Arazzo.Validation.Names.{at_index, at_field, is_source_name, named, id_set}
use libopenapi.Arazzo.Validation.Operations.{
  Locations, OperationResolver, default_doc, operation_id_exists_in_docs,
  operation_path_exists_in_doc, check_operation_id, check_existence, check_in_doc, check_named,
  validate_step_operation_lookup,
}
use libopenapi.Arazzo.Validation.Workflows.{
  check_source, check_unique_source_desc_names, check_workflow_id, check_unique_workflow_ids,
  is_one_of_three,
}
use libopenapi.Arazzo.Validation.Clean.{
  Tests, both, unless, warned, renamed, negated, non_empty, chosen, refuses, nothing,
  each_seen-Tests, one_of_two,
}
use libopenapi.Arazzo.Validation.Rules.{IsSource, IsNotMissing, HasOperation, doc_for}

-- A loop over elements that must have a name, and none of them that of another.
named-Tests :
    (name path : Bytes) (cause : Cause) (seen : Bool) {xs : Reports} {P : Type 0}
    → Tests xs ((seen ≡ false) × P)
    → Tests
        (if is_empty name then error path cause ∷ [] else xs)
        (((name ≢ []) × P) × (named name ≢ none → seen ≡ false))
named-Tests [] path cause seen f =
    renamed (λ h. absurd h, λ ((n, p), q). n refl) (refuses path cause)
named-Tests (c ∷ s) path cause seen f =
    renamed
      (λ (q, p). (((λ e. ground arith), p), λ e. q), λ ((n, p), q). (q (λ e. ground arith), p)) f

check_source-Tests :
    (path : Bytes) (sd : SourceDescription) (seen : Bool)
    → Tests (check_source path sd seen) (IsSource sd × (named sd.name ≢ none → seen ≡ false))
unfolding check_source
check_source-Tests path sd seen = named-Tests sd.name _ _ seen (
    both (unless seen _ _ (λ e. e, λ e. e)) (
      renamed (λ h. h.1, λ h. (tt, h))
        (both (warned (not (is_source_name sd.name)) _ _) (
          both
            (unless _ _ _ (
              one_of_two (is_empty sd.type) (eqb sd.type (codes "openapi"))
                (eqb sd.type (codes "arazzo")) (non_empty sd.type)
                (eqb_iff sd.type (codes "openapi")) (eqb_iff sd.type (codes "arazzo"))))
            (unless (is_empty sd.url) _ _ (non_empty sd.url))))))

pub check_unique_source_desc_names-Tests :
    (sources : List SourceDescription)
    → Tests
        (check_unique_source_desc_names sources)
        (All IsSource sources × IsDistinct (id_set (λ sd. sd.name) sources))
unfolding check_unique_source_desc_names
check_unique_source_desc_names-Tests =
    each_seen-Tests (λ sd. named sd.name) IsSource _
      (λ i sd seen. check_source-Tests (at_index (codes "sourceDescriptions") i) sd seen)

pub alone :
    (name path : Bytes) (cause twice : Cause) (seen : Bool)
    → Tests
        (if is_empty name then error path cause ∷ [] else error_if seen path twice)
        ((name ≢ []) × (named name ≢ none → seen ≡ false))
alone name path cause twice seen =
    renamed (λ ((n, u), q). (n, q), λ (n, q). ((n, tt), q))
      (named-Tests name path cause seen {P = Unit}
        (renamed (λ e. (e, tt), λ (e, u). e) (unless seen path twice (λ e. e, λ e. e))))

pub check_unique_workflow_ids-Tests :
    {F : Type 0} (ws : List (Workflow F))
    → Tests
        (check_unique_workflow_ids ws)
        (All (λ w. w.workflow_id ≢ []) ws × IsDistinct (id_set (λ w. w.workflow_id) ws))
unfolding check_unique_workflow_ids check_workflow_id
check_unique_workflow_ids-Tests =
    each_seen-Tests (λ w. named w.workflow_id) (λ w. w.workflow_id ≢ []) check_workflow_id
      (λ i w seen. alone w.workflow_id _ _ _ seen)

pub one_target :
    (o p w : Bytes)
    → (not (is_one_of_three o p w) ≡ false) ↔ (
        ((o ≢ []) × ((p ≡ []) × (w ≡ [])))
        ⊎ (((o ≡ []) × ((p ≢ []) × (w ≡ []))) ⊎ ((o ≡ []) × ((p ≡ []) × (w ≢ [])))))
one_target [] [] [] = (λ e. ground arith, λ h. ground arith)
one_target [] [] (z ∷ w) = (λ e. inr (inr (refl, (refl, λ q. ground arith))), λ h. refl)
one_target [] (y ∷ p) [] = (λ e. inr (inl (refl, ((λ q. ground arith), refl))), λ h. refl)
one_target [] (y ∷ p) (z ∷ w) = (λ e. ground arith, λ h. ground arith)
one_target (x ∷ o) [] [] = (λ e. inl ((λ q. ground arith), (refl, refl)), λ h. refl)
one_target (x ∷ o) [] (z ∷ w) = (λ e. ground arith, λ h. ground arith)
one_target (x ∷ o) (y ∷ p) w = (λ e. ground arith, λ h. ground arith)

-- A check that is left out does not matter where the target is wrong anyway.
pub if_one :
    (b : Bool) {xs : Reports} {P : Type 0}
    → Tests xs P
    → Tests (if b then xs else []) (b ≡ true → P)
if_one true f = renamed (λ p e. p, λ h. h refl) f
if_one false f = renamed (λ u e. ground arith, λ h. tt) nothing

searched :
    {A : Type 0} (docs : List A) {N P : Type 0}
    → N
    → ((is_empty docs ≡ true → Unit {0}) × (is_empty docs ≡ false → P)) ↔ (N → docs ≢ [] → P)
searched [] n = (λ h k m. absurd (m refl), λ h. (λ e. tt, λ e. ground arith))
searched (d ∷ docs) n = (λ h k m. h.1 refl, λ h. (λ e. tt, λ e. h n (λ q. ground arith)))

module _ (loc : Locations) (r : OperationResolver) where
  operation_id-Tests :
      (path id : Bytes)
      → Tests
          (check_operation_id loc r path id)
          (id ≢ [] → r.search_docs ≢ [] → operation_id_exists_in_docs r.search_docs id ≡ true)
  operation_id-Tests path [] = renamed (λ u n. absurd (n refl), λ h. tt) nothing
  operation_id-Tests path (c ∷ s) = renamed (searched r.search_docs (λ q. ground arith)) (
      chosen (is_empty r.search_docs) (warned true _ _)
        (unless (not (operation_id_exists_in_docs r.search_docs (c ∷ s))) _ _ (negated _)))

  check_in_doc-Tests :
      (path operation_path missing_path : Bytes) (message : Message) (o : Option OpenApi)
      → Tests
          (check_in_doc loc r path operation_path o (warning missing_path message ∷ []))
          (IsNotMissing loc operation_path o)
  check_in_doc-Tests path operation_path missing_path message none =
      warned true missing_path message
  check_in_doc-Tests path operation_path missing_path message (some doc) =
      existence (operation_path_exists_in_doc loc doc operation_path)
    where
      existence :
          (o : Option Bool) → Tests (check_existence loc r path operation_path o) (o ≢ some false)
      existence none = renamed (λ u e. ground arith, λ h. tt) (warned true _ _)
      existence (some true) = renamed (λ u e. ground arith, λ h. tt) nothing
      existence (some false) = renamed (λ h. absurd h, λ h. absurd (h refl)) (refuses _ _)

  named_path-Tests :
      (path operation_path : Bytes) (o : Option Bytes)
      → Tests
          (check_named loc r path operation_path o)
          (IsNotMissing loc operation_path (doc_for r o))
  named_path-Tests path operation_path none =
      check_in_doc-Tests path operation_path _ _ (default_doc r)
  named_path-Tests path operation_path (some name) =
      check_in_doc-Tests path operation_path _ _ (lookup name r.source_docs)

  operation_path-Tests :
      (path operation_path : Bytes) {xs : Reports} {P : Type 0}
      → Tests xs P
      → Tests (if is_empty operation_path then [] else xs) (operation_path ≢ [] → P)
  operation_path-Tests path [] f = renamed (λ u n. absurd (n refl), λ h. tt) nothing
  operation_path-Tests path (c ∷ s) f = renamed (λ p n. p, λ h. h (λ q. ground arith)) f

  pub lookup-Tests :
      {F : Type 0} (path : Bytes) (step : Step F)
      → Tests (validate_step_operation_lookup loc r path step) (HasOperation loc (some r) step)
  unfolding validate_step_operation_lookup
  lookup-Tests path step = both (operation_id-Tests path step.operation_id) (
      operation_path-Tests path step.operation_path (
        named_path-Tests (at_field path (codes "operationPath")) step.operation_path
          (extract_source_name_from_operation_path step.operation_path)))
