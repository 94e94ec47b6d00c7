-- ===== src/Arazzo/Validation/Accepted.antt =====
-- arazzo/validation.go: the documents that `Validate` accepts.
use libopenapi.Prelude.{
  Bool, true, false, ◌||◌, List, [], ◌∷◌, Option, none, some, Bytes, codes, has_prefix, is_empty,
  if◌then◌else◌, ◌≡◌, ◌≢◌, ◌↔◌, refl, sym, ap, ◌∙◌, arith, All,
}
use libopenapi.Arazzo.Value.{Floats}
use libopenapi.Arazzo.Engine.Document.{Workflow}
use libopenapi.Arazzo.Engine.Edges.{IsDistinct}
use libopenapi.Arazzo.Validation.{
  Arazzo, Info, Reports, collected, missing_arazzo_field, missing_info,
}
use libopenapi.Arazzo.Validation.Names.{id_set}
use libopenapi.Arazzo.Validation.Operations.{Locations, OperationResolver}
use libopenapi.Arazzo.Validation.Mapping.{build_operation_lookup_context}
use libopenapi.Arazzo.Validation.Workflows.{build_workflow_id_set}
use libopenapi.Arazzo.Validation.Cycles.{
  Adjacency, adjacency, cycle_errors, check_circular_dependencies,
}
use libopenapi.Arazzo.Validation.Cycles.Fuel.{cycles_end}
use libopenapi.Arazzo.Validation.Cycles.Acyclic.{cycles-IsAcyclic}
use libopenapi.Arazzo.Validation.Cycles.Ranked.{IsAcyclic, Ranges}
use libopenapi.Arazzo.Validation.Validate.{
  check_version, check_info, check_required_fields, is_nil, further_checks, all_checks, validate,
  workflow_reports,
}
use libopenapi.Arazzo.Validation.Clean.{
  Tests, both, unless, renamed, negated, non_empty, refuses, nothing, each-Tests,
}
use libopenapi.Arazzo.Validation.Clean.Criteria.{validate_component_keys-Tests}
use libopenapi.Arazzo.Validation.Clean.Workflows.{
  validate_workflow-Tests, build_operation_lookup_context-Clean,
}
use libopenapi.Arazzo.Validation.Clean.Sources.{
  check_unique_source_desc_names-Tests, check_unique_workflow_ids-Tests,
}
use libopenapi.Arazzo.Validation.Rules.{IsSource, IsWorkflow, HasComponentKeys, HasInfo}
use libopenapi.Arazzo.Validation.Documents.{
  HasNoErrors, collected-NoErrors, result-NoErrors, IsDocument,
}

check_version-Tests : (v : Bytes) → Tests (check_version v) (has_prefix v (codes "1.0.") ≡ true)
unfolding check_version has_prefix
check_version-Tests [] = renamed (λ h. absurd h, λ h. ground arith) (refuses _ missing_arazzo_field)
check_version-Tests (c ∷ s) = unless _ _ _ (negated (has_prefix (c ∷ s) (codes "1.0.")))

check_info-Tests : (info : Option Info) → Tests (check_info info) (HasInfo info)
unfolding check_info
check_info-Tests none = refuses _ missing_info
check_info-Tests (some info) =
    both (unless (is_empty info.title) _ _ (non_empty info.title))
      (unless (is_empty info.version) _ _ (non_empty info.version))

required-Tests :
    {F : Type 0} (doc : Arazzo F)
    → Tests
        (check_required_fields doc)
        (HasInfo doc.info × ((doc.source_descriptions ≢ []) × (doc.workflows ≢ [])))
unfolding check_required_fields
required-Tests doc = both (check_info-Tests doc.info) (
    both (unless (is_empty doc.source_descriptions) _ _ (non_empty doc.source_descriptions))
      (unless (is_empty doc.workflows) _ _ (non_empty doc.workflows)))

cycle_errors-Tests : (paths : List (List Bytes)) → Tests (cycle_errors paths) (paths ≡ [])
unfolding cycle_errors
cycle_errors-Tests [] = renamed (λ u. refl, λ h. tt) nothing
cycle_errors-Tests (p ∷ paths) = record { rule_of = λ h. absurd h.0; clean_of = λ h. ground arith }

unless_done :
    (b : Bool) {xs : Reports} {P : Type 0}
    → Tests xs P
    → Tests (if b then [] else xs) (b ≡ false → P)
unless_done true f = renamed (λ u e. ground arith, λ h. tt) nothing
unless_done false f = renamed (λ p e. p, λ h. h refl) f

complete_doc :
    {A B : Type 0} (info : Option Info) (ss : List A) (ws : List B)
    → HasInfo info
    → ss ≢ []
    → ws ≢ []
    → (is_nil info || is_empty ss || is_empty ws) ≡ false
complete_doc none ss ws i s w = absurd i
complete_doc (some info) [] ws i s w = absurd (s refl)
complete_doc (some info) (a ∷ ss) [] i s w = absurd (w refl)
complete_doc (some info) (a ∷ ss) (b ∷ ws) i s w = refl

module _ (order : Adjacency → List Bytes)
    (ranges : (adj : Adjacency) → Ranges adj (order adj)) where
  circular-Tests :
      {F : Type 0} (ws : List (Workflow F))
      → Tests (check_circular_dependencies order ws) (IsAcyclic (adjacency ws []))
  unfolding check_circular_dependencies
  circular-Tests ws =
      let adj = adjacency ws [] in
      let (paths, e) = cycles_end adj (order adj) in
      let (to, from) = cycles-IsAcyclic adj (order adj) (ranges adj) in
      rw (check_circular_dependencies, e)
        (renamed (λ q. to (e ∙ ap some q), λ a. let f = sym e ∙ from a in ground arith)
          (cycle_errors-Tests paths))

  module _ (loc : Locations) (floats : Floats) (doc : Arazzo floats.Float) where
    abbrev op_lookup : Option OperationResolver
    op_lookup =
        (build_operation_lookup_context loc doc.open_api_source_docs doc.source_descriptions).0

    abbrev ids : List Bytes
    ids = id_set (λ w. w.workflow_id) doc.workflows

    workflows-Tests : Tests (workflow_reports loc floats order doc op_lookup) (
        All (IsWorkflow loc floats doc.components op_lookup ids) doc.workflows
        × (IsAcyclic (adjacency doc.workflows []) × HasComponentKeys doc.components))
    unfolding build_workflow_id_set
    workflows-Tests =
        both
          (each-Tests (IsWorkflow loc floats doc.components op_lookup ids) _
            (validate_workflow-Tests loc floats doc.components op_lookup ids) 0 doc.workflows)
          (both (circular-Tests doc.workflows) (validate_component_keys-Tests doc.components))

    abbrev FurtherRules : Type 0
    FurtherRules =
        (All IsSource doc.source_descriptions
          × IsDistinct (id_set (λ sd. sd.name) doc.source_descriptions))
        × ((All (λ w. w.workflow_id ≢ []) doc.workflows × IsDistinct ids)
            × (Unit {0}
                × (All (IsWorkflow loc floats doc.components op_lookup ids) doc.workflows
                    × (IsAcyclic (adjacency doc.workflows []) × HasComponentKeys doc.components))))

    further_checks-Tests : Tests (further_checks loc floats order doc) FurtherRules
    unfolding further_checks
    further_checks-Tests = both (check_unique_source_desc_names-Tests doc.source_descriptions) (
        both (check_unique_workflow_ids-Tests doc.workflows) (
          both
            (record {
              rule_of = λ h. tt;
              clean_of = λ u.
                  build_operation_lookup_context-Clean loc doc.open_api_source_docs
                    doc.source_descriptions;
            })
            workflows-Tests))

    abbrev AllRules : Type 0
    AllRules =
        (has_prefix doc.arazzo (codes "1.0.") ≡ true)
        × ((HasInfo doc.info × ((doc.source_descriptions ≢ []) × (doc.workflows ≢ [])))
            × FurtherRules)

    -- The further checks are left out only where the required ones fail.
    all_checks-Tests : Tests (all_checks loc floats order doc) AllRules
    unfolding all_checks
    all_checks-Tests =
        renamed
          (
            λ (v, ((i, (s, w)), f)). (
              v,
              ((i, (s, w)), f (complete_doc doc.info doc.source_descriptions doc.workflows i s w)),
            ),
            λ (v, (r, f)). (v, (r, λ e. f)),
          )
          (both (check_version-Tests doc.arazzo)
            (both (required-Tests doc) (unless_done _ further_checks-Tests)))

    AllRules_iff : AllRules ↔ IsDocument loc floats doc
    AllRules_iff = (
      λ (v, ((i, (s, w)), ((sd, sn), ((n, d), (u, (ws, (a, k))))))). record {
        version = v;
        info = i;
        some_source = s;
        some_workflow = w;
        sources = sd;
        source_names = sn;
        named = n;
        ids = d;
        workflows = ws;
        acyclic = a;
        component_keys = k;
      },
      λ d. (
        d.version,
        (
          (d.info, (d.some_source, d.some_workflow)),
          (
            (d.sources, d.source_names),
            ((d.named, d.ids), (tt, (d.workflows, (d.acyclic, d.component_keys)))),
          ),
        ),
      ),
    )

    -- Validate finds no error in a document exactly where it keeps to the rules: version 1.0, an
    -- info with title and version, sources and workflows with distinct names and ids, workflows
    -- whose steps, parameters, criteria, actions, references and outputs are of the right form and
    -- refer to what is there, dependencies without a cycle, and component keys of the right form.
    -- In every order of the keys of a map, and with the operations of attached OpenAPI documents.
    pub validate-IsDocument :
        HasNoErrors (validate loc floats order (some doc)) ↔ IsDocument loc floats doc
    unfolding validate
    validate-IsDocument =
        let checks = all_checks loc floats order doc in
        let (f, g) = result-NoErrors (collected checks) in
        let (to, from) = collected-NoErrors checks in
        let (is, are) = AllRules_iff in
        (
          λ h. is (all_checks-Tests.rule_of (from (g h))),
          λ d. f (to (all_checks-Tests.clean_of (are d))),
        )
