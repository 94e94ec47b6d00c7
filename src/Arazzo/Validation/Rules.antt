-- ===== src/Arazzo/Validation/Rules.antt =====
-- The rules of arazzo/validation.go, stated apart from the checks: what a document keeps to in
-- which `Validate` finds no error.
use libopenapi.Prelude.{
  ℕ, true, false, List, [], ◌++◌, Option, none, some, Bytes, codes, member, ◌≡◌, ◌≢◌, ◌⊎◌, All,
}
use libopenapi.Prelude.Dict.{lookup}
use libopenapi.Prelude.Number.{ℤ, pos}
use libopenapi.Yaml.{absent}
use libopenapi.Arazzo.Value.{Floats}
use libopenapi.Arazzo.Expression.{Expression}
use libopenapi.Arazzo.Expression.Grammar.{Spells}
use libopenapi.Arazzo.Criterion.{Criterion, CriterionExpressionType, effective_type}
use libopenapi.Arazzo.Engine.{Parameter, SuccessAction, FailureAction, is_reusable}
use libopenapi.Arazzo.Engine.References.{Components}
use libopenapi.Arazzo.Engine.Document.{Step, Workflow}
use libopenapi.Arazzo.Engine.Edges.{IsDistinct}
use libopenapi.Arazzo.Run.Requests.{extract_source_name_from_operation_path}
use libopenapi.Arazzo.Validation.{Info, SourceDescription, OpenApi}
use libopenapi.Arazzo.Validation.Names.{is_component_key, keys, id_set}
use libopenapi.Arazzo.Validation.Fields.{
  ComponentType, parameters_type, success_actions_type, failure_actions_type, has_component,
  expected_prefix, is_location, parameter_key,
}
use libopenapi.Arazzo.Validation.Actions.{action_key}
use libopenapi.Arazzo.Validation.Operations.{
  Locations, OperationResolver, default_doc, operation_id_exists_in_docs,
  operation_path_exists_in_doc,
}

-- A reference to a component that is there.
abbrev pub RefersTo : {F : Type 0} → Option (Components F) → ComponentType → Bytes → Type 0
RefersTo none type reference = ⊥
RefersTo (some c) type reference =
    (name : Bytes) × ((reference ≡ expected_prefix type ++ name)
      × ((name ≢ []) × (has_component c type name ≡ true)))

-- A reference where there is one, and a rule for what stands in its place.
abbrev pub Reusable : {F : Type 0} → Option (Components F) → ComponentType → Bytes → Type 0 → Type 0
Reusable components type reference Rule =
    (is_reusable reference ≡ true → RefersTo components type reference)
    × (is_reusable reference ≡ false → Rule)

abbrev pub IsParameter : {F : Type 0} → Option (Components F) → Option Parameter → Type 0
IsParameter components none = ⊥
IsParameter components (some p) =
    Reusable components parameters_type p.reference
      ((p.name ≢ []) × ((p.value ≢ absent) × (is_location p.location ≡ true)))

abbrev pub AreParameters : {F : Type 0} → Option (Components F) → List (Option Parameter) → Type 0
AreParameters components ps = All (IsParameter components) ps × IsDistinct (keys parameter_key ps)

abbrev pub HasKnownVersion : CriterionExpressionType → Type 0
HasKnownVersion cet =
    (cet.type ≢ [])
    × ((cet.type ≡ codes "jsonpath"
          → (cet.version ≡ []) ⊎ (cet.version ≡ codes "draft-goessner-dispatch-jsonpath-00"))
        × (cet.type ≡ codes "xpath"
            → (cet.version ≡ [])
              ⊎ ((cet.version ≡ codes "xpath-30")
                  ⊎ ((cet.version ≡ codes "xpath-20") ⊎ (cet.version ≡ codes "xpath-10")))))

abbrev pub HasType : Option CriterionExpressionType → Type 0
HasType none = Unit
HasType (some cet) = HasKnownVersion cet

-- A context spells an expression of the grammar.
abbrev pub IsCriterion : Criterion → Type 0
IsCriterion c =
    (c.condition ≢ [])
    × ((effective_type c ≢ codes "simple" → c.context ≢ [])
        × (HasType c.expression_type × (c.context ≢ [] → (e : Expression) × Spells c.context e)))

module _ (step_ids workflow_ids : List Bytes) where
  -- A target is known, there is not more than one, and a goto has one.
  abbrev pub HasTarget : (type workflow_id step_id : Bytes) → Type 0
  HasTarget type workflow_id step_id =
      ((workflow_id ≡ []) ⊎ (step_id ≡ []))
      × ((type ≡ codes "goto" → (workflow_id ≢ []) ⊎ (step_id ≢ []))
          × ((workflow_id ≢ [] → member workflow_id workflow_ids ≡ true)
              × (step_id ≢ [] → member step_id step_ids ≡ true)))

  module _ (floats : Floats) (components : Option (Components floats.Float)) where
    abbrev pub IsSuccessAction : SuccessAction → Type 0
    IsSuccessAction a = Reusable components success_actions_type a.reference (
        ((a.type ≡ codes "end") ⊎ (a.type ≡ codes "goto"))
        × ((a.name ≢ []) × HasTarget a.type a.workflow_id a.step_id))

    abbrev pub IsNotNegative : Option floats.Float → Type 0
    IsNotNegative none = Unit
    IsNotNegative (some x) = floats.float_lt x (floats.of_int (pos 0)) ≡ false

    abbrev pub HasLimit : Option ℤ → Type 0
    HasLimit none = Unit
    HasLimit (some limit) = (n : ℕ) × (limit ≡ pos n)

    abbrev pub IsFailureAction : FailureAction floats.Float → Type 0
    IsFailureAction a = Reusable components failure_actions_type a.reference (
        ((a.type ≡ codes "end") ⊎ ((a.type ≡ codes "retry") ⊎ (a.type ≡ codes "goto")))
        × ((a.name ≢ [])
            × (HasTarget a.type a.workflow_id a.step_id
                × (IsNotNegative a.retry_after × HasLimit a.retry_limit))))

    abbrev pub AreSuccessActions : List SuccessAction → Type 0
    AreSuccessActions xs =
        All IsSuccessAction xs × IsDistinct (keys (λ a. action_key a.reference a.name) xs)

    abbrev pub AreFailureActions : List (FailureAction floats.Float) → Type 0
    AreFailureActions xs =
        All IsFailureAction xs × IsDistinct (keys (λ a. action_key a.reference a.name) xs)

abbrev pub HasOutputKeys : List (Bytes × Bytes) → Type 0
HasOutputKeys = All (λ e. is_component_key e.0 ≡ true)

-- One of an operation id, an operation path and a workflow id.
abbrev pub HasOneTarget : {F : Type 0} → Step F → Type 0
HasOneTarget step =
    ((step.operation_id ≢ []) × ((step.operation_path ≡ []) × (step.workflow_id ≡ [])))
    ⊎ (((step.operation_id ≡ []) × ((step.operation_path ≢ []) × (step.workflow_id ≡ [])))
        ⊎ ((step.operation_id ≡ []) × ((step.operation_path ≡ []) × (step.workflow_id ≢ []))))

-- The document in which a path is looked up, if there is one.
abbrev pub doc_for : OperationResolver → Option Bytes → Option OpenApi
doc_for r (some name) = lookup name r.source_docs
doc_for r none = default_doc r

module _ (loc : Locations) where
  abbrev pub IsNotMissing : Bytes → Option OpenApi → Type 0
  IsNotMissing path none = Unit
  IsNotMissing path (some doc) = operation_path_exists_in_doc loc doc path ≢ some false

  -- With attached documents, an operation is in them as far as that can be looked up.
  abbrev pub HasOperation : {F : Type 0} → Option OperationResolver → Step F → Type 0
  HasOperation none step = Unit
  HasOperation (some r) step =
      (step.operation_id ≢ []
        → r.search_docs ≢ []
        → operation_id_exists_in_docs r.search_docs step.operation_id ≡ true)
      × (step.operation_path ≢ []
          → IsNotMissing step.operation_path
              (doc_for r (extract_source_name_from_operation_path step.operation_path)))

module _ (loc : Locations) (floats : Floats) (components : Option (Components floats.Float))
    (op_lookup : Option OperationResolver) (workflow_ids : List Bytes) where
  abbrev pub IsStep : List Bytes → Step floats.Float → Type 0
  IsStep step_ids step =
      HasOneTarget step
      × ((step.workflow_id ≢ [] → member step.workflow_id workflow_ids ≡ true)
          × (HasOperation loc op_lookup step
              × (AreParameters components step.parameters
                  × (All IsCriterion step.success_criteria
                      × (AreSuccessActions step_ids workflow_ids floats components step.on_success
                          × (AreFailureActions step_ids workflow_ids floats components
                                step.on_failure
                              × HasOutputKeys step.outputs))))))

  -- A workflow but for the ids of its steps.
  abbrev pub HasParts : List Bytes → Workflow floats.Float → Type 0
  HasParts step_ids w =
      All (IsStep step_ids) w.steps
      × (AreSuccessActions step_ids workflow_ids floats components w.success_actions
          × (AreFailureActions step_ids workflow_ids floats components w.failure_actions
              × HasOutputKeys w.outputs))

  abbrev pub IsWorkflow : Workflow floats.Float → Type 0
  IsWorkflow w =
      (w.steps ≢ [])
      × (All (λ dep. member dep workflow_ids ≡ true) w.depends_on
          × (All (λ s. s.step_id ≢ []) w.steps
              × (IsDistinct (id_set (λ s. s.step_id) w.steps)
                  × HasParts (id_set (λ s. s.step_id) w.steps) w)))

abbrev pub IsSource : SourceDescription → Type 0
IsSource sd =
    (sd.name ≢ [])
    × ((sd.type ≢ [] → (sd.type ≡ codes "openapi") ⊎ (sd.type ≡ codes "arazzo")) × (sd.url ≢ []))

abbrev pub HasKeys : {A : Type 0} → Option (List (Bytes × A)) → Type 0
HasKeys none = Unit
HasKeys (some m) = All (λ e. is_component_key e.0 ≡ true) m

abbrev pub HasComponentKeys : {F : Type 0} → Option (Components F) → Type 0
HasComponentKeys none = Unit
HasComponentKeys (some c) =
    HasKeys c.parameters
    × (HasKeys c.success_actions × (HasKeys c.failure_actions × HasKeys c.inputs))

abbrev pub HasInfo : Option Info → Type 0
HasInfo none = ⊥
HasInfo (some info) = (info.title ≢ []) × (info.version ≢ [])
