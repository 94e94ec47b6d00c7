-- ===== src/Arazzo/Validation/Mapping.antt =====
-- arazzo/validation.go: `buildOperationLookupContext`, which gives each OpenAPI source one of the
-- attached documents.
use libopenapi.Prelude.{
  ℕ, suc, Bool, true, false, not, ◌&&◌, List, [], ◌∷◌, ◌++◌, Option, none, some, Bytes, codes, eqb,
  ◌==◌, is_empty, if◌then◌else◌,
}
use libopenapi.Prelude.Dict.{lookup, insert}
use libopenapi.Arazzo.Validation.{
  OpenApi, SourceDescription, warning, Reports, warning_if, no_open_api_sources, unmapped_source,
}
use libopenapi.Arazzo.Validation.Names.{at_index}
use libopenapi.Arazzo.Validation.Operations.{
  Locations, OperationResolver, normalize_lookup_location, open_api_document_identity,
  is_open_api_source_type,
}

unfoldable has_address : ℕ → List OpenApi → Bool
has_address n [] = false
has_address n (doc ∷ docs) =
    let rest = has_address n docs in if doc.address == n then true else rest

-- The attached documents without nil ones and without one document twice.
unfoldable pub unique_docs : List OpenApi → List (Option OpenApi) → List OpenApi
unfolding has_address
unique_docs seen [] = []
unique_docs seen (none ∷ docs) = unique_docs seen docs
unique_docs seen (some doc ∷ docs) = elim (has_address doc.address seen) [
  | true ↦ unique_docs seen docs
  | false ↦ doc ∷ unique_docs (doc ∷ seen) docs
]

-- `resolver.sourceDocs` and `resolver.sourceOrder`.
pub record Mapped : Type 0 where
  pub source_docs : List (Bytes × OpenApi)
  pub source_order : List Bytes

abbrev pub map_source : Bytes → OpenApi → Mapped → Mapped
map_source name doc m = record {
  source_docs = insert name doc m.source_docs;
  source_order = m.source_order ++ (name ∷ []);
}

-- A candidate: its index and its source.
abbrev pub Candidate : Type 0
Candidate = ℕ × SourceDescription

-- What the first pass hands to the second: the sources without a document, and the documents
-- without a source.
pub record FirstPass : Type 0 where
  pub mapped : Mapped
  pub unmatched : List Candidate
  pub remaining : List OpenApi

abbrev keep_doc : OpenApi → Option (OpenApi × List OpenApi) → Option (OpenApi × List OpenApi)
keep_doc doc none = none
keep_doc doc (some (found, rest)) = some (found, doc ∷ rest)

abbrev keep_candidate : Candidate → FirstPass → FirstPass
keep_candidate c p = record p { unmatched = c ∷ p.unmatched }

-- The rest of a pass over the remaining sources and documents, by their order.
unfoldable pub second_pass : List Candidate → List OpenApi → Mapped → Mapped
unfolding insert
second_pass [] docs m = m
second_pass (c ∷ cs) [] m = m
second_pass ((i, source) ∷ cs) (doc ∷ docs) m = second_pass cs docs (map_source source.name doc m)

-- A warning for each candidate whose name has no document.
unfoldable pub unmapped_sources : Mapped → List Candidate → Reports
unfolding lookup
unmapped_sources m [] = []
unmapped_sources m ((i, source) ∷ cs) =
    warning_if (elim (lookup source.name m.source_docs) [ none ↦ true | some doc ↦ false ])
      (at_index (codes "sourceDescriptions") i) (unmapped_source source.name)
    ++ unmapped_sources m cs

module _ (loc : Locations) where
  -- The sources of OpenAPI type, from index `i`.
  unfoldable pub open_api_sources : ℕ → List SourceDescription → List Candidate
  unfolding is_open_api_source_type
  open_api_sources i [] = []
  open_api_sources i (source ∷ sources) =
      let rest = open_api_sources (suc i) sources in
      if is_open_api_source_type loc source.type then (i, source) ∷ rest else rest

  abbrev has_identity : Bytes → OpenApi → Bool
  has_identity id doc =
      not (is_empty (open_api_document_identity loc doc))
      && eqb id (open_api_document_identity loc doc)

  -- The first remaining document of an identity, and the others.
  unfoldable pub take_match : Bytes → List OpenApi → Option (OpenApi × List OpenApi)
  unfolding open_api_document_identity eqb
  take_match id [] = none
  take_match id (doc ∷ docs) =
      let rest = take_match id docs in
      if has_identity id doc then some (doc, docs) else keep_doc doc rest

  abbrev match : SourceDescription → List OpenApi → Option (OpenApi × List OpenApi)
  match source docs =
      let id = normalize_lookup_location loc source.url in
      if is_empty id then none else take_match id docs

  unfoldable pub first_pass : List Candidate → List OpenApi → Mapped → FirstPass
  unfolding normalize_lookup_location take_match insert
  first_pass [] docs m = record { mapped = m; unmatched = []; remaining = docs }
  first_pass ((i, source) ∷ cs) docs m = elim (match source docs) [
    | none ↦ keep_candidate (i, source) (first_pass cs docs m)
    | some (doc, rest) ↦ first_pass cs rest (map_source source.name doc m)
  ]

  abbrev pub both_passes : List Candidate → List OpenApi → Mapped
  both_passes cs docs =
      let p = first_pass cs docs (record { source_docs = []; source_order = [] }) in
      second_pass p.unmatched p.remaining p.mapped

  abbrev resolver_of : List OpenApi → Mapped → OperationResolver
  resolver_of docs m = record {
    source_docs = m.source_docs;
    source_order = m.source_order;
    search_docs = docs;
  }

  abbrev pub mapped_context : List OpenApi → List Candidate → Option OperationResolver × Reports
  mapped_context docs [] = (none, warning (codes "sourceDescriptions") no_open_api_sources ∷ [])
  mapped_context docs (c ∷ cs) =
      let m = both_passes (c ∷ cs) docs in (some (resolver_of docs m), unmapped_sources m (c ∷ cs))

  abbrev pub lookup_context :
      List OpenApi → List SourceDescription → Option OperationResolver × Reports
  lookup_context [] sources = (none, [])
  lookup_context (doc ∷ docs) sources = mapped_context (doc ∷ docs) (open_api_sources 0 sources)

  -- `v.opLookup`, which stays nil without documents or without sources, and the warnings.
  unfoldable pub build_operation_lookup_context :
      List (Option OpenApi) → List SourceDescription → Option OperationResolver × Reports
  unfolding unique_docs open_api_sources first_pass second_pass unmapped_sources
  build_operation_lookup_context attached sources = lookup_context (unique_docs [] attached) sources
