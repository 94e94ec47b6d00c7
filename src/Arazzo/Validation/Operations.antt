-- ===== src/Arazzo/Validation/Operations.antt =====
-- arazzo/operation_resolver.go and arazzo/validation.go: the operations of attached OpenAPI
-- documents, the map from sources to documents, and the lookup of a step's operation.
use libopenapi.Prelude.{
  ℕ, Bool, true, false, not, ◌||◌, List, [], ◌∷◌, ◌++◌, Option, none, some, Bytes, codes, eqb, ◌==◌,
  has_prefix, has_suffix, index, split, take, drop, length, ◌-◌, is_empty, get_elem?, if◌then◌else◌,
}
use libopenapi.Prelude.Dict.{lookup}
use libopenapi.Prelude.Space.{trim_space}
use libopenapi.Arazzo.Evaluator.Pointer.{unescape_json_pointer}
use libopenapi.Arazzo.Engine.Document.{Step}
use libopenapi.Arazzo.Run.Requests.{extract_source_name_from_operation_path}
use libopenapi.Arazzo.Validation.{
  OpenApi, warning, Reports, error_if, unresolved_operation_ref, unmapped_source,
  no_attached_documents, unsupported_pointer,
}
use libopenapi.Arazzo.Validation.Names.{at_field}

-- What the program calls of net/url, path/filepath and package strings: `parse` is `url.Parse`,
-- `scheme` and `path` are fields of its result, `without_fragment` and `with_path` assign to two of
-- them, `print` is `String`; `clean` is `filepath.Clean`, `to_slash` is `filepath.ToSlash`, `abs` is
-- `filepath.Abs`; `to_lower` is `strings.ToLower`.
pub record Locations : Type 1 where
  pub Url : Type 0
  pub parse : Bytes → Option Url
  pub scheme : Url → Bytes
  pub path : Url → Bytes
  pub without_fragment : Url → Url
  pub with_path : Bytes → Url → Url
  pub print : Url → Bytes
  pub clean : Bytes → Bytes
  pub to_slash : Bytes → Bytes
  pub abs : Bytes → Option Bytes
  pub to_lower : Bytes → Bytes

-- `strings.TrimSuffix(s, "/")`.
abbrev trim_slash : Bytes → Bytes
trim_slash s = if has_suffix s (codes "/") then take (length s - 1) s else s

abbrev no_dot : Bytes → Bytes
no_dot s = if eqb s (codes ".") then [] else s

pub record OperationResolver : Type 0 where
  pub source_docs : List (Bytes × OpenApi)
  pub source_order : List Bytes
  pub search_docs : List OpenApi

-- `defaultDoc`.
abbrev first_mapped : List Bytes → List (Bytes × OpenApi) → Option OpenApi
first_mapped [] docs = none
first_mapped (name ∷ names) docs = lookup name docs

unfoldable pub default_doc : OperationResolver → Option OpenApi
unfolding lookup
default_doc r = elim (first_mapped r.source_order r.source_docs) [
  | some doc ↦ some doc
  | none ↦ get_elem? r.search_docs 0
]

abbrev items_of : OpenApi → List (Bytes × Option (List (Bytes × Bytes)))
items_of doc = elim doc.paths [ none ↦ [] | some items ↦ items ]

unfoldable pub has_operation_id : Bytes → List (Bytes × Bytes) → Bool
unfolding eqb
has_operation_id id [] = false
has_operation_id id ((method, i) ∷ operations) = eqb i id || has_operation_id id operations

unfoldable pub item_with_id : Bytes → List (Bytes × Option (List (Bytes × Bytes))) → Bool
unfolding has_operation_id
item_with_id id [] = false
item_with_id id ((path, none) ∷ items) = item_with_id id items
item_with_id id ((path, some operations) ∷ items) =
    has_operation_id id operations || item_with_id id items

unfoldable pub operation_id_exists_in_docs : List OpenApi → Bytes → Bool
unfolding item_with_id
operation_id_exists_in_docs [] id = false
operation_id_exists_in_docs (doc ∷ docs) id =
    item_with_id id (items_of doc) || operation_id_exists_in_docs docs id

abbrev is_blank : ℕ → Bool
is_blank c = c == 32 || c == 9 || c == 13 || c == 10

-- `fragment[:strings.IndexAny(fragment, " \t\r\n")]`, or all of it.
unfoldable pub to_blank : Bytes → Bytes
to_blank [] = []
to_blank (c ∷ s) = let rest = to_blank s in if is_blank c then [] else c ∷ rest

module _ (loc : Locations) where
  abbrev located_url : loc.Url → Bytes
  located_url u =
      let v = loc.without_fragment u in
      trim_slash (loc.print (loc.with_path (no_dot (loc.to_slash (loc.clean (loc.path v)))) v))

  abbrev absolute : Bytes → Bytes
  absolute trimmed = elim (loc.abs trimmed) [ none ↦ trimmed | some s ↦ s ]

  abbrev located_file : Bytes → Bytes
  located_file trimmed = trim_slash (no_dot (loc.to_slash (loc.clean (absolute trimmed))))

  unfoldable pub normalize_lookup_location : Bytes → Bytes
  unfolding trim_space has_prefix eqb
  normalize_lookup_location location =
      let trimmed = trim_space location in
      if is_empty trimmed then [] else elim (loc.parse trimmed) [
        | none ↦ located_file trimmed
        | some u ↦ if is_empty (loc.scheme u) then located_file trimmed else located_url u
      ]

  unfoldable pub open_api_document_identity : OpenApi → Bytes
  unfolding normalize_lookup_location trim_space
  open_api_document_identity doc = elim doc.spec_absolute_path [
    | none ↦ []
    | some path ↦
        if is_empty (trim_space path) then [] else normalize_lookup_location (trim_space path)
  ]

  unfoldable pub is_open_api_source_type : Bytes → Bool
  unfolding trim_space eqb
  is_open_api_source_type type =
      let normalized = loc.to_lower (trim_space type) in
      is_empty normalized || eqb normalized (codes "openapi")

  abbrev tokens : Bytes → Bytes → Option (Bytes × Bytes)
  tokens path method = if is_empty path || is_empty method then none else some (path, method)

  -- The parts of the fragment behind `#/`: `paths`, a path and a method, and any more.
  abbrev pointer_parts : List Bytes → Option (Bytes × Bytes)
  pointer_parts (head ∷ path ∷ method ∷ more) =
      if eqb head (codes "paths")
      then tokens (unescape_json_pointer path) (loc.to_lower (unescape_json_pointer method))
      else none
  pointer_parts _ = none

  unfoldable pub parse_operation_path_pointer : Bytes → Option (Bytes × Bytes)
  unfolding index has_prefix to_blank unescape_json_pointer eqb
  parse_operation_path_pointer path = elim (index path (codes "#/paths/")) [
    | none ↦ none
    | some i ↦ pointer_parts (split (drop 2 (to_blank (drop i path))) b'/')
  ]

  abbrev has_method : Bytes → Option (Option (List (Bytes × Bytes))) → Bool
  has_method method (some (some operations)) = elim (lookup method operations) [
    | none ↦ false
    | some id ↦ true
  ]
  has_method method _ = false

  -- `none` is not checkable.
  unfoldable pub operation_path_exists_in_doc : OpenApi → Bytes → Option Bool
  unfolding parse_operation_path_pointer lookup
  operation_path_exists_in_doc doc path = elim (parse_operation_path_pointer path) [
    | none ↦ none
    | some (key, method) ↦ some (has_method method (lookup key (items_of doc)))
  ]

  module _ (r : OperationResolver) where
    abbrev pub check_operation_id : Bytes → Bytes → Reports
    check_operation_id path id =
        if is_empty id
        then []
        else if is_empty r.search_docs
        then warning (at_field path (codes "operationId")) no_attached_documents ∷ []
        else error_if (not (operation_id_exists_in_docs r.search_docs id))
            (at_field path (codes "operationId")) (unresolved_operation_ref id)

    abbrev pub check_existence : Bytes → Bytes → Option Bool → Reports
    check_existence path operation_path none =
        warning path (unsupported_pointer operation_path) ∷ []
    check_existence path operation_path (some b) =
        error_if (not b) path (unresolved_operation_ref operation_path)

    abbrev pub check_in_doc : Bytes → Bytes → Option OpenApi → Reports → Reports
    check_in_doc path operation_path none missing = missing
    check_in_doc path operation_path (some doc) missing =
        check_existence path operation_path (operation_path_exists_in_doc doc operation_path)

    -- By the name of the source that the path holds, if it holds one.
    abbrev pub check_named : Bytes → Bytes → Option Bytes → Reports
    check_named path operation_path (some name) =
        check_in_doc path operation_path (lookup name r.source_docs)
          (warning path (unmapped_source name) ∷ [])
    check_named path operation_path none =
        check_in_doc path operation_path (default_doc r) (warning path no_attached_documents ∷ [])

    abbrev pub check_operation_path : Bytes → Bytes → Reports
    check_operation_path path operation_path =
        check_named path operation_path (extract_source_name_from_operation_path operation_path)

    unfoldable pub validate_step_operation_lookup : {F : Type 0} → Bytes → Step F → Reports
    unfolding operation_id_exists_in_docs extract_source_name_from_operation_path lookup default_doc
        operation_path_exists_in_doc
    validate_step_operation_lookup path step =
        check_operation_id path step.operation_id
        ++ (if is_empty step.operation_path
            then []
            else check_operation_path (at_field path (codes "operationPath")) step.operation_path)
