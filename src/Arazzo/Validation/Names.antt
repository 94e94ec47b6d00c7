-- ===== src/Arazzo/Validation/Names.antt =====
-- arazzo/validation.go: paths of reports, sets of ids, and the names that `Validate` asks for: the
-- two patterns, written out, of its source names and its keys.
use libopenapi.Prelude.{
  ℕ, suc, Bool, true, false, not, ◌&&◌, ◌||◌, List, [], ◌∷◌, ◌++◌, Option, none, some, Bytes, codes,
  leb, ◌==◌, is_empty, member, if◌then◌else◌,
}
use libopenapi.Prelude.Number.{pos, format_int}
use libopenapi.Arazzo.Validation.{Reports, error_if, bad_output_key}

-- `fmt.Sprintf("%s[%d]", path, i)` and `path + "." + field`.
abbrev pub at_index : Bytes → ℕ → Bytes
at_index path i = path ++ (codes "[" ++ (format_int (pos i) ++ codes "]"))

abbrev pub at_field : Bytes → Bytes → Bytes
at_field path field = path ++ (b'.' ∷ field)

abbrev is_name_byte : ℕ → Bool
is_name_byte c =
    (leb b'a' c && leb c b'z')
    || (leb b'A' c && leb c b'Z')
    || (leb b'0' c && leb c b'9')
    || c == b'-'
    || c == b'_'

abbrev is_key_byte : ℕ → Bool
is_key_byte c = is_name_byte c || c == b'.'

unfoldable pub all_bytes : (ℕ → Bool) → Bytes → Bool
all_bytes test [] = true
all_bytes test (c ∷ s) = test c && all_bytes test s

-- `sourceDescriptionNameRegex` and `componentKeyRegex`.
unfoldable pub is_source_name : Bytes → Bool
unfolding all_bytes
is_source_name s = not (is_empty s) && all_bytes is_name_byte s

unfoldable pub is_component_key : Bytes → Bool
unfolding all_bytes
is_component_key s = not (is_empty s) && all_bytes is_key_byte s

-- A loop that keeps what it has seen in a map. An element without a key is not looked up in it.
abbrev pub was_seen : Option Bytes → List Bytes → Bool
was_seen none seen = false
was_seen (some k) seen = member k seen

abbrev pub see : Option Bytes → List Bytes → List Bytes
see none seen = seen
see (some k) seen = k ∷ seen

unfoldable pub each_seen :
    {A : Type 0} → (A → Option Bytes) → (ℕ → A → Bool → Reports) → ℕ → List Bytes → List A → Reports
unfolding member
each_seen key check i seen [] = []
each_seen key check i seen (a ∷ rest) =
    check i a (was_seen (key a) seen) ++ each_seen key check (suc i) (see (key a) seen) rest

-- An id that is not empty.
abbrev pub named : Bytes → Option Bytes
named id = if is_empty id then none else some id

-- The keys of a list's elements.
unfoldable pub keys : {A : Type 0} → (A → Option Bytes) → List A → List Bytes
keys key [] = []
keys key (a ∷ rest) = see (key a) (keys key rest)

-- The ids in a set: `buildWorkflowIdSet`, and the set of a workflow's steps.
abbrev pub id_set : {A : Type 0} → (A → Bytes) → List A → List Bytes
id_set id = keys (λ a. named (id a))

-- The loop over the keys of the outputs.
unfoldable pub check_output_keys : Bytes → List (Bytes × Bytes) → Reports
unfolding is_component_key
check_output_keys path [] = []
check_output_keys path ((k, v) ∷ outputs) =
    error_if (not (is_component_key k)) (at_field (at_field path (codes "outputs")) k)
      (bad_output_key k)
    ++ check_output_keys path outputs
