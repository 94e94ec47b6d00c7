-- ===== src/Arazzo/Evaluator/Pointer.antt =====
-- arazzo/expression/evaluator.go: JSON pointers into YAML nodes, and scalars as Go values.
use libopenapi.Prelude.{
  ℕ, zero, suc, [], ◌∷◌, Option, none, some, Bytes, codes, eqb, contains, replace_all, replace_from,
  index, index_byte, is_empty, has_prefix, length, take, drop, if◌then◌else◌, ◌||◌,
}
use libopenapi.Prelude.Outcome.{Result, ok, err, ◌>>=◌}
use libopenapi.Prelude.Number.{ℤ, pos, negsuc, parse_int, parse_bool}
use libopenapi.Yaml.{
  document_node, sequence_node, mapping_node, scalar_node, Node, absent, node, Nodes, cons, count,
  child,
}
use libopenapi.Arazzo.Value.{Floats, Value, null, text, boolean, integer, int64, float64, yaml}

-- `nil_dereference` is no error value of the program but a panic. `out_of_fuel` marks a loop of
-- the model that was given too few rounds.
pub data PointerError : Type 0 where
  segment_not_found : Bytes → PointerError
  invalid_index : Bytes → PointerError
  index_out_of_bounds : ℤ → ℕ → PointerError
  not_a_container : Bytes → PointerError
  nil_dereference : PointerError
  out_of_fuel : PointerError

unfoldable pub unescape_json_pointer : Bytes → Bytes
unfolding replace_from index has_prefix
unescape_json_pointer s =
    if contains s (codes "~")
    then replace_all (replace_all s (codes "~1") (codes "/")) (codes "~0") (codes "~")
    else s

-- The loop over a mapping's keys and values, which leaves out a last key with no value. A nil key
-- panics.
unfoldable pub find_key : Bytes → Nodes → Result PointerError (Option Node)
find_key segment (cons (node k t v c) (cons found rest)) =
    let later = find_key segment rest in if eqb v segment then ok (some found) else later
find_key segment (cons absent (cons found rest)) = err nil_dereference
find_key segment _ = ok none

unfoldable pub element : Bytes → Nodes → Option ℤ → Result PointerError Node
element segment items none = err (invalid_index segment)
element segment items (some (negsuc n)) = err (index_out_of_bounds (negsuc n) (count items))
element segment items (some (pos n)) = elim (child items n) [
  | some found ↦ ok found
  | none ↦ err (index_out_of_bounds (pos n) (count items))
]

-- One round of the loop, behind the search for the next slash.
unfoldable pub descend : Node → Bytes → Result PointerError Node
unfolding find_key element
descend absent segment = err nil_dereference
descend (node mapping_node t v c) segment =
    find_key segment c >>= elim [ some found ↦ ok found | none ↦ err (segment_not_found segment) ]
descend (node sequence_node t v c) segment = element segment c (parse_int segment)
descend (node _ t v c) segment = err (not_a_container segment)

-- The loop, from what follows `pos` in the pointer. Each round consumes a byte at least, so the
-- pointer's length is enough fuel.
unfoldable pub walk : ℕ → Node → Bytes → Result PointerError Node
unfolding unescape_json_pointer descend
walk fuel current [] = ok current
walk zero current (c ∷ rest) = err out_of_fuel
walk (suc fuel) current (c ∷ rest) = elim (index_byte (c ∷ rest) b'/') [
  | none ↦ descend current (unescape_json_pointer (c ∷ rest))
  | some i ↦ descend current (unescape_json_pointer (take i (c ∷ rest))) >>= λ next.
      walk fuel next (drop (suc i) (c ∷ rest))
]

-- A document node stands for its first child.
abbrev pub unwrap_document : Node → Node
unwrap_document (node document_node t v (cons first rest)) = first
unwrap_document n = n

module _ (floats : Floats) where
  open floats use {Float, parse_float}

  -- A scalar by its tag; where the text does not parse, the text.
  unfoldable pub scalar_value : Bytes → Bytes → Value Float
  unfolding parse_int parse_bool eqb
  scalar_value tag v =
      if eqb tag (codes "!!int")
      then elim (parse_int v) [ some n ↦ integer int64 n | none ↦ text v ]
      else if eqb tag (codes "!!float")
      then elim (parse_float v) [ some x ↦ float64 x | none ↦ text v ]
      else if eqb tag (codes "!!bool")
      then elim (parse_bool v) [ some b ↦ boolean b | none ↦ text v ]
      else if eqb tag (codes "!!null")
      then null
      else text v

  unfoldable pub yaml_node_to_value : Node → Value Float
  unfolding scalar_value
  yaml_node_to_value absent = null
  yaml_node_to_value (node scalar_node t v c) = scalar_value t v
  yaml_node_to_value (node k t v c) = yaml (node k t v c)

  -- The slash in front, if there is one, is passed over. A nil node panics.
  resolve_from : Node → Bytes → Result PointerError (Value Float)
  resolve_from absent pointer = err nil_dereference
  resolve_from n pointer =
      let rest = if has_prefix pointer (codes "/") then drop 1 pointer else pointer in
      walk (length rest) (unwrap_document n) rest >>= λ found. ok (yaml_node_to_value found)

  unfoldable pub resolve_json_pointer : Node → Bytes → Result PointerError (Value Float)
  unfolding resolve_from walk yaml_node_to_value has_prefix index_byte
  resolve_json_pointer n pointer =
      if is_empty pointer || eqb pointer (codes "/") then ok (yaml n) else resolve_from n pointer
