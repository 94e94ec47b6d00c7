-- ===== src/Arazzo/Criterion/Nodes.antt =====
-- arazzo/yamlutil.go: Go values as YAML nodes, but for those of the types `yaml.Node` and
-- `[]string`, which the model's values leave out. A map's entries are in the order of the model's
-- list, where the program's order is not determined.
use libopenapi.Prelude.{[], Bytes, codes, Option, none, some}
use libopenapi.Yaml
use libopenapi.Prelude.Number.{format_bool, format_int}
use libopenapi.Yaml.{
  Kind, Node, absent, node, sequence_node, mapping_node, scalar_node, scalar, Nodes,
}
use libopenapi.Arazzo.Value.{
  Value, step_context, workflow_context, source_context, other, null, text, boolean, integer,
  float32, float64, slice, object, any_object, yaml, Values, Entries, end, entry, AnyEntries,
  any_end, any_entry,
}
use libopenapi.Arazzo.Criterion.{Host}

-- A map's key as text.
abbrev pub sprint_map_key : (h : Host) → Value h.floats.Float → Bytes
sprint_map_key h (text s) = s
sprint_map_key h v = h.sprint v

-- `append(node.Content, …)`, where an error stops the loop.
abbrev prepend : Option Node → Option Nodes → Option Nodes
prepend none rest = none
prepend (some n) none = none
prepend (some n) (some rest) = some (Yaml.cons n rest)

abbrev collect : Kind → Bytes → Option Nodes → Option Node
collect kind tag none = none
collect kind tag (some c) = some (node kind tag [] c)

module _ (h : Host) where
  -- `none` is an error of the encoder. A nil inside a map or a slice becomes a nil node.
  unfoldable mutual
    pub direct_yaml_node : Value h.floats.Float → Option Node
    direct_yaml_node (object m) = collect mapping_node (codes "!!map") (entry_nodes m)
    direct_yaml_node (any_object m) = collect mapping_node (codes "!!map") (any_entry_nodes m)
    direct_yaml_node (slice vs) = collect sequence_node (codes "!!seq") (item_nodes vs)
    direct_yaml_node (text s) = some (scalar (codes "!!str") s)
    direct_yaml_node (boolean b) = some (scalar (codes "!!bool") (format_bool b))
    direct_yaml_node (integer t n) = some (scalar (codes "!!int") (format_int n))
    direct_yaml_node (float32 x) = some (scalar (codes "!!float") (h.sprint (float32 x)))
    direct_yaml_node (float64 x) = some (scalar (codes "!!float") (h.sprint (float64 x)))
    direct_yaml_node null = some absent
    direct_yaml_node (yaml n) = h.encode (yaml n)
    direct_yaml_node (step_context i o) = h.encode (step_context i o)
    direct_yaml_node (workflow_context i o) = h.encode (workflow_context i o)
    direct_yaml_node (source_context u) = h.encode (source_context u)
    direct_yaml_node (other n) = h.encode (other n)

    pub entry_nodes : Entries h.floats.Float → Option Nodes
    entry_nodes end = some Yaml.nil
    entry_nodes (entry k v m) =
        prepend (some (scalar (codes "!!str") k)) (prepend (direct_yaml_node v) (entry_nodes m))

    pub any_entry_nodes : AnyEntries h.floats.Float → Option Nodes
    any_entry_nodes any_end = some Yaml.nil
    any_entry_nodes (any_entry k v m) =
        prepend (some (scalar (codes "!!str") (sprint_map_key h k)))
          (prepend (direct_yaml_node v) (any_entry_nodes m))

    pub item_nodes : Values h.floats.Float → Option Nodes
    item_nodes Values.nil = some Yaml.nil
    item_nodes (Values.cons v vs) = prepend (direct_yaml_node v) (item_nodes vs)

  -- `none` is an error, `some absent` the nil node.
  unfoldable pub to_yaml_node : Value h.floats.Float → Option Node
  to_yaml_node null = some absent
  to_yaml_node (yaml n) = some n
  to_yaml_node v = direct_yaml_node v
