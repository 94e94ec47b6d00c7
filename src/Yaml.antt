-- ===== src/Yaml.antt =====
-- `yaml.Node` of go.yaml.in/yaml/v4, as far as the program reads and writes its fields: kind, tag,
-- value and content. A child of a node is a pointer, so it may be nil.
use libopenapi.Prelude.{ℕ, zero, suc, [], Bytes, Option, none, some}

pub data Kind : Type 0 where
  no_kind document_node sequence_node mapping_node scalar_node alias_node : Kind

mutual
  pub data Node : Type 0 where
    absent : Node
    node : Kind → Bytes → Bytes → Nodes → Node

  pub data Nodes : Type 0 where
    nil : Nodes
    cons : Node → Nodes → Nodes

abbrev pub content : Node → Nodes
content absent = nil
content (node k t v c) = c

abbrev pub value : Node → Bytes
value absent = []
value (node k t v c) = v

abbrev pub count : Nodes → ℕ
count nil = 0
count (cons n ns) = suc (count ns)

abbrev pub child : Nodes → ℕ → Option Node
child nil i = none
child (cons n ns) zero = some n
child (cons n ns) (suc i) = child ns i

abbrev pub scalar : Bytes → Bytes → Node
scalar tag v = node scalar_node tag v nil
