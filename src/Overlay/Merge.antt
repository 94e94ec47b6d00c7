-- ===== src/Overlay/Merge.antt =====
-- overlay/engine.go: `mergeNode` and what it calls, on trees. `none` is a panic: a nil node, or an
-- index behind the end of a mapping whose last key has no value. A clone is equal as a tree.
use libopenapi.Prelude.{ℕ, Bool, Bytes, Option, none, some, eqb, ◌==◌, if◌then◌else◌}
use mathlib.Core.Option.{map}
use libopenapi.Yaml.{
  Kind, no_kind, document_node, sequence_node, mapping_node, scalar_node, alias_node, Node, absent,
  node, Nodes, nil, cons,
}

abbrev pub number : Kind → ℕ
number no_kind = 0
number document_node = 1
number sequence_node = 2
number mapping_node = 4
number scalar_node = 8
number alias_node = 16

abbrev pub same_kind : Kind → Kind → Bool
same_kind k j = number k == number j

unfoldable pub append : Nodes → Nodes → Nodes
append nil ms = ms
append (cons n ns) ms = cons n (append ns ms)

abbrev pub chain : {A B : Type 0} → (A → Option B) → Option A → Option B
chain f none = none
chain f (some a) = f a

-- The inner loop of `mergeMappingNode`: the first value under the key is merged by `f`; behind the
-- last one, `more` is appended.
unfoldable pub merge_entry : Bytes → (Node → Option Node) → Nodes → Nodes → Option Nodes
merge_entry key f more nil = some more
merge_entry key f more (cons absent rest) = none
merge_entry key f more (cons (node k t v c) nil) =
    if eqb v key then none else some (cons (node k t v c) more)
merge_entry key f more (cons (node k t v c) (cons x rest)) =
    let others = merge_entry key f more rest in
    if eqb v key
    then map (λ y. cons (node k t v c) (cons y rest)) (f x)
    else map (λ ns. cons (node k t v c) (cons x ns)) others

-- A node of the document with what its kind makes of the update.
abbrev pub merged_as : Kind → Bytes → Bytes → Nodes → Bytes → Nodes → Option Nodes → Option Node
merged_as mapping_node t v c w d entries = map (node mapping_node t v) entries
merged_as sequence_node t v c w d entries = some (node sequence_node t v (append c d))
merged_as k t v c w d entries = some (node k t w c)

unfoldable mutual
  unfolding merge_entry append

  pub merge_node : Node → Node → Option Node
  merge_node n absent = none
  merge_node absent (node j u w d) = none
  merge_node (node k t v c) (node j u w d) =
      let entries = merge_mapping_node c d in
      if same_kind k j then merged_as k t v c w d entries else some (node j u w d)

  pub merge_mapping_node : Nodes → Nodes → Option Nodes
  merge_mapping_node c nil = some c
  merge_mapping_node c (cons absent rest) = none
  merge_mapping_node c (cons (node j u w d) nil) = none
  merge_mapping_node c (cons (node j u w d) (cons x rest)) =
      chain (λ more. merge_mapping_node more rest)
        (merge_entry w (λ y. merge_node y x) (cons (node j u w d) (cons x nil)) c)
