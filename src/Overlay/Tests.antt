-- ===== src/Overlay/Tests.antt =====
-- Merges and removals at concrete inputs.
use libopenapi.Prelude.{[], true, false, Bytes, none, some, codes, eqb, ◌≡◌, refl}
use libopenapi.Prelude.Outcome.{ok, err}
use libopenapi.Yaml.{Node, node, Nodes, nil, cons, mapping_node, sequence_node, scalar_node, scalar}
use libopenapi.Overlay.Merge.{append, same_kind, merge_node, merge_mapping_node}
use libopenapi.Overlay.Merged.{find, combined, merge_mapping_node-find}
use libopenapi.Overlay.Trees.{IsTree, merge_node-IsTree}
use libopenapi.Overlay.Remove.{remove_child, slice_out_of_range}
use libopenapi.Overlay.Removed.{tag, kind, remove_child-find, merge_node-tag}

abbrev string : Bytes → Node
string v = scalar (codes "!!str") v

abbrev pair : Bytes → Node → Nodes → Nodes
pair key x rest = cons (string key) (cons x rest)

abbrev mapping : Nodes → Node
mapping c = node mapping_node (codes "!!map") [] c

-- `{"title": "a", "tags": ["x"]}`.
abbrev entries : Nodes
entries = pair (codes "title") (string (codes "a")) (
    pair (codes "tags") (node sequence_node (codes "!!seq") [] (cons (string (codes "x")) nil)) nil)

-- `{"title": 2, "tags": ["y"], "info": "z"}`.
abbrev update : Nodes
update = pair (codes "title") (scalar (codes "!!int") (codes "2")) (
    pair (codes "tags") (node sequence_node (codes "!!seq") [] (cons (string (codes "y")) nil))
      (pair (codes "info") (string (codes "z")) nil))

-- The title has the value `2` and the tag of a string.
abbrev merged : Nodes
merged = pair (codes "title") (string (codes "2")) (
    pair (codes "tags")
      (node sequence_node (codes "!!seq") []
        (cons (string (codes "x")) (cons (string (codes "y")) nil)))
      (pair (codes "info") (string (codes "z")) nil))

merge_entries : merge_mapping_node entries update ≡ some merged
unfolding merge_mapping_node eqb
merge_entries = refl

first_key : remove_child mapping_node 0 entries ≡ err slice_out_of_range
unfolding remove_child
first_key = refl

merge_mapping_node-find_example :
    find (codes "tags") merged ≡ combined (find (codes "tags") entries) (find (codes "tags") update)
unfolding find eqb
merge_mapping_node-find_example =
    merge_mapping_node-find entries update merged (codes "tags") tt (refl, (refl, (refl, tt)))
      merge_entries

merge_node-IsTree_example :
    (r : Node) × (merge_node (mapping entries) (mapping update) ≡ some r) × IsTree r
unfolding IsTree
merge_node-IsTree_example =
    merge_node-IsTree (mapping entries) (mapping update) (tt, ((tt, tt), tt))
      (tt, ((tt, tt), (tt, tt)))

merge_scalars :
    merge_node (string (codes "a")) (scalar (codes "!!int") (codes "2")) ≡ some (string (codes "2"))
unfolding merge_node
merge_scalars = refl

merge_node-tag_example :
    (same_kind (kind (string (codes "a"))) (kind (scalar (codes "!!int") (codes "2"))) ≡ true
      → tag (string (codes "2")) ≡ tag (string (codes "a")))
    × (same_kind (kind (string (codes "a"))) (kind (scalar (codes "!!int") (codes "2"))) ≡ false
        → string (codes "2") ≡ scalar (codes "!!int") (codes "2"))
merge_node-tag_example =
    merge_node-tag (string (codes "a")) (scalar (codes "!!int") (codes "2")) (string (codes "2"))
      merge_scalars

remove_child-find_example :
    (d : Nodes) × (remove_child mapping_node 3 merged ≡ ok d)
    × (find (codes "tags") d ≡ none)
    × ((j : Bytes) → eqb (codes "tags") j ≡ false → find j d ≡ find j merged)
unfolding find eqb append
remove_child-find_example =
    remove_child-find scalar_node (codes "!!str") (codes "tags") nil
      (node sequence_node (codes "!!seq") []
        (cons (string (codes "x")) (cons (string (codes "y")) nil)))
      (pair (codes "info") (string (codes "z")) nil) (pair (codes "title") (string (codes "2")) nil)
      tt (refl, (refl, (refl, tt)))
