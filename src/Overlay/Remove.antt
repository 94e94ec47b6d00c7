-- ===== src/Overlay/Remove.antt =====
-- overlay/engine.go: `removeNode` behind its search for the parent.
use libopenapi.Prelude.{ℕ, zero, suc}
use libopenapi.Prelude.Outcome.{Result, ok, err}
use libopenapi.Yaml.{Kind, sequence_node, mapping_node, Nodes, nil, cons}
use libopenapi.Overlay.Merge.{append}

-- A slice bound of -1 is a panic.
pub data Panic : Type 0 where
  slice_out_of_range : Panic

-- `Content[:i]` and `Content[i:]`.
unfoldable pub take : ℕ → Nodes → Nodes
take zero c = nil
take (suc i) nil = nil
take (suc i) (cons n c) = cons n (take i c)

unfoldable pub drop : ℕ → Nodes → Nodes
drop zero c = c
drop (suc i) nil = nil
drop (suc i) (cons n c) = drop i c

-- The parent's content without its child at `i`, and without the one in front of it in a mapping.
unfoldable pub remove_child : Kind → ℕ → Nodes → Result Panic Nodes
unfolding take drop append
remove_child mapping_node zero c = err slice_out_of_range
remove_child mapping_node (suc i) c = ok (append (take i c) (drop (suc (suc i)) c))
remove_child sequence_node i c = ok (append (take i c) (drop (suc i) c))
remove_child k i c = ok c
