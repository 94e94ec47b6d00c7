-- ===== src/Overlay.antt =====
-- overlay/engine.go: how an overlay's update is merged into a node, and how a node is removed.
mod Tests
pub mod Merge
pub mod Merged
pub mod Trees
pub mod Remove
pub mod Removed
