-- ===== src/Graph/Store.antt =====
-- src/graph/store.rs: the indexed follow and mute lists.
pub mod Types
pub mod Nodes
pub mod Update
pub mod Restore
pub mod Rebuild
pub mod Query
pub mod Invariant
pub mod View
pub mod Answers
