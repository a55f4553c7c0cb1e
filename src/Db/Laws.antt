-- ===== src/Db/Laws.antt =====
-- Proofs about the tables of src/db/sqlite.rs and the batch on them.
pub mod Nodes
pub mod Edges
pub mod Replace
pub mod Author
pub mod Turn
pub mod Fold
pub mod Commit
pub mod Load
pub mod Loads
