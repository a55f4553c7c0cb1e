-- ===== src/Graph/Bfs.antt =====
-- src/graph/bfs.rs: bidirectional breadth-first search over the follow graph.
pub mod Types
pub mod Walk
pub mod Reach
pub mod Meet
pub mod Loop
pub mod Shortest
pub mod Stops
pub mod Reads
pub mod Search
pub mod Distance
pub mod Path
