-- ===== src/Graph.antt =====
-- src/graph: the follow graph, its queries and its counters.
pub mod Events
pub mod Interner
pub mod Metrics
pub mod Adjacency
pub mod Store
pub mod Bfs
