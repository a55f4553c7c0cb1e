-- ===== src/Lib.antt =====
-- The program: an oracle for distances in the Nostr web of trust. It ingests public follow lists
-- (kind 3) and mute lists (kind 10000) from relays, commits them to a database, keeps them in an
-- in-memory graph, and answers queries over HTTP, with a cache of distances.
--
-- Parts, by file. Names of definitions are those of the functions and types in the source; paths
-- are from the root of the repository.
-- - Prelude, Prelude/: shared names, tests on numbers, lists, strings as their bytes, signed
--   integers, dictionaries, ascending rows with binary search.
-- - Graph/Events: accepts_event of src/graph/store.rs, which says which of two versions of a
--   list wins.
-- - Graph/Interner, Graph/Metrics: src/graph/interner.rs, src/graph/metrics.rs;
--   Graph/Interner/Shared runs concurrent calls of intern.
-- - Graph/Adjacency: the loops of update_follows and common_follows in src/graph/store.rs over
--   ascending rows of ids; below it Laws, Rows and Merge.
-- - Graph/Store/Types, Nodes, Update, Query, Restore: WotGraph of src/graph/store.rs, its
--   creation of nodes, update_follows and update_mutes, the reading operations, restore_nodes.
--   Graph/Store/Rebuild: its reverse adjacency.
-- - Graph/Store/Invariant and its children: the invariant WellFormed, and the operations on it.
--   Graph/Store/View: the abstract view, the relations `follows` and `mutes` between keys.
--   Graph/Store/Answers: queries in terms of the view.
-- - Graph/Bfs/Types, Search, Distance, Path: src/graph/bfs.rs. Graph/Bfs/Walk: walks along
--   follows. Graph/Bfs/Search/Level and Sweep: what the scan of a row and of a frontier does;
--   Graph/Bfs/Reach, Meet, Loop and Shortest: the invariant of one side, of the best meeting, of
--   the loop, and the answer; Graph/Bfs/Stops: the ends of both loops; Graph/Bfs/Reads: what a
--   search reads of the graph.
-- - Cache: src/cache.rs over the crate moka; Cache/Laws, Cache/Laws/History.
-- - Config: src/config.rs.
-- - Sync/Status, Events, Persist, Ingest: src/sync/ingestion.rs, with Sync/Winners on the
--   selection of winners and Sync/Flush on batches and Sync/Ending on the end of the loop; the
--   database of src/db/sqlite.rs enters as the record Database, the crate lru as the record
--   SeenCache.
-- - Sync/Agree and its children: ingestion on the tables of the database. Order: the order of
--   events; Applied: the graph's updates with their versions; Published: a batch in the graph;
--   Stored and Attempt: a batch in the tables and the instance `sqlite` of the record Database;
--   Flushed: a flush with its retries.
-- - Db: event_wins of src/db/sqlite.rs. Db/Tables: the schema and the statements; Db/Batch:
--   update_lists_batch; Db/Load: load_graph; Db/Rows: the operations on single rows. Db/View:
--   the constraints WellFormed, and the abstract view, lists and versions by pubkey. Db/Laws and
--   its children: Nodes, Edges and Replace on the statements, Author and Turn on one author of a
--   batch, Fold and Commit on a batch; Load, Load/Snapshot and Loads on load_graph.
-- - Api/Http/Types, Distance, Batch, Lists: the handlers of src/api/http.rs; below Distance,
--   Entries and Coherent on the cache beside the search; below Batch, Total on the answers of a
--   batch.
-- - Api/Dvm: the job requests of src/api/dvm.rs; Api/Dvm/Laws. Api/GovernorKey:
--   src/api/governor_key.rs; Api/GovernorKey/Laws.
-- - Process: the supervision of src/main.rs.
-- - Tests: concrete runs.
--
-- How the parts meet: ingestion turns events into list updates, selects one winner for each
-- author and kind, commits them and then calls update_follows and update_mutes; each change of
-- topology or mutes takes a new revision; queries read the graph, and the cache answers only for
-- the revision an entry was stored at.
--
-- Conventions. Strings are lists of bytes. Times are signed and only compared. Ids are `% 2 ^
-- 32`, revisions and counters `% 2 ^ 64`; HasRoom and HasRevisions say that none of them wraps.
-- Hash maps are association lists. Locks serialise writers, so an operation of the graph is one
-- step on its whole state; where a reader takes a lock more than once, the definition takes one
-- graph for each time (get_during, Moments); only the ids of a result's bridges are looked up in
-- one graph, since the id of a node never changes. The steps of concurrent calls of intern are a
-- list of the calls in the order of their accesses to the map. A thread-local scratch buffer is
-- cleared before use, so a search starts from the empty one. Calls of other crates, the clock
-- and the environment are arguments.
--
-- Fuel. The merge loops take the sum of both lengths as fuel, of which each turn uses at least
-- one. A search takes the hop limit as fuel: each turn adds one to the depth of one side, and
-- the loop ends when their sum reaches the limit. The climb from a meeting node takes its
-- distance as fuel, since each step lowers it.
--
-- Database. A table with a unique column is a dictionary under that column, and an edge table a
-- list of pairs; the statements are functions on them that answer none where a constraint
-- refuses. The id of a new row (Rowids), the order in which a hash map or set is read (Hashing),
-- the clock and whether a transaction commits are arguments. A transaction that fails leaves the
-- tables that it met.
--
-- Not modelled: routes, layers, tasks and the listening socket (src/api/http.rs), the engine of
-- SQL and its journal (src/db/sqlite.rs), keys, relays and signatures of the DVM
-- (src/api/dvm.rs), the parsers of addresses (src/api/governor_key.rs), logging, lock timers
-- inside the graph's operations, and debug output.
pub mod Prelude
pub mod Graph
pub mod Cache
pub mod Config
pub mod Sync
pub mod Api
pub mod Db
pub mod Process
pub mod Tests
