-- ===== src/Sync.antt =====
-- src/sync/ingestion.rs: receiving list events, selecting winners, persisting and publishing.
pub mod Status
pub mod Events
pub mod Persist
pub mod Winners
pub mod Ingest
pub mod Flush
pub mod Agree
pub mod Ending
