-- ===== src/Api/Http.antt =====
-- src/api/http.rs.
pub mod Types
pub mod Distance
pub mod Batch
pub mod Lists
