-- ===== src/Api.antt =====
-- src/api: the HTTP handlers and the job requests.
pub mod Http
pub mod Dvm
pub mod GovernorKey
