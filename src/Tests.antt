-- ===== src/Tests.antt =====
-- Runs of the code on concrete inputs, and the theorems applied to them.
mod Samples
mod Store
mod Rows
mod Interning
mod Answers
mod Sync
mod Cached
mod Snapshot
mod Tables
mod Jobs
mod Requests
mod Distance
