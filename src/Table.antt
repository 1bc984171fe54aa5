-- ===== src/Table.antt =====
-- client/table.go: the table client.
pub mod Retry
pub mod Sample
pub mod Read
pub mod Send
pub mod Upsert
mod Runs
