-- ===== src/Metadata/Schema.antt =====
-- internal/metadata/schema_descriptor.go: column types, as texts and as JSON.
pub mod Parser
pub mod Descriptor
pub mod Printer
pub mod Steps
pub mod Fuel
mod Runs
