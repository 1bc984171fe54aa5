-- ===== src/Metadata.antt =====
-- internal/metadata: what the client knows of the cluster.
pub mod Cache
pub mod Schema
pub mod TableDescriptor
mod Runs
