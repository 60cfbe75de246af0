-- ===== src/Targets.antt =====
-- The writers of local targets, src/targets.rs.
pub mod Spaces
pub mod KeyValue
pub mod Documents
pub mod EnvFile
pub mod Credential
pub mod Writer
