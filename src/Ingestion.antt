-- ===== src/Ingestion.antt =====
-- backend/ingestion: publication, inactivation and physical cleanup of indexed versions.
pub mod Effects
pub mod Worker
pub mod Writers
pub mod Publication
pub mod Inactivation
pub mod Splitter
