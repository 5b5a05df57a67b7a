-- ===== src/Storage.antt =====
-- backend/storage: the fact source, its tables and its repository operations.
pub mod Lifecycle
pub mod Records
pub mod Database
pub mod Versions
pub mod Jobs
pub mod Indexing
pub mod Identifiers
pub mod CleanupQueue
pub mod Registration
pub mod Online
pub mod Snapshots
