-- ===== src/Tests.antt =====
-- Concrete runs of the modelled code.
pub mod Data
mod Versions
mod Registration
mod Cleanups
pub mod Publication
mod Inactivation
mod Online
mod Retrieval
mod Coverage
mod Snapshots
mod Splitter
mod Answers
