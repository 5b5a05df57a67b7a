-- ===== src/Retrieval.antt =====
-- backend/retrieval: ranked candidates, their fusion, and the coverage of both sides of a
-- comparison.
pub mod Results
pub mod Fusion
pub mod Coverage
