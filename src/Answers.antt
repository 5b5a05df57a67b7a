-- ===== src/Answers.antt =====
-- backend/rag: answers and their evidence.
pub mod Builder
pub mod Evidence
