-- ===== src/Ingestion/Inactivation/Completion.antt =====
-- An inactivation that returns has taken every step.
use zhiyan_personal_academic.Prelude.{◌≡◌, [], ◌∷◌, true, some, ◌++◌}
use zhiyan_personal_academic.Ingestion.Writers.{elasticsearch, milvus, writers_are_valid}
use zhiyan_personal_academic.Ingestion.Inactivation.{
  String, InactivationResult, IndexWriter, DocumentVersion, System, CleanupBackend, request_for,
  cleanup_backend, writers_are_valid, elasticsearch_chunks, Service, milvus_vectors,
  runtime_snapshot,
}
use zhiyan_personal_academic.Ingestion.Inactivation.Steps.{HasCleanup}

-- The result says that every step was taken.
pub record IsComplete (r : InactivationResult) : Type 0 where
  pub invalidated : r.visibility_invalidated ≡ true
  pub deactivated : r.deactivated_backends ≡ elasticsearch ∷ milvus ∷ []
  pub requested :
      r.cleanup_requests
      ≡ request_for r.version elasticsearch_chunks
        ∷ request_for r.version milvus_vectors
        ∷ request_for r.version runtime_snapshot
        ∷ []
  pub no_failure : r.failures ≡ []

-- What the steps did, from the world of the first of them: the queries were told, both indexes have
-- deactivated the version, and the committed queue holds its three cleanups.
pub record TookSteps {W : Type 0} (es mv : IndexWriter W)
    (invalidate : String → String → String → Service W (Unit {0})) (version : DocumentVersion)
    (w : W) (s' : System W) : Type 0 where
  pub told_world : W
  pub es_world : W
  pub told :
      invalidate version.owner_id version.document_id version.document_version_id w
      ≡ (some tt, told_world)
  pub es_deactivates :
      es.deactivate_version version.owner_id version.document_version_id told_world
      ≡ (some tt, es_world)
  pub mv_deactivates :
      mv.deactivate_version version.owner_id version.document_version_id es_world
      ≡ (some tt, s'.world)
  pub es_cleanup : HasCleanup version elasticsearch_chunks s'.connection
  pub mv_cleanup : HasCleanup version milvus_vectors s'.connection
  pub snapshot_cleanup : HasCleanup version runtime_snapshot s'.connection

abbrev adds_request : DocumentVersion → CleanupBackend → InactivationResult → InactivationResult
adds_request version b r = record r {
  cleanup_requests = r.cleanup_requests ++ request_for version b ∷ [];
}

abbrev adds_writer :
    {W : Type 0} → IndexWriter W → DocumentVersion → InactivationResult → InactivationResult
adds_writer writer version r = record r {
  deactivated_backends = r.deactivated_backends ++ writer.backend ∷ [];
  cleanup_requests =
      r.cleanup_requests ++ request_for version (cleanup_backend writer.backend) ∷ [];
}
