-- ===== src/Storage/Indexing.antt =====
-- backend/storage/postgres.py: the two operations that settle an indexing attempt, each one
-- transaction over the version and its job.
pub mod Laws
use zhiyan_personal_academic.Prelude.{
  ℕ, String, Option, none, some, ◌=ᵗ◌, List, [], ◌∷◌, true, false,
}
use zhiyan_personal_academic.Storage.Lifecycle.{
  LifecycleStatus, IndexStates, DocumentVersion, Update, set_index_states, set_failure_code,
  set_vector_index_time,
}
use zhiyan_personal_academic.Storage.Records.{IngestionJobStatus, IngestionJob}
use zhiyan_personal_academic.Storage.Database.{
  Repo, identity_conflict, ◌>>=◌, ◌>>◌, return, require, in_transaction,
}
use zhiyan_personal_academic.Storage.Versions.{transition_version_in}
use zhiyan_personal_academic.Storage.Jobs.{update_ingestion_job_in}

-- The second half of both: the job, and that it is bound to the version.
unfoldable pub settle_job :
    String
    → String
    → IngestionJobStatus
    → Option String
    → ℕ
    → DocumentVersion
    → Repo (DocumentVersion × IngestionJob)
settle_job owner_id job_id status failure_code now version = do
  job ← update_ingestion_job_in false owner_id job_id status failure_code now
  require (job.document_version_id =ᵗ version.document_version_id) identity_conflict
  return (version, job)

-- The common body of both: the version, then the job. `now` is the two readings of the clock.
unfoldable pub settle_indexing :
    String
    → String
    → ℕ
    → LifecycleStatus
    → List Update
    → String
    → IngestionJobStatus
    → Option String
    → ℕ × ℕ
    → Repo (DocumentVersion × IngestionJob)
settle_indexing owner_id document_version_id expected_revision target updates job_id status
      failure_code now =
    do
      version ←
          transition_version_in false owner_id document_version_id expected_revision target updates
            now.0
      settle_job owner_id job_id status failure_code now.1 version

abbrev pub failure_updates : IndexStates → String → List Update
failure_updates states code = set_index_states states ∷ set_failure_code (some code) ∷ []

unfoldable pub record_indexing_failure :
    String
    → String
    → ℕ
    → IndexStates
    → String
    → String
    → ℕ × ℕ
    → Repo (DocumentVersion × IngestionJob)
record_indexing_failure owner_id document_version_id expected_revision index_states job_id
      failure_code now =
    in_transaction true (
      settle_indexing owner_id document_version_id expected_revision LifecycleStatus.processing
        (failure_updates index_states failure_code) job_id IngestionJobStatus.failed
        (some failure_code) now)

abbrev pub success_updates : IndexStates → ℕ → List Update
success_updates states time =
    set_index_states states ∷ set_vector_index_time (some time) ∷ set_failure_code none ∷ []

unfoldable pub finalize_indexing_success :
    String → String → ℕ → IndexStates → ℕ → String → ℕ × ℕ → Repo (DocumentVersion × IngestionJob)
finalize_indexing_success owner_id document_version_id expected_revision index_states
      vector_index_time job_id now =
    in_transaction true (
      settle_indexing owner_id document_version_id expected_revision LifecycleStatus.ready
        (success_updates index_states vector_index_time) job_id IngestionJobStatus.succeeded none
        now)
