-- ===== src/Ingestion/Inactivation.antt =====
-- backend/ingestion/index_lifecycle.py: `inactivate_and_schedule_cleanup`, with the scheduler
-- PersistentIndexCleanupScheduler of backend/ingestion/cleanup.py.
pub mod Laws
pub mod Steps
pub mod Completion
use zhiyan_personal_academic.Prelude.{
  ℕ, String, Bool, true, false, not, Option, none, some, List, [], ◌∷◌, ◌++◌, if◌then◌else◌, length,
  ◌==◌,
}
use zhiyan_personal_academic.Storage.Records.{
  CleanupBackend, elasticsearch_chunks, milvus_vectors, runtime_snapshot, CleanupJob,
}
use zhiyan_personal_academic.Ingestion.Writers.{
  IndexBackend, elasticsearch, milvus, IndexWriter, deactivate_failure, writers_are_valid,
}
use zhiyan_personal_academic.Storage.Database.{Error, Result, Repo, err, ok}
use zhiyan_personal_academic.Ingestion.Effects.{Service, System, on_service, on_repository}
use zhiyan_personal_academic.Storage.Lifecycle.{
  DocumentVersion, Update, set_delete_time, is_inactive, set_chunk_expire_time, LifecycleStatus,
}
use zhiyan_personal_academic.Storage.CleanupQueue.{enqueue_cleanup}
use zhiyan_personal_academic.Storage.Versions.{transition_version}

pub data InactivationReason : Type 0 where
  delete revoke expire : InactivationReason

pub record CleanupRequest : Type 0 where
  pub backend : CleanupBackend
  pub owner_id : String
  pub document_id : String
  pub document_version_id : String

pub record InactivationResult : Type 0 where
  pub version : DocumentVersion
  pub reason : InactivationReason
  pub visibility_invalidated : Bool
  pub deactivated_backends : List IndexBackend
  pub cleanup_requests : List CleanupRequest
  pub failures : List String

-- What the call gives: a result, an InactivationCleanupPendingError with its result, the ValueError
-- of the writers, or an error of the repository.
pub data Inactivation : Type 0 where
  inactivated : InactivationResult → Inactivation
  cleanup_pending : InactivationResult → Inactivation
  invalid_writers : Inactivation
  refused : Error → Inactivation

-- The clock when the call stamps the version, and the repository's clock at the transition; for
-- each of the three requests the fresh key and the clock that the repository reads.
pub record InactivationClock : Type 0 where
  pub stamp : ℕ
  pub transition : ℕ
  pub elasticsearch_cleanup : String × ℕ
  pub milvus_cleanup : String × ℕ
  pub snapshot_cleanup : String × ℕ

-- `{timestamp_field: clock()}`.
unfoldable pub timestamp_update : InactivationReason → ℕ → Update
timestamp_update delete t = set_delete_time (some t)
timestamp_update revoke t = set_delete_time (some t)
timestamp_update expire t = set_chunk_expire_time (some t)

-- `CleanupBackend(writer.backend.value)`.
unfoldable pub cleanup_backend : IndexBackend → CleanupBackend
cleanup_backend elasticsearch = elasticsearch_chunks
cleanup_backend milvus = milvus_vectors

-- `f"{backend}:enqueue_cleanup"`.
unfoldable pub enqueue_failure : CleanupBackend → String
enqueue_failure elasticsearch_chunks = "elasticsearch_chunks:enqueue_cleanup"
enqueue_failure milvus_vectors = "milvus_vectors:enqueue_cleanup"
enqueue_failure runtime_snapshot = "runtime_snapshot:enqueue_cleanup"

-- The request for one backend of a version.
unfoldable pub request_for : DocumentVersion → CleanupBackend → CleanupRequest
request_for version backend = record {
  backend = backend;
  owner_id = version.owner_id;
  document_id = version.document_id;
  document_version_id = version.document_version_id;
}

-- `PersistentIndexCleanupScheduler.enqueue`.
unfoldable pub enqueue : ℕ → String × ℕ → CleanupRequest → Repo CleanupJob
enqueue max_attempts (cleanup_id, now) request =
    enqueue_cleanup cleanup_id request.backend request.owner_id request.document_id
      request.document_version_id max_attempts now

abbrev pub with_failure : String → InactivationResult → InactivationResult
with_failure failure r = record r { failures = r.failures ++ failure ∷ [] }

module _ {W : Type 0} where
  -- What each of the three kinds of steps adds to the result.
  unfoldable pub noted_visibility :
      InactivationResult → Option (Unit {0}) × System W → InactivationResult × System W
  noted_visibility r (some u, s) = (record r { visibility_invalidated = true }, s)
  noted_visibility r (none, s) = (with_failure "query_visibility:invalidate" r, s)

  unfoldable pub noted_deactivation :
      IndexBackend
      → InactivationResult
      → Option (Unit {0}) × System W
      → InactivationResult × System W
  noted_deactivation backend r (some u, s) =
      (record r { deactivated_backends = r.deactivated_backends ++ backend ∷ [] }, s)
  noted_deactivation backend r (none, s) = (with_failure (deactivate_failure backend) r, s)

  unfoldable pub noted_request :
      CleanupRequest
      → InactivationResult
      → Result CleanupJob × System W
      → InactivationResult × System W
  noted_request request r (ok job, s) =
      (record r { cleanup_requests = r.cleanup_requests ++ request ∷ [] }, s)
  noted_request request r (err e, s) = (with_failure (enqueue_failure request.backend) r, s)

  unfoldable pub enqueue_step :
      ℕ
      → String × ℕ
      → DocumentVersion
      → CleanupBackend
      → InactivationResult × System W
      → InactivationResult × System W
  enqueue_step max_attempts ticket version backend (r, s) =
      noted_request (request_for version backend) r
        (on_repository (enqueue max_attempts ticket (request_for version backend)) s)

  unfoldable pub deactivate_step :
      IndexWriter W
      → DocumentVersion
      → InactivationResult × System W
      → InactivationResult × System W
  deactivate_step writer version (r, s) =
      noted_deactivation writer.backend r
        (on_service (writer.deactivate_version version.owner_id version.document_version_id) s)

  -- One round of the loop over the writers.
  unfoldable pub writer_step :
      ℕ
      → String × ℕ
      → IndexWriter W
      → DocumentVersion
      → InactivationResult × System W
      → InactivationResult × System W
  writer_step max_attempts ticket writer version p =
      enqueue_step max_attempts ticket version (cleanup_backend writer.backend)
        (deactivate_step writer version p)

  -- `if failures: raise`.
  unfoldable pub concluded : InactivationResult × System W → Inactivation × System W
  concluded (r, s) = if length r.failures == 0 then (inactivated r, s) else (cleanup_pending r, s)

  -- The first statement: commit INACTIVE, unless the version is so already.
  unfoldable pub commit_inactive :
      InactivationClock
      → DocumentVersion
      → InactivationReason
      → System W
      → Result DocumentVersion × System W
  commit_inactive clock version reason s =
      if is_inactive version.lifecycle_status
      then (ok version, s)
      else on_repository
          (transition_version version.owner_id version.document_version_id
            version.lifecycle_revision LifecycleStatus.inactive
            (timestamp_update reason clock.stamp ∷ []) clock.transition)
          s

module _ {W : Type 0} (es mv : IndexWriter W)
    (invalidate_version : String → String → String → Service W (Unit {0})) (max_attempts : ℕ) where
  -- What follows the commit.
  unfoldable pub after_commit :
      InactivationClock
      → InactivationReason
      → Result DocumentVersion × System W
      → Inactivation × System W
  after_commit clock reason (err e, s) = (refused e, s)
  after_commit clock reason (ok version, s) =
      let start : InactivationResult = record {
        version = version;
        reason = reason;
        visibility_invalidated = false;
        deactivated_backends = [];
        cleanup_requests = [];
        failures = [];
      } in
      let seen = noted_visibility start (
        on_service
          (invalidate_version version.owner_id version.document_id version.document_version_id)
          s) in
      let first = writer_step max_attempts clock.elasticsearch_cleanup es version seen in
      let second = writer_step max_attempts clock.milvus_cleanup mv version first in
      concluded (enqueue_step max_attempts clock.snapshot_cleanup version runtime_snapshot second)

  unfoldable pub inactivate_and_schedule_cleanup :
      InactivationClock → DocumentVersion → InactivationReason → System W → Inactivation × System W
  inactivate_and_schedule_cleanup clock version reason s =
      if writers_are_valid es mv
      then after_commit clock reason (commit_inactive clock version reason s)
      else (invalid_writers, s)
