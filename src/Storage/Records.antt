-- ===== src/Storage/Records.antt =====
-- backend/storage/models.py and backend/ingestion/models.py: the other rows of the fact source.
use zhiyan_personal_academic.Prelude.{
  ℕ, String, Bool, true, false, not, ◌&&◌, Option, List, if◌then◌else◌, is_none, is_some, leb, ltb,
  ◌==◌,
}

pub data SourceType : Type 0 where
  uploaded collected : SourceType

pub record DocumentIdentity : Type 0 where
  pub paper_id : String
  pub document_id : String
  pub owner_id : String
  pub source_type : SourceType
  pub mapping_version : String
  pub source_created_time : ℕ
  pub source_updated_time : ℕ

-- The validator `source_times_are_ordered`.
unfoldable pub source_times_are_ordered : DocumentIdentity → Bool
source_times_are_ordered d = leb d.source_created_time d.source_updated_time

pub data IngestionJobStatus : Type 0 where
  pending running succeeded failed : IngestionJobStatus

abbrev pub job_is_running : IngestionJobStatus → Bool
job_is_running IngestionJobStatus.running = true
job_is_running _ = false

abbrev pub job_is_failed : IngestionJobStatus → Bool
job_is_failed IngestionJobStatus.failed = true
job_is_failed _ = false

pub record IngestionJob : Type 0 where
  pub job_id : String
  pub owner_id : String
  pub idempotency_key : String
  pub document_id : String
  pub document_version_id : String
  pub status : IngestionJobStatus
  pub attempt_count : ℕ
  pub failure_code : Option String
  pub created_at : ℕ
  pub updated_at : ℕ

-- The validator `failed_job_requires_code`.
unfoldable pub failed_job_requires_code : IngestionJob → Bool
failed_job_requires_code j = not (job_is_failed j.status && is_none j.failure_code)

pub data CleanupBackend : Type 0 where
  elasticsearch_chunks milvus_vectors runtime_snapshot : CleanupBackend

abbrev pub same_backend : CleanupBackend → CleanupBackend → Bool
same_backend elasticsearch_chunks elasticsearch_chunks = true
same_backend milvus_vectors milvus_vectors = true
same_backend runtime_snapshot runtime_snapshot = true
same_backend _ _ = false

pub data CleanupJobStatus : Type 0 where
  pending running retry succeeded failed : CleanupJobStatus

abbrev pub cleanup_is_pending : CleanupJobStatus → Bool
cleanup_is_pending CleanupJobStatus.pending = true
cleanup_is_pending _ = false

abbrev pub cleanup_is_running : CleanupJobStatus → Bool
cleanup_is_running CleanupJobStatus.running = true
cleanup_is_running _ = false

-- RETRY or FAILED: the states that hold a failure code.
abbrev pub cleanup_has_failed : CleanupJobStatus → Bool
cleanup_has_failed CleanupJobStatus.retry = true
cleanup_has_failed CleanupJobStatus.failed = true
cleanup_has_failed _ = false

-- SUCCEEDED or FAILED.
abbrev pub cleanup_is_terminal : CleanupJobStatus → Bool
cleanup_is_terminal CleanupJobStatus.succeeded = true
cleanup_is_terminal CleanupJobStatus.failed = true
cleanup_is_terminal _ = false

-- PENDING or RETRY: what a worker may claim.
abbrev pub cleanup_is_waiting : CleanupJobStatus → Bool
cleanup_is_waiting CleanupJobStatus.pending = true
cleanup_is_waiting CleanupJobStatus.retry = true
cleanup_is_waiting _ = false

pub record CleanupJob : Type 0 where
  pub cleanup_id : String
  pub backend : CleanupBackend
  pub owner_id : String
  pub document_id : String
  pub document_version_id : String
  pub status : CleanupJobStatus
  pub attempt_count : ℕ
  pub max_attempts : ℕ
  pub next_attempt_at : ℕ
  pub lease_token : Option String
  pub lease_expires_at : Option ℕ
  pub failure_code : Option String
  pub created_at : ℕ
  pub updated_at : ℕ
  pub completed_at : Option ℕ

abbrev pub same_bool : Bool → Bool → Bool
same_bool true b = b
same_bool false b = not b

-- Whether the validator `cleanup_state_is_replay_safe` returns; `false` is its ValueError.
unfoldable pub cleanup_state_is_replay_safe : CleanupJob → Bool
cleanup_state_is_replay_safe j =
    let is_running = cleanup_is_running j.status in
    if not (same_bool is_running (is_some j.lease_token && is_some j.lease_expires_at))
    then false
    else if cleanup_has_failed j.status && is_none j.failure_code
    then false
    else if not (cleanup_has_failed j.status) && is_some j.failure_code
    then false
    else if not (same_bool (cleanup_is_terminal j.status) (is_some j.completed_at))
    then false
    else if ltb j.max_attempts j.attempt_count
    then false
    else if cleanup_is_pending j.status && not (j.attempt_count == 0)
    then false
    else not (is_running && ltb j.attempt_count 1)

-- The validator with the field bound `1 <= max_attempts <= 100`.
unfoldable pub cleanup_is_valid : CleanupJob → Bool
cleanup_is_valid j =
    leb 1 j.max_attempts && leb j.max_attempts 100 && cleanup_state_is_replay_safe j

-- The pieces of a stored PDF that the fact source names; its bytes are elsewhere.
pub record PdfObject : Type 0 where
  pub owner_id : String
  pub document_id : String
  pub document_version_id : String
  pub object_key : String
  pub content_sha256 : String
  pub size_bytes : ℕ
  pub stored_at : ℕ

pub data Visibility : Type 0 where
  public tenant private : Visibility

pub record ChunkRecord : Type 0 where
  pub chunk_id : String
  pub document_id : String
  pub version_id : String
  pub text : String
  pub section_path : String
  pub page_start : ℕ
  pub page_end : ℕ
  pub parent_chunk_id : Option String
  pub previous_chunk_id : Option String
  pub next_chunk_id : Option String
  pub tenant_id : String
  pub visibility : Visibility
  pub library_scope_ids : List String
  pub parse_version : String
  pub embedding_version : String
  pub is_active : Bool
