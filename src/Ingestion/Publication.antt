-- ===== src/Ingestion/Publication.antt =====
-- backend/ingestion/index_lifecycle.py: `publish_prepared_indexes`. `fingerprint` is
-- `chunks_fingerprint`, a digest; the clock's readings are arguments.
pub mod Staging
pub mod FailsClosed
use zhiyan_personal_academic.Prelude.{
  ℕ, String, Bool, true, false, not, ◌&&◌, ◌||◌, Option, none, some, List, [], ◌∷◌, ◌++◌,
  if◌then◌else◌, ◌=ᵗ◌, all, length, ◌==◌,
}
use zhiyan_personal_academic.Storage.Lifecycle.{
  LifecycleStatus, IndexState, IndexStates, DocumentVersion, is_processing, set_index_states,
  set_failure_code,
}
use zhiyan_personal_academic.Storage.Records.{IngestionJob, ChunkRecord, job_is_running}
use zhiyan_personal_academic.Storage.Database.{Connection, Result, Error, ok, err}
use zhiyan_personal_academic.Storage.Versions.{transition_version}
use zhiyan_personal_academic.Storage.Indexing.{record_indexing_failure, finalize_indexing_success}
use zhiyan_personal_academic.Ingestion.Effects.{System, on_repository, on_service}
use zhiyan_personal_academic.Ingestion.Writers.{
  IndexBackend, elasticsearch, milvus, IndexWriteReceipt, IndexWriter, PublicationError, Attempt,
  invalid_preparation, repository_error, index_lifecycle, done, failed, updated_states,
  writers_are_valid, receipt_matches, stage_failed_code, activation_failed_code,
  compensate_deactivation,
}

pub data ParseStatus : Type 0 where
  pass review : ParseStatus

abbrev pub is_pass : ParseStatus → Bool
is_pass pass = true
is_pass review = false

-- What `prepare_persistent_pdf_ingestion` hands over.
pub record Preparation : Type 0 where
  pub version : DocumentVersion
  pub job : IngestionJob
  pub parse_status : ParseStatus
  pub chunks : List ChunkRecord

-- The readings of the clock: at each staged transition, at a recorded failure, and at the end.
pub record Clock : Type 0 where
  pub staged_elasticsearch : ℕ
  pub staged_milvus : ℕ
  pub failure : ℕ × ℕ
  pub vector_index : ℕ
  pub final : ℕ × ℕ

pub record PublicationResult : Type 0 where
  pub version : DocumentVersion
  pub job : IngestionJob
  pub elasticsearch_receipt : IndexWriteReceipt
  pub milvus_receipt : IndexWriteReceipt

unfoldable pub is_staged_chunk : DocumentVersion → ChunkRecord → Bool
is_staged_chunk version chunk =
    chunk.tenant_id =ᵗ version.owner_id
    && chunk.document_id =ᵗ version.document_id
    && chunk.version_id =ᵗ version.document_version_id
    && not chunk.is_active

-- `_validate_preparation`; `false` is its ValueError.
unfoldable pub preparation_is_valid : Preparation → Bool
preparation_is_valid p =
    if not (is_processing p.version.lifecycle_status)
    then false
    else if not (job_is_running p.job.status)
    then false
    else if not (p.job.owner_id =ᵗ p.version.owner_id)
        || not (p.job.document_id =ᵗ p.version.document_id)
        || not (p.job.document_version_id =ᵗ p.version.document_version_id)
    then false
    else if not (is_pass p.parse_status)
    then false
    else not (length p.chunks == 0) && all (is_staged_chunk p.version) p.chunks

module _ {W : Type 0} where
  unfoldable pub raise_recorded :
      String
      → List String
      → Result (DocumentVersion × IngestionJob) × System W
      → PublicationError × System W
  raise_recorded code compensation (ok r, s) = (index_lifecycle code compensation, s)
  raise_recorded code compensation (err e, s) =
      (index_lifecycle code (compensation ++ "fact_source:record_failure" ∷ []), s)

  -- `_record_failure`, and the IndexLifecycleError that is raised after it.
  unfoldable pub record_failure :
      Clock
      → DocumentVersion
      → IngestionJob
      → IndexBackend
      → String
      → List String
      → System W
      → PublicationError × System W
  record_failure clock version job backend code compensation s = raise_recorded code compensation (
      on_repository
        (record_indexing_failure version.owner_id version.document_version_id
          version.lifecycle_revision (updated_states version.index_states backend IndexState.failed)
          job.job_id code clock.failure)
        s)

  abbrev pub fail : {A : Type 0} → PublicationError × System W → Attempt A × System W
  fail (e, s) = (failed e, s)

  unfoldable pub staged_version :
      IndexWriteReceipt
      → Result DocumentVersion × System W
      → Attempt (DocumentVersion × IndexWriteReceipt) × System W
  staged_version receipt (ok version, s) = (done (version, receipt), s)
  staged_version receipt (err e, s) = (failed (repository_error e), s)

  -- One round of the staging loop, after the writer has answered.
  unfoldable pub after_staging :
      Clock
      → ℕ
      → IndexBackend
      → DocumentVersion
      → IngestionJob
      → ℕ
      → String
      → Option IndexWriteReceipt × System W
      → Attempt (DocumentVersion × IndexWriteReceipt) × System W
  after_staging clock now backend version job count sha256 (none, s) =
      fail (record_failure clock version job backend (stage_failed_code backend) [] s)
  after_staging clock now backend version job count sha256 (some receipt, s) =
      if receipt_matches receipt backend version count sha256
      then staged_version receipt (
          on_repository
            (transition_version version.owner_id version.document_version_id
              version.lifecycle_revision LifecycleStatus.processing
              (set_index_states (updated_states version.index_states backend IndexState.ready)
                ∷ set_failure_code none
                ∷ [])
              now)
            s)
      else fail (record_failure clock version job backend (stage_failed_code backend) [] s)

  unfoldable pub stage_index :
      IndexWriter W
      → Clock
      → ℕ
      → DocumentVersion
      → IngestionJob
      → List ChunkRecord
      → String
      → System W
      → Attempt (DocumentVersion × IndexWriteReceipt) × System W
  stage_index writer clock now version job chunks sha256 s =
      after_staging clock now writer.backend version job (length chunks) sha256 (
        on_service
          (writer.ensure_staged version.owner_id version.document_id version.document_version_id
            chunks)
          s)

module _ {W : Type 0} (es mv : IndexWriter W) where
  unfoldable pub compensated :
      Clock
      → DocumentVersion
      → IngestionJob
      → IndexBackend
      → String
      → List String × System W
      → PublicationError × System W
  compensated clock version job backend code (compensation, s) =
      record_failure clock version job backend code compensation s

  -- What follows a failed activation or finalization: both indexes are deactivated, then the
  -- failure is recorded.
  unfoldable pub compensate :
      Clock
      → DocumentVersion
      → IngestionJob
      → IndexBackend
      → String
      → System W
      → PublicationError × System W
  compensate clock version job backend code s =
      compensated clock version job backend code
        (compensate_deactivation es mv version.owner_id version.document_version_id s)

  unfoldable pub finalized :
      Clock
      → DocumentVersion
      → IngestionJob
      → IndexWriteReceipt
      → IndexWriteReceipt
      → Result (DocumentVersion × IngestionJob) × System W
      → Attempt PublicationResult × System W
  finalized clock version job r1 r2 (ok (version', job'), s) = (
    done (record {
      version = version';
      job = job';
      elasticsearch_receipt = r1;
      milvus_receipt = r2;
    }),
    s,
  )
  finalized clock version job r1 r2 (err e, s) =
      fail (compensate clock version job elasticsearch "INDEX_FINALIZATION_FAILED" s)

  unfoldable pub finalize :
      Clock
      → DocumentVersion
      → IngestionJob
      → IndexWriteReceipt
      → IndexWriteReceipt
      → System W
      → Attempt PublicationResult × System W
  finalize clock version job r1 r2 s = finalized clock version job r1 r2 (
      on_repository
        (finalize_indexing_success version.owner_id version.document_version_id
          version.lifecycle_revision
          (record { elasticsearch_chunks = IndexState.ready; milvus_vectors = IndexState.ready })
          clock.vector_index job.job_id clock.final)
        s)

  -- The activation of one index, and then of the rest.
  unfoldable pub after_activation :
      Clock
      → DocumentVersion
      → IngestionJob
      → IndexBackend
      → (System W → Attempt PublicationResult × System W)
      → Option (Unit {0}) × System W
      → Attempt PublicationResult × System W
  after_activation clock version job backend rest (none, s) =
      fail (compensate clock version job backend (activation_failed_code backend) s)
  after_activation clock version job backend rest (some u, s) = rest s

  unfoldable pub activate :
      IndexWriter W
      → Clock
      → DocumentVersion
      → IngestionJob
      → (System W → Attempt PublicationResult × System W)
      → System W
      → Attempt PublicationResult × System W
  activate writer clock version job rest s =
      after_activation clock version job writer.backend rest
        (on_service (writer.activate_version version.owner_id version.document_version_id) s)

  -- The activation loop and the finalization.
  unfoldable pub publish_staged :
      Clock
      → DocumentVersion
      → IngestionJob
      → IndexWriteReceipt
      → IndexWriteReceipt
      → System W
      → Attempt PublicationResult × System W
  publish_staged clock version job r1 r2 =
      activate es clock version job
        (activate mv clock version job (finalize clock version job r1 r2))

  unfoldable pub after_milvus :
      Clock
      → IngestionJob
      → IndexWriteReceipt
      → Attempt (DocumentVersion × IndexWriteReceipt) × System W
      → Attempt PublicationResult × System W
  after_milvus clock job r1 (failed e, s) = (failed e, s)
  after_milvus clock job r1 (done (version, r2), s) = publish_staged clock version job r1 r2 s

  unfoldable pub after_elasticsearch :
      Clock
      → IngestionJob
      → List ChunkRecord
      → String
      → Attempt (DocumentVersion × IndexWriteReceipt) × System W
      → Attempt PublicationResult × System W
  after_elasticsearch clock job chunks sha256 (failed e, s) = (failed e, s)
  after_elasticsearch clock job chunks sha256 (done (version, r1), s) =
      after_milvus clock job r1
        (stage_index mv clock clock.staged_milvus version job chunks sha256 s)

  unfoldable pub publish_prepared_indexes :
      (List ChunkRecord → String)
      → Clock
      → Preparation
      → System W
      → Attempt PublicationResult × System W
  publish_prepared_indexes fingerprint clock p s =
      let sha256 = fingerprint p.chunks in
      if not (writers_are_valid es mv)
      then (failed invalid_preparation, s)
      else if not (preparation_is_valid p)
      then (failed invalid_preparation, s)
      else after_elasticsearch clock p.job p.chunks sha256
          (stage_index es clock clock.staged_elasticsearch p.version p.job p.chunks sha256 s)
