-- ===== src/Ingestion/Worker.antt =====
-- backend/ingestion/cleanup.py: the worker that claims due cleanups and deletes their physical
-- versions. Each clock reading and each fresh token is an argument.
pub mod Laws
pub mod Batches
pub mod Lost
use zhiyan_personal_academic.Prelude.{
  ℕ, zero, suc, ◌+◌, ◌-◌, ◌*◌, ◌^◌, String, Bool, true, false, ◌||◌, Option, none, some, List, [],
  ◌∷◌, if◌then◌else◌, min, ltb, is_none,
}
use zhiyan_personal_academic.Storage.Records.{
  CleanupBackend, elasticsearch_chunks, milvus_vectors, runtime_snapshot, CleanupJobStatus,
  CleanupJob, PdfObject, cleanup_is_running,
}
use zhiyan_personal_academic.Storage.Database.{Connection, Result, Repo, ok, err}
use zhiyan_personal_academic.Storage.CleanupQueue.{
  seconds, claim_cleanup, complete_cleanup, record_cleanup_failure,
}
use zhiyan_personal_academic.Storage.Snapshots.{
  get_inactive_pdf_object, purge_inactive_runtime_snapshot,
}
use zhiyan_personal_academic.Ingestion.Effects.{System, Service, on_repository, on_service}

-- The services that delete: the two index writers and the PDF object store.
pub record Cleaners (W : Type 0) : Type 0 where
  pub delete_elasticsearch : String → String → Service W Bool
  pub delete_milvus : String → String → Service W Bool
  pub delete_pdf : PdfObject → Service W Bool

pub record WorkerConfig : Type 0 where
  pub lease_seconds : ℕ
  pub base_retry_seconds : ℕ
  pub max_retry_seconds : ℕ

-- The checks of `PersistentIndexCleanupWorker.__init__` on the numbers.
unfoldable pub config_is_valid : WorkerConfig → Bool
config_is_valid f =
    if ltb f.lease_seconds 1 || ltb f.base_retry_seconds 1
    then false
    else if ltb f.max_retry_seconds f.base_retry_seconds
    then false
    else true

-- `_retry_delay`. The exponent is `max(attempt_count - 1, 0)`, which is what `-` gives.
unfoldable pub retry_delay : WorkerConfig → CleanupJob → ℕ
retry_delay f job = min (f.base_retry_seconds * 2 ^ (job.attempt_count - 1)) f.max_retry_seconds

-- What `run_once` raises.
pub data WorkerError : Type 0 where
  claim_failed unleased_job failure_not_recorded completion_not_recorded : WorkerError

pub record Execution : Type 0 where
  pub job : CleanupJob
  pub existed : Option Bool

pub data Outcome : Type 0 where
  idle : Outcome
  executed : Execution → Outcome
  raised : WorkerError → Outcome

purged : {W : Type 0} → Bool → Result (Unit {0}) × System W → Option Bool × System W
purged existed (ok u, s) = (some existed, s)
purged existed (err e, s) = (none, s)

purge_after : {W : Type 0} → String → String → Option Bool × System W → Option Bool × System W
unfolding purged
purge_after owner_id version_id (none, s) = (none, s)
purge_after owner_id version_id (some existed, s) =
    purged existed (on_repository (purge_inactive_runtime_snapshot owner_id version_id) s)

module _ {W : Type 0} (cleaners : Cleaners W) where
  open cleaners use {delete_elasticsearch, delete_milvus, delete_pdf}

  delete_found : String → String → Result (Option PdfObject) × System W → Option Bool × System W
  unfolding purge_after
  delete_found owner_id version_id (err e, s) = (none, s)
  delete_found owner_id version_id (ok none, s) = (some false, s)
  delete_found owner_id version_id (ok (some pdf), s) =
      purge_after owner_id version_id (on_service (delete_pdf pdf) s)

  -- `PersistentRuntimeSnapshotCleaner.delete_version`: the PDF first, then the rows.
  unfoldable pub delete_snapshot_version : String → String → System W → Option Bool × System W
  unfolding delete_found
  delete_snapshot_version owner_id version_id s =
      delete_found owner_id version_id
        (on_repository (get_inactive_pdf_object owner_id version_id) s)

  -- `self.cleaners[job.backend].delete_version`; every backend has a cleaner.
  unfoldable pub delete_version :
      CleanupBackend → String → String → System W → Option Bool × System W
  delete_version elasticsearch_chunks owner_id version_id s =
      on_service (delete_elasticsearch owner_id version_id) s
  delete_version milvus_vectors owner_id version_id s =
      on_service (delete_milvus owner_id version_id) s
  delete_version runtime_snapshot owner_id version_id s =
      delete_snapshot_version owner_id version_id s

-- `f"{job.backend.upper()}_DELETE_FAILED"`.
unfoldable pub delete_failed_code : CleanupBackend → String
delete_failed_code elasticsearch_chunks = "ELASTICSEARCH_CHUNKS_DELETE_FAILED"
delete_failed_code milvus_vectors = "MILVUS_VECTORS_DELETE_FAILED"
delete_failed_code runtime_snapshot = "RUNTIME_SNAPSHOT_DELETE_FAILED"

-- The readings of one round: the claim's clock and token, the clock at a failure, which
-- `self.clock` of the worker and of the repository give, and the clock of the report.
pub record Readings : Type 0 where
  pub claim_now : ℕ
  pub token : String
  pub failure_now : ℕ
  pub report_now : ℕ

unfoldable pub reported :
    {W : Type 0} → Option Bool → WorkerError → Result CleanupJob × System W → Outcome × System W
reported existed error (ok job, s) = (executed (record { job = job; existed = existed }), s)
reported existed error (err e, s) = (raised error, s)

module _ {W : Type 0} (config : WorkerConfig) (cleaners : Cleaners W)
    (id_before : String → String → Bool) where
  -- The second half of `run_once`: record what the deletion gave.
  unfoldable pub report_deletion :
      Readings → CleanupJob → String → Option Bool × System W → Outcome × System W
  report_deletion now job token (none, s) = reported none failure_not_recorded (
      on_repository
        (record_cleanup_failure job.cleanup_id token (delete_failed_code job.backend)
          (now.failure_now + seconds (retry_delay config job)) now.report_now)
        s)
  report_deletion now job token (some existed, s) =
      reported (some existed) completion_not_recorded
        (on_repository (complete_cleanup job.cleanup_id token now.report_now) s)

  -- `run_once` on the job that was claimed.
  unfoldable pub execute_claimed :
      Readings → CleanupJob → Option String → System W → Outcome × System W
  execute_claimed now job none s = (raised unleased_job, s)
  execute_claimed now job (some token) s =
      if cleanup_is_running job.status
      then report_deletion now job token
          (delete_version cleaners job.backend job.owner_id job.document_version_id s)
      else (raised unleased_job, s)

  unfoldable pub after_claim : Readings → Result (Option CleanupJob) × System W → Outcome × System W
  after_claim now (err e, s) = (raised claim_failed, s)
  after_claim now (ok none, s) = (idle, s)
  after_claim now (ok (some job), s) = execute_claimed now job job.lease_token s

  unfoldable pub run_once : (CleanupJob → Bool) → Readings → System W → Outcome × System W
  run_once locked now s = after_claim now (
      on_repository (claim_cleanup id_before locked config.lease_seconds now.token now.claim_now) s)

-- One round of a batch: the rows that other sessions have locked, and what the clocks read.
pub record Round : Type 0 where
  pub locked : CleanupJob → Bool
  pub now : Readings

-- What `run_batch` gives: its results, the error of a round, or the ValueError of `max_jobs`.
pub data Batch : Type 0 where
  finished : List Execution → Batch
  stopped : WorkerError → Batch
  invalid_batch : Batch

module _ {W : Type 0} where
  unfoldable pub with_result : Execution → Batch × System W → Batch × System W
  with_result e (finished es, s) = (finished (e ∷ es), s)
  with_result e (stopped error, s) = (stopped error, s)
  with_result e (invalid_batch, s) = (invalid_batch, s)

  -- The rest of the loop after a round.
  unfoldable pub continue_batch :
      (System W → Batch × System W) → Outcome × System W → Batch × System W
  continue_batch rest (idle, s) = (finished [], s)
  continue_batch rest (executed e, s) = with_result e (rest s)
  continue_batch rest (raised error, s) = (stopped error, s)

module _ {W : Type 0} (config : WorkerConfig) (cleaners : Cleaners W)
    (id_before : String → String → Bool) where
  -- The loop of `run_batch`, over the rounds that it may make.
  unfoldable pub run_rounds : List Round → System W → Batch × System W
  run_rounds [] s = (finished [], s)
  run_rounds (r ∷ rs) s =
      continue_batch (run_rounds rs) (run_once config cleaners id_before r.locked r.now s)

  -- `run_batch`, with `max_jobs` rounds.
  unfoldable pub run_batch : List Round → System W → Batch × System W
  run_batch [] s = (invalid_batch, s)
  run_batch (r ∷ rs) s = run_rounds (r ∷ rs) s
