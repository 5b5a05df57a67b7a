-- ===== src/Storage/Jobs.antt =====
-- backend/storage/postgres.py: ingestion jobs.
pub mod Laws
use zhiyan_personal_academic.Prelude.{
  ℕ, suc, ◌+◌, String, Bool, true, false, not, ◌&&◌, ◌||◌, Option, none, some, List, [], ◌∷◌, ◌++◌,
  if◌then◌else◌, is_none, is_some, ◌==◌, ◌=ᵗ◌, any, map_option, find_where, update_where,
}
use zhiyan_personal_academic.Storage.Lifecycle.{DocumentVersion}
use zhiyan_personal_academic.Storage.Records.{
  IngestionJobStatus, IngestionJob, job_is_running, job_is_failed, failed_job_requires_code,
}
use zhiyan_personal_academic.Storage.Database.{
  Database, Connection, Error, Result, Repo, ok, err, value_error, validation_error,
  identity_conflict, fact_source, database_error, ◌>>=◌, ◌>>◌, return, raise, require, or_raise,
  in_transaction,
}

-- `_job_from_row`.
unfoldable pub job_from_row : IngestionJob → Repo IngestionJob
job_from_row row = if failed_job_requires_code row then return row else raise validation_error

abbrev pub with_jobs : List IngestionJob → Connection → Connection
with_jobs jobs c = record c { working = record (c.working) { jobs = jobs } }

unfoldable pub job_key : String → String → IngestionJob → Bool
job_key owner_id job_id row = row.owner_id =ᵗ owner_id && row.job_id =ᵗ job_id

-- The columns that update_ingestion_job_v1 sets.
unfoldable pub set_job_status : IngestionJobStatus → Option String → ℕ → IngestionJob → IngestionJob
set_job_status status failure_code now row = record row {
  status = status;
  attempt_count = row.attempt_count + (if job_is_running status then 1 else 0);
  failure_code = failure_code;
  updated_at = now;
}

-- update_ingestion_job_v1.
unfoldable pub update_job_rows :
    String → String → IngestionJobStatus → Option String → ℕ → Repo (Option IngestionJob)
update_job_rows owner_id job_id status failure_code now c =
    let key = job_key owner_id job_id in
    let set = set_job_status status failure_code now in
    (
      ok (map_option set (find_where key c.working.jobs)),
      with_jobs (update_where key set c.working.jobs) c,
    )

unfoldable pub update_job_body :
    String → String → IngestionJobStatus → Option String → ℕ → Repo IngestionJob
update_job_body owner_id job_id status failure_code now = do
  row ← update_job_rows owner_id job_id status failure_code now
  job ← or_raise row identity_conflict
  job_from_row job

-- `_update_ingestion_job`: exactly the FAILED jobs have a failure code.
unfoldable pub update_ingestion_job_in :
    Bool → String → String → IngestionJobStatus → Option String → ℕ → Repo IngestionJob
update_ingestion_job_in commit_transaction owner_id job_id status failure_code now =
    if job_is_failed status && is_none failure_code
    then raise value_error
    else if not (job_is_failed status) && is_some failure_code
    then raise value_error
    else in_transaction commit_transaction (update_job_body owner_id job_id status failure_code now)

unfoldable pub update_ingestion_job :
    String → String → IngestionJobStatus → Option String → ℕ → Repo IngestionJob
update_ingestion_job = update_ingestion_job_in true

unfoldable pub idempotency_key_of : String → String → IngestionJob → Bool
idempotency_key_of owner_id idempotency_key row =
    row.owner_id =ᵗ owner_id && row.idempotency_key =ᵗ idempotency_key

-- The foreign key rag_ingestion_jobs_version_owner_fk.
unfoldable pub version_exists : String → String → String → List DocumentVersion → Bool
version_exists owner_id document_id document_version_id = any λ v.
    v.document_version_id =ᵗ document_version_id
    && v.owner_id =ᵗ owner_id
    && v.document_id =ᵗ document_id

abbrev pub new_job : String → String → String → String → String → ℕ → IngestionJob
new_job job_id owner_id document_id document_version_id idempotency_key now = record {
  job_id = job_id;
  owner_id = owner_id;
  idempotency_key = idempotency_key;
  document_id = document_id;
  document_version_id = document_version_id;
  status = IngestionJobStatus.pending;
  attempt_count = 0;
  failure_code = none;
  created_at = now;
  updated_at = now;
}

-- register_ingestion_job_v1: a new row, or on a known idempotency key the row that is there. A new
-- row needs its version, and a fresh primary key.
unfoldable pub insert_job : IngestionJob → Repo (Option IngestionJob)
insert_job job c =
    elim (find_where (idempotency_key_of job.owner_id job.idempotency_key) c.working.jobs) [
      | some row ↦ (ok (some row), c)
      | none ↦
          if version_exists job.owner_id job.document_id job.document_version_id c.working.versions
            && not (any (λ row. row.job_id =ᵗ job.job_id) c.working.jobs)
          then (ok (some job), with_jobs (c.working.jobs ++ job ∷ []) c)
          else (err database_error, c)
    ]

-- `_register_ingestion_job`; `job_id` is what `self.id_factory` returns.
unfoldable pub register_ingestion_job_in :
    Bool → String → String → String → String → String → ℕ → Repo IngestionJob
register_ingestion_job_in commit_transaction job_id owner_id document_id document_version_id
      idempotency_key now =
    in_transaction commit_transaction do
      row ← insert_job (new_job job_id owner_id document_id document_version_id idempotency_key now)
      found ← or_raise row fact_source
      job ← job_from_row found
      require (job.document_id =ᵗ document_id && job.document_version_id =ᵗ document_version_id)
          identity_conflict
      return job

unfoldable pub register_ingestion_job :
    String → String → String → String → String → ℕ → Repo IngestionJob
register_ingestion_job = register_ingestion_job_in true
