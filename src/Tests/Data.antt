-- ===== src/Tests/Data.antt =====
-- A paper with one version and one job, and what the fact source holds of them.
use Prim.Native.String.{String}
use zhiyan_personal_academic.Storage.Registration.{Source}
use zhiyan_personal_academic.Storage.Records.{
  IngestionJob, DocumentIdentity, CleanupJob, uploaded, IngestionJobStatus, elasticsearch_chunks,
  CleanupJobStatus,
}
use zhiyan_personal_academic.Storage.Lifecycle.{
  IndexStates, DocumentVersion, LifecycleStatus, IndexState,
}
use zhiyan_personal_academic.Prelude.{Bool, List, [], false, none, some, ◌∷◌}
use zhiyan_personal_academic.Storage.Database.{Connection, Database}

abbrev pub pending_states : IndexStates
pending_states = record {
  elasticsearch_chunks = IndexState.pending;
  milvus_vectors = IndexState.pending;
}

abbrev pub ready_states : IndexStates
ready_states = record { elasticsearch_chunks = IndexState.ready; milvus_vectors = IndexState.ready }

abbrev pub paper : DocumentIdentity
paper = record {
  paper_id = "paper";
  document_id = "doc";
  owner_id = "owner";
  source_type = uploaded;
  mapping_version = "m1";
  source_created_time = 1;
  source_updated_time = 2;
}

abbrev pub source : Source
source = record {
  document_id = "doc";
  content_sha256 = "aa";
  source_snapshot_sha256 = "bb";
  parse_version = "p1";
}

abbrev pub registered_version : DocumentVersion
registered_version = record {
  paper_id = "paper";
  document_id = "doc";
  owner_id = "owner";
  document_version_id = "v1";
  content_sha256 = "aa";
  source_snapshot_sha256 = "bb";
  parse_version = "p1";
  lifecycle_revision = 1;
  lifecycle_status = LifecycleStatus.registered;
  parse_finish_time = none;
  chunk_splitter_time = none;
  chunk_create_time = none;
  chunk_gen_time = none;
  vector_index_time = none;
  index_states = pending_states;
  delete_time = none;
  chunk_expire_time = none;
  last_access_time = none;
  last_refresh_time = none;
  failure_code = none;
  updated_at = 10;
}

abbrev pub processing_version : DocumentVersion
processing_version = record registered_version {
  lifecycle_revision = 2;
  lifecycle_status = LifecycleStatus.processing;
  updated_at = 20;
}

-- Parsed and split, so that only the indexes are missing.
abbrev pub prepared_version : DocumentVersion
prepared_version = record registered_version {
  lifecycle_revision = 3;
  lifecycle_status = LifecycleStatus.processing;
  parse_finish_time = some 21;
  chunk_splitter_time = some 22;
  chunk_create_time = some 23;
  chunk_gen_time = some 24;
  updated_at = 25;
}

abbrev pub ready_version : DocumentVersion
ready_version = record prepared_version {
  lifecycle_revision = 4;
  lifecycle_status = LifecycleStatus.ready;
  vector_index_time = some 30;
  index_states = ready_states;
  updated_at = 31;
}

abbrev pub retired_version : DocumentVersion
retired_version = record registered_version {
  lifecycle_revision = 2;
  lifecycle_status = LifecycleStatus.inactive;
  delete_time = some 15;
  chunk_expire_time = some 15;
  updated_at = 15;
}

abbrev pub running_job : IngestionJob
running_job = record {
  job_id = "j1";
  owner_id = "owner";
  idempotency_key = "k1";
  document_id = "doc";
  document_version_id = "v1";
  status = IngestionJobStatus.running;
  attempt_count = 1;
  failure_code = none;
  created_at = 11;
  updated_at = 12;
}

abbrev pub succeeded_job : IngestionJob
succeeded_job = record running_job { status = IngestionJobStatus.succeeded; updated_at = 32 }

abbrev pub due_cleanup : CleanupJob
due_cleanup = record {
  cleanup_id = "c1";
  backend = elasticsearch_chunks;
  owner_id = "owner";
  document_id = "doc";
  document_version_id = "v1";
  status = CleanupJobStatus.pending;
  attempt_count = 0;
  max_attempts = 3;
  next_attempt_at = 5;
  lease_token = none;
  lease_expires_at = none;
  failure_code = none;
  created_at = 5;
  updated_at = 5;
  completed_at = none;
}

abbrev pub database : List DocumentVersion → List IngestionJob → List CleanupJob → Database
database versions jobs cleanups = record {
  documents = paper ∷ [];
  versions = versions;
  jobs = jobs;
  pdf_objects = [];
  chunks = [];
  cleanups = cleanups;
}

-- A connection with no open transaction.
abbrev pub settled : List DocumentVersion → List IngestionJob → List CleanupJob → Connection
settled versions jobs cleanups = record {
  committed = database versions jobs cleanups;
  working = database versions jobs cleanups;
}

-- The order of texts of the database, which no test here depends on.
abbrev pub any_order : String → String → Bool
any_order a b = false
