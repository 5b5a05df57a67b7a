-- ===== src/Storage/Registration.antt =====
-- backend/storage/postgres.py: the registration of papers and of their content versions.
pub mod Atomicity
pub mod Idempotence
pub mod Registered
use zhiyan_personal_academic.Prelude.{
  ℕ, String, Bool, true, false, not, ◌&&◌, Option, none, some, List, [], ◌∷◌, ◌++◌, if◌then◌else◌,
  ◌=ᵗ◌, any, map_option, find_where, update_where, max,
}
use zhiyan_personal_academic.Storage.Lifecycle.{LifecycleStatus, IndexState, DocumentVersion}
use zhiyan_personal_academic.Storage.Records.{
  SourceType, uploaded, collected, DocumentIdentity, IngestionJob, source_times_are_ordered,
}
use zhiyan_personal_academic.Storage.Database.{
  Connection, Repo, ok, err, fact_source, validation_error, identity_conflict, database_error,
  ◌>>=◌, ◌>>◌, return, raise, require, or_raise, in_transaction, read,
}
use zhiyan_personal_academic.Storage.Versions.{version_from_row, with_versions}
use zhiyan_personal_academic.Storage.Jobs.{register_ingestion_job_in}

abbrev pub same_source : SourceType → SourceType → Bool
same_source uploaded uploaded = true
same_source collected collected = true
same_source _ _ = false

abbrev pub with_documents : List DocumentIdentity → Connection → Connection
with_documents documents c = record c { working = record (c.working) { documents = documents } }

-- `_identity_from_row`.
unfoldable pub identity_from_row : DocumentIdentity → Repo DocumentIdentity
identity_from_row row = if source_times_are_ordered row then return row else raise validation_error

unfoldable pub paper_key : String → String → DocumentIdentity → Bool
paper_key owner_id paper_id row = row.owner_id =ᵗ owner_id && row.paper_id =ᵗ paper_id

-- The DO UPDATE of register_document_v1: the identity, the source and its creation time stay.
unfoldable pub refresh_document : DocumentIdentity → DocumentIdentity → DocumentIdentity
refresh_document candidate row = record row {
  mapping_version = candidate.mapping_version;
  source_updated_time = max row.source_updated_time candidate.source_updated_time;
}

-- register_document_v1.
unfoldable pub upsert_document : DocumentIdentity → Repo (Option DocumentIdentity)
upsert_document candidate c =
    let key = paper_key candidate.owner_id candidate.paper_id in
    elim (find_where key c.working.documents) [
      | some row ↦ (
        ok (some (refresh_document candidate row)),
        with_documents (update_where key (refresh_document candidate) c.working.documents) c,
      )
      | none ↦
          if any (λ row. row.document_id =ᵗ candidate.document_id) c.working.documents
          then (err database_error, c)
          else (ok (some candidate), with_documents (c.working.documents ++ candidate ∷ []) c)
    ]

unfoldable pub register_document_body : DocumentIdentity → Repo DocumentIdentity
register_document_body candidate = do
  row ← upsert_document candidate
  found ← or_raise row fact_source
  identity ← identity_from_row found
  require (same_source identity.source_type candidate.source_type) identity_conflict
  return identity

-- `document_id` is what `self.id_factory` returns.
unfoldable pub register_document :
    String → String → String → SourceType → String → ℕ → ℕ → Repo DocumentIdentity
register_document document_id owner_id paper_id source_type mapping_version source_created_time
      source_updated_time =
    let candidate : DocumentIdentity = record {
      paper_id = paper_id;
      document_id = document_id;
      owner_id = owner_id;
      source_type = source_type;
      mapping_version = mapping_version;
      source_created_time = source_created_time;
      source_updated_time = source_updated_time;
    } in
    if source_times_are_ordered candidate
    then in_transaction true (register_document_body candidate)
    else raise validation_error

-- What identifies the content of a version: the unique key of the table.
pub record Source : Type 0 where
  pub document_id : String
  pub content_sha256 : String
  pub source_snapshot_sha256 : String
  pub parse_version : String

unfoldable pub source_key : Source → DocumentVersion → Bool
source_key s v =
    v.document_id =ᵗ s.document_id
    && v.content_sha256 =ᵗ s.content_sha256
    && v.source_snapshot_sha256 =ᵗ s.source_snapshot_sha256
    && v.parse_version =ᵗ s.parse_version

unfoldable pub owned_source_key : String → Source → DocumentVersion → Bool
owned_source_key owner_id s v = v.owner_id =ᵗ owner_id && source_key s v

unfoldable pub owned_document : String → String → DocumentIdentity → Bool
owned_document owner_id document_id d = d.owner_id =ᵗ owner_id && d.document_id =ᵗ document_id

-- The row that register_document_version_v1 inserts; unnamed columns take the table's defaults.
unfoldable pub new_version : String → Source → DocumentIdentity → ℕ → DocumentVersion
new_version document_version_id s d now = record {
  paper_id = d.paper_id;
  document_id = d.document_id;
  owner_id = d.owner_id;
  document_version_id = document_version_id;
  content_sha256 = s.content_sha256;
  source_snapshot_sha256 = s.source_snapshot_sha256;
  parse_version = s.parse_version;
  lifecycle_revision = 1;
  lifecycle_status = LifecycleStatus.registered;
  parse_finish_time = none;
  chunk_splitter_time = none;
  chunk_create_time = none;
  chunk_gen_time = none;
  vector_index_time = none;
  index_states = record {
    elasticsearch_chunks = IndexState.pending;
    milvus_vectors = IndexState.pending;
  };
  delete_time = none;
  chunk_expire_time = none;
  last_access_time = none;
  last_refresh_time = none;
  failure_code = none;
  updated_at = now;
}

-- register_document_version_v1: the inserted row, or else the owner's row of that source. No row
-- is inserted without the owner's document, or where the source is there already.
unfoldable pub insert_version : String → String → Source → ℕ → Repo (Option DocumentVersion)
insert_version document_version_id owner_id s now c =
    elim (find_where (owned_document owner_id s.document_id) c.working.documents) [
      | none ↦ (ok (find_where (owned_source_key owner_id s) c.working.versions), c)
      | some d ↦
          let row = new_version document_version_id s d now in
          if any (source_key s) c.working.versions
          then (ok (find_where (owned_source_key owner_id s) c.working.versions), c)
          else if any (λ v. v.document_version_id =ᵗ document_version_id) c.working.versions
          then (err database_error, c)
          else (ok (some row), with_versions (c.working.versions ++ row ∷ []) c)
    ]

-- get_idempotent_document_version_v1, the second reading.
unfoldable pub reread_version :
    String → Source → Option DocumentVersion → Repo (Option DocumentVersion)
reread_version owner_id s (some row) = return (some row)
reread_version owner_id s none = read (λ d. find_where (owned_source_key owner_id s) d.versions)

-- `_register_version`; `document_version_id` is what `self.id_factory` returns.
unfoldable pub register_version_in : Bool → String → String → Source → ℕ → Repo DocumentVersion
register_version_in commit_transaction document_version_id owner_id s now =
    in_transaction commit_transaction do
      inserted ← insert_version document_version_id owner_id s now
      row ← reread_version owner_id s inserted
      found ← or_raise row identity_conflict
      version_from_row found

unfoldable pub register_version : String → String → Source → ℕ → Repo DocumentVersion
register_version = register_version_in true

-- The two instants are the two readings of the clock.
unfoldable pub register_version_and_ingestion_job :
    String → String → String → Source → String → ℕ × ℕ → Repo (DocumentVersion × IngestionJob)
register_version_and_ingestion_job document_version_id job_id owner_id s idempotency_key
      (version_now, job_now) =
    in_transaction true do
      version ← register_version_in false document_version_id owner_id s version_now
      job ←
          register_ingestion_job_in false job_id owner_id s.document_id version.document_version_id
            idempotency_key job_now
      return (version, job)
