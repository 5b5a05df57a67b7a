-- ===== src/Storage/Versions.antt =====
-- backend/storage/postgres.py: the operations on document versions. The time that `self.clock()`
-- returns and the fresh id of `self.id_factory` are arguments.
pub mod Patch
pub mod Outcome
pub mod Transition
pub mod Invariant
use zhiyan_personal_academic.Prelude.{
  ℕ, suc, ◌+◌, String, Bool, true, false, not, ◌&&◌, ◌||◌, Option, none, some, List, [], ◌∷◌,
  if◌then◌else◌, is_none, ◌==◌, ◌=ᵗ◌, any, map_option, find_where, update_where,
}
use zhiyan_personal_academic.Storage.Lifecycle.{
  LifecycleStatus, IndexState, DocumentVersion, Update, allowed_transition, is_processing, is_ready,
  index_is_ready, is_active, is_unsupported, apply_updates, version_is_valid,
}
use zhiyan_personal_academic.Storage.Database.{
  Database, Connection, Error, Result, Repo, ok, err, value_error, validation_error,
  identity_conflict, concurrent_update, lifecycle_transition, database_error, ◌>>=◌, ◌>>◌, return,
  raise, require, or_raise, in_transaction, read,
}

-- The rows of one version in the authenticated owner's scope.
unfoldable pub version_key : String → String → DocumentVersion → Bool
version_key owner_id document_version_id row =
    row.owner_id =ᵗ owner_id && row.document_version_id =ᵗ document_version_id

abbrev pub same_document : DocumentVersion → DocumentVersion → Bool
same_document v w = v.owner_id =ᵗ w.owner_id && v.document_id =ᵗ w.document_id

-- The unique index rag_document_versions_one_active_per_document.
unfoldable pub one_active_per_document : List DocumentVersion → Bool
one_active_per_document [] = true
one_active_per_document (v ∷ vs) =
    not (is_active v && any (λ w. is_active w && same_document v w) vs)
    && one_active_per_document vs

-- `_version_from_row`: the row is validated again when it is read.
unfoldable pub version_from_row : DocumentVersion → Repo DocumentVersion
version_from_row row = if version_is_valid row then return row else raise validation_error

-- The columns that update_document_version_lifecycle_v1 sets. The identity columns stay.
unfoldable pub set_lifecycle : DocumentVersion → DocumentVersion → DocumentVersion
set_lifecycle candidate row = record row {
  lifecycle_revision = candidate.lifecycle_revision;
  lifecycle_status = candidate.lifecycle_status;
  parse_finish_time = candidate.parse_finish_time;
  chunk_splitter_time = candidate.chunk_splitter_time;
  chunk_create_time = candidate.chunk_create_time;
  chunk_gen_time = candidate.chunk_gen_time;
  vector_index_time = candidate.vector_index_time;
  index_states = candidate.index_states;
  delete_time = candidate.delete_time;
  chunk_expire_time = candidate.chunk_expire_time;
  last_access_time = candidate.last_access_time;
  last_refresh_time = candidate.last_refresh_time;
  failure_code = candidate.failure_code;
  updated_at = candidate.updated_at;
}

-- The rows that the UPDATE selects: the version, at the expected revision.
unfoldable pub revision_key : String → String → ℕ → DocumentVersion → Bool
revision_key owner_id document_version_id expected_revision row =
    version_key owner_id document_version_id row && row.lifecycle_revision == expected_revision

abbrev pub with_versions : List DocumentVersion → Connection → Connection
with_versions versions c = record c { working = record (c.working) { versions = versions } }

-- update_document_version_lifecycle_v1: a table that breaks the unique index is an error.
unfoldable pub update_lifecycle :
    String → String → ℕ → DocumentVersion → Repo (Option DocumentVersion)
update_lifecycle owner_id document_version_id expected_revision candidate c =
    let key = revision_key owner_id document_version_id expected_revision in
    let versions = update_where key (set_lifecycle candidate) c.working.versions in
    if one_active_per_document versions
    then (
      ok (map_option (set_lifecycle candidate) (find_where key c.working.versions)),
      with_versions versions c,
    )
    else (err database_error, c)

-- PROCESSING to PROCESSING is progress, if it changes something.
unfoldable pub is_processing_progress : LifecycleStatus → LifecycleStatus → List Update → Bool
is_processing_progress current target [] = false
is_processing_progress current target (u ∷ us) = is_processing current && is_processing target

-- The transition that a version may make: one of the frozen graph, or progress.
unfoldable pub may_transition : LifecycleStatus → LifecycleStatus → List Update → Bool
may_transition current target updates =
    allowed_transition current target || is_processing_progress current target updates

-- The version that a transition writes.
unfoldable pub transition_candidate :
    DocumentVersion → LifecycleStatus → List Update → ℕ → DocumentVersion
transition_candidate current target updates now = record (apply_updates updates current) {
  lifecycle_revision = current.lifecycle_revision + 1;
  lifecycle_status = target;
  updated_at = now;
}

-- The second half of `_transition_version`: validate the candidate and write it.
unfoldable pub write_candidate : String → String → ℕ → DocumentVersion → Repo DocumentVersion
write_candidate owner_id document_version_id expected_revision candidate = do
  require (version_is_valid candidate) validation_error
  updated_row ← update_lifecycle owner_id document_version_id expected_revision candidate
  updated ← or_raise updated_row concurrent_update
  version_from_row updated

-- The body of the `try` of `_transition_version`.
unfoldable pub transition_body :
    String → String → ℕ → LifecycleStatus → List Update → ℕ → Repo DocumentVersion
transition_body owner_id document_version_id expected_revision target updates now = do
  current_row ← read (λ d. find_where (version_key owner_id document_version_id) d.versions)
  row ← or_raise current_row identity_conflict
  current ← version_from_row row
  require (current.lifecycle_revision == expected_revision) concurrent_update
  require (may_transition current.lifecycle_status target updates) lifecycle_transition
  write_candidate owner_id document_version_id expected_revision
      (transition_candidate current target updates now)

-- `_transition_version`. An unknown update is refused before the transaction starts.
unfoldable pub transition_version_in :
    Bool → String → String → ℕ → LifecycleStatus → List Update → ℕ → Repo DocumentVersion
transition_version_in commit_transaction owner_id document_version_id expected_revision target
      updates now =
    if any is_unsupported updates
    then raise value_error
    else in_transaction commit_transaction
        (transition_body owner_id document_version_id expected_revision target updates now)

unfoldable pub transition_version :
    String → String → ℕ → LifecycleStatus → List Update → ℕ → Repo DocumentVersion
transition_version = transition_version_in true

abbrev pub same_status : LifecycleStatus → LifecycleStatus → Bool
same_status LifecycleStatus.registered LifecycleStatus.registered = true
same_status LifecycleStatus.processing LifecycleStatus.processing = true
same_status LifecycleStatus.review LifecycleStatus.review = true
same_status LifecycleStatus.ready LifecycleStatus.ready = true
same_status LifecycleStatus.failed LifecycleStatus.failed = true
same_status LifecycleStatus.inactive LifecycleStatus.inactive = true
same_status _ _ = false

-- The CASE of the trigger, by the state that a row leaves.
unfoldable pub sql_allowed : LifecycleStatus → LifecycleStatus → Bool
sql_allowed LifecycleStatus.registered new =
    same_status new LifecycleStatus.processing || same_status new LifecycleStatus.inactive
sql_allowed LifecycleStatus.processing new =
    same_status new LifecycleStatus.review
    || same_status new LifecycleStatus.ready
    || same_status new LifecycleStatus.failed
    || same_status new LifecycleStatus.inactive
sql_allowed LifecycleStatus.review new =
    same_status new LifecycleStatus.processing
    || same_status new LifecycleStatus.failed
    || same_status new LifecycleStatus.inactive
sql_allowed LifecycleStatus.ready new = same_status new LifecycleStatus.inactive
sql_allowed LifecycleStatus.failed new =
    same_status new LifecycleStatus.processing || same_status new LifecycleStatus.inactive
sql_allowed LifecycleStatus.inactive new = false

-- The identity columns, none of which IS DISTINCT FROM its old value.
unfoldable pub same_identity : DocumentVersion → DocumentVersion → Bool
same_identity old new =
    new.document_version_id =ᵗ old.document_version_id
    && new.document_id =ᵗ old.document_id
    && new.owner_id =ᵗ old.owner_id
    && new.paper_id =ᵗ old.paper_id
    && new.content_sha256 =ᵗ old.content_sha256
    && new.source_snapshot_sha256 =ᵗ old.source_snapshot_sha256
    && new.parse_version =ᵗ old.parse_version

-- The trigger rag_document_versions_transition_guard: whether it lets the UPDATE pass.
unfoldable pub transition_guard : DocumentVersion → DocumentVersion → Bool
transition_guard old new =
    same_identity old new
    && new.lifecycle_revision == old.lifecycle_revision + 1
    && (if same_status new.lifecycle_status old.lifecycle_status
        then is_processing old.lifecycle_status
        else sql_allowed old.lifecycle_status new.lifecycle_status)
