-- ===== src/Storage/Lifecycle.antt =====
-- backend/storage/models.py: the life of a document version, and what a version may hold in each
-- state. A time is an instant with its zone; a naive datetime has no counterpart here.
use zhiyan_personal_academic.Prelude.{
  ℕ, String, Bool, true, false, not, ◌&&◌, ◌||◌, Option, List, [], ◌∷◌, if◌then◌else◌, is_none,
  is_some, ltb,
}

pub data LifecycleStatus : Type 0 where
  registered processing review ready failed inactive : LifecycleStatus

pub data IndexState : Type 0 where
  pending ready failed : IndexState

pub record IndexStates : Type 0 where
  pub elasticsearch_chunks : IndexState
  pub milvus_vectors : IndexState

-- ALLOWED_LIFECYCLE_TRANSITIONS, read as `target in ALLOWED[current]`.
unfoldable pub allowed_transition : LifecycleStatus → LifecycleStatus → Bool
allowed_transition LifecycleStatus.registered LifecycleStatus.processing = true
allowed_transition LifecycleStatus.registered LifecycleStatus.inactive = true
allowed_transition LifecycleStatus.processing LifecycleStatus.review = true
allowed_transition LifecycleStatus.processing LifecycleStatus.ready = true
allowed_transition LifecycleStatus.processing LifecycleStatus.failed = true
allowed_transition LifecycleStatus.processing LifecycleStatus.inactive = true
allowed_transition LifecycleStatus.review LifecycleStatus.processing = true
allowed_transition LifecycleStatus.review LifecycleStatus.failed = true
allowed_transition LifecycleStatus.review LifecycleStatus.inactive = true
allowed_transition LifecycleStatus.ready LifecycleStatus.inactive = true
allowed_transition LifecycleStatus.failed LifecycleStatus.processing = true
allowed_transition LifecycleStatus.failed LifecycleStatus.inactive = true
allowed_transition _ _ = false

pub record DocumentVersion : Type 0 where
  pub paper_id : String
  pub document_id : String
  pub owner_id : String
  pub document_version_id : String
  pub content_sha256 : String
  pub source_snapshot_sha256 : String
  pub parse_version : String
  pub lifecycle_revision : ℕ
  pub lifecycle_status : LifecycleStatus
  pub parse_finish_time : Option ℕ
  pub chunk_splitter_time : Option ℕ
  pub chunk_create_time : Option ℕ
  pub chunk_gen_time : Option ℕ
  pub vector_index_time : Option ℕ
  pub index_states : IndexStates
  pub delete_time : Option ℕ
  pub chunk_expire_time : Option ℕ
  pub last_access_time : Option ℕ
  pub last_refresh_time : Option ℕ
  pub failure_code : Option String
  pub updated_at : ℕ

abbrev pub is_processing : LifecycleStatus → Bool
is_processing LifecycleStatus.processing = true
is_processing _ = false

abbrev pub is_ready : LifecycleStatus → Bool
is_ready LifecycleStatus.ready = true
is_ready _ = false

abbrev pub is_failed : LifecycleStatus → Bool
is_failed LifecycleStatus.failed = true
is_failed _ = false

abbrev pub is_inactive : LifecycleStatus → Bool
is_inactive LifecycleStatus.inactive = true
is_inactive _ = false

abbrev pub index_is_ready : IndexState → Bool
index_is_ready IndexState.ready = true
index_is_ready _ = false

-- Both indexes are READY.
abbrev pub both_ready : IndexStates → Bool
both_ready s = index_is_ready s.elasticsearch_chunks && index_is_ready s.milvus_vectors

-- The five times that READY requires.
abbrev pub has_required_times : DocumentVersion → Bool
has_required_times v =
    is_some v.parse_finish_time
    && is_some v.chunk_splitter_time
    && is_some v.chunk_create_time
    && is_some v.chunk_gen_time
    && is_some v.vector_index_time

-- Whether the validator `lifecycle_fails_closed` returns; `false` is its ValueError.
unfoldable pub lifecycle_fails_closed : DocumentVersion → Bool
lifecycle_fails_closed v =
    if not (is_inactive v.lifecycle_status)
      && (is_some v.delete_time || is_some v.chunk_expire_time)
    then false
    else if is_inactive v.lifecycle_status && is_none v.delete_time && is_none v.chunk_expire_time
    then false
    else if is_failed v.lifecycle_status && is_none v.failure_code
    then false
    else if is_ready v.lifecycle_status
    then has_required_times v && both_ready v.index_states && is_none v.failure_code
    else true

-- The validator with the field bound `lifecycle_revision >= 1`.
unfoldable pub version_is_valid : DocumentVersion → Bool
version_is_valid v = ltb 0 v.lifecycle_revision && lifecycle_fails_closed v

-- The property `is_active`, and the column of that name that the table generates.
unfoldable pub is_active : DocumentVersion → Bool
is_active v = is_ready v.lifecycle_status && is_none v.delete_time && is_none v.chunk_expire_time

-- One entry of the `updates` of a transition. `unsupported` is a key outside
-- LIFECYCLE_MUTABLE_FIELDS.
pub data Update : Type 0 where
  set_parse_finish_time : Option ℕ → Update
  set_chunk_splitter_time : Option ℕ → Update
  set_chunk_create_time : Option ℕ → Update
  set_chunk_gen_time : Option ℕ → Update
  set_vector_index_time : Option ℕ → Update
  set_index_states : IndexStates → Update
  set_delete_time : Option ℕ → Update
  set_chunk_expire_time : Option ℕ → Update
  set_last_access_time : Option ℕ → Update
  set_last_refresh_time : Option ℕ → Update
  set_failure_code : Option String → Update
  unsupported : String → Update

unfoldable pub is_unsupported : Update → Bool
is_unsupported (unsupported name) = true
is_unsupported _ = false

unfoldable pub apply_update : Update → DocumentVersion → DocumentVersion
apply_update (set_parse_finish_time t) v = record v { parse_finish_time = t }
apply_update (set_chunk_splitter_time t) v = record v { chunk_splitter_time = t }
apply_update (set_chunk_create_time t) v = record v { chunk_create_time = t }
apply_update (set_chunk_gen_time t) v = record v { chunk_gen_time = t }
apply_update (set_vector_index_time t) v = record v { vector_index_time = t }
apply_update (set_index_states s) v = record v { index_states = s }
apply_update (set_delete_time t) v = record v { delete_time = t }
apply_update (set_chunk_expire_time t) v = record v { chunk_expire_time = t }
apply_update (set_last_access_time t) v = record v { last_access_time = t }
apply_update (set_last_refresh_time t) v = record v { last_refresh_time = t }
apply_update (set_failure_code c) v = record v { failure_code = c }
apply_update (unsupported name) v = v

-- `{**current, **patch}`: the entries in order, a later one winning.
unfoldable pub apply_updates : List Update → DocumentVersion → DocumentVersion
apply_updates [] v = v
apply_updates (u ∷ us) v = apply_updates us (apply_update u v)
