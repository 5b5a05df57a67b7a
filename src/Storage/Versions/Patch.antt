-- ===== src/Storage/Versions/Patch.antt =====
-- What the updates of a transition ask for, field by field: the last entry that names a field gives
-- its value, and a field that no entry names keeps the value that it had.
use zhiyan_personal_academic.Prelude.{ℕ, String, Option, none, some, List, [], ◌∷◌, ◌≡◌, refl}
use zhiyan_personal_academic.Storage.Lifecycle.{
  IndexStates, DocumentVersion, Update, set_parse_finish_time, set_chunk_splitter_time,
  set_chunk_create_time, set_chunk_gen_time, set_vector_index_time, set_index_states,
  set_delete_time, set_chunk_expire_time, set_last_access_time, set_last_refresh_time,
  set_failure_code, unsupported, apply_update, apply_updates,
}

-- The value that an entry gives, or the one before it.
abbrev pub given : {A : Type 0} → Option A → A → A
given none a = a
given (some b) a = b

abbrev pub requested : {A : Type 0} → (Update → Option A) → List Update → A → A
requested names [] a = a
requested names (u ∷ us) a = requested names us (given (names u) a)

abbrev pub names_parse_finish : Update → Option (Option ℕ)
names_parse_finish (set_parse_finish_time t) = some t
names_parse_finish _ = none

abbrev pub names_chunk_splitter : Update → Option (Option ℕ)
names_chunk_splitter (set_chunk_splitter_time t) = some t
names_chunk_splitter _ = none

abbrev pub names_chunk_create : Update → Option (Option ℕ)
names_chunk_create (set_chunk_create_time t) = some t
names_chunk_create _ = none

abbrev pub names_chunk_gen : Update → Option (Option ℕ)
names_chunk_gen (set_chunk_gen_time t) = some t
names_chunk_gen _ = none

abbrev pub names_vector_index : Update → Option (Option ℕ)
names_vector_index (set_vector_index_time t) = some t
names_vector_index _ = none

abbrev pub names_index_states : Update → Option IndexStates
names_index_states (set_index_states s) = some s
names_index_states _ = none

abbrev pub names_delete : Update → Option (Option ℕ)
names_delete (set_delete_time t) = some t
names_delete _ = none

abbrev pub names_chunk_expire : Update → Option (Option ℕ)
names_chunk_expire (set_chunk_expire_time t) = some t
names_chunk_expire _ = none

abbrev pub names_last_access : Update → Option (Option ℕ)
names_last_access (set_last_access_time t) = some t
names_last_access _ = none

abbrev pub names_last_refresh : Update → Option (Option ℕ)
names_last_refresh (set_last_refresh_time t) = some t
names_last_refresh _ = none

abbrev pub names_failure_code : Update → Option (Option String)
names_failure_code (set_failure_code c) = some c
names_failure_code _ = none

-- The mutable fields of `w` are those of `v` with the updates applied.
abbrev pub HasRequested : List Update → DocumentVersion → DocumentVersion → Type 0
HasRequested us v w =
    (w.parse_finish_time ≡ requested names_parse_finish us v.parse_finish_time)
    × (w.chunk_splitter_time ≡ requested names_chunk_splitter us v.chunk_splitter_time)
    × (w.chunk_create_time ≡ requested names_chunk_create us v.chunk_create_time)
    × (w.chunk_gen_time ≡ requested names_chunk_gen us v.chunk_gen_time)
    × (w.vector_index_time ≡ requested names_vector_index us v.vector_index_time)
    × (w.index_states ≡ requested names_index_states us v.index_states)
    × (w.delete_time ≡ requested names_delete us v.delete_time)
    × (w.chunk_expire_time ≡ requested names_chunk_expire us v.chunk_expire_time)
    × (w.last_access_time ≡ requested names_last_access us v.last_access_time)
    × (w.last_refresh_time ≡ requested names_last_refresh us v.last_refresh_time)
    × (w.failure_code ≡ requested names_failure_code us v.failure_code)

-- The columns that never change.
abbrev pub SameIdentity : DocumentVersion → DocumentVersion → Type 0
SameIdentity v w =
    (w.document_version_id ≡ v.document_version_id)
    × (w.document_id ≡ v.document_id)
    × (w.owner_id ≡ v.owner_id)
    × (w.paper_id ≡ v.paper_id)
    × (w.content_sha256 ≡ v.content_sha256)
    × (w.source_snapshot_sha256 ≡ v.source_snapshot_sha256)
    × (w.parse_version ≡ v.parse_version)

pub apply_updates-HasRequested :
    (us : List Update) (v : DocumentVersion) → HasRequested us v (apply_updates us v)
unfolding apply_updates apply_update
apply_updates-HasRequested [] v = (refl, refl, refl, refl, refl, refl, refl, refl, refl, refl, refl)
apply_updates-HasRequested (set_parse_finish_time t ∷ us) v =
    apply_updates-HasRequested us (record v { parse_finish_time = t })
apply_updates-HasRequested (set_chunk_splitter_time t ∷ us) v =
    apply_updates-HasRequested us (record v { chunk_splitter_time = t })
apply_updates-HasRequested (set_chunk_create_time t ∷ us) v =
    apply_updates-HasRequested us (record v { chunk_create_time = t })
apply_updates-HasRequested (set_chunk_gen_time t ∷ us) v =
    apply_updates-HasRequested us (record v { chunk_gen_time = t })
apply_updates-HasRequested (set_vector_index_time t ∷ us) v =
    apply_updates-HasRequested us (record v { vector_index_time = t })
apply_updates-HasRequested (set_index_states s ∷ us) v =
    apply_updates-HasRequested us (record v { index_states = s })
apply_updates-HasRequested (set_delete_time t ∷ us) v =
    apply_updates-HasRequested us (record v { delete_time = t })
apply_updates-HasRequested (set_chunk_expire_time t ∷ us) v =
    apply_updates-HasRequested us (record v { chunk_expire_time = t })
apply_updates-HasRequested (set_last_access_time t ∷ us) v =
    apply_updates-HasRequested us (record v { last_access_time = t })
apply_updates-HasRequested (set_last_refresh_time t ∷ us) v =
    apply_updates-HasRequested us (record v { last_refresh_time = t })
apply_updates-HasRequested (set_failure_code c ∷ us) v =
    apply_updates-HasRequested us (record v { failure_code = c })
apply_updates-HasRequested (unsupported n ∷ us) v = apply_updates-HasRequested us v
