-- ===== src/Tests/Versions.antt =====
-- The lifecycle of one version, step by step.
use zhiyan_personal_academic.Prelude.{
  [], ◌∷◌, refl, ◌≡◌, find_where, update_where, some, ◌≢◌, true, ◌+◌, none,
}
use zhiyan_personal_academic.Storage.Versions.Invariant.{
  IsTable, transition_version-IsTable, transition_version-passes_guard,
}
use zhiyan_personal_academic.Storage.Versions.{
  transition_version, version_key, transition_guard, transition_version_in, one_active_per_document,
  transition_body, version_from_row, may_transition, is_processing_progress, transition_candidate,
  write_candidate, update_lifecycle, revision_key, set_lifecycle,
}
use zhiyan_personal_academic.Storage.Database.{IsAtomic, ok, err, concurrent_update}
use zhiyan_personal_academic.Storage.Indexing.{
  finalize_indexing_success, settle_indexing, settle_job,
}
use zhiyan_personal_academic.Storage.Lifecycle.{
  version_is_valid, lifecycle_fails_closed, LifecycleStatus, is_active, allowed_transition,
  apply_updates, apply_update, is_unsupported, both_ready,
}
use zhiyan_personal_academic.Storage.Versions.Transition.{
  Swapped, SwappedOrKept, transition_version-cases, transition_version-Swapped, inactive_is_final,
  transition_version_twice,
}
use zhiyan_personal_academic.Tests.Data.{
  ready_states, registered_version, ready_version, database, settled, retired_version,
  prepared_version, processing_version, running_job, succeeded_job,
}
use zhiyan_personal_academic.Storage.Jobs.{
  update_ingestion_job_in, update_job_body, update_job_rows, job_key, job_from_row, set_job_status,
}
use zhiyan_personal_academic.Storage.Indexing.Laws.{
  IsReadyVersion, finalize_indexing_success-IsAtomic, finalize_indexing_success-commits,
}
use zhiyan_personal_academic.Storage.Records.{failed_job_requires_code, IngestionJobStatus}

start_processing :
    transition_version "owner" "v1" 1 LifecycleStatus.processing [] 20
      (settled (registered_version ∷ []) [] [])
    ≡ (ok processing_version, settled (processing_version ∷ []) [] [])
unfolding transition_version transition_version_in transition_body version_key version_from_row
    may_transition allowed_transition is_processing_progress transition_candidate apply_updates
    apply_update write_candidate update_lifecycle revision_key set_lifecycle one_active_per_document
    is_active version_is_valid lifecycle_fails_closed find_where update_where is_unsupported
start_processing = refl

transition_version-Swapped_example :
    Swapped "owner" "v1" 1 LifecycleStatus.processing [] 20
      (database (registered_version ∷ []) [] [])
      (database (processing_version ∷ []) [] [])
      processing_version
transition_version-Swapped_example =
    transition_version-Swapped "owner" "v1" 1 LifecycleStatus.processing [] 20
      (settled (registered_version ∷ []) [] []) (settled (processing_version ∷ []) [] [])
      processing_version start_processing

transition_version_twice_example :
    transition_version "owner" "v1" 1 LifecycleStatus.inactive [] 21
      (settled (processing_version ∷ []) [] [])
    ≡ (err concurrent_update, settled (processing_version ∷ []) [] [])
transition_version_twice_example =
    transition_version_twice "owner" "v1" 1 LifecycleStatus.processing LifecycleStatus.inactive []
      [] 20 21 (settled (registered_version ∷ []) [] []) (settled (processing_version ∷ []) [] [])
      processing_version start_processing refl

inactive_is_final_example :
    transition_version "owner" "v1" 2 LifecycleStatus.processing [] 20
      (settled (retired_version ∷ []) [] [])
    ≢ (ok processing_version, settled (processing_version ∷ []) [] [])
unfolding find_where version_key
inactive_is_final_example =
    inactive_is_final "owner" "v1" 2 LifecycleStatus.processing [] 20
      (settled (retired_version ∷ []) [] []) (settled (processing_version ∷ []) [] [])
      retired_version processing_version refl refl

transition_version-cases_example :
    SwappedOrKept "owner" "v1" 1 LifecycleStatus.processing [] 20
      (database (registered_version ∷ []) [] [])
      (transition_version "owner" "v1" 1 LifecycleStatus.processing [] 20
        (settled (registered_version ∷ []) [] []))
transition_version-cases_example =
    transition_version-cases "owner" "v1" 1 LifecycleStatus.processing [] 20
      (settled (registered_version ∷ []) [] []) refl

registered-IsTable : IsTable (registered_version ∷ [])
unfolding version_is_valid lifecycle_fails_closed one_active_per_document is_active
registered-IsTable = record { valid = (refl, tt); one_active = refl }

transition_version-IsTable_example : IsTable (
    (transition_version "owner" "v1" 1 LifecycleStatus.processing [] 20
      (settled (registered_version ∷ []) [] [])).1.committed.versions)
transition_version-IsTable_example =
    transition_version-IsTable "owner" "v1" 1 LifecycleStatus.processing [] 20
      (settled (registered_version ∷ []) [] []) refl registered-IsTable

transition_version-passes_guard_example :
    transition_guard registered_version processing_version ≡ true
unfolding find_where version_key
transition_version-passes_guard_example =
    transition_version-passes_guard "owner" "v1" 1 LifecycleStatus.processing [] 20
      (settled (registered_version ∷ []) [] []) (settled (processing_version ∷ []) [] [])
      registered_version processing_version refl start_processing

finalized :
    finalize_indexing_success "owner" "v1" 3 ready_states 30 "j1"
      (31, 32)
      (settled (prepared_version ∷ []) (running_job ∷ []) [])
    ≡ (ok (ready_version, succeeded_job), settled (ready_version ∷ []) (succeeded_job ∷ []) [])
unfolding finalize_indexing_success settle_indexing settle_job update_ingestion_job_in
    update_job_body update_job_rows job_from_row job_key set_job_status transition_version_in
    transition_body version_key version_from_row may_transition allowed_transition
    is_processing_progress transition_candidate apply_updates apply_update write_candidate
    update_lifecycle revision_key set_lifecycle one_active_per_document is_active version_is_valid
    lifecycle_fails_closed failed_job_requires_code find_where update_where is_unsupported
finalized = refl

finalize_indexing_success-IsAtomic_example :
    IsAtomic
      (finalize_indexing_success "owner" "v1" 3 ready_states 30 "unknown"
        (31, 32)
        (settled (prepared_version ∷ []) (running_job ∷ []) []))
      (settled (prepared_version ∷ []) (running_job ∷ []) [])
finalize_indexing_success-IsAtomic_example =
    finalize_indexing_success-IsAtomic "owner" "v1" 3 ready_states 30 "unknown" (31, 32)
      (settled (prepared_version ∷ []) (running_job ∷ []) [])

finalize_indexing_success-commits_example :
    (find_where (version_key "owner" "v1") (ready_version ∷ []) ≡ some ready_version)
    × (find_where (job_key "owner" "j1") (succeeded_job ∷ []) ≡ some succeeded_job)
    × (ready_version.lifecycle_status ≡ LifecycleStatus.ready)
    × (ready_version.lifecycle_revision ≡ 3 + 1)
    × (both_ready ready_version.index_states ≡ true)
    × (ready_version.failure_code ≡ none)
    × (is_active ready_version ≡ true)
    × (succeeded_job.status ≡ IngestionJobStatus.succeeded)
    × (succeeded_job.failure_code ≡ none)
    × (succeeded_job.document_version_id ≡ ready_version.document_version_id)
    × (version_is_valid ready_version ≡ true)
    × IsReadyVersion ready_version
finalize_indexing_success-commits_example =
    finalize_indexing_success-commits "owner" "v1" 3 ready_states 30 "j1" (31, 32)
      (settled (prepared_version ∷ []) (running_job ∷ []) [])
      (settled (ready_version ∷ []) (succeeded_job ∷ []) []) ready_version succeeded_job finalized
