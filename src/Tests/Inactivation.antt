-- ===== src/Tests/Inactivation.antt =====
-- A READY version that is deleted, with both indexes and the queue accepting every step.
use zhiyan_personal_academic.Ingestion.Writers.{elasticsearch, milvus}
use zhiyan_personal_academic.Prelude.{[], ◌∷◌, String, ℕ, some, ◌+◌, true}
use zhiyan_personal_academic.Ingestion.Effects.{Service, System}
use zhiyan_personal_academic.Ingestion.Inactivation.{
  InactivationClock, inactivate_and_schedule_cleanup, InactivationReason, InactivationResult,
  request_for, Inactivation,
}
use zhiyan_personal_academic.Tests.Data.{settled, ready_version, succeeded_job}
use zhiyan_personal_academic.Tests.Publication.{accepting}
use zhiyan_personal_academic.Storage.Records.{
  elasticsearch_chunks, milvus_vectors, runtime_snapshot, CleanupBackend, CleanupJob,
}
use zhiyan_personal_academic.Storage.Lifecycle.{LifecycleStatus, DocumentVersion}
use zhiyan_personal_academic.Storage.CleanupQueue.{new_cleanup}

abbrev inactivation_clock : InactivationClock
inactivation_clock = record {
  stamp = 40;
  transition = 41;
  elasticsearch_cleanup = ("c1", 42);
  milvus_cleanup = ("c2", 43);
  snapshot_cleanup = ("c3", 44);
}

abbrev invalidator : String → String → String → Service ℕ (Unit {0})
invalidator o d v calls = (some tt, calls + 1)

abbrev published : System ℕ
published = record { world = 0; connection = settled (ready_version ∷ []) (succeeded_job ∷ []) [] }

abbrev published_deletion : Inactivation × System ℕ
published_deletion =
    inactivate_and_schedule_cleanup (accepting elasticsearch) (accepting milvus) invalidator 5
      inactivation_clock ready_version InactivationReason.delete published

abbrev deleted_version : DocumentVersion
deleted_version = record ready_version {
  lifecycle_revision = 5;
  lifecycle_status = LifecycleStatus.inactive;
  delete_time = some 40;
  updated_at = 41;
}

abbrev enqueued : String → CleanupBackend → ℕ → CleanupJob
enqueued id b now = new_cleanup id b "owner" "doc" "v1" 5 now

abbrev withdrawn : System ℕ
withdrawn = record {
  world = 3;
  connection = settled (deleted_version ∷ []) (succeeded_job ∷ []) (
      enqueued "c1" elasticsearch_chunks 42
      ∷ enqueued "c2" milvus_vectors 43
      ∷ enqueued "c3" runtime_snapshot 44
      ∷ []);
}

abbrev complete_result : InactivationResult
complete_result = record {
  version = deleted_version;
  reason = InactivationReason.delete;
  visibility_invalidated = true;
  deactivated_backends = elasticsearch ∷ milvus ∷ [];
  cleanup_requests =
      request_for deleted_version elasticsearch_chunks
      ∷ request_for deleted_version milvus_vectors
      ∷ request_for deleted_version runtime_snapshot
      ∷ [];
  failures = [];
}
