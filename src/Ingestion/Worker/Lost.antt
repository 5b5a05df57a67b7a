-- ===== src/Ingestion/Worker/Lost.antt =====
-- A report of the worker whose lease is gone: it ran out during the deletion, and another session
-- has recovered it, claimed the cleanup again or reported on it.
use zhiyan_personal_academic.Prelude.{
  ◌≡◌, refl, String, Bool, true, Option, none, some, List, In, arith, eq_iff, Option-cases, inl,
  inr, find_where, find_where-In, find_where_sound, ◌+◌,
}
use zhiyan_personal_academic.Storage.Records.{CleanupJob}
use zhiyan_personal_academic.Storage.Database.{IsSettled}
use zhiyan_personal_academic.Storage.CleanupQueue.{lease_key, seconds}
use zhiyan_personal_academic.Storage.CleanupQueue.Report.{stale_reports}
use zhiyan_personal_academic.Storage.CleanupQueue.Reported.{IsHeld}
use zhiyan_personal_academic.Ingestion.Effects.{System}
use zhiyan_personal_academic.Ingestion.Worker.{
  Cleaners, WorkerConfig, Readings, Outcome, idle, executed, raised, WorkerError,
  failure_not_recorded, completion_not_recorded, retry_delay, delete_failed_code, report_deletion,
  reported,
}
use zhiyan_personal_academic.Ingestion.Worker.Laws.{delete_failed_code-IsContractId}

-- The error of the report that the deletion calls for.
abbrev pub lost_report : Option Bool → WorkerError
lost_report none = failure_not_recorded
lost_report (some existed) = completion_not_recorded

-- The round raised that error, and left the committed tables and the world alone.
abbrev pub IsLost : {W : Type 0} → Option Bool → System W → Outcome × System W → Type 0
IsLost existed s (idle, s') = ⊥
IsLost existed s (executed e, s') = ⊥
IsLost existed s (raised error, s') =
    (error ≡ lost_report existed)
    × (s'.connection.committed ≡ s.connection.committed)
    × IsSettled s'.connection
    × (s'.world ≡ s.world)

lease_key-IsHeld :
    (id token : String) (js : List CleanupJob) (row : CleanupJob)
    → In row js
    → lease_key id token row ≡ true
    → IsHeld id token js row
unfolding lease_key
lease_key-IsHeld id token js row i h = elim (Option-cases row.lease_token) [
  | inl e ↦ absurd (ground arith)
  | inr (t, e) ↦
      let same : t ≡ token = (eq_iff _ _).0 (ground arith) in
      record {
        there = i;
        of_id = (eq_iff _ _).0 (ground arith);
        is_running = ground arith;
        by_token = cc;
      }
]

none_held :
    (id token : String) (js : List CleanupJob)
    → ((row : CleanupJob) → IsHeld id token js row → ⊥)
    → find_where (lease_key id token) js ≡ none
none_held id token js free = elim (Option-cases (find_where (lease_key id token) js)) [
  | inl e ↦ e
  | inr (row, e) ↦ absurd (
      free row (
        lease_key-IsHeld id token js row (find_where-In (lease_key id token) row js e)
          (find_where_sound (lease_key id token) js row e)))
]

module _ {W : Type 0} (config : WorkerConfig) (cleaners : Cleaners W)
    (before : String → String → Bool) (now : Readings) where
  -- Whatever a deletion gave, and whatever other sessions did to the tables meanwhile: if no row is
  -- RUNNING under the token of the round any more, the round raises that the completion, or the
  -- failure if the deletion raised, was not recorded. It returns no result, leaves the committed
  -- tables as they are and no transaction open, and calls no service.
  pub report_deletion-IsLost :
      (job : CleanupJob) (token : String) (r : Option Bool × System W)
      → ((row : CleanupJob) → IsHeld job.cleanup_id token r.1.connection.working.cleanups row → ⊥)
      → IsLost r.0 r.1 (report_deletion config cleaners before now job token r)
  unfolding report_deletion reported
  report_deletion-IsLost job token (none, s) free =
      rw
        (stale_reports job.cleanup_id token (delete_failed_code job.backend)
          (now.failure_now + seconds (retry_delay config job)) now.report_now s.connection
          (delete_failed_code-IsContractId job.backend)
          (none_held job.cleanup_id token s.connection.working.cleanups free)).1
        (refl, refl, refl, refl)
  report_deletion-IsLost job token (some existed, s) free =
      rw
        (stale_reports job.cleanup_id token (delete_failed_code job.backend)
          (now.failure_now + seconds (retry_delay config job)) now.report_now s.connection
          (delete_failed_code-IsContractId job.backend)
          (none_held job.cleanup_id token s.connection.working.cleanups free)).0
        (refl, refl, refl, refl)
