-- ===== src/Tests/Cleanups.antt =====
-- A cleanup that is claimed, reported, and executed by the worker.
use zhiyan_personal_academic.Prelude.{
  some-cancel, sym, ap, eq_iff, ◌∙◌, inr, Option, String, text_before, text_before_asymm,
  text_before_cotrans, refl, List, ℕ, Bool, find_where, none, ◌∷◌, some, false, [], true,
  update_where, ◌+◌, select_where, ◌≢◌, arith, ◌≡◌, inl, ◌≤◌,
}
use zhiyan_personal_academic.Storage.CleanupQueue.Invariant.{IsQueue}
use zhiyan_personal_academic.Storage.Records.{
  cleanup_is_valid, CleanupJob, cleanup_state_is_replay_safe, CleanupJobStatus, milvus_vectors,
}
use zhiyan_personal_academic.Storage.Identifiers.{
  is_contract_id, matches_identifier, is_identifier_code, is_alphanumeric,
}
use zhiyan_personal_academic.Ingestion.Worker.{
  WorkerConfig, config_is_valid, Readings, Cleaners, Round, retry_delay, run_batch, report_deletion,
}
use zhiyan_personal_academic.Storage.CleanupQueue.{
  complete_cleanup, lease_key, claim_rows, claim_cleanup, claim_candidate, report_body, completed,
  first_due, is_due, cleanup_from_row, due_before, leased, recover_expired, lease_has_expired,
  failed_attempt, seconds, record_cleanup_failure,
}
use zhiyan_personal_academic.Storage.Database.{Connection, err, ok, identity_conflict}
use zhiyan_personal_academic.Tests.Data.{settled, due_cleanup, any_order}
use zhiyan_personal_academic.Storage.CleanupQueue.Report.{report_twice}
use zhiyan_personal_academic.Storage.CleanupQueue.Contract.{
  RowByRow, IsRecovered, HasSucceeded, HasFailed,
}
use zhiyan_personal_academic.Storage.CleanupQueue.Order.{IsTextOrder}
use zhiyan_personal_academic.Storage.CleanupQueue.Claimed.{ClaimOutcome, claim_cleanup-ClaimOutcome}
use zhiyan_personal_academic.Storage.CleanupQueue.Reported.{
  IsHeld, ReportOutcome, complete_cleanup-ReportOutcome, record_cleanup_failure-ReportOutcome,
}
use zhiyan_personal_academic.Ingestion.Effects.{System}
use zhiyan_personal_academic.Ingestion.Worker.Lost.{IsLost, report_deletion-IsLost}
use zhiyan_personal_academic.Storage.CleanupQueue.Claim.{claim_rows-IsQueue, claim_rows_exclusive}
use zhiyan_personal_academic.Ingestion.Worker.Batches.{
  IsFinished, retry_delay_bounds, run_batch-IsFinished,
}

abbrev nothing_locked : CleanupJob → Bool
nothing_locked j = false

abbrev cleanups : Connection
cleanups = settled [] [] (due_cleanup ∷ [])

sound-IsQueue : IsQueue (due_cleanup ∷ [])
unfolding cleanup_is_valid cleanup_state_is_replay_safe
sound-IsQueue = record {
  sound = (record { valid = refl; attempt_left = λ w. omega arith }, tt);
  unique = (refl, tt);
}

abbrev leased_cleanup : CleanupJob
leased_cleanup = record due_cleanup {
  status = CleanupJobStatus.running;
  attempt_count = 1;
  lease_token = some "t1";
  lease_expires_at = some 60000010;
  updated_at = 10;
}

leased-IsQueue : IsQueue (leased_cleanup ∷ [])
unfolding cleanup_is_valid cleanup_state_is_replay_safe
leased-IsQueue = record {
  sound = (record { valid = refl; attempt_left = λ w. cc }, tt);
  unique = (refl, tt);
}

-- The order of code points, as a database in the C locale compares texts.
text_order : IsTextOrder text_before
text_order = record { asymm = text_before_asymm; cotrans = text_before_cotrans }

abbrev second_cleanup : CleanupJob
second_cleanup = record due_cleanup { cleanup_id = "c2"; backend = milvus_vectors }

abbrev two_cleanups : List CleanupJob
two_cleanups = due_cleanup ∷ second_cleanup ∷ []

two-IsQueue : IsQueue two_cleanups
unfolding cleanup_is_valid cleanup_state_is_replay_safe
two-IsQueue = record {
  sound = (
    record { valid = refl; attempt_left = λ w. omega arith },
    (record { valid = refl; attempt_left = λ w. omega arith }, tt),
  );
  unique = (refl, (refl, tt));
}

claim_cleanup-ClaimOutcome_example :
    (js : List CleanupJob) × RowByRow (IsRecovered 10) two_cleanups js
    × ClaimOutcome text_before nothing_locked 10 "t1"
        (10 + seconds 60)
        js
        (settled [] [] two_cleanups)
        (claim_cleanup text_before nothing_locked 60 "t1" 10 (settled [] [] two_cleanups))
claim_cleanup-ClaimOutcome_example =
    claim_cleanup-ClaimOutcome text_before nothing_locked 60 "t1" 10 (settled [] [] two_cleanups)
      text_order (omega arith) two-IsQueue

claim_rows-IsQueue_example :
    IsQueue (claim_rows any_order nothing_locked 10 "t1" 60000010 (due_cleanup ∷ [])).1
claim_rows-IsQueue_example =
    claim_rows-IsQueue any_order nothing_locked 10 "t1" 60000010 (due_cleanup ∷ []) sound-IsQueue

-- Two claims in a row are given the two cleanups of the queue.
claim_rows_exclusive_example : second_cleanup.cleanup_id ≢ due_cleanup.cleanup_id
unfolding claim_rows claim_candidate first_due is_due due_before leased recover_expired
    lease_has_expired failed_attempt select_where update_where
claim_rows_exclusive_example =
    claim_rows_exclusive any_order any_order nothing_locked nothing_locked 10 11 "t1" "t2" 60000010
      60000011 two_cleanups leased_cleanup
      (record leased_cleanup {
        cleanup_id = "c2";
        backend = milvus_vectors;
        lease_token = some "t2";
        lease_expires_at = some 60000011;
        updated_at = 11;
      })
      refl (omega arith) refl

abbrev completed_cleanup : CleanupJob
completed_cleanup = record leased_cleanup {
  status = CleanupJobStatus.succeeded;
  lease_token = none;
  lease_expires_at = none;
  updated_at = 20;
  completed_at = some 20;
}

completes :
    complete_cleanup "c1" "t1" 20 (settled [] [] (leased_cleanup ∷ []))
    ≡ (ok completed_cleanup, settled [] [] (completed_cleanup ∷ []))
unfolding complete_cleanup report_body completed lease_key cleanup_from_row cleanup_is_valid
    cleanup_state_is_replay_safe find_where update_where
completes = refl

report_twice_example :
    (complete_cleanup "c1" "t1" 21 (settled [] [] (completed_cleanup ∷ []))
      ≡ (err identity_conflict, settled [] [] (completed_cleanup ∷ [])))
    × (record_cleanup_failure "c1" "t1" "LATE" 30 21 (settled [] [] (completed_cleanup ∷ []))
        ≡ (err identity_conflict, settled [] [] (completed_cleanup ∷ [])))
unfolding is_contract_id matches_identifier is_identifier_code is_alphanumeric
report_twice_example =
    report_twice "c1" "t1" "NONE" "LATE" 30 30 20 21 (settled [] [] (leased_cleanup ∷ []))
      (settled [] [] (completed_cleanup ∷ [])) completed_cleanup (inl completes) refl

leased-IsHeld : IsHeld "c1" "t1" (leased_cleanup ∷ []) leased_cleanup
leased-IsHeld = record { there = inl refl; of_id = refl; is_running = refl; by_token = refl }

complete_cleanup-ReportOutcome_example :
    ReportOutcome
      (HasSucceeded 20)
      leased_cleanup
      (settled [] [] (leased_cleanup ∷ []))
      (complete_cleanup "c1" "t1" 20 (settled [] [] (leased_cleanup ∷ [])))
complete_cleanup-ReportOutcome_example =
    complete_cleanup-ReportOutcome "c1" "t1" 20 (settled [] [] (leased_cleanup ∷ [])) leased_cleanup
      leased-IsQueue leased-IsHeld

record_cleanup_failure-ReportOutcome_example :
    ReportOutcome
      (HasFailed "LATE" 30 20)
      leased_cleanup
      (settled [] [] (leased_cleanup ∷ []))
      (record_cleanup_failure "c1" "t1" "LATE" 30 20 (settled [] [] (leased_cleanup ∷ [])))
unfolding is_contract_id matches_identifier is_identifier_code is_alphanumeric
record_cleanup_failure-ReportOutcome_example =
    record_cleanup_failure-ReportOutcome "c1" "t1" "LATE" 30 20
      (settled [] [] (leased_cleanup ∷ [])) leased_cleanup refl leased-IsQueue leased-IsHeld

-- Services that count their calls: Elasticsearch deletes, the others raise.
abbrev counting_cleaners : Cleaners ℕ
counting_cleaners = record {
  delete_elasticsearch = λ o v calls. (some true, calls + 1);
  delete_milvus = λ o v calls. (none, calls + 1);
  delete_pdf = λ pdf calls. (none, calls + 1);
}

abbrev worker_config : WorkerConfig
worker_config = record { lease_seconds = 60; base_retry_seconds = 5; max_retry_seconds = 300 }

abbrev readings : Readings
readings = record { claim_now = 10; token = "t1"; failure_now = 20; report_now = 20 }

abbrev two_system : System ℕ
two_system = record { world = 0; connection = settled [] [] two_cleanups }

retry_delay_bounds_example :
    (worker_config.base_retry_seconds ≤ retry_delay worker_config leased_cleanup)
    × (retry_delay worker_config leased_cleanup ≤ worker_config.max_retry_seconds)
unfolding config_is_valid
retry_delay_bounds_example = retry_delay_bounds worker_config leased_cleanup refl

abbrev batch_round : Round
batch_round = record { locked = nothing_locked; now = readings }

run_batch-IsFinished_example :
    IsFinished worker_config counting_cleaners text_before
      (batch_round ∷ batch_round ∷ [])
      two_system
      (run_batch worker_config counting_cleaners text_before
        (batch_round ∷ batch_round ∷ [])
        two_system)
unfolding config_is_valid
run_batch-IsFinished_example =
    run_batch-IsFinished worker_config counting_cleaners text_before batch_round (batch_round ∷ [])
      two_system text_order refl refl two-IsQueue

-- The lease of the round has run out, and another worker holds the cleanup under its own token.
abbrev lost_system : System ℕ
lost_system = record {
  world = 1;
  connection =
      settled [] [] (record leased_cleanup { lease_token = some "t2"; attempt_count = 2 } ∷ []);
}

other_token : (t : Option String) → t ≡ some "t2" → t ≡ some "t1" → ⊥
other_token t e h =
    let same : ◌≡◌ {A = String} "t2" "t1" = some-cancel (sym e ∙ h) in
    let hit = (eq_iff "t2" "t1").1 same in cc

nobody_holds :
    (row : CleanupJob) → IsHeld "c1" "t1" (lost_system.connection.working.cleanups) row → ⊥
nobody_holds row h = elim h.there [
  | inl e ↦ other_token row.lease_token (ap (λ (x : CleanupJob). x.lease_token) e) h.by_token
  | inr i ↦ absurd i
]

report_deletion-IsLost_example : IsLost (some true) lost_system (
    report_deletion worker_config counting_cleaners any_order readings leased_cleanup "t1"
      (some true, lost_system))
report_deletion-IsLost_example =
    report_deletion-IsLost worker_config counting_cleaners any_order readings leased_cleanup "t1"
      (some true, lost_system) nobody_holds
