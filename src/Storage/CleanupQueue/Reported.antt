-- ===== src/Storage/CleanupQueue/Reported.antt =====
-- `complete_cleanup` and `record_cleanup_failure` by the holder of the lease: what they write.
use zhiyan_personal_academic.Prelude.{
  ℕ, ◌≡◌, refl, String, true, some, List, In, All-map, arith, eq_iff, find_where, update_where,
  find_where_unique, find_where-In, find_where_sound, Unique-In, ◌∙◌, eq_refl, sym,
}
use zhiyan_personal_academic.Storage.Records.{CleanupJob, CleanupJobStatus}
use zhiyan_personal_academic.Storage.Database.{Connection, Result, ok, err}
use zhiyan_personal_academic.Storage.Identifiers.{is_contract_id}
use zhiyan_personal_academic.Storage.CleanupQueue.{
  lease_key, completed, failed_attempt, complete_cleanup, record_cleanup_failure,
}
use zhiyan_personal_academic.Storage.CleanupQueue.Invariant.{IsQueue, same_id, same_id_comm}
use zhiyan_personal_academic.Storage.CleanupQueue.Contract.{
  HasSucceeded, HasFailed, Replaces, completed-HasSucceeded, failed_attempt-HasFailed,
}
use zhiyan_personal_academic.Storage.CleanupQueue.Order.{update_where-Replaces}
use zhiyan_personal_academic.Storage.CleanupQueue.Claimed.{ChangesQueue}
use zhiyan_personal_academic.Storage.CleanupQueue.Report.{
  complete_cleanup_held, complete_cleanup-IsQueue, record_cleanup_failure_held,
  record_cleanup_failure-IsQueue,
}

-- The row is in the table, RUNNING under the token.
pub record IsHeld (id token : String) (js : List CleanupJob) (row : CleanupJob) : Type 0 where
  pub there : In row js
  pub of_id : row.cleanup_id ≡ id
  pub is_running : row.status ≡ CleanupJobStatus.running
  pub by_token : row.lease_token ≡ some token

-- A report that returns the row as `R` makes it, written to the committed queue.
abbrev pub ReportOutcome :
    (CleanupJob → CleanupJob → Type 0)
    → CleanupJob
    → Connection
    → Result CleanupJob × Connection
    → Type 0
ReportOutcome R row c (ok r, c') =
    R row r × Replaces c.working.cleanups c'.committed.cleanups row r × ChangesQueue c c'
ReportOutcome R row c (err e, c') = ⊥

held_key :
    (id token : String) (js : List CleanupJob) (row : CleanupJob)
    → IsHeld id token js row
    → lease_key id token row ≡ true
unfolding lease_key
held_key id token js row h =
    let of_id = (eq_iff _ _).1 h.of_id in
    let e = h.is_running in let t = h.by_token in let s = eq_refl token in ground arith

pub key_id : (id token : String) (j : CleanupJob) → lease_key id token j ≡ true → j.cleanup_id ≡ id
unfolding lease_key
key_id id token j h = (eq_iff _ _).0 (ground arith)

held_found :
    (id token : String) (js : List CleanupJob) (row : CleanupJob)
    → IsQueue js
    → IsHeld id token js row
    → find_where (lease_key id token) js ≡ some row
held_found id token js row q h =
    find_where_unique (lease_key id token) row js h.there (held_key id token js row h) (
      All-map (λ y. same_id row y ≡ true → y ≡ row) (λ y. lease_key id token y ≡ true → y ≡ row) js
        (λ y same k. same ((eq_iff _ _).1 (key_id id token y k ∙ sym h.of_id)))
        (Unique-In same_id row js same_id_comm q.unique h.there))

module _ (id token : String) (f : CleanupJob → CleanupJob)
    (keeps : (j : CleanupJob) → (f j).cleanup_id ≡ j.cleanup_id) where
  pub report-Replaces :
      (js : List CleanupJob) (row : CleanupJob)
      → find_where (lease_key id token) js ≡ some row
      → Replaces js (update_where (lease_key id token) f js) row (f row)
  report-Replaces js row e =
      let hit = find_where_sound (lease_key id token) js row e in
      update_where-Replaces (lease_key id token) f js row
        (find_where-In (lease_key id token) row js e) hit
        (λ k h. key_id id token k h ∙ sym (key_id id token row hit)) keeps

-- On a sound queue the holder of a lease completes its cleanup: the row becomes SUCCEEDED, completed
-- now, without failure code and lease, and is returned and committed so; every other row and every
-- other table is as it was, and the queue stays sound.
pub complete_cleanup-ReportOutcome :
    (id token : String) (now : ℕ) (c : Connection) (row : CleanupJob)
    → IsQueue c.working.cleanups
    → IsHeld id token c.working.cleanups row
    → ReportOutcome (HasSucceeded now) row c (complete_cleanup id token now c)
unfolding completed
complete_cleanup-ReportOutcome id token now c row q h =
    let e = held_found id token c.working.cleanups row q h in
    rw (complete_cleanup_held id token now c row q e) (
      completed-HasSucceeded now row,
      report-Replaces id token (completed now) (λ j. refl) c.working.cleanups row e,
      record {
        settled = refl;
        only_queue = refl;
        sound = complete_cleanup-IsQueue id token now c.working.cleanups q;
      },
    )

-- On a sound queue the holder of a lease records the failure of its attempt under a valid code: the
-- row becomes RETRY, due again at the given time, while attempts are left, and FAILED after the
-- last; it has the code and no lease, and is returned and committed so. Every other row and every
-- other table is as it was, and the queue stays sound.
pub record_cleanup_failure-ReportOutcome :
    (id token code : String) (retry_at now : ℕ) (c : Connection) (row : CleanupJob)
    → is_contract_id code ≡ true
    → IsQueue c.working.cleanups
    → IsHeld id token c.working.cleanups row
    → ReportOutcome
        (HasFailed code retry_at now)
        row
        c
        (record_cleanup_failure id token code retry_at now c)
unfolding failed_attempt
record_cleanup_failure-ReportOutcome id token code retry_at now c row good q h =
    let e = held_found id token c.working.cleanups row q h in
    rw (record_cleanup_failure_held id token code retry_at now c row good q e) (
      failed_attempt-HasFailed code retry_at now row,
      report-Replaces id token (failed_attempt code retry_at now) (λ j. refl) c.working.cleanups row
          e,
      record {
        settled = refl;
        only_queue = refl;
        sound = record_cleanup_failure-IsQueue id token code retry_at now c.working.cleanups q;
      },
    )
