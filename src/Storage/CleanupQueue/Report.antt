-- ===== src/Storage/CleanupQueue/Report.antt =====
-- `complete_cleanup` and `record_cleanup_failure`: reports on a leased attempt.
use zhiyan_personal_academic.Prelude.{
  ℕ, ◌≡◌, refl, String, true, false, none, some, List, arith, Option-cases, inl, inr, find_where,
  update_where, ◌⊎◌, find_where_sound, find_where-All, not, find_where-none, update_where-ends,
}
use zhiyan_personal_academic.Storage.Records.{CleanupJob, cleanup_is_running}
use zhiyan_personal_academic.Storage.Database.{
  Connection, ok, err, commit, rollback, identity_conflict, if_raise-ok, in_transaction-ok,
}
use zhiyan_personal_academic.Storage.CleanupQueue.{
  failed_attempt, completed, lease_key, report_body, complete_cleanup, record_cleanup_failure,
  with_cleanups, cleanup_from_row, is_contract_id, in_transaction, value_error,
}
use zhiyan_personal_academic.Storage.CleanupQueue.Invariant.{
  IsSound, IsQueue, failed_attempt-IsSound, completed-IsSound, update_where-IsQueue,
}

lease_key-running :
    (id token : String) (j : CleanupJob)
    → lease_key id token j ≡ true
    → cleanup_is_running j.status ≡ true
unfolding lease_key
lease_key-running id token j h = ground arith

module _ (id token : String) (set : CleanupJob → CleanupJob)
    (keeps : (j : CleanupJob)
      → cleanup_is_running j.status ≡ true
      → IsSound j
      → IsSound (set j)) where
  -- On a sound queue a report by the holder of the lease never raises.
  report_body_held :
      (c : Connection) (row : CleanupJob)
      → IsQueue c.working.cleanups
      → find_where (lease_key id token) c.working.cleanups ≡ some row
      → report_body id token set c
        ≡ (ok (set row), with_cleanups (update_where (lease_key id token) set c.working.cleanups) c)
  unfolding report_body cleanup_from_row
  report_body_held c row q e =
      let running =
        lease_key-running id token row
          (find_where_sound (lease_key id token) c.working.cleanups row e) in
      let s = find_where-All IsSound (lease_key id token) c.working.cleanups row e q.sound in
      rw (e, (keeps row running s).valid)

  report-IsQueue :
      (js : List CleanupJob)
      → ((j : CleanupJob) → (set j).cleanup_id ≡ j.cleanup_id)
      → IsQueue js
      → IsQueue (update_where (lease_key id token) set js)
  report-IsQueue js same q =
      update_where-IsQueue (lease_key id token) set js same
        (λ j h s. keeps j (lease_key-running id token j h) s) q

report_body_table :
    (id token : String) (set : CleanupJob → CleanupJob) (c c' : Connection) (r : CleanupJob)
    → report_body id token set c ≡ (ok r, c')
    → c' ≡ with_cleanups (update_where (lease_key id token) set c.working.cleanups) c
unfolding report_body cleanup_from_row
report_body_table id token set c c' r h =
    elim (Option-cases (find_where (lease_key id token) c.working.cleanups)) [
      | inl e ↦ absurd (ground arith)
      | inr (row, e) ↦ ground arith
    ]

-- A report whose lease no row holds raises.
report_body_stale :
    (id token : String) (set : CleanupJob → CleanupJob) (c : Connection)
    → find_where (lease_key id token) c.working.cleanups ≡ none
    → report_body id token set c ≡ (
      err identity_conflict,
      with_cleanups (update_where (lease_key id token) set c.working.cleanups) c,
    )
unfolding report_body
report_body_stale id token set c e = rw e

-- On a sound queue the holder of a lease completes its cleanup, and this is committed.
pub complete_cleanup_held :
    (id token : String) (now : ℕ) (c : Connection) (row : CleanupJob)
    → IsQueue c.working.cleanups
    → find_where (lease_key id token) c.working.cleanups ≡ some row
    → complete_cleanup id token now c ≡ (
      ok (completed now row),
      commit
          (with_cleanups (update_where (lease_key id token) (completed now) c.working.cleanups) c),
    )
unfolding complete_cleanup
complete_cleanup_held id token now c row q e =
    rw (report_body_held id token (completed now) (completed-IsSound now) c row q e)

pub complete_cleanup-IsQueue :
    (id token : String) (now : ℕ) (js : List CleanupJob)
    → IsQueue js
    → IsQueue (update_where (lease_key id token) (completed now) js)
unfolding completed
complete_cleanup-IsQueue id token now js q =
    report-IsQueue id token (completed now) (completed-IsSound now) js (λ j. refl) q

-- The holder of a lease records a failure: RETRY while attempts are left and FAILED after the last.
pub record_cleanup_failure_held :
    (id token code : String) (retry_at now : ℕ) (c : Connection) (row : CleanupJob)
    → is_contract_id code ≡ true
    → IsQueue c.working.cleanups
    → find_where (lease_key id token) c.working.cleanups ≡ some row
    → record_cleanup_failure id token code retry_at now c ≡ (
      ok (failed_attempt code retry_at now row),
      commit (
          with_cleanups
            (update_where
              (lease_key id token)
              (failed_attempt code retry_at now)
              c.working.cleanups)
            c),
    )
unfolding record_cleanup_failure
record_cleanup_failure_held id token code retry_at now c row good q e = rw (
  good,
  report_body_held id token (failed_attempt code retry_at now)
      (failed_attempt-IsSound code retry_at now) c row q e,
)

pub record_cleanup_failure-IsQueue :
    (id token code : String) (retry_at now : ℕ) (js : List CleanupJob)
    → IsQueue js
    → IsQueue (update_where (lease_key id token) (failed_attempt code retry_at now) js)
unfolding failed_attempt
record_cleanup_failure-IsQueue id token code retry_at now js q =
    report-IsQueue id token (failed_attempt code retry_at now)
      (failed_attempt-IsSound code retry_at now) js (λ j. refl) q

completed_ends :
    (id token : String) (now : ℕ) (j : CleanupJob) → lease_key id token (completed now j) ≡ false
unfolding lease_key completed
completed_ends id token now j = ground arith

failed_ends :
    (id token code : String) (retry_at now : ℕ) (j : CleanupJob)
    → lease_key id token (failed_attempt code retry_at now j) ≡ false
unfolding lease_key failed_attempt
failed_ends id token code retry_at now j = ground arith

-- After a report that returns, no row holds the lease.
report_ends :
    (id token : String) (set : CleanupJob → CleanupJob) (c c' : Connection) (r : CleanupJob)
    → ((j : CleanupJob) → lease_key id token (set j) ≡ false)
    → in_transaction true (report_body id token set) c ≡ (ok r, c')
    → find_where (lease_key id token) c'.working.cleanups ≡ none
report_ends id token set c c' r ends h =
    let (d, h1, e) = in_transaction-ok true (report_body id token set) h in
    rw (e, report_body_table id token set c d r h1)
      (find_where-none (lease_key id token)
        (update_where (lease_key id token) set c.working.cleanups)
        (update_where-ends (lease_key id token) set c.working.cleanups ends))

pub stale_reports :
    (id token code : String) (retry_at now : ℕ) (c : Connection)
    → is_contract_id code ≡ true
    → find_where (lease_key id token) c.working.cleanups ≡ none
    → (complete_cleanup id token now c ≡ (err identity_conflict, rollback c))
      × (record_cleanup_failure id token code retry_at now c ≡ (err identity_conflict, rollback c))
unfolding complete_cleanup record_cleanup_failure
stale_reports id token code retry_at now c good e = (
  rw (report_body_stale id token (completed now) c e),
  rw (good, report_body_stale id token (failed_attempt code retry_at now) c e),
)

-- A lease token serves for one report. After a report, of completion or of failure, that returned,
-- the next report under that token raises IdentityConflictError and the connection is rolled back: a
-- completion always, and a failure if its code is a valid identifier.
pub report_twice :
    (id token code code' : String) (retry_at retry_at' now later : ℕ) (c c' : Connection)
    (r : CleanupJob)
    → (complete_cleanup id token now c ≡ (ok r, c'))
      ⊎ (record_cleanup_failure id token code retry_at now c ≡ (ok r, c'))
    → is_contract_id code' ≡ true
    → (complete_cleanup id token later c' ≡ (err identity_conflict, rollback c'))
      × (record_cleanup_failure id token code' retry_at' later c'
          ≡ (err identity_conflict, rollback c'))
unfolding complete_cleanup record_cleanup_failure
report_twice id token code code' retry_at retry_at' now later c c' r (inl h) good =
    stale_reports id token code' retry_at' later c' good
      (report_ends id token (completed now) c c' r (completed_ends id token now) h)
report_twice id token code code' retry_at retry_at' now later c c' r (inr h) good =
    let set = failed_attempt code retry_at now in
    let (_, h1) =
      if_raise-ok (not (is_contract_id code)) value_error
        (in_transaction true (report_body id token set)) h in
    stale_reports id token code' retry_at' later c' good
      (report_ends id token set c c' r (failed_ends id token code retry_at now) h1)
