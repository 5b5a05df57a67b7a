-- ===== src/Storage/CleanupQueue.antt =====
-- backend/storage/postgres.py: the lease-based queue of physical cleanups. Times count
-- microseconds. `locked` names the rows that other transactions hold, which SKIP LOCKED passes
-- over, and `id_before` is the database's order of texts.
pub mod Invariant
pub mod Contract
pub mod Order
pub mod Claimed
pub mod Reported
pub mod Claim
pub mod Report
pub mod Enqueue
use zhiyan_personal_academic.Prelude.{
  ℕ, suc, ◌+◌, ◌*◌, String, Bool, true, false, not, ◌&&◌, ◌||◌, Option, none, some, List, [], ◌∷◌,
  ◌++◌, if◌then◌else◌, ltb, leb, ◌==◌, ◌=ᵗ◌, any, map_option, find_where, select_where,
  update_where, is_none,
}
use zhiyan_personal_academic.Storage.Lifecycle.{DocumentVersion, is_inactive}
use zhiyan_personal_academic.Storage.Records.{
  CleanupBackend, CleanupJobStatus, CleanupJob, same_backend, cleanup_is_running,
  cleanup_is_waiting, cleanup_is_valid,
}
use zhiyan_personal_academic.Storage.Database.{
  Database, Connection, Error, Result, Repo, ok, err, value_error, validation_error,
  identity_conflict, ◌>>=◌, ◌>>◌, return, raise, require, or_raise, in_transaction, read,
  database_error,
}
use zhiyan_personal_academic.Storage.Identifiers.{is_contract_id}

abbrev pub seconds : ℕ → ℕ
seconds n = n * 1_000_000

-- `_cleanup_from_row`.
unfoldable pub cleanup_from_row : CleanupJob → Repo CleanupJob
cleanup_from_row row = if cleanup_is_valid row then return row else raise validation_error

abbrev pub with_cleanups : List CleanupJob → Connection → Connection
with_cleanups cleanups c = record c { working = record (c.working) { cleanups = cleanups } }

-- The unique key of a cleanup: one per backend and version.
unfoldable pub same_cleanup : CleanupJob → CleanupJob → Bool
same_cleanup a b =
    same_backend a.backend b.backend
    && a.owner_id =ᵗ b.owner_id
    && a.document_id =ᵗ b.document_id
    && a.document_version_id =ᵗ b.document_version_id

-- The candidate that `enqueue_cleanup` builds.
abbrev pub new_cleanup : String → CleanupBackend → String → String → String → ℕ → ℕ → CleanupJob
new_cleanup cleanup_id backend owner_id document_id document_version_id max_attempts now = record {
  cleanup_id = cleanup_id;
  backend = backend;
  owner_id = owner_id;
  document_id = document_id;
  document_version_id = document_version_id;
  status = CleanupJobStatus.pending;
  attempt_count = 0;
  max_attempts = max_attempts;
  next_attempt_at = now;
  lease_token = none;
  lease_expires_at = none;
  failure_code = none;
  created_at = now;
  updated_at = now;
  completed_at = none;
}

-- The INACTIVE version that a cleanup belongs to.
unfoldable pub inactive_version : String → String → String → DocumentVersion → Bool
inactive_version owner_id document_id document_version_id v =
    v.owner_id =ᵗ owner_id
    && v.document_id =ᵗ document_id
    && v.document_version_id =ᵗ document_version_id
    && is_inactive v.lifecycle_status

-- enqueue_index_cleanup_v1: no row without an INACTIVE version; on conflict the row that is there.
-- A new row needs a fresh primary key.
unfoldable pub insert_cleanup : CleanupJob → Repo (Option CleanupJob)
insert_cleanup job c =
    if not (
      any (inactive_version job.owner_id job.document_id job.document_version_id)
        c.working.versions)
    then (ok none, c)
    else elim (find_where (same_cleanup job) c.working.cleanups) [
      | some row ↦ (ok (some row), c)
      | none ↦
          if any (λ row. row.cleanup_id =ᵗ job.cleanup_id) c.working.cleanups
          then (err database_error, c)
          else (ok (some job), with_cleanups (c.working.cleanups ++ job ∷ []) c)
    ]

unfoldable pub enqueue_body : CleanupJob → Repo CleanupJob
enqueue_body candidate = do
  row ← insert_cleanup candidate
  found ← or_raise row identity_conflict
  job ← cleanup_from_row found
  require (same_cleanup job candidate && job.max_attempts == candidate.max_attempts)
      identity_conflict
  return job

unfoldable pub enqueue_cleanup :
    String → CleanupBackend → String → String → String → ℕ → ℕ → Repo CleanupJob
enqueue_cleanup cleanup_id backend owner_id document_id document_version_id max_attempts now =
    let candidate =
      new_cleanup cleanup_id backend owner_id document_id document_version_id max_attempts now in
    if cleanup_is_valid candidate
    then in_transaction true (enqueue_body candidate)
    else raise validation_error

abbrev pub time_passed : Option ℕ → ℕ → Bool
time_passed none now = false
time_passed (some t) now = leb t now

-- A RUNNING cleanup whose lease has run out.
unfoldable pub lease_has_expired : ℕ → CleanupJob → Bool
lease_has_expired now j = cleanup_is_running j.status && time_passed j.lease_expires_at now

-- What a failed attempt leaves: FAILED when the attempts are used up, and RETRY before that.
unfoldable pub failed_attempt : String → ℕ → ℕ → CleanupJob → CleanupJob
failed_attempt code retry_at now j =
    let exhausted = leb j.max_attempts j.attempt_count in
    record j {
      status = if exhausted then CleanupJobStatus.failed else CleanupJobStatus.retry;
      next_attempt_at = retry_at;
      lease_token = none;
      lease_expires_at = none;
      failure_code = some code;
      updated_at = now;
      completed_at = if exhausted then some now else none;
    }

-- recover_expired_index_cleanup_leases_v1.
unfoldable pub recover_expired : ℕ → List CleanupJob → List CleanupJob
recover_expired now =
    update_where (lease_has_expired now) (failed_attempt "CLEANUP_LEASE_EXPIRED" now now)

unfoldable pub is_due : ℕ → CleanupJob → Bool
is_due now j = cleanup_is_waiting j.status && leb j.next_attempt_at now

-- ORDER BY next_attempt_at, created_at, cleanup_id.
unfoldable pub due_before : (String → String → Bool) → CleanupJob → CleanupJob → Bool
due_before id_before a b =
    ltb a.next_attempt_at b.next_attempt_at
    || (a.next_attempt_at == b.next_attempt_at
        && (ltb a.created_at b.created_at
            || (a.created_at == b.created_at && id_before a.cleanup_id b.cleanup_id)))

-- The first row of that order.
unfoldable pub first_due : (String → String → Bool) → List CleanupJob → Option CleanupJob
first_due id_before [] = none
first_due id_before (j ∷ js) = elim (first_due id_before js) [
  | none ↦ some j
  | some k ↦ if due_before id_before k j then some k else some j
]

unfoldable pub leased : String → ℕ → ℕ → CleanupJob → CleanupJob
leased token expires_at now j = record j {
  status = CleanupJobStatus.running;
  attempt_count = j.attempt_count + 1;
  lease_token = some token;
  lease_expires_at = some expires_at;
  failure_code = none;
  updated_at = now;
  completed_at = none;
}

abbrev pub has_id : String → CleanupJob → Bool
has_id cleanup_id j = j.cleanup_id =ᵗ cleanup_id

-- The row that claim_due_index_cleanup_v1 locks.
unfoldable pub claim_candidate :
    (String → String → Bool) → (CleanupJob → Bool) → ℕ → List CleanupJob → Option CleanupJob
claim_candidate id_before locked now js =
    first_due id_before (select_where (λ j. is_due now j && not (locked j)) js)

-- claim_due_index_cleanup_v1 over the table, after the expired leases are recovered.
unfoldable pub claim_rows :
    (String → String → Bool)
    → (CleanupJob → Bool)
    → ℕ
    → String
    → ℕ
    → List CleanupJob
    → Option CleanupJob × List CleanupJob
claim_rows id_before locked now token expires_at js =
    elim (claim_candidate id_before locked now js) [
      | none ↦ (none, js)
      | some j ↦ (
        some (leased token expires_at now j),
        update_where (has_id j.cleanup_id) (leased token expires_at now) js,
      )
    ]

unfoldable pub claim_body :
    (String → String → Bool) → (CleanupJob → Bool) → ℕ → String → ℕ → Repo (Option CleanupJob)
claim_body id_before locked now token expires_at c =
    let (row, cleanups) =
      claim_rows id_before locked now token expires_at (recover_expired now c.working.cleanups) in
    (ok row, with_cleanups cleanups c)

-- `return None if row is None else _cleanup_from_row(row)`, after the commit.
unfoldable pub claimed_from_row : Option CleanupJob → Repo (Option CleanupJob)
claimed_from_row none = return none
claimed_from_row (some row) = do job ← cleanup_from_row row; return (some job)

unfoldable pub claim_cleanup :
    (String → String → Bool) → (CleanupJob → Bool) → ℕ → String → ℕ → Repo (Option CleanupJob)
claim_cleanup id_before locked lease_seconds token now =
    if ltb lease_seconds 1 then raise value_error else do
      row ←
          in_transaction true (claim_body id_before locked now token (now + seconds lease_seconds))
      claimed_from_row row

abbrev pub same_token : Option String → String → Bool
same_token none token = false
same_token (some t) token = t =ᵗ token

-- The row of exactly the attempt that holds the lease.
unfoldable pub lease_key : String → String → CleanupJob → Bool
lease_key cleanup_id token j =
    has_id cleanup_id j && cleanup_is_running j.status && same_token j.lease_token token

unfoldable pub completed : ℕ → CleanupJob → CleanupJob
completed now j = record j {
  status = CleanupJobStatus.succeeded;
  lease_token = none;
  lease_expires_at = none;
  failure_code = none;
  updated_at = now;
  completed_at = some now;
}

-- Both reports on a leased attempt: write what the lease selects, and read the row back.
unfoldable pub report_body : String → String → (CleanupJob → CleanupJob) → Repo CleanupJob
report_body cleanup_id token set = do
  row ← λ c. (
    ok (map_option set (find_where (lease_key cleanup_id token) c.working.cleanups)),
    with_cleanups (update_where (lease_key cleanup_id token) set c.working.cleanups) c,
  )
  found ← or_raise row identity_conflict
  cleanup_from_row found

unfoldable pub complete_cleanup : String → String → ℕ → Repo CleanupJob
complete_cleanup cleanup_id token now =
    in_transaction true (report_body cleanup_id token (completed now))

unfoldable pub record_cleanup_failure : String → String → String → ℕ → ℕ → Repo CleanupJob
record_cleanup_failure cleanup_id token failure_code retry_at now =
    if not (is_contract_id failure_code)
    then raise value_error
    else in_transaction true
        (report_body cleanup_id token (failed_attempt failure_code retry_at now))
