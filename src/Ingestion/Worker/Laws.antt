-- ===== src/Ingestion/Worker/Laws.antt =====
-- A round of the worker, on a sound queue, never fails to record what it did.
use zhiyan_personal_academic.Prelude.{
  ◌+◌, ◌≤◌, ◌≡◌, refl, String, Bool, true, Option, none, some, List, arith, find_where,
  update_where, Option-cases, inl, inr, ◌∙◌, subst, sym,
}
use zhiyan_personal_academic.Storage.Records.{
  CleanupBackend, elasticsearch_chunks, milvus_vectors, runtime_snapshot, CleanupJob,
  cleanup_is_running, PdfObject,
}
use zhiyan_personal_academic.Storage.Database.{Result, ok, err, commit, IsSettled}
use zhiyan_personal_academic.Storage.Identifiers.{
  is_contract_id, matches_identifier, is_identifier_code, is_alphanumeric,
}
use zhiyan_personal_academic.Storage.CleanupQueue.Contract.{
  HasSucceeded, HasFailed, IsFirstClaim, IsRecovered, RowByRow, Replaces, completed-HasSucceeded,
  failed_attempt-HasFailed, recover_expired-IsRecovered,
}
use zhiyan_personal_academic.Storage.CleanupQueue.Order.{IsTextOrder, claim_candidate-none}
use zhiyan_personal_academic.Storage.CleanupQueue.Claimed.{NoneDue, leased-IsFirstClaim}
use zhiyan_personal_academic.Storage.CleanupQueue.Reported.{report-Replaces}
use zhiyan_personal_academic.Storage.CleanupQueue.{
  leased, completed, failed_attempt, claim_candidate, recover_expired, seconds, lease_key, has_id,
  with_cleanups,
}
use zhiyan_personal_academic.Storage.CleanupQueue.Invariant.{IsQueue, recover_expired-IsQueue}
use zhiyan_personal_academic.Ingestion.Effects.{System, on_repository, on_service}
use zhiyan_personal_academic.Ingestion.Worker.{
  Cleaners, WorkerConfig, Readings, Outcome, idle, executed, raised, config_is_valid, retry_delay,
  delete_version, delete_snapshot_version, delete_failed_code, report_deletion, execute_claimed,
  after_claim, run_once, purged, purge_after, delete_found, purge_inactive_runtime_snapshot,
  get_inactive_pdf_object, reported, Execution, Connection,
}
use zhiyan_personal_academic.Storage.Snapshots.{get_inactive_pdf_object}
use zhiyan_personal_academic.Storage.Snapshots.Laws.{purge-keeps_queue}
use zhiyan_personal_academic.Storage.CleanupQueue.Report.{
  record_cleanup_failure_held, record_cleanup_failure-IsQueue, complete_cleanup_held,
  complete_cleanup-IsQueue,
}
use zhiyan_personal_academic.Storage.CleanupQueue.Claim.{
  claim_cleanup_lem, claim_rows-none, claim_rows_of, claim_rows-IsQueue, leased_found,
}

-- What a deletion may do to the fact source: settle what is open, and leave the queue alone.
record LeavesQueue {W : Type 0} (before after : System W) : Type 0 where
  is_settled : IsSettled after.connection
  queue_kept : after.connection.working.cleanups ≡ before.connection.working.cleanups

module _ {W : Type 0} (o v : String) where
  purged-LeavesQueue :
      (existed : Bool) (s : System W) (r : Result (Unit {0}) × System W)
      → LeavesQueue s r.1
      → LeavesQueue s (purged existed r).1
  unfolding purged
  purged-LeavesQueue existed s (ok u, t) l = l
  purged-LeavesQueue existed s (err e, t) l = l

  purge_after-LeavesQueue :
      (s : System W) (r : Option Bool × System W)
      → LeavesQueue s r.1
      → LeavesQueue s (purge_after o v r).1
  unfolding purge_after
  purge_after-LeavesQueue s (none, t) l = l
  purge_after-LeavesQueue s (some existed, t) l =
      let p = purge-keeps_queue o v t.connection l.is_settled in
      purged-LeavesQueue existed s (on_repository (purge_inactive_runtime_snapshot o v) t)
        (record { is_settled = p.0; queue_kept = p.1 ∙ l.queue_kept })

module _ {W : Type 0} (cleaners : Cleaners W) where
  delete_found-LeavesQueue :
      (o v : String) (s : System W) (r : Result (Option PdfObject) × System W)
      → LeavesQueue s r.1
      → LeavesQueue s (delete_found cleaners o v r).1
  unfolding delete_found
  delete_found-LeavesQueue o v s (err e, t) l = l
  delete_found-LeavesQueue o v s (ok none, t) l = l
  delete_found-LeavesQueue o v s (ok (some pdf), t) l =
      purge_after-LeavesQueue o v s (on_service (cleaners.delete_pdf pdf) t)
        (record { is_settled = l.is_settled; queue_kept = l.queue_kept })

  delete_version-LeavesQueue :
      (b : CleanupBackend) (o v : String) (s : System W)
      → IsSettled s.connection
      → LeavesQueue s (delete_version cleaners b o v s).1
  unfolding delete_version delete_snapshot_version get_inactive_pdf_object
  delete_version-LeavesQueue elasticsearch_chunks o v s settled = record {
    is_settled = settled;
    queue_kept = refl;
  }
  delete_version-LeavesQueue milvus_vectors o v s settled = record {
    is_settled = settled;
    queue_kept = refl;
  }
  delete_version-LeavesQueue runtime_snapshot o v s settled =
      delete_found-LeavesQueue o v s (on_repository (get_inactive_pdf_object o v) s)
        (record { is_settled = refl; queue_kept = refl })

pub delete_failed_code-IsContractId :
    (b : CleanupBackend) → is_contract_id (delete_failed_code b) ≡ true
unfolding is_contract_id matches_identifier is_identifier_code is_alphanumeric delete_failed_code
delete_failed_code-IsContractId elasticsearch_chunks = refl
delete_failed_code-IsContractId milvus_vectors = refl
delete_failed_code-IsContractId runtime_snapshot = refl

lease_positive : (f : WorkerConfig) → config_is_valid f ≡ true → 1 ≤ f.lease_seconds
unfolding config_is_valid
lease_positive f h = ground arith

-- What the row of an attempt becomes: SUCCEEDED if the deletion returned, and else RETRY, or FAILED
-- after the last attempt.
abbrev pub HasOutcome : WorkerConfig → Readings → Option Bool → CleanupJob → CleanupJob → Type 0
HasOutcome config now none old new =
    HasFailed (delete_failed_code old.backend) (now.failure_now + seconds (retry_delay config old))
      now.report_now old new
HasOutcome config now (some existed) old new = HasSucceeded now.report_now old new

-- What the deletion of a version gave, and the world that it left: the answer of the service of the
-- backend, and for a snapshot the end of its three steps.
abbrev pub IsDeletion :
    {W : Type 0}
    → Cleaners W
    → CleanupBackend
    → String
    → String
    → System W
    → Option Bool
    → W
    → Type 0
IsDeletion cleaners elasticsearch_chunks o v s existed w =
    cleaners.delete_elasticsearch o v s.world ≡ (existed, w)
IsDeletion cleaners milvus_vectors o v s existed w =
    cleaners.delete_milvus o v s.world ≡ (existed, w)
IsDeletion cleaners runtime_snapshot o v s existed w =
    ((delete_snapshot_version cleaners o v s).0 ≡ existed)
    × ((delete_snapshot_version cleaners o v s).1.world ≡ w)

delete_version-IsDeletion :
    {W : Type 0} (cleaners : Cleaners W) (b : CleanupBackend) (o v : String) (s : System W)
    → IsDeletion cleaners b o v s
        (delete_version cleaners b o v s).0
        (delete_version cleaners b o v s).1.world
unfolding delete_version
delete_version-IsDeletion cleaners elasticsearch_chunks o v s = refl
delete_version-IsDeletion cleaners milvus_vectors o v s = refl
delete_version-IsDeletion cleaners runtime_snapshot o v s = (refl, refl)

-- The round executed the job of the queue `js`, whose deletion gave `existed` and left the world `w`.
abbrev IsExecuted :
    {W : Type 0}
    → WorkerConfig
    → Readings
    → CleanupJob
    → Option Bool
    → W
    → List CleanupJob
    → Outcome × System W
    → Type 0
IsExecuted config now job existed w js (idle, s) = ⊥
IsExecuted config now job existed w js (raised error, s) = ⊥
IsExecuted config now job existed w js (executed e, s) =
    (e.existed ≡ existed)
    × (s.world ≡ w)
    × HasOutcome config now existed job e.job
    × Replaces js s.connection.committed.cleanups job e.job
    × IsSettled s.connection
    × IsQueue s.connection.committed.cleanups

-- A round that executed a job. `js` is the queue after the recovery: the first row of it that was due
-- and free is leased, its version is deleted physically, and the outcome of that replaces it.
pub record Executes {W : Type 0} (config : WorkerConfig) (cleaners : Cleaners W)
    (before : String → String → Bool) (now : Readings) (locked : CleanupJob → Bool)
    (js : List CleanupJob) (s : System W) (e : Execution) (s' : System W) : Type 0 where
  pub claimed : CleanupJob
  pub middle : Connection
  pub is_claim :
      IsFirstClaim before locked now.claim_now now.token
        (now.claim_now + seconds config.lease_seconds)
        js
        middle.committed.cleanups
        claimed
  pub is_deletion :
      IsDeletion cleaners claimed.backend claimed.owner_id claimed.document_version_id
        (record s { connection = middle })
        e.existed
        s'.world
  pub has_outcome : HasOutcome config now e.existed claimed e.job
  pub replaces : Replaces middle.committed.cleanups s'.connection.committed.cleanups claimed e.job
  pub settled : IsSettled s'.connection
  pub sound : IsQueue s'.connection.committed.cleanups

-- A round that found nothing to do: no service was called.
pub record RestsIdle {W : Type 0} (now : Readings) (locked : CleanupJob → Bool)
    (js : List CleanupJob) (s s' : System W) : Type 0 where
  pub none_due : NoneDue locked now.claim_now js
  pub only_recovered : s'.connection.committed.cleanups ≡ js
  pub same_world : s'.world ≡ s.world
  pub settled : IsSettled s'.connection
  pub sound : IsQueue js

-- The result of a round, where `js` is the queue after the recovery.
abbrev pub RoundResult :
    {W : Type 0}
    → WorkerConfig
    → Cleaners W
    → (String → String → Bool)
    → Readings
    → (CleanupJob → Bool)
    → List CleanupJob
    → System W
    → Outcome × System W
    → Type 0
RoundResult config cleaners before now locked js s (idle, s') = RestsIdle now locked js s s'
RoundResult config cleaners before now locked js s (executed e, s') =
    Executes config cleaners before now locked js s e s'
RoundResult config cleaners before now locked js s (raised error, s') = ⊥

module _ {W : Type 0} (config : WorkerConfig) (cleaners : Cleaners W)
    (before : String → String → Bool) (now : Readings) where
  report_deletion-IsExecuted :
      (job : CleanupJob) (token : String) (r : Option Bool × System W)
      → IsQueue r.1.connection.working.cleanups
      → find_where (lease_key job.cleanup_id token) r.1.connection.working.cleanups ≡ some job
      → IsExecuted config now job r.0 r.1.world r.1.connection.working.cleanups
          (report_deletion config cleaners before now job token r)
  unfolding report_deletion reported failed_attempt completed
  report_deletion-IsExecuted job token (none, s) q e =
      let code = delete_failed_code job.backend in
      let retry_at = now.failure_now + seconds (retry_delay config job) in
      let js = s.connection.working.cleanups in
      rw
        (record_cleanup_failure_held job.cleanup_id token code retry_at now.report_now s.connection
          job (delete_failed_code-IsContractId job.backend) q e)
        (
          refl,
          refl,
          failed_attempt-HasFailed code retry_at now.report_now job,
          report-Replaces job.cleanup_id token (failed_attempt code retry_at now.report_now)
              (λ j. refl) js job e,
          refl,
          record_cleanup_failure-IsQueue job.cleanup_id token code retry_at now.report_now js q,
        )
  report_deletion-IsExecuted job token (some existed, s) q e =
      let js = s.connection.working.cleanups in
      rw (complete_cleanup_held job.cleanup_id token now.report_now s.connection job q e) (
        refl,
        refl,
        completed-HasSucceeded now.report_now job,
        report-Replaces job.cleanup_id token (completed now.report_now) (λ j. refl) js job e,
        refl,
        complete_cleanup-IsQueue job.cleanup_id token now.report_now js q,
      )

  execute_claimed-IsExecuted :
      (job : CleanupJob) (token : String) (s : System W)
      → cleanup_is_running job.status ≡ true
      → IsSettled s.connection
      → IsQueue s.connection.working.cleanups
      → find_where (lease_key job.cleanup_id token) s.connection.working.cleanups ≡ some job
      → IsExecuted config now job
          (delete_version cleaners job.backend job.owner_id job.document_version_id s).0
          (delete_version cleaners job.backend job.owner_id job.document_version_id s).1.world
          s.connection.working.cleanups
          (execute_claimed config cleaners before now job (some token) s)
  unfolding execute_claimed
  execute_claimed-IsExecuted job token s running settled q e =
      let deleted = delete_version cleaners job.backend job.owner_id job.document_version_id s in
      let l =
        delete_version-LeavesQueue cleaners job.backend job.owner_id job.document_version_id s
          settled in
      rw running (
        subst
          (λ js.
            IsExecuted config now job deleted.0 deleted.1.world js
              (report_deletion config cleaners before now job token deleted))
          l.queue_kept
          (report_deletion-IsExecuted job token deleted (rw l.queue_kept q) (rw l.queue_kept e)))

  executed_round :
      (locked : CleanupJob → Bool) (js : List CleanupJob) (s : System W) (job : CleanupJob)
      (middle : Connection) (r : Outcome × System W)
      → IsFirstClaim before locked now.claim_now now.token
          (now.claim_now + seconds config.lease_seconds)
          js
          middle.committed.cleanups
          job
      → IsExecuted config now job
          (delete_version cleaners job.backend job.owner_id job.document_version_id
            (record s { connection = middle })).0
          (delete_version cleaners job.backend job.owner_id job.document_version_id
            (record s { connection = middle })).1.world
          middle.committed.cleanups
          r
      → RoundResult config cleaners before now locked js s r
  executed_round locked js s job middle (idle, s') claim h = absurd h
  executed_round locked js s job middle (raised error, s') claim h = absurd h
  executed_round locked js s job middle (executed e, s') claim
        (same, world, outcome, repl, settled, q) =
      let t = record s { connection = middle } in
      let o = job.owner_id in
      let v = job.document_version_id in
      let d = delete_version cleaners job.backend o v t in
      record {
        claimed = job;
        middle = middle;
        is_claim = claim;
        is_deletion =
            subst (λ x. IsDeletion cleaners job.backend o v t x s'.world) (sym same)
              (subst (IsDeletion cleaners job.backend o v t d.0) (sym world)
                (delete_version-IsDeletion cleaners job.backend o v t));
        has_outcome = subst (λ x. HasOutcome config now x job e.job) (sym same) outcome;
        replaces = repl;
        settled = settled;
        sound = q;
      }

  pub run_once-RoundResult :
      (locked : CleanupJob → Bool) (s : System W)
      → IsTextOrder before
      → config_is_valid config ≡ true
      → IsSettled s.connection
      → IsQueue s.connection.working.cleanups
      → (js : List CleanupJob) × RowByRow
          (IsRecovered now.claim_now)
          s.connection.working.cleanups
          js
        × RoundResult config cleaners before now locked js s
            (run_once config cleaners before locked now s)
  unfolding run_once after_claim leased
  run_once-RoundResult locked s o valid settled q =
      let js = recover_expired now.claim_now s.connection.working.cleanups in
      let expires = now.claim_now + seconds config.lease_seconds in
      let q' = recover_expired-IsQueue now.claim_now s.connection.working.cleanups q in
      (
        js,
        recover_expired-IsRecovered now.claim_now s.connection.working.cleanups,
        rw
            (claim_cleanup_lem before locked config.lease_seconds now.token now.claim_now
              s.connection (lease_positive config valid) q)
            (elim (Option-cases (claim_candidate before locked now.claim_now js)) [
              | inl e ↦
                  rw (claim_rows-none before locked now.claim_now now.token expires js e) (record {
                    none_due = λ k i due free.
                        claim_candidate-none before o locked now.claim_now js k e i due free;
                    only_recovered = refl;
                    same_world = refl;
                    settled = refl;
                    sound = q';
                  })
              | inr (j, e) ↦
                  let job = leased now.token expires now.claim_now j in
                  let table =
                    update_where (has_id j.cleanup_id) (leased now.token expires now.claim_now)
                      js in
                  let middle = commit (with_cleanups table s.connection) in
                  let of_j = claim_rows_of before locked now.claim_now now.token expires js j e in
                  let sound : IsQueue table =
                    subst (λ (r : Option CleanupJob × List CleanupJob). IsQueue r.1) of_j
                      (claim_rows-IsQueue before locked now.claim_now now.token expires js q') in
                  rw of_j (
                    executed_round locked js s job middle
                      (execute_claimed config cleaners before now job (some now.token)
                        (record s { connection = middle }))
                      (leased-IsFirstClaim before o locked now.claim_now now.token expires js j e)
                      (execute_claimed-IsExecuted job now.token (record s { connection = middle })
                        refl refl sound
                        (leased_found before locked now.claim_now now.token expires js j q' e)))
            ]),
      )
