-- ===== src/Storage/Indexing/Laws.antt =====
-- Both settlements of an indexing attempt are one transaction over two rows.
use zhiyan_personal_academic.Prelude.{
  ℕ, ◌+◌, ◌≡◌, refl, String, true, false, Option, none, some, List, arith, find_where, sym, ap,
  ◌=ᵗ◌, ◌∙◌, eq_iff, is_some,
}
use zhiyan_personal_academic.Storage.Lifecycle.{
  LifecycleStatus, IndexStates, DocumentVersion, Update, both_ready, version_is_valid,
  lifecycle_fails_closed, is_active, IndexState,
}
use zhiyan_personal_academic.Storage.Records.{IngestionJobStatus, IngestionJob}
use zhiyan_personal_academic.Storage.Database.{
  Database, Connection, Repo, Result, ok, KeepsCommitted, return, require, IsAtomic, >>=-ok,
  identity_conflict, >>=-KeepsCommitted, in_transaction-IsAtomic, require-ok, IsSettled,
  in_transaction-ok, ◌>>◌,
}
use zhiyan_personal_academic.Storage.Versions.{transition_version_in, version_key}
use zhiyan_personal_academic.Storage.Versions.Transition.{
  Swapped, transition_version_in_ok, transition_version_in-KeepsCommitted,
}
use zhiyan_personal_academic.Storage.Jobs.{update_ingestion_job_in, job_key, set_job_status}
use zhiyan_personal_academic.Storage.Jobs.Laws.{
  JobUpdated, update_ingestion_job_in_ok, update_ingestion_job_in-KeepsCommitted,
}
use zhiyan_personal_academic.Storage.Indexing.{
  settle_indexing, record_indexing_failure, finalize_indexing_success, settle_job, success_updates,
  failure_updates,
}

-- What is in the tables after both rows are written.
pub record Settled (o v : String) (n : ℕ) (target : LifecycleStatus) (us : List Update) (j : String)
    (s : IngestionJobStatus) (code : Option String) (now : ℕ × ℕ) (before after : Database)
    (version : DocumentVersion) (job : IngestionJob) : Type 0 where
  pub middle : Database
  pub version_swapped : Swapped o v n target us now.0 before middle version
  pub job_updated : JobUpdated o j s code now.1 middle after job
  pub bound : job.document_version_id ≡ version.document_version_id

module _ (o j : String) (s : IngestionJobStatus) (code : Option String) (now : ℕ)
    (version : DocumentVersion) where
  -- What follows the update of the job.
  abbrev bind_job : IngestionJob → Repo (DocumentVersion × IngestionJob)
  bind_job job =
      require (job.document_version_id =ᵗ version.document_version_id) identity_conflict
      >> return (version, job)

  settle_job_ok :
      (c c' : Connection) (r : DocumentVersion × IngestionJob)
      → settle_job o j s code now version c ≡ (ok r, c')
      → (r.0 ≡ version)
        × JobUpdated o j s code now c.working c'.working r.1
        × (r.1.document_version_id ≡ version.document_version_id)
  unfolding settle_job
  settle_job_ok c c' r h =
      let (job, d, e, h1) = >>=-ok (update_ingestion_job_in false o j s code now) bind_job h in
      let (d', w, e') = update_ingestion_job_in_ok false o j s code now c d job e in
      let (same, h2) =
        require-ok (job.document_version_id =ᵗ version.document_version_id) identity_conflict
          (return (version, job)) h1 in
      let pair : r ≡ (version, job) = cc in
      let place : c' ≡ d' =
        sym (ap (λ (q : Result (DocumentVersion × IngestionJob) × Connection). q.1) h2) ∙ e' in
      rw (pair, place) (refl, w, (eq_iff _ _).0 same)

  settle_job-KeepsCommitted : KeepsCommitted (settle_job o j s code now version)
  unfolding settle_job
  settle_job-KeepsCommitted =
      >>=-KeepsCommitted (update_ingestion_job_in false o j s code now) bind_job
        (update_ingestion_job_in-KeepsCommitted o j s code now) (λ job c. ground arith)

module _ (o v : String) (n : ℕ) (target : LifecycleStatus) (us : List Update) (j : String)
    (s : IngestionJobStatus) (code : Option String) (now : ℕ × ℕ) where
  pub settle_indexing_ok :
      (c c' : Connection) (r : DocumentVersion × IngestionJob)
      → settle_indexing o v n target us j s code now c ≡ (ok r, c')
      → Settled o v n target us j s code now c.working c'.working r.0 r.1
  unfolding settle_indexing
  settle_indexing_ok c c' r h =
      let (version, d, e, h1) =
        >>=-ok (transition_version_in false o v n target us now.0) (settle_job o j s code now.1)
          h in
      let (d', w, e', _) = transition_version_in_ok false o v n target us now.0 c d version e in
      let (same, job_updated, bound) = settle_job_ok o j s code now.1 version d c' r h1 in
      record {
        middle = d'.working;
        version_swapped = rw same w;
        job_updated = rw e' at job_updated;
        bound = bound ∙ ap (λ (x : DocumentVersion). x.document_version_id) (sym same);
      }

  pub settle_indexing-KeepsCommitted : KeepsCommitted (settle_indexing o v n target us j s code now)
  unfolding settle_indexing
  settle_indexing-KeepsCommitted =
      >>=-KeepsCommitted (transition_version_in false o v n target us now.0)
        (settle_job o j s code now.1) (transition_version_in-KeepsCommitted o v n target us now.0)
        (λ version. settle_job-KeepsCommitted o j s code now.1 version)

-- The body of each settlement, named.
abbrev success_body :
    String → String → ℕ → IndexStates → ℕ → String → ℕ × ℕ → Repo (DocumentVersion × IngestionJob)
success_body o v n states time j now =
    settle_indexing o v n LifecycleStatus.ready (success_updates states time) j
      IngestionJobStatus.succeeded none now

abbrev failure_body :
    String
    → String
    → ℕ
    → IndexStates
    → String
    → String
    → ℕ × ℕ
    → Repo (DocumentVersion × IngestionJob)
failure_body o v n states j code now =
    settle_indexing o v n LifecycleStatus.processing (failure_updates states code) j
      IngestionJobStatus.failed (some code) now

-- What READY promises of a version: every milestone has its time, both indexes hold it, and it has
-- neither failed nor been withdrawn.
pub record IsReadyVersion (v : DocumentVersion) : Type 0 where
  pub parsed : is_some v.parse_finish_time ≡ true
  pub split : is_some v.chunk_splitter_time ≡ true
  pub chunked : is_some v.chunk_create_time ≡ true
  pub generated : is_some v.chunk_gen_time ≡ true
  pub indexed : is_some v.vector_index_time ≡ true
  pub in_elasticsearch : v.index_states.elasticsearch_chunks ≡ IndexState.ready
  pub in_milvus : v.index_states.milvus_vectors ≡ IndexState.ready
  pub no_failure : v.failure_code ≡ none
  pub not_deleted : v.delete_time ≡ none
  pub not_expired : v.chunk_expire_time ≡ none

ready_facts :
    (v : DocumentVersion)
    → version_is_valid v ≡ true
    → v.lifecycle_status ≡ LifecycleStatus.ready
    → IsReadyVersion v
unfolding version_is_valid lifecycle_fails_closed
ready_facts v h e = record {
  parsed = ground arith;
  split = ground arith;
  chunked = ground arith;
  generated = ground arith;
  indexed = ground arith;
  in_elasticsearch = ground arith;
  in_milvus = ground arith;
  no_failure = ground arith;
  not_deleted = ground arith;
  not_expired = ground arith;
}

-- Finalization is all or nothing: whatever step raises, the committed version and job are as they
-- were and no transaction is left open.
pub finalize_indexing_success-IsAtomic :
    (o v : String) (n : ℕ) (states : IndexStates) (time : ℕ) (j : String) (now : ℕ × ℕ)
    (c : Connection)
    → IsAtomic (finalize_indexing_success o v n states time j now c) c
unfolding finalize_indexing_success
finalize_indexing_success-IsAtomic o v n states time j now c =
    in_transaction-IsAtomic (success_body o v n states time j now) c (
      settle_indexing-KeepsCommitted o v n LifecycleStatus.ready (success_updates states time) j
        IngestionJobStatus.succeeded none now)

pub record_indexing_failure-IsAtomic :
    (o v : String) (n : ℕ) (states : IndexStates) (j code : String) (now : ℕ × ℕ) (c : Connection)
    → IsAtomic (record_indexing_failure o v n states j code now c) c
unfolding record_indexing_failure
record_indexing_failure-IsAtomic o v n states j code now c =
    in_transaction-IsAtomic (failure_body o v n states j code now) c (
      settle_indexing-KeepsCommitted o v n LifecycleStatus.processing (failure_updates states code)
        j IngestionJobStatus.failed (some code) now)

-- What a finalization that returns has committed.
pub finalize_indexing_success_ok :
    (o v : String) (n : ℕ) (states : IndexStates) (time : ℕ) (j : String) (now : ℕ × ℕ)
    (c c' : Connection) (r : DocumentVersion × IngestionJob)
    → finalize_indexing_success o v n states time j now c ≡ (ok r, c')
    → Settled o v n LifecycleStatus.ready
        (success_updates states time)
        j
        IngestionJobStatus.succeeded
        none
        now
        c.working
        c'.committed
        r.0
        r.1
      × IsSettled c'
unfolding finalize_indexing_success
finalize_indexing_success_ok o v n states time j now c c' r h =
    let (d, h1, e) = in_transaction-ok true (success_body o v n states time j now) h in
    rw e (
      settle_indexing_ok o v n LifecycleStatus.ready (success_updates states time) j
          IngestionJobStatus.succeeded none now c d r h1,
      refl,
    )

pub record_indexing_failure_ok :
    (o v : String) (n : ℕ) (states : IndexStates) (j code : String) (now : ℕ × ℕ)
    (c c' : Connection) (r : DocumentVersion × IngestionJob)
    → record_indexing_failure o v n states j code now c ≡ (ok r, c')
    → Settled o v n LifecycleStatus.processing
        (failure_updates states code)
        j
        IngestionJobStatus.failed
        (some code)
        now
        c.working
        c'.committed
        r.0
        r.1
      × IsSettled c'
unfolding record_indexing_failure
record_indexing_failure_ok o v n states j code now c c' r h =
    let (d, h1, e) = in_transaction-ok true (failure_body o v n states j code now) h in
    rw e (
      settle_indexing_ok o v n LifecycleStatus.processing (failure_updates states code) j
          IngestionJobStatus.failed (some code) now c d r h1,
      refl,
    )

-- A finalization that returns has committed both rows together: the version is READY, valid and at
-- the next revision, with the time of each of the five milestones, both indexes READY, no failure
-- code and neither a deletion nor an expiry time, and its job is SUCCEEDED, is bound to it and has
-- no failure code.
pub finalize_indexing_success-commits :
    (o v : String) (n : ℕ) (states : IndexStates) (time : ℕ) (j : String) (now : ℕ × ℕ)
    (c c' : Connection) (version : DocumentVersion) (job : IngestionJob)
    → finalize_indexing_success o v n states time j now c ≡ (ok (version, job), c')
    → (find_where (version_key o v) c'.committed.versions ≡ some version)
      × (find_where (job_key o j) c'.committed.jobs ≡ some job)
      × (version.lifecycle_status ≡ LifecycleStatus.ready)
      × (version.lifecycle_revision ≡ n + 1)
      × (both_ready version.index_states ≡ true)
      × (version.failure_code ≡ none)
      × (is_active version ≡ true)
      × (job.status ≡ IngestionJobStatus.succeeded)
      × (job.failure_code ≡ none)
      × (job.document_version_id ≡ version.document_version_id)
      × (version_is_valid version ≡ true)
      × IsReadyVersion version
unfolding set_job_status is_active
finalize_indexing_success-commits o v n states time j now c c' version job h =
    let s = (finalize_indexing_success_ok o v n states time j now c c' (version, job) h).0 in
    let facts = ready_facts version s.version_swapped.valid s.version_swapped.has_target in
    (
      rw s.job_updated.written s.version_swapped.stored,
      s.job_updated.stored,
      s.version_swapped.has_target,
      s.version_swapped.next_revision,
      (let e = facts.in_elasticsearch in let m = facts.in_milvus in ground arith),
      facts.no_failure,
      (let e = s.version_swapped.has_target in
          let d = facts.not_deleted in let x = facts.not_expired in ground arith),
      ap (λ (x : IngestionJob). x.status) s.job_updated.result_is,
      ap (λ (x : IngestionJob). x.failure_code) s.job_updated.result_is,
      s.bound,
      s.version_swapped.valid,
      facts,
    )
