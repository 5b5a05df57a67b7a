-- ===== src/Storage/CleanupQueue/Enqueue.antt =====
-- Enqueuing a cleanup leaves the versions alone.
use zhiyan_personal_academic.Storage.Records.{
  elasticsearch_chunks, milvus_vectors, runtime_snapshot,
}
use zhiyan_personal_academic.Prelude.{
  ◌≡◌, refl, arith, inl, inr, String, Option-cases, find_where, ℕ, true, Bool-cases, ◌∙◌, ap, some,
  In, Bool, eq_iff, any, find_where-In, ◌&&◌, ◌=ᵗ◌, ◌++◌, ◌==◌, subst, &&-left, ◌∷◌, [], In-snoc,
  In-append,
}
use zhiyan_personal_academic.Storage.CleanupQueue.{
  cleanup_from_row, insert_cleanup, enqueue_cleanup, enqueue_body, CleanupJob, Result,
  CleanupBackend, same_cleanup, ok, cleanup_is_valid, new_cleanup, Database, err, same_backend,
  inactive_version, require, identity_conflict, Repo, return, or_raise,
}
use zhiyan_personal_academic.Storage.Database.{
  Connection, IsSettled, settle, in_transaction-ok, commit, ◌>>=◌, ◌>>◌, >>=-ok, or_raise-ok,
}

-- The call settles what is open and changes no version.
pub record KeepsVersions (before after : Connection) : Type 0 where
  pub settled : IsSettled after
  pub kept : after.committed.versions ≡ before.committed.versions

insert_cleanup_same :
    (job : CleanupJob) (c : Connection)
    → ((insert_cleanup job c).1.working.versions ≡ c.working.versions)
      × ((insert_cleanup job c).1.committed ≡ c.committed)
unfolding insert_cleanup
insert_cleanup_same job c = elim (Option-cases (find_where (same_cleanup job) c.working.cleanups)) [
  | inl e ↦ (ground arith, ground arith)
  | inr (row, e) ↦ (ground arith, ground arith)
]

cleanup_from_row_same : (row : CleanupJob) (c : Connection) → (cleanup_from_row row c).1 ≡ c
unfolding cleanup_from_row
cleanup_from_row_same row c = ground arith

enqueue_body_same :
    (candidate : CleanupJob) (c : Connection)
    → ((enqueue_body candidate c).1.working.versions ≡ c.working.versions)
      × ((enqueue_body candidate c).1.committed ≡ c.committed)
unfolding enqueue_body cleanup_from_row
enqueue_body_same candidate c =
    let (v, d) = insert_cleanup_same candidate c in (ground (arith, v), ground (arith, d))

settled_versions :
    (c : Connection) (r : Result CleanupJob × Connection)
    → IsSettled c
    → r.1.working.versions ≡ c.working.versions
    → r.1.committed ≡ c.committed
    → KeepsVersions c (settle true r).1
settled_versions c (ok j, d) s v e = record {
  settled = refl;
  kept = v ∙ ap (λ (b : Database). b.versions) s;
}
settled_versions c (err x, d) s v e = record {
  settled = refl;
  kept = ap (λ (b : Database). b.versions) e;
}

pub enqueue_cleanup-KeepsVersions :
    (id : String) (b : CleanupBackend) (o d v : String) (n now : ℕ) (c : Connection)
    → IsSettled c
    → KeepsVersions c (enqueue_cleanup id b o d v n now c).1
unfolding enqueue_cleanup
enqueue_cleanup-KeepsVersions id b o d v n now c s =
    elim (Bool-cases (cleanup_is_valid (new_cleanup id b o d v n now))) [
      | inl good ↦
          let same = enqueue_body_same (new_cleanup id b o d v n now) c in
          rw good
            (settled_versions c (enqueue_body (new_cleanup id b o d v n now) c) s same.0 same.1)
      | inr bad ↦ rw bad (record { settled = s; kept = refl })
    ]

-- The committed queue holds a cleanup of the version for the backend.
pub record IsQueued (b : CleanupBackend) (o d v : String) (c : Connection) : Type 0 where
  pub job : CleanupJob
  pub there : In job c.committed.cleanups
  pub of_backend : job.backend ≡ b
  pub of_owner : job.owner_id ≡ o
  pub of_document : job.document_id ≡ d
  pub of_version : job.document_version_id ≡ v

-- A call that enqueued a cleanup, and kept the ones that were there.
pub record Enqueues (b : CleanupBackend) (o d v : String) (before after : Connection) : Type 0 where
  pub queued : IsQueued b o d v after
  pub settled : IsSettled after
  pub kept : (k : CleanupJob) → In k before.working.cleanups → In k after.committed.cleanups

backend_eq : (a b : CleanupBackend) → same_backend a b ≡ true → a ≡ b
backend_eq elasticsearch_chunks elasticsearch_chunks h = refl
backend_eq milvus_vectors milvus_vectors h = refl
backend_eq runtime_snapshot runtime_snapshot h = refl
backend_eq elasticsearch_chunks milvus_vectors h = absurd (ground arith)
backend_eq elasticsearch_chunks runtime_snapshot h = absurd (ground arith)
backend_eq milvus_vectors elasticsearch_chunks h = absurd (ground arith)
backend_eq milvus_vectors runtime_snapshot h = absurd (ground arith)
backend_eq runtime_snapshot elasticsearch_chunks h = absurd (ground arith)
backend_eq runtime_snapshot milvus_vectors h = absurd (ground arith)

new_cleanup-IsQueued :
    (job candidate : CleanupJob) (c : Connection)
    → In job c.committed.cleanups
    → same_cleanup job candidate ≡ true
    → IsQueued candidate.backend candidate.owner_id candidate.document_id
        candidate.document_version_id c
unfolding same_cleanup
new_cleanup-IsQueued job candidate c i h = record {
  job = job;
  there = i;
  of_backend = backend_eq job.backend candidate.backend (ground arith);
  of_owner = (eq_iff _ _).0 (ground arith);
  of_document = (eq_iff _ _).0 (ground arith);
  of_version = (eq_iff _ _).0 (ground arith);
}

-- The row that the statement gives is in the table, and the others stay.
insert_cleanup_there :
    (job row : CleanupJob) (c c' : Connection)
    → insert_cleanup job c ≡ (ok (some row), c')
    → In row c'.working.cleanups
      × ((k : CleanupJob) → In k c.working.cleanups → In k c'.working.cleanups)
unfolding insert_cleanup
insert_cleanup_there job row c c' h =
    elim (Bool-cases (
      any (inactive_version job.owner_id job.document_id job.document_version_id)
        c.working.versions)) [
          | inr missing ↦ absurd (ground arith)
          | inl inactive ↦ elim (Option-cases (find_where (same_cleanup job) c.working.cleanups)) [
            | inr (old, e) ↦
                let same : c' ≡ c = ground arith in
                let it : find_where (same_cleanup job) c.working.cleanups ≡ some row =
                  ground arith in
                rw same (find_where-In (same_cleanup job) row c.working.cleanups it, λ k i. i)
            | inl e ↦
                elim (Bool-cases (any (λ r. r.cleanup_id =ᵗ job.cleanup_id) c.working.cleanups)) [
                  | inl taken ↦ absurd (ground arith)
                  | inr free ↦
                      let table : c'.working.cleanups ≡ c.working.cleanups ++ row ∷ [] =
                        ground arith in
                      rw table (
                        In-snoc row c.working.cleanups,
                        λ k i. In-append k c.working.cleanups (row ∷ []) i,
                      )
                ]
          ]
        ]

cleanup_checked :
    (test : CleanupJob → Bool) (row j : CleanupJob) (c c' : Connection)
    → (cleanup_from_row row >>= λ job. (require (test job) identity_conflict >> return job)) c
      ≡ (ok j, c')
    → (row ≡ j) × (test j ≡ true) × (c' ≡ c)
unfolding cleanup_from_row
cleanup_checked test row j c c' h = ground arith

enqueue_body_ok :
    (candidate j : CleanupJob) (c c' : Connection)
    → enqueue_body candidate c ≡ (ok j, c')
    → In j c'.working.cleanups
      × (same_cleanup j candidate ≡ true)
      × ((k : CleanupJob) → In k c.working.cleanups → In k c'.working.cleanups)
unfolding enqueue_body
enqueue_body_ok candidate j c c' h =
    let test : CleanupJob → Bool =
      λ job. same_cleanup job candidate && job.max_attempts == candidate.max_attempts in
    let finish : CleanupJob → Repo CleanupJob =
      λ found. cleanup_from_row found >>= λ x. (require (test x) identity_conflict >> return x) in
    let (o, e, first, later) =
      >>=-ok {c = c} (insert_cleanup candidate) (λ row. or_raise row identity_conflict >>= finish)
        h in
    let (row, is_row, last) = or_raise-ok o identity_conflict finish later in
    let (same, passed, unchanged) = cleanup_checked test row j e c' last in
    let (there, others) =
      insert_cleanup_there candidate row c e
        (subst (λ x. insert_cleanup candidate c ≡ (ok x, e)) is_row first) in
    rw unchanged (
      subst (λ x. In x e.working.cleanups) same there,
      &&-left (same_cleanup j candidate) (j.max_attempts == candidate.max_attempts) passed,
      others,
    )

pub enqueue_cleanup-Enqueues :
    (id : String) (b : CleanupBackend) (o d v : String) (n now : ℕ) (c c' : Connection)
    (j : CleanupJob)
    → enqueue_cleanup id b o d v n now c ≡ (ok j, c')
    → Enqueues b o d v c c'
unfolding enqueue_cleanup
enqueue_cleanup-Enqueues id b o d v n now c c' j h =
    let candidate = new_cleanup id b o d v n now in
    elim (Bool-cases (cleanup_is_valid candidate)) [
      | inr bad ↦ absurd (ground arith)
      | inl good ↦
          let (e, body, after) =
            in_transaction-ok {c = c} true (enqueue_body candidate) (rw good at h) in
          let (there, same, others) = enqueue_body_ok candidate j c e body in
          rw after (record {
            queued = new_cleanup-IsQueued j candidate (commit e) there same;
            settled = refl;
            kept = others;
          })
    ]
