-- ===== src/Ingestion/Inactivation/Steps.antt =====
-- What the steps of an inactivation did, where none of them failed: which services answered, and
-- what the queue holds after them.
use zhiyan_personal_academic.Prelude.{
  ◌≡◌, refl, [], ◌∷◌, ◌++◌, String, ℕ, List, Option, none, some, In, sym, subst,
}
use zhiyan_personal_academic.Storage.Lifecycle.{DocumentVersion}
use zhiyan_personal_academic.Storage.Records.{CleanupBackend, CleanupJob}
use zhiyan_personal_academic.Storage.Database.{Connection, Result, ok, err, IsSettled}
use zhiyan_personal_academic.Storage.CleanupQueue.Enqueue.{
  IsQueued, Enqueues, enqueue_cleanup-Enqueues,
}
use zhiyan_personal_academic.Ingestion.Effects.{System, Service, on_service, on_repository}
use zhiyan_personal_academic.Ingestion.Writers.{IndexBackend, IndexWriter}
use zhiyan_personal_academic.Ingestion.Inactivation.{
  CleanupRequest, InactivationResult, noted_visibility, noted_deactivation, noted_request,
  enqueue_step, deactivate_step, request_for, enqueue, cleanup_backend,
}

pub failure_left : (names : List String) (n : String) → names ++ n ∷ [] ≡ [] → ⊥
failure_left [] n h = cc
failure_left (m ∷ names) n h = cc

-- The committed queue holds a cleanup of the version for the backend.
abbrev pub HasCleanup : DocumentVersion → CleanupBackend → Connection → Type 0
HasCleanup version b c =
    IsQueued b version.owner_id version.document_id version.document_version_id c

-- The cleanups of every version that are in the committed queue stay there.
abbrev pub KeepsCleanups : Connection → Connection → Type 0
KeepsCleanups c c' = (k : CleanupJob) → In k c.committed.cleanups → In k c'.committed.cleanups

pub HasCleanup-kept :
    (version : DocumentVersion) (b : CleanupBackend) (c c' : Connection)
    → HasCleanup version b c
    → KeepsCleanups c c'
    → HasCleanup version b c'
HasCleanup-kept version b c c' h keep = record {
  job = h.job;
  there = keep h.job h.there;
  of_backend = h.of_backend;
  of_owner = h.of_owner;
  of_document = h.of_document;
  of_version = h.of_version;
}

module _ {W : Type 0} where
  answer_of :
      {A : Type 0} (m : Service W A) (s : System W) (a : A)
      → (on_service m s).0 ≡ some a
      → m s.world ≡ (some a, (on_service m s).1.world)
  answer_of m s a e i = (e i, (m s.world).1)

  -- The service answered, and nothing else happened.
  pub record Answers (m : Service W (Unit {0})) (s s' : System W) : Type 0 where
    pub answered : m s.world ≡ (some tt, s'.world)
    pub same_connection : s'.connection ≡ s.connection

  noted_visibility-some :
      (r : InactivationResult) (x : Option (Unit {0}) × System W)
      → (noted_visibility r x).0.failures ≡ []
      → (x.0 ≡ some tt) × ((noted_visibility r x).1 ≡ x.1)
  unfolding noted_visibility
  noted_visibility-some r (some u, s) h = (refl, refl)
  noted_visibility-some r (none, s) h = absurd (failure_left r.failures _ h)

  pub noted_visibility-Answers :
      (m : Service W (Unit {0})) (r : InactivationResult) (s : System W)
      → (noted_visibility r (on_service m s)).0.failures ≡ []
      → Answers m s (noted_visibility r (on_service m s)).1
  noted_visibility-Answers m r s h =
      let (e, same) = noted_visibility-some r (on_service m s) h in
      subst (Answers m s) (sym same)
        (record { answered = answer_of m s tt e; same_connection = refl })

  noted_deactivation-some :
      (b : IndexBackend) (r : InactivationResult) (x : Option (Unit {0}) × System W)
      → (noted_deactivation b r x).0.failures ≡ []
      → (x.0 ≡ some tt) × ((noted_deactivation b r x).1 ≡ x.1)
  unfolding noted_deactivation
  noted_deactivation-some b r (some u, s) h = (refl, refl)
  noted_deactivation-some b r (none, s) h = absurd (failure_left r.failures _ h)

  pub deactivate_step-Answers :
      (writer : IndexWriter W) (version : DocumentVersion) (p : InactivationResult × System W)
      → (deactivate_step writer version p).0.failures ≡ []
      → Answers
          (writer.deactivate_version version.owner_id version.document_version_id)
          p.1
          (deactivate_step writer version p).1
  unfolding deactivate_step
  deactivate_step-Answers writer version (r, s) h =
      let m = writer.deactivate_version version.owner_id version.document_version_id in
      let (e, same) = noted_deactivation-some writer.backend r (on_service m s) h in
      subst (Answers m s) (sym same)
        (record { answered = answer_of m s tt e; same_connection = refl })

  -- The request is in the queue, and no service was called.
  pub record Queues (version : DocumentVersion) (b : CleanupBackend) (s s' : System W)
      : Type 0 where
    pub queued : HasCleanup version b s'.connection
    pub settled : IsSettled s'.connection
    pub kept : IsSettled s.connection → KeepsCleanups s.connection s'.connection
    pub same_world : s'.world ≡ s.world

  noted_request_ok :
      (q : CleanupRequest) (r : InactivationResult) (x : Result CleanupJob × System W)
      → (noted_request q r x).0.failures ≡ []
      → (j : CleanupJob) × (x.0 ≡ ok j) × ((noted_request q r x).1 ≡ x.1)
  unfolding noted_request
  noted_request_ok q r (ok j, s) h = (j, refl, refl)
  noted_request_ok q r (err e, s) h = absurd (failure_left r.failures _ h)

  Enqueues-Queues :
      (version : DocumentVersion) (b : CleanupBackend) (s : System W) (c' : Connection)
      → Enqueues b version.owner_id version.document_id version.document_version_id s.connection c'
      → Queues version b s (record s { connection = c' })
  Enqueues-Queues version b s c' e = record {
    queued = e.queued;
    settled = e.settled;
    kept = λ settled k i. e.kept k (rw settled i);
    same_world = refl;
  }

  pub enqueue_step-Queues :
      (n : ℕ) (ticket : String × ℕ) (version : DocumentVersion) (b : CleanupBackend)
      (p : InactivationResult × System W)
      → (enqueue_step n ticket version b p).0.failures ≡ []
      → Queues version b p.1 (enqueue_step n ticket version b p).1
  unfolding enqueue_step enqueue request_for
  enqueue_step-Queues n (id, now) version b (r, s) h =
      let q = request_for version b in
      let x = on_repository (enqueue n (id, now) q) s in
      let (j, e, same) = noted_request_ok q r x h in
      subst (Queues version b s) (sym same) (
        Enqueues-Queues version b s x.1.connection (
          enqueue_cleanup-Enqueues id b version.owner_id version.document_id
            version.document_version_id n now s.connection x.1.connection j
            (λ i. (e i, x.1.connection))))

  -- A round of the loop over the writers: the index deactivated the version, and its cleanup is in
  -- the queue.
  pub record Withdraws (writer : IndexWriter W) (version : DocumentVersion) (s s' : System W)
      : Type 0 where
    pub deactivates :
        writer.deactivate_version version.owner_id version.document_version_id s.world
        ≡ (some tt, s'.world)
    pub queued : HasCleanup version (cleanup_backend writer.backend) s'.connection
    pub settled : IsSettled s'.connection
    pub kept : IsSettled s.connection → KeepsCleanups s.connection s'.connection

  pub Answers-Withdraws :
      (writer : IndexWriter W) (version : DocumentVersion) (s t s' : System W)
      → Answers (writer.deactivate_version version.owner_id version.document_version_id) s t
      → Queues version (cleanup_backend writer.backend) t s'
      → Withdraws writer version s s'
  Answers-Withdraws writer version s t s' a q = record {
    deactivates = rw q.same_world a.answered;
    queued = q.queued;
    settled = q.settled;
    kept = λ settled k i.
        q.kept (subst IsSettled (sym a.same_connection) settled) k
          (subst (λ (c : Connection). In k c.committed.cleanups) (sym a.same_connection) i);
  }
