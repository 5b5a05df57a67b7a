-- ===== src/Storage/Registration/Registered.antt =====
-- register_version_and_ingestion_job: what the two rows of a registration are, and where they stand.
use zhiyan_personal_academic.Prelude.{
  ℕ, ◌≡◌, refl, ◌++◌, ◌∷◌, [], String, Bool, true, false, some, List, In, In-snoc, arith, eq_iff,
  Option-cases, Bool-cases, inl, inr, find_where, find_where-In, find_where_sound, any, sym, subst,
  ◌=ᵗ◌, ◌&&◌, eq_refl, ◌∙◌, not,
}
use zhiyan_personal_academic.Storage.Lifecycle.{DocumentVersion, version_is_valid}
use zhiyan_personal_academic.Storage.Records.{IngestionJob}
use zhiyan_personal_academic.Storage.Database.{
  Connection, Result, Repo, ok, err, commit, IsSettled, IsAtomic, in_transaction-ok, >>=-ok,
  or_raise-ok, require, return, or_raise, identity_conflict, fact_source, ◌>>=◌, ◌>>◌,
}
use zhiyan_personal_academic.Storage.Jobs.{
  insert_job, new_job, job_from_row, idempotency_key_of, register_ingestion_job_in, version_exists,
}
use zhiyan_personal_academic.Storage.Registration.{
  Source, source_key, owned_source_key, owned_document, new_version, insert_version,
  register_version_in, register_version_and_ingestion_job,
}
use zhiyan_personal_academic.Storage.Registration.Idempotence.{
  register_version_in-ok, new_version-found,
}
use zhiyan_personal_academic.Storage.Registration.Atomicity.{
  register_version_and_ingestion_job-IsAtomic,
}

-- The version is in the table, of the owner and of the source, and valid.
pub record IsOfSource (owner_id : String) (s : Source) (vs : List DocumentVersion)
    (v : DocumentVersion) : Type 0 where
  pub there : In v vs
  pub owned : v.owner_id ≡ owner_id
  pub of_document : v.document_id ≡ s.document_id
  pub of_content : v.content_sha256 ≡ s.content_sha256
  pub of_snapshot : v.source_snapshot_sha256 ≡ s.source_snapshot_sha256
  pub of_parse : v.parse_version ≡ s.parse_version
  pub valid : version_is_valid v ≡ true

-- The job is in the table, of the owner, under the key, and bound to the version.
pub record IsOfVersion (owner_id key : String) (v : DocumentVersion) (js : List IngestionJob)
    (j : IngestionJob) : Type 0 where
  pub there : In j js
  pub owned : j.owner_id ≡ owner_id
  pub under_key : j.idempotency_key ≡ key
  pub of_document : j.document_id ≡ v.document_id
  pub of_version : j.document_version_id ≡ v.document_version_id

found_there :
    (owner_id : String) (s : Source) (v : DocumentVersion) (vs : List DocumentVersion)
    → find_where (owned_source_key owner_id s) vs ≡ some v
    → In v vs × (owned_source_key owner_id s v ≡ true)
found_there owner_id s v vs e = (
  find_where-In (owned_source_key owner_id s) v vs e,
  find_where_sound (owned_source_key owner_id s) vs v e,
)

insert_version_there :
    (id owner_id : String) (s : Source) (now : ℕ) (c c' : Connection) (v : DocumentVersion)
    → insert_version id owner_id s now c ≡ (ok (some v), c')
    → In v c'.working.versions × (owned_source_key owner_id s v ≡ true)
unfolding insert_version
insert_version_there id owner_id s now c c' v h =
    elim (Option-cases (find_where (owned_document owner_id s.document_id) c.working.documents)) [
      | inl absent ↦
          let same : c' ≡ c = ground arith in
          rw same (found_there owner_id s v c.working.versions (ground arith))
      | inr (d, there) ↦ elim (Bool-cases (any (source_key s) c.working.versions)) [
        | inl known ↦
            let same : c' ≡ c = ground arith in
            rw same (found_there owner_id s v c.working.versions (ground arith))
        | inr fresh ↦
            elim (Bool-cases (any (λ w. w.document_version_id =ᵗ id) c.working.versions)) [
              | inl taken ↦ absurd (ground arith)
              | inr free ↦
                  let row : v ≡ new_version id s d now = ground arith in
                  let table : c'.working.versions ≡ c.working.versions ++ v ∷ [] = ground arith in
                  (
                    rw table (In-snoc v c.working.versions),
                    subst (λ w. owned_source_key owner_id s w ≡ true) (sym row)
                        (new_version-found id owner_id s now d
                          (find_where_sound _ c.working.documents d there)),
                  )
            ]
      ]
    ]

source_of :
    (owner_id : String) (s : Source) (v : DocumentVersion) (vs : List DocumentVersion)
    → In v vs
    → owned_source_key owner_id s v ≡ true
    → version_is_valid v ≡ true
    → IsOfSource owner_id s vs v
unfolding owned_source_key source_key
source_of owner_id s v vs i h valid = record {
  there = i;
  owned = (eq_iff _ _).0 (ground arith);
  of_document = (eq_iff _ _).0 (ground arith);
  of_content = (eq_iff _ _).0 (ground arith);
  of_snapshot = (eq_iff _ _).0 (ground arith);
  of_parse = (eq_iff _ _).0 (ground arith);
  valid = valid;
}

-- The row that the job statement gives is in the table, under its key; no version changes.
insert_job_there :
    (job row : IngestionJob) (c c' : Connection)
    → insert_job job c ≡ (ok (some row), c')
    → In row c'.working.jobs
      × (idempotency_key_of job.owner_id job.idempotency_key row ≡ true)
      × (c'.working.versions ≡ c.working.versions)
unfolding insert_job idempotency_key_of
insert_job_there job row c c' h =
    let key = idempotency_key_of job.owner_id job.idempotency_key in
    elim (Option-cases (find_where key c.working.jobs)) [
      | inr (old, e) ↦
          let same : c' ≡ c = ground arith in
          let it : find_where key c.working.jobs ≡ some row = ground arith in
          rw same (
            find_where-In key row c.working.jobs it,
            find_where_sound key c.working.jobs row it,
            refl,
          )
      | inl e ↦
          elim (Bool-cases (
            version_exists job.owner_id job.document_id job.document_version_id c.working.versions
            && not (any (λ r. r.job_id =ᵗ job.job_id) c.working.jobs))) [
              | inr bad ↦ absurd (ground arith)
              | inl good ↦
                  let it : row ≡ job = ground arith in
                  let table : c'.working.jobs ≡ c.working.jobs ++ row ∷ [] = ground arith in
                  (rw table (In-snoc row c.working.jobs), rw it (own_key job), ground arith)
            ]
    ]
  where
    own_key : (j : IngestionJob) → idempotency_key_of j.owner_id j.idempotency_key j ≡ true
    own_key j = rw (eq_refl j.owner_id, eq_refl j.idempotency_key) refl

job_checked :
    (test : IngestionJob → Bool) (row j : IngestionJob) (c c' : Connection)
    → (job_from_row row >>= λ job. (require (test job) identity_conflict >> return job)) c
      ≡ (ok j, c')
    → (row ≡ j) × (test j ≡ true) × (c' ≡ c)
unfolding job_from_row
job_checked test row j c c' h = ground arith

register_job_ok :
    (id owner_id document_id version_id key : String) (now : ℕ) (c c' : Connection)
    (j : IngestionJob)
    → register_ingestion_job_in false id owner_id document_id version_id key now c ≡ (ok j, c')
    → In j c'.working.jobs
      × (idempotency_key_of owner_id key j ≡ true)
      × ((j.document_id =ᵗ document_id && j.document_version_id =ᵗ version_id) ≡ true)
      × (c'.working.versions ≡ c.working.versions)
unfolding register_ingestion_job_in
register_job_ok id owner_id document_id version_id key now c c' j h =
    let test : IngestionJob → Bool =
      λ job. job.document_id =ᵗ document_id && job.document_version_id =ᵗ version_id in
    let job = new_job id owner_id document_id version_id key now in
    let finish : IngestionJob → Repo IngestionJob =
      λ found. job_from_row found >>= λ x. (require (test x) identity_conflict >> return x) in
    let (d, body, after) =
      in_transaction-ok false (insert_job job >>= λ row. or_raise row fact_source >>= finish) h in
    let (o, e, first, later) =
      >>=-ok (insert_job job) (λ row. or_raise row fact_source >>= finish) body in
    let (row, is_row, last) = or_raise-ok o fact_source finish later in
    let (same, bound, unchanged) = job_checked test row j e d last in
    let (there, keyed, versions) =
      insert_job_there job row c e (subst (λ x. insert_job job c ≡ (ok x, e)) is_row first) in
    let place : c' ≡ e = after ∙ unchanged in
    rw place (
      subst (λ x. In x e.working.jobs) same there,
      subst (λ x. idempotency_key_of owner_id key x ≡ true) same keyed,
      bound,
      versions,
    )

version_of :
    (owner_id key : String) (s : Source) (v : DocumentVersion) (vs : List DocumentVersion)
    (js : List IngestionJob) (j : IngestionJob)
    → IsOfSource owner_id s vs v
    → In j js
    → idempotency_key_of owner_id key j ≡ true
    → (j.document_id =ᵗ s.document_id && j.document_version_id =ᵗ v.document_version_id) ≡ true
    → IsOfVersion owner_id key v js j
unfolding idempotency_key_of
version_of owner_id key s v vs js j is_v i k b = record {
  there = i;
  owned = (eq_iff _ _).0 (ground arith);
  under_key = (eq_iff _ _).0 (ground arith);
  of_document =
      let e : j.document_id ≡ s.document_id = (eq_iff _ _).0 (ground arith) in
      e ∙ sym is_v.of_document;
  of_version = (eq_iff _ _).0 (ground arith);
}

-- The two rows of a registration that returned, in the committed tables.
abbrev pub RegisteredOrKept :
    String
    → Source
    → String
    → Connection
    → Result (DocumentVersion × IngestionJob) × Connection
    → Type 0
RegisteredOrKept owner_id s key c (ok (v, j), c') =
    IsOfSource owner_id s c'.committed.versions v
    × IsOfVersion owner_id key v c'.committed.jobs j
    × IsSettled c'
RegisteredOrKept owner_id s key c (err e, c') = (c'.committed ≡ c.committed) × IsSettled c'

registered_as :
    (owner_id : String) (s : Source) (key : String) (c d d' c' : Connection)
    (v v' : DocumentVersion) (j j' : IngestionJob)
    → d ≡ d'
    → c' ≡ commit d'
    → v ≡ v'
    → j ≡ j'
    → IsOfSource owner_id s d.working.versions v
    → IsOfVersion owner_id key v d.working.jobs j
    → RegisteredOrKept owner_id s key c (ok (v', j'), c')
registered_as owner_id s key c d d' c' v v' j j' end after ev ej is_v is_j =
    rw (after, sym end, sym ev, sym ej) (is_v, is_j, refl)

registration_ok :
    (id job_id owner_id : String) (s : Source) (key : String) (now : ℕ × ℕ) (c c' : Connection)
    (v : DocumentVersion) (j : IngestionJob)
    → register_version_and_ingestion_job id job_id owner_id s key now c ≡ (ok (v, j), c')
    → RegisteredOrKept owner_id s key c (ok (v, j), c')
unfolding register_version_and_ingestion_job
registration_ok id job_id owner_id s key (now, later) c c' v j h =
    let second : DocumentVersion → Repo IngestionJob = λ version.
      register_ingestion_job_in false job_id owner_id s.document_id version.document_version_id key
        later in
    let rest : DocumentVersion → Repo (DocumentVersion × IngestionJob) =
      λ version. second version >>= λ job. return (version, job) in
    let (d, body, after) =
      in_transaction-ok true (register_version_in false id owner_id s now >>= rest) h in
    let (v', d1, first, h1) = >>=-ok (register_version_in false id owner_id s now) rest body in
    let (j', d2, registered, h2) = >>=-ok (second v') (λ job. return (v', job)) h1 in
    let (e, inserted, valid, place) =
      register_version_in-ok false id owner_id s now c d1 v' first in
    let (there, keyed) = insert_version_there id owner_id s now c e v' inserted in
    let (job_there, job_keyed, bound, versions) =
      register_job_ok job_id owner_id s.document_id v'.document_version_id key later d1 d2 j'
        registered in
    let same_v : v' ≡ v = cc in
    let same_j : j' ≡ j = cc in
    let end : d2 ≡ d = cc in
    let is_v =
      source_of owner_id s v' d2.working.versions (rw (versions, place) there) keyed valid in
    let is_j =
      version_of owner_id key s v' d2.working.versions d2.working.jobs j' is_v job_there job_keyed
        bound in
    registered_as owner_id s key c d2 d c' v' v j' j end after same_v same_j is_v is_j

registered-cases :
    (id job_id owner_id : String) (s : Source) (key : String) (now : ℕ × ℕ) (c : Connection)
    (r : Result (DocumentVersion × IngestionJob) × Connection)
    → register_version_and_ingestion_job id job_id owner_id s key now c ≡ r
    → IsAtomic r c
    → RegisteredOrKept owner_id s key c r
registered-cases id job_id owner_id s key now c (ok (v, j), c') h a =
    registration_ok id job_id owner_id s key now c c' v j h
registered-cases id job_id owner_id s key now c (err e, c') h a = a

-- Registering a version together with its ingestion job is all or nothing. A call that returns has
-- committed both rows: the version that it returns is in the committed tables, valid, of the owner
-- and of the given source, and so is the job, of the owner, under the key and bound to that version.
-- On an error from either half the committed tables are as they were. No transaction is left open.
pub register_version_and_ingestion_job-cases :
    (id job_id owner_id : String) (s : Source) (key : String) (now : ℕ × ℕ) (c : Connection)
    → RegisteredOrKept owner_id s key c
        (register_version_and_ingestion_job id job_id owner_id s key now c)
register_version_and_ingestion_job-cases id job_id owner_id s key now c =
    registered-cases id job_id owner_id s key now c
      (register_version_and_ingestion_job id job_id owner_id s key now c) refl
      (register_version_and_ingestion_job-IsAtomic id job_id owner_id s key now c)
