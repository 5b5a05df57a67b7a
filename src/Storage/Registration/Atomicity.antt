-- ===== src/Storage/Registration/Atomicity.antt =====
-- register_version_and_ingestion_job: a version and its job are registered together.
use zhiyan_personal_academic.Storage.Registration.{
  insert_version, reread_version, DocumentVersion, String, IngestionJob, Source, Connection, Option,
  ℕ, register_version_and_ingestion_job, register_version_in,
}
use zhiyan_personal_academic.Storage.Jobs.{insert_job, register_ingestion_job_in, job_from_row}
use zhiyan_personal_academic.Storage.Versions.{version_from_row}
use zhiyan_personal_academic.Prelude.{refl, arith, some, none, Bool, false}
use zhiyan_personal_academic.Storage.Database.{
  ◌>>=◌, ◌>>◌, return, require, KeepsCommitted, Error, IsAtomic, or_raise,
  in_transaction-KeepsCommitted, in_transaction-IsAtomic, >>=-KeepsCommitted, identity_conflict,
}

insert_version-KeepsCommitted :
    (id owner_id : String) (s : Source) (now : ℕ)
    → KeepsCommitted (insert_version id owner_id s now)
unfolding insert_version
insert_version-KeepsCommitted id owner_id s now c = ground arith

insert_job-KeepsCommitted : (job : IngestionJob) → KeepsCommitted (insert_job job)
unfolding insert_job
insert_job-KeepsCommitted job c = ground arith

version_from_row-KeepsCommitted : (v : DocumentVersion) → KeepsCommitted (version_from_row v)
unfolding version_from_row
version_from_row-KeepsCommitted v c = ground arith

reread_version-KeepsCommitted :
    (owner_id : String) (s : Source) (o : Option DocumentVersion)
    → KeepsCommitted (reread_version owner_id s o)
unfolding reread_version
reread_version-KeepsCommitted owner_id s none c = refl
reread_version-KeepsCommitted owner_id s (some v) c = refl

or_raise-KeepsCommitted : {A : Type 0} (o : Option A) (e : Error) → KeepsCommitted (or_raise o e)
or_raise-KeepsCommitted none e c = refl
or_raise-KeepsCommitted (some a) e c = refl

register_version_in-KeepsCommitted :
    (id owner_id : String) (s : Source) (now : ℕ)
    → KeepsCommitted (register_version_in false id owner_id s now)
unfolding register_version_in
register_version_in-KeepsCommitted id owner_id s now = search (
  in_transaction-KeepsCommitted, >>=-KeepsCommitted, insert_version-KeepsCommitted,
  reread_version-KeepsCommitted, or_raise-KeepsCommitted, version_from_row-KeepsCommitted,
)

job_from_row-KeepsCommitted : (row : IngestionJob) → KeepsCommitted (job_from_row row)
unfolding job_from_row
job_from_row-KeepsCommitted row c = ground arith

required-KeepsCommitted :
    (test : IngestionJob → Bool) (job : IngestionJob)
    → KeepsCommitted (require (test job) identity_conflict >> return job)
required-KeepsCommitted test job c = ground arith

job_checked-KeepsCommitted :
    (test : IngestionJob → Bool) (row : IngestionJob)
    → KeepsCommitted do job ← job_from_row row; require (test job) identity_conflict; return job
job_checked-KeepsCommitted test row = search (
  >>=-KeepsCommitted {A = IngestionJob} {B = IngestionJob},
  job_from_row-KeepsCommitted,
  required-KeepsCommitted,
)

register_ingestion_job_in-KeepsCommitted :
    (id owner_id d v key : String) (now : ℕ)
    → KeepsCommitted (register_ingestion_job_in false id owner_id d v key now)
unfolding register_ingestion_job_in
register_ingestion_job_in-KeepsCommitted id owner_id d v key now = search (
  in_transaction-KeepsCommitted, >>=-KeepsCommitted, insert_job-KeepsCommitted,
  or_raise-KeepsCommitted, job_checked-KeepsCommitted,
)

returned-KeepsCommitted : {A : Type 0} (a : A) → KeepsCommitted (return a)
returned-KeepsCommitted a c = refl

-- On an error, from either half, the tables are the committed ones; no transaction is left open.
pub register_version_and_ingestion_job-IsAtomic :
    (id job_id owner_id : String) (s : Source) (key : String) (now : ℕ × ℕ) (c : Connection)
    → IsAtomic (register_version_and_ingestion_job id job_id owner_id s key now c) c
unfolding register_version_and_ingestion_job
register_version_and_ingestion_job-IsAtomic id job_id owner_id s key now c =
    in_transaction-IsAtomic
      (do
        version ← register_version_in false id owner_id s now.0
        job ←
            register_ingestion_job_in false job_id owner_id s.document_id
              version.document_version_id key now.1
        return (version, job))
      c
      (search (
        >>=-KeepsCommitted, register_version_in-KeepsCommitted,
        register_ingestion_job_in-KeepsCommitted, returned-KeepsCommitted,
      ))
