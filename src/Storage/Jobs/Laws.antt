-- ===== src/Storage/Jobs/Laws.antt =====
-- What an update of an ingestion job does.
use zhiyan_personal_academic.Prelude.{
  ℕ, ◌≡◌, refl, String, Bool, false, Option, some, arith, Bool-cases, Option-cases, inl, inr,
  find_where, update_where, find_where-update_hit, find_where_sound, ap, ◌&&◌, if◌then◌else◌,
  is_none, not, is_some,
}
use zhiyan_personal_academic.Storage.Records.{IngestionJobStatus, IngestionJob}
use zhiyan_personal_academic.Storage.Database.{
  Database, Connection, ok, KeepsCommitted, commit, if_raise-ok, value_error,
  in_transaction-KeepsCommitted, raise, in_transaction, in_transaction-ok,
}
use zhiyan_personal_academic.Storage.Jobs.{
  job_key, set_job_status, update_job_rows, update_job_body, update_ingestion_job_in, job_from_row,
  with_jobs, job_is_failed,
}

set_job_status-key :
    (o j : String) (s : IngestionJobStatus) (code : Option String) (now : ℕ) (row : IngestionJob)
    → job_key o j (set_job_status s code now row) ≡ job_key o j row
unfolding job_key set_job_status
set_job_status-key o j s code now row = refl

-- What an update of a job that returns has done to the open transaction.
pub record JobUpdated (o j : String) (s : IngestionJobStatus) (code : Option String) (now : ℕ)
    (before after : Database) (result : IngestionJob) : Type 0 where
  pub previous : IngestionJob
  pub found : find_where (job_key o j) before.jobs ≡ some previous
  pub result_is : result ≡ set_job_status s code now previous
  pub stored : find_where (job_key o j) after.jobs ≡ some result
  pub written :
      after
      ≡ record before { jobs = update_where (job_key o j) (set_job_status s code now) before.jobs }

update_job_body_ok :
    (o j : String) (s : IngestionJobStatus) (code : Option String) (now : ℕ) (c c' : Connection)
    (r : IngestionJob)
    → update_job_body o j s code now c ≡ (ok r, c')
    → JobUpdated o j s code now c.working c'.working r
unfolding update_job_body update_job_rows job_from_row
update_job_body_ok o j s code now c c' r h =
    elim (Option-cases (find_where (job_key o j) c.working.jobs)) [
      | inl e ↦ absurd (ground arith)
      | inr (row, e) ↦
          let result_is : r ≡ set_job_status s code now row = ground arith in
          let moved : c'
              ≡ with_jobs (update_where (job_key o j) (set_job_status s code now) c.working.jobs)
                  c =
            ground arith in
          record {
            previous = row;
            found = e;
            result_is = result_is;
            stored =
                rw (moved, result_is)
                  (find_where-update_hit (job_key o j) (job_key o j) (set_job_status s code now)
                    c.working.jobs row (set_job_status-key o j s code now) e
                    (find_where_sound (job_key o j) c.working.jobs row e));
            written = ap (λ (d : Connection). d.working) moved;
          }
    ]

pub update_ingestion_job_in_ok :
    (t : Bool) (o j : String) (s : IngestionJobStatus) (code : Option String) (now : ℕ)
    (c c' : Connection) (r : IngestionJob)
    → update_ingestion_job_in t o j s code now c ≡ (ok r, c')
    → (d : Connection) × JobUpdated o j s code now c.working d.working r
      × (c' ≡ (if t then commit d else d))
unfolding update_ingestion_job_in
update_ingestion_job_in_ok t o j s code now c c' r h =
    let (_, h1) =
      if_raise-ok (job_is_failed s && is_none code) value_error
        (if not (job_is_failed s) && is_some code
          then raise value_error
          else in_transaction t (update_job_body o j s code now))
        h in
    let (_, h2) =
      if_raise-ok (not (job_is_failed s) && is_some code) value_error
        (in_transaction t (update_job_body o j s code now)) h1 in
    let (d, h3, e) = in_transaction-ok t (update_job_body o j s code now) h2 in
    (d, update_job_body_ok o j s code now c d r h3, e)

update_job_body-KeepsCommitted :
    (o j : String) (s : IngestionJobStatus) (code : Option String) (now : ℕ)
    → KeepsCommitted (update_job_body o j s code now)
unfolding update_job_body update_job_rows job_from_row
update_job_body-KeepsCommitted o j s code now c =
    elim (Option-cases (find_where (job_key o j) c.working.jobs)) [
      | inl e ↦ ground arith
      | inr (row, e) ↦ ground arith
    ]

pub update_ingestion_job_in-KeepsCommitted :
    (o j : String) (s : IngestionJobStatus) (code : Option String) (now : ℕ)
    → KeepsCommitted (update_ingestion_job_in false o j s code now)
unfolding update_ingestion_job_in
update_ingestion_job_in-KeepsCommitted o j s code now c =
    elim (Bool-cases (job_is_failed s && is_none code)) [
      | inl bad ↦ rw bad
      | inr good ↦ elim (Bool-cases (not (job_is_failed s) && is_some code)) [
        | inl bad ↦ rw (good, bad)
        | inr fine ↦
            rw (good, fine)
              (in_transaction-KeepsCommitted (update_job_body o j s code now)
                (update_job_body-KeepsCommitted o j s code now) c)
      ]
    ]
