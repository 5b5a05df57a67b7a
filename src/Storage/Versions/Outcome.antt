-- ===== src/Storage/Versions/Outcome.antt =====
-- What a transition of a version does, on every branch.
use zhiyan_personal_academic.Prelude.{
  ℕ, ◌≡◌, String, true, some, List, arith, find_where, update_where, Option-cases, inl, inr, ap,
}
use zhiyan_personal_academic.Storage.Lifecycle.{
  LifecycleStatus, DocumentVersion, Update, version_is_valid,
}
use zhiyan_personal_academic.Storage.Database.{Database, Connection, ok}
use zhiyan_personal_academic.Storage.Versions.{
  version_key, version_from_row, revision_key, set_lifecycle, may_transition, transition_candidate,
  write_candidate, update_lifecycle, one_active_per_document, with_versions, transition_body,
}

-- What a transition that returns has done to the open transaction.
pub record Transitioned (owner_id document_version_id : String) (expected_revision : ℕ)
    (target : LifecycleStatus) (updates : List Update) (now : ℕ) (before after : Database)
    (result : DocumentVersion) : Type 0 where
  pub current : DocumentVersion
  pub found : find_where (version_key owner_id document_version_id) before.versions ≡ some current
  pub at_revision : current.lifecycle_revision ≡ expected_revision
  pub permitted : may_transition current.lifecycle_status target updates ≡ true
  pub candidate_valid : version_is_valid (transition_candidate current target updates now) ≡ true
  pub result_valid : version_is_valid result ≡ true
  pub result_set :
      (row : DocumentVersion) × (find_where
          (revision_key owner_id document_version_id expected_revision)
          before.versions
        ≡ some row)
      × (result ≡ set_lifecycle (transition_candidate current target updates now) row)
  pub written : after ≡ record before {
    versions =
        update_where
          (revision_key owner_id document_version_id expected_revision)
          (set_lifecycle (transition_candidate current target updates now))
          before.versions;
  }
  pub one_active : one_active_per_document after.versions ≡ true

write_candidate_ok :
    (o v : String) (n : ℕ) (candidate : DocumentVersion) (c c' : Connection) (r : DocumentVersion)
    → write_candidate o v n candidate c ≡ (ok r, c')
    → (version_is_valid candidate ≡ true)
      × (version_is_valid r ≡ true)
      × ((row : DocumentVersion) × (find_where (revision_key o v n) c.working.versions ≡ some row)
          × (r ≡ set_lifecycle candidate row))
      × (c'
          ≡ with_versions
              (update_where (revision_key o v n) (set_lifecycle candidate) c.working.versions)
              c)
      × (one_active_per_document
            (update_where (revision_key o v n) (set_lifecycle candidate) c.working.versions)
          ≡ true)
unfolding write_candidate update_lifecycle version_from_row
write_candidate_ok o v n candidate c c' r h =
    elim (Option-cases (find_where (revision_key o v n) c.working.versions)) [
      | inl e ↦ absurd (ground arith)
      | inr (row, e) ↦
          (ground arith, ground arith, (row, e, ground arith), ground arith, ground arith)
    ]

-- The tests that lie before the write.
transition_tests :
    (o v : String) (n : ℕ) (target : LifecycleStatus) (us : List Update) (now : ℕ)
    (c c' : Connection) (r current : DocumentVersion)
    → find_where (version_key o v) c.working.versions ≡ some current
    → transition_body o v n target us now c ≡ (ok r, c')
    → (current.lifecycle_revision ≡ n)
      × (may_transition current.lifecycle_status target us ≡ true)
      × (write_candidate o v n (transition_candidate current target us now) c ≡ (ok r, c'))
unfolding transition_body version_from_row
transition_tests o v n target us now c c' r current e h = ground arith

pub transition_body_ok :
    (o v : String) (n : ℕ) (target : LifecycleStatus) (us : List Update) (now : ℕ)
    (c c' : Connection) (r : DocumentVersion)
    → transition_body o v n target us now c ≡ (ok r, c')
    → Transitioned o v n target us now c.working c'.working r
unfolding transition_body
transition_body_ok o v n target us now c c' r h =
    elim (Option-cases (find_where (version_key o v) c.working.versions)) [
      | inl e ↦ absurd (ground arith)
      | inr (current, e) ↦
          let t = transition_tests o v n target us now c c' r current e h in
          let w =
            write_candidate_ok o v n (transition_candidate current target us now) c c' r t.2 in
          record {
            current = current;
            found = e;
            at_revision = t.0;
            permitted = t.1;
            candidate_valid = w.0;
            result_valid = w.1;
            result_set = w.2;
            written = ap (λ (d : Connection). d.working) w.3;
            one_active = rw w.3 w.4;
          }
    ]
