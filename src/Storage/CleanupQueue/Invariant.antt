-- ===== src/Storage/CleanupQueue/Invariant.antt =====
-- What holds of the cleanup queue between two calls, and that every call keeps it.
use zhiyan_personal_academic.Prelude.{
  ℕ, ◌<◌, ◌≡◌, refl, String, Bool, true, false, some, List, [], ◌∷◌, arith, Bool-cases,
  Option-cases, inl, inr, update_where, All, In, Unique, select_where-In, =ᵗ_comm, update_where-All,
  Unique-update_where, ◌&&◌, not,
}
use zhiyan_personal_academic.Storage.Records.{
  CleanupJob, cleanup_is_valid, cleanup_is_waiting, cleanup_is_running,
  cleanup_state_is_replay_safe,
}
use zhiyan_personal_academic.Storage.CleanupQueue.{
  has_id, lease_has_expired, failed_attempt, recover_expired, is_due, due_before, first_due, leased,
  claim_candidate, completed,
}

-- A row passes the validator, and a row that may be claimed has an attempt left.
pub record IsSound (j : CleanupJob) : Type 0 where
  pub valid : cleanup_is_valid j ≡ true
  pub attempt_left : cleanup_is_waiting j.status ≡ true → j.attempt_count < j.max_attempts

pub failed_attempt-IsSound :
    (code : String) (retry_at now : ℕ) (j : CleanupJob)
    → cleanup_is_running j.status ≡ true
    → IsSound j
    → IsSound (failed_attempt code retry_at now j)
unfolding failed_attempt cleanup_is_valid cleanup_state_is_replay_safe
failed_attempt-IsSound code retry_at now j running s = ground arith

pub leased-IsSound :
    (token : String) (expires_at now : ℕ) (j : CleanupJob)
    → cleanup_is_waiting j.status ≡ true
    → IsSound j
    → IsSound (leased token expires_at now j)
unfolding leased cleanup_is_valid cleanup_state_is_replay_safe
leased-IsSound token expires_at now j waiting s = ground arith

pub completed-IsSound :
    (now : ℕ) (j : CleanupJob)
    → cleanup_is_running j.status ≡ true
    → IsSound j
    → IsSound (completed now j)
unfolding completed cleanup_is_valid cleanup_state_is_replay_safe
completed-IsSound now j running s = ground arith

-- The primary key.
abbrev pub same_id : CleanupJob → CleanupJob → Bool
same_id a b = has_id a.cleanup_id b

pub same_id_comm : (a b : CleanupJob) → same_id a b ≡ same_id b a
same_id_comm a b = =ᵗ_comm b.cleanup_id a.cleanup_id

-- The queue: sound rows under a unique primary key.
pub record IsQueue (js : List CleanupJob) : Type 0 where
  pub sound : All IsSound js
  pub unique : Unique same_id js

-- An update that keeps the key and takes the sound rows that it selects to sound rows.
pub update_where-IsQueue :
    (p : CleanupJob → Bool) (f : CleanupJob → CleanupJob) (js : List CleanupJob)
    → ((j : CleanupJob) → (f j).cleanup_id ≡ j.cleanup_id)
    → ((j : CleanupJob) → p j ≡ true → IsSound j → IsSound (f j))
    → IsQueue js
    → IsQueue (update_where p f js)
update_where-IsQueue p f js same keep q = record {
  sound = update_where-All IsSound p f js keep q.sound;
  unique = Unique-update_where same_id p f js (λ x y. rw (same x)) (λ x y. rw (same y)) q.unique;
}

expired_running :
    (now : ℕ) (j : CleanupJob) → lease_has_expired now j ≡ true → cleanup_is_running j.status ≡ true
unfolding lease_has_expired
expired_running now j h = ground arith

pub recover_expired-IsQueue :
    (now : ℕ) (js : List CleanupJob) → IsQueue js → IsQueue (recover_expired now js)
unfolding recover_expired failed_attempt
recover_expired-IsQueue now js =
    update_where-IsQueue (lease_has_expired now) (failed_attempt "CLEANUP_LEASE_EXPIRED" now now) js
      (λ j. refl)
      (λ j h s.
        failed_attempt-IsSound "CLEANUP_LEASE_EXPIRED" now now j (expired_running now j h) s)

pub first_due-In :
    (before : String → String → Bool) (js : List CleanupJob) (j : CleanupJob)
    → first_due before js ≡ some j
    → In j js
unfolding first_due
first_due-In before [] j h = absurd (ground arith)
first_due-In before (k ∷ ks) j h = elim (Option-cases (first_due before ks)) [
  | inl e ↦ inl (ground arith)
  | inr (m, e) ↦ elim (Bool-cases (due_before before m k)) [
    | inl b ↦ inr (first_due-In before ks j (ground arith))
    | inr b ↦ inl (ground arith)
  ]
]

-- The row that a claim locks is a due row of the table.
pub claim_candidate-In :
    (before : String → String → Bool) (locked : CleanupJob → Bool) (now : ℕ) (js : List CleanupJob)
    (j : CleanupJob)
    → claim_candidate before locked now js ≡ some j
    → In j js × (is_due now j ≡ true) × (locked j ≡ false)
unfolding claim_candidate
claim_candidate-In before locked now js j h =
    let (i, due) =
      select_where-In (λ k. is_due now k && not (locked k)) j js (first_due-In before _ j h) in
    (i, ground arith, ground arith)
