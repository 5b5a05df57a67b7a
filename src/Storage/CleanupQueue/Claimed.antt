-- ===== src/Storage/CleanupQueue/Claimed.antt =====
-- `claim_cleanup`: what a claim recovers, whom it gives the lease, and what it commits.
use zhiyan_personal_academic.Prelude.{
  ℕ, ◌+◌, ◌≤◌, ◌≡◌, refl, String, Bool, false, Option, none, some, List, In, eq_iff, eq_refl, subst,
  Option-cases, inl, inr, update_where,
}
use zhiyan_personal_academic.Storage.Records.{CleanupJob}
use zhiyan_personal_academic.Storage.Database.{Connection, Result, ok, err, IsSettled}
use zhiyan_personal_academic.Storage.CleanupQueue.{
  has_id, leased, recover_expired, claim_candidate, claim_cleanup, seconds,
}
use zhiyan_personal_academic.Storage.CleanupQueue.Invariant.{
  IsQueue, claim_candidate-In, recover_expired-IsQueue,
}
use zhiyan_personal_academic.Storage.CleanupQueue.Contract.{
  IsDue, IsRecovered, RowByRow, IsFirstClaim, leased-IsLeased, is_due-IsDue,
  recover_expired-IsRecovered,
}
use zhiyan_personal_academic.Storage.CleanupQueue.Order.{
  IsTextOrder, claim_candidate_first, claim_candidate-none, update_where-Replaces,
}
use zhiyan_personal_academic.Storage.CleanupQueue.Claim.{
  claim_cleanup_lem, claim_rows_of, claim_rows-none, claim_rows-IsQueue,
}

-- A call that commits, changes no table but the queue, and leaves the queue sound.
pub record ChangesQueue (before after : Connection) : Type 0 where
  pub settled : IsSettled after
  pub only_queue : after.committed ≡ record (before.working) { cleanups = after.committed.cleanups }
  pub sound : IsQueue after.committed.cleanups

-- No row may be claimed.
abbrev pub NoneDue : (CleanupJob → Bool) → ℕ → List CleanupJob → Type 0
NoneDue locked now js = (k : CleanupJob) → In k js → IsDue now k → locked k ≡ false → ⊥

-- What a claim gives and commits, where `js` is the queue after the recovery.
abbrev pub ClaimOutcome :
    (String → String → Bool)
    → (CleanupJob → Bool)
    → ℕ
    → String
    → ℕ
    → List CleanupJob
    → Connection
    → Result (Option CleanupJob) × Connection
    → Type 0
ClaimOutcome before locked now token expires_at js c (ok none, c') =
    NoneDue locked now js × (c'.committed.cleanups ≡ js) × ChangesQueue c c'
ClaimOutcome before locked now token expires_at js c (ok (some k), c') =
    IsFirstClaim before locked now token expires_at js c'.committed.cleanups k × ChangesQueue c c'
ClaimOutcome before locked now token expires_at js c (err e, c') = ⊥

module _ (before : String → String → Bool) (o : IsTextOrder before) (locked : CleanupJob → Bool)
    (now : ℕ) (token : String) (expires_at : ℕ) where
  pub leased-IsFirstClaim :
      (js : List CleanupJob) (j : CleanupJob)
      → claim_candidate before locked now js ≡ some j
      → IsFirstClaim before locked now token expires_at js
          (update_where (has_id j.cleanup_id) (leased token expires_at now) js)
          (leased token expires_at now j)
  unfolding leased
  leased-IsFirstClaim js j e =
      let (i, due, free) = claim_candidate-In before locked now js j e in
      record {
        old = j;
        was_due = is_due-IsDue now j due;
        was_free = free;
        was_first = λ k there due' free' earlier.
            claim_candidate_first before o locked now js j k e there due' free' earlier;
        is_leased = leased-IsLeased token expires_at now j;
        replaces =
            update_where-Replaces (has_id j.cleanup_id) (leased token expires_at now) js j i
              (eq_refl j.cleanup_id) (λ k h. (eq_iff _ _).0 h) (λ k. refl);
      }

-- On a sound queue, where the order of keys is strict, a claim with a positive lease never raises. It
-- recovers the leases that have run
-- out: each such row has failed its attempt, every other row is as it was. Of the rows that are then
-- due and not locked by others it leases to the caller one that none precedes by time of the
-- attempt, creation and key, with one attempt more; every other row is as it was. If there is none
-- it gives nothing. It commits this, leaves the queue sound, and changes no other table.
pub claim_cleanup-ClaimOutcome :
    (before : String → String → Bool) (locked : CleanupJob → Bool) (lease_seconds : ℕ)
    (token : String) (now : ℕ) (c : Connection)
    → IsTextOrder before
    → 1 ≤ lease_seconds
    → IsQueue c.working.cleanups
    → (js : List CleanupJob) × RowByRow (IsRecovered now) c.working.cleanups js
      × ClaimOutcome before locked now token
          (now + seconds lease_seconds)
          js
          c
          (claim_cleanup before locked lease_seconds token now c)
claim_cleanup-ClaimOutcome before locked n token now c o pos q =
    let js = recover_expired now c.working.cleanups in
    let expires = now + seconds n in
    let q' = recover_expired-IsQueue now c.working.cleanups q in
    (
      js,
      recover_expired-IsRecovered now c.working.cleanups,
      rw (claim_cleanup_lem before locked n token now c pos q)
          (elim (Option-cases (claim_candidate before locked now js)) [
            | inl e ↦ rw (claim_rows-none before locked now token expires js e) (
              λ k i due free. claim_candidate-none before o locked now js k e i due free,
              refl,
              record { settled = refl; only_queue = refl; sound = q' },
            )
            | inr (j, e) ↦
                let of_j = claim_rows_of before locked now token expires js j e in
                let sound =
                  subst (λ (r : Option CleanupJob × List CleanupJob). IsQueue r.1) of_j
                    (claim_rows-IsQueue before locked now token expires js q') in
                rw of_j (
                  leased-IsFirstClaim before o locked now token expires js j e,
                  record { settled = refl; only_queue = refl; sound = sound },
                )
          ]),
    )
