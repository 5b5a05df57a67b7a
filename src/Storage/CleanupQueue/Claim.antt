-- ===== src/Storage/CleanupQueue/Claim.antt =====
-- `claim_cleanup`: it never raises on a sound queue, keeps it sound, and gives out exclusive leases.
use zhiyan_personal_academic.Prelude.{
  ℕ, ◌+◌, ◌≤◌, ◌<◌, ◌≡◌, ◌≢◌, refl, String, Bool, true, false, Option, none, some, List, [], ◌∷◌,
  arith, Option-cases, inl, inr, find_where, update_where, All, In, All-In, Unique-In,
  update_where-All', All-both, Unique-update_where, sym, ltb, ap, update_where-All, ◌∙◌, eq_iff,
  find_where_unique, eq_refl, In-update_where, not_both,
}
use zhiyan_personal_academic.Storage.Records.{
  CleanupJob, cleanup_is_valid, cleanup_is_waiting, cleanup_is_running,
}
use zhiyan_personal_academic.Storage.Database.{Connection, ok, commit}
use zhiyan_personal_academic.Storage.CleanupQueue.{
  has_id, failed_attempt, recover_expired, is_due, leased, claim_candidate, claim_rows, claim_body,
  claim_cleanup, claimed_from_row, cleanup_from_row, seconds, with_cleanups, lease_has_expired,
  lease_key,
}
use zhiyan_personal_academic.Storage.CleanupQueue.Invariant.{
  IsSound, IsQueue, same_id, claim_candidate-In, leased-IsSound, same_id_comm,
  recover_expired-IsQueue,
}

claimed_from_row_ok :
    (row : Option CleanupJob) (c : Connection)
    → ((k : CleanupJob) → row ≡ some k → cleanup_is_valid k ≡ true)
    → claimed_from_row row c ≡ (ok row, c)
unfolding claimed_from_row cleanup_from_row
claimed_from_row_ok none c h = refl
claimed_from_row_ok (some k) c h = rw (h k refl)

module _ (before : String → String → Bool) (locked : CleanupJob → Bool) (now : ℕ) (token : String)
    (expires_at : ℕ) where
  -- The table after the lease of one row, whose key is unique.
  abbrev after_lease : CleanupJob → List CleanupJob → List CleanupJob
  after_lease j js = update_where (has_id j.cleanup_id) (leased token expires_at now) js

  -- The only row that the claim's UPDATE touches is the row that it locked.
  lone_row :
      (js : List CleanupJob) (j : CleanupJob)
      → IsQueue js
      → In j js
      → All (λ k. has_id j.cleanup_id k ≡ true → k ≡ j) js
  lone_row js j q i = Unique-In same_id j js same_id_comm q.unique i

  after_lease-IsQueue :
      (js : List CleanupJob) (j : CleanupJob)
      → IsQueue js
      → In j js
      → cleanup_is_waiting j.status ≡ true
      → IsQueue (after_lease j js)
  unfolding leased
  after_lease-IsQueue js j q i waiting = record {
    sound =
        update_where-All' (λ k. IsSound k × (has_id j.cleanup_id k ≡ true → k ≡ j)) IsSound
          (has_id j.cleanup_id) (leased token expires_at now) js
          (λ k h s. leased-IsSound token expires_at now k (rw (s.1 h) waiting) s.0) (λ k h s. s.0)
          (All-both IsSound (λ k. has_id j.cleanup_id k ≡ true → k ≡ j) js q.sound
            (lone_row js j q i));
    unique =
        Unique-update_where same_id (has_id j.cleanup_id) (leased token expires_at now) js
          (λ x y. refl) (λ x y. refl) q.unique;
  }

  due_waiting : (j : CleanupJob) → is_due now j ≡ true → cleanup_is_waiting j.status ≡ true
  unfolding is_due
  due_waiting j h = ground arith

  -- A claim keeps the queue sound: every row passes the validator, a row that may be claimed again
  -- has an attempt left, and keys stay unique.
  pub claim_rows-IsQueue :
      (js : List CleanupJob)
      → IsQueue js
      → IsQueue (claim_rows before locked now token expires_at js).1
  unfolding claim_rows
  claim_rows-IsQueue js q = elim (Option-cases (claim_candidate before locked now js)) [
    | inl e ↦ rw (e, claim_rows) q
    | inr (j, e) ↦
        let (i, due, _) = claim_candidate-In before locked now js j e in
        rw (e, claim_rows) (after_lease-IsQueue js j q i (due_waiting j due))
  ]

  -- What a claim hands out: a row that was due and not locked, leased to the caller, in the table.
  pub record Claimed (js js' : List CleanupJob) (k : CleanupJob) : Type 0 where
    pub previous : CleanupJob
    pub was_there : In previous js
    pub was_due : is_due now previous ≡ true
    pub was_free : locked previous ≡ false
    pub is_leased : k ≡ leased token expires_at now previous
    pub table : js' ≡ update_where (has_id previous.cleanup_id) (leased token expires_at now) js

  pub claim_rows-Claimed :
      (js : List CleanupJob) (k : CleanupJob)
      → (claim_rows before locked now token expires_at js).0 ≡ some k
      → Claimed js (claim_rows before locked now token expires_at js).1 k
  unfolding claim_rows
  claim_rows-Claimed js k h = elim (Option-cases (claim_candidate before locked now js)) [
    | inl e ↦ absurd (ground arith)
    | inr (j, e) ↦
        let (i, due, free) = claim_candidate-In before locked now js j e in
        record {
          previous = j;
          was_there = i;
          was_due = due;
          was_free = free;
          is_leased = ground arith;
          table = rw (e, claim_rows) refl;
        }
  ]

  -- The claimed row passes the validator, so reading it back does not raise.
  claimed_valid :
      (js : List CleanupJob) (k : CleanupJob)
      → IsQueue js
      → (claim_rows before locked now token expires_at js).0 ≡ some k
      → cleanup_is_valid k ≡ true
  claimed_valid js k q h =
      let w = claim_rows-Claimed js k h in
      let s = All-In IsSound w.previous js q.sound w.was_there in
      rw w.is_leased
        (leased-IsSound token expires_at now w.previous (due_waiting w.previous w.was_due) s).valid

-- On a sound queue a claim is its work on the table, committed.
pub claim_cleanup_lem :
    (before : String → String → Bool) (locked : CleanupJob → Bool) (lease_seconds : ℕ)
    (token : String) (now : ℕ) (c : Connection)
    → 1 ≤ lease_seconds
    → IsQueue c.working.cleanups
    → let claimed =
        claim_rows before locked now token
          (now + seconds lease_seconds)
          (recover_expired now c.working.cleanups) in
      claim_cleanup before locked lease_seconds token now c
      ≡ (ok claimed.0, commit (with_cleanups claimed.1 c))
unfolding claim_cleanup claim_body
claim_cleanup_lem before locked n token now c pos q =
    let big : ltb n 1 ≡ false = ground arith in
    let js = recover_expired now c.working.cleanups in
    let claimed = claim_rows before locked now token (now + seconds n) js in
    rw big (
      claimed_from_row_ok claimed.0 (commit (with_cleanups claimed.1 c)) (λ k h.
        claimed_valid before locked now token (now + seconds n) js k
          (recover_expired-IsQueue now c.working.cleanups q) h))

All-trivial : (js : List CleanupJob) → All (λ j. Unit {0}) js
All-trivial [] = tt
All-trivial (j ∷ js) = (tt, All-trivial js)

early_lease :
    (expires_at now : ℕ) (x : CleanupJob)
    → now < expires_at
    → lease_has_expired now x ≡ true
    → x.lease_expires_at ≡ some expires_at
    → ⊥
unfolding lease_has_expired
early_lease expires_at now x early hit e = ground arith

running_not_due :
    (now : ℕ) (x : CleanupJob) → cleanup_is_running x.status ≡ true → is_due now x ≡ true → ⊥
unfolding is_due
running_not_due now x running due = ground arith

-- A row of that id is RUNNING under a lease to that time.
abbrev HoldsLease : String → ℕ → CleanupJob → Type 0
HoldsLease id expires_at x =
    has_id id x ≡ true
    → (cleanup_is_running x.status ≡ true) × (x.lease_expires_at ≡ some expires_at)

lease_is_held :
    (before : String → String → Bool) (locked : CleanupJob → Bool) (now : ℕ) (token : String)
    (expires_at : ℕ) (js : List CleanupJob) (j : CleanupJob)
    → (claim_rows before locked now token expires_at js).0 ≡ some j
    → All (HoldsLease j.cleanup_id expires_at) (claim_rows before locked now token expires_at js).1
unfolding leased
lease_is_held before locked now token expires_at js j h =
    let w = claim_rows-Claimed before locked now token expires_at js j h in
    let id = w.previous.cleanup_id in
    let held =
      update_where-All' (λ x. Unit {0}) (HoldsLease id expires_at) (has_id id)
        (leased token expires_at now) js (λ x hit u same. (refl, refl))
        (λ x miss u same. absurd (ground arith)) (All-trivial js) in
    rw (w.is_leased, w.table) held

recover_keeps_lease :
    (id : String) (expires_at now : ℕ) (js : List CleanupJob)
    → now < expires_at
    → All (HoldsLease id expires_at) js
    → All (HoldsLease id expires_at) (recover_expired now js)
unfolding recover_expired lease_has_expired failed_attempt
recover_keeps_lease id expires_at now js early =
    update_where-All (HoldsLease id expires_at) (lease_has_expired now)
      (failed_attempt "CLEANUP_LEASE_EXPIRED" now now) js
      (λ x hit held same. absurd (early_lease expires_at now x early hit (held same).1))

-- Two claims in a row are given different cleanups: while the lease of the first has not run out, the
-- claim that follows it on the table that it left, recovery included, is not given the same cleanup,
-- whatever rows are locked elsewhere.
pub claim_rows_exclusive :
    (before before' : String → String → Bool) (locked locked' : CleanupJob → Bool) (now now' : ℕ)
    (token token' : String) (expires_at expires_at' : ℕ) (js : List CleanupJob) (j k : CleanupJob)
    → (claim_rows before locked now token expires_at js).0 ≡ some j
    → now' < expires_at
    → (claim_rows before' locked' now' token' expires_at'
        (recover_expired now' (claim_rows before locked now token expires_at js).1)).0
      ≡ some k
    → k.cleanup_id ≢ j.cleanup_id
unfolding leased is_due
claim_rows_exclusive before before' locked locked' now now' token token' expires_at expires_at' js j
      k h early h' same =
    let js' = (claim_rows before locked now token expires_at js).1 in
    let w =
      claim_rows-Claimed before' locked' now' token' expires_at' (recover_expired now' js') k h' in
    let held =
      recover_keeps_lease j.cleanup_id expires_at now' js' early
        (lease_is_held before locked now token expires_at js j h) in
    let mine =
      All-In (HoldsLease j.cleanup_id expires_at) w.previous (recover_expired now' js') held
        w.was_there in
    let its : w.previous.cleanup_id ≡ j.cleanup_id =
      sym (ap (λ (x : CleanupJob). x.cleanup_id) w.is_leased) ∙ same in
    running_not_due now' w.previous (mine ((eq_iff _ _).1 its)).0 w.was_due

lease_key-leased :
    (token : String) (expires_at now : ℕ) (j : CleanupJob)
    → lease_key j.cleanup_id token (leased token expires_at now j) ≡ true
unfolding lease_key leased
lease_key-leased token expires_at now j = rw (eq_refl j.cleanup_id, eq_refl token)

lease_key-has_id :
    (id token : String) (j : CleanupJob) → lease_key id token j ≡ true → has_id id j ≡ true
unfolding lease_key
lease_key-has_id id token j h = ground arith

-- After a claim the lease of the claimed row finds that row, as it was leased.
pub leased_found :
    (before : String → String → Bool) (locked : CleanupJob → Bool) (now : ℕ) (token : String)
    (expires_at : ℕ) (js : List CleanupJob) (j : CleanupJob)
    → IsQueue js
    → claim_candidate before locked now js ≡ some j
    → find_where
        (lease_key j.cleanup_id token)
        (update_where (has_id j.cleanup_id) (leased token expires_at now) js)
      ≡ some (leased token expires_at now j)
leased_found before locked now token expires_at js j q e =
    let (i, _, _) = claim_candidate-In before locked now js j e in
    let id = j.cleanup_id in
    let set = leased token expires_at now in
    let alone = lone_row before locked now token expires_at js j q i in
    find_where_unique (lease_key id token) (set j) (update_where (has_id id) set js)
      (In-update_where (has_id id) set j js i (eq_refl id))
      (lease_key-leased token expires_at now j)
      (update_where-All' (λ x. has_id id x ≡ true → x ≡ j)
        (λ y. lease_key id token y ≡ true → y ≡ set j) (has_id id) set js
        (λ x hit same h. ap set (same hit))
        (λ x miss same h. absurd (not_both (has_id id x) (lease_key-has_id id token x h) miss))
        alone)

-- What the table holds after a claim of one row.
pub claim_rows_of :
    (before : String → String → Bool) (locked : CleanupJob → Bool) (now : ℕ) (token : String)
    (expires_at : ℕ) (js : List CleanupJob) (j : CleanupJob)
    → claim_candidate before locked now js ≡ some j
    → claim_rows before locked now token expires_at js ≡ (
      some (leased token expires_at now j),
      update_where (has_id j.cleanup_id) (leased token expires_at now) js,
    )
unfolding claim_rows
claim_rows_of before locked now token expires_at js j e = rw (e, claim_rows)

pub claim_rows-none :
    (before : String → String → Bool) (locked : CleanupJob → Bool) (now : ℕ) (token : String)
    (expires_at : ℕ) (js : List CleanupJob)
    → claim_candidate before locked now js ≡ none
    → claim_rows before locked now token expires_at js ≡ (none, js)
unfolding claim_rows
claim_rows-none before locked now token expires_at js e = rw (e, claim_rows)
