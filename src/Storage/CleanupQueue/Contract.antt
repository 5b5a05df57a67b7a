-- ===== src/Storage/CleanupQueue/Contract.antt =====
-- What the operations of the cleanup queue promise, field by field: the order of the claims, a
-- lease, the outcomes of an attempt, and the recovery of a lease that has run out.
use zhiyan_personal_academic.Prelude.{
  ℕ, ◌+◌, ◌≤◌, ◌<◌, ◌≡◌, ◌≢◌, refl, String, Bool, true, false, none, some, List, [], ◌∷◌, ◌⊎◌, inl,
  inr, In, arith, update_where, Option-cases, Bool-cases,
}
use zhiyan_personal_academic.Storage.Records.{CleanupJob, CleanupJobStatus}
use zhiyan_personal_academic.Storage.CleanupQueue.{
  failed_attempt, completed, leased, recover_expired, lease_has_expired, is_due, due_before,
}

-- The row may be claimed: it waits for an attempt, whose time has come.
abbrev pub IsDue : ℕ → CleanupJob → Type 0
IsDue now j =
    ((j.status ≡ CleanupJobStatus.pending) ⊎ (j.status ≡ CleanupJobStatus.retry))
    × (j.next_attempt_at ≤ now)

-- The row was attempted under a lease that has run out.
abbrev pub HasExpired : ℕ → CleanupJob → Type 0
HasExpired now j =
    (j.status ≡ CleanupJobStatus.running) × ((t : ℕ) × (j.lease_expires_at ≡ some t) × (t ≤ now))

-- The order of the claims: by the time of the attempt, then by the creation, then by the key.
abbrev pub Precedes : (String → String → Bool) → CleanupJob → CleanupJob → Type 0
Precedes id_before a b =
    (a.next_attempt_at < b.next_attempt_at)
    ⊎ ((a.next_attempt_at ≡ b.next_attempt_at)
        × ((a.created_at < b.created_at)
            ⊎ ((a.created_at ≡ b.created_at) × (id_before a.cleanup_id b.cleanup_id ≡ true))))

-- What no step of an attempt changes.
pub record SameCleanup (old new : CleanupJob) : Type 0 where
  pub same_id : new.cleanup_id ≡ old.cleanup_id
  pub same_backend : new.backend ≡ old.backend
  pub same_owner : new.owner_id ≡ old.owner_id
  pub same_document : new.document_id ≡ old.document_id
  pub same_version : new.document_version_id ≡ old.document_version_id
  pub same_limit : new.max_attempts ≡ old.max_attempts
  pub same_creation : new.created_at ≡ old.created_at

-- `new` is `old` under a fresh lease: one attempt more, RUNNING under the token.
pub record IsLeased (token : String) (expires_at now : ℕ) (old new : CleanupJob) : Type 0 where
  pub same : SameCleanup old new
  pub is_running : new.status ≡ CleanupJobStatus.running
  pub one_more : new.attempt_count ≡ old.attempt_count + 1
  pub has_token : new.lease_token ≡ some token
  pub until : new.lease_expires_at ≡ some expires_at
  pub no_failure : new.failure_code ≡ none
  pub not_completed : new.completed_at ≡ none
  pub same_time : new.next_attempt_at ≡ old.next_attempt_at
  pub stamped : new.updated_at ≡ now

-- `new` is `old` after its attempt succeeded.
pub record HasSucceeded (now : ℕ) (old new : CleanupJob) : Type 0 where
  pub same : SameCleanup old new
  pub is_succeeded : new.status ≡ CleanupJobStatus.succeeded
  pub completed_now : new.completed_at ≡ some now
  pub no_failure : new.failure_code ≡ none
  pub no_token : new.lease_token ≡ none
  pub no_expiry : new.lease_expires_at ≡ none
  pub same_count : new.attempt_count ≡ old.attempt_count
  pub stamped : new.updated_at ≡ now

-- `new` is `old` after its attempt failed: it is to be retried, or was attempted for the last time.
pub record HasFailed (code : String) (retry_at now : ℕ) (old new : CleanupJob) : Type 0 where
  pub same : SameCleanup old new
  pub may_retry :
      old.attempt_count < old.max_attempts
      → (new.status ≡ CleanupJobStatus.retry) × (new.completed_at ≡ none)
  pub was_last :
      old.max_attempts ≤ old.attempt_count
      → (new.status ≡ CleanupJobStatus.failed) × (new.completed_at ≡ some now)
  pub has_code : new.failure_code ≡ some code
  pub next_time : new.next_attempt_at ≡ retry_at
  pub no_token : new.lease_token ≡ none
  pub no_expiry : new.lease_expires_at ≡ none
  pub same_count : new.attempt_count ≡ old.attempt_count
  pub stamped : new.updated_at ≡ now

-- `new` is `old` after the recovery: a lease that has run out is a failed attempt.
pub record IsRecovered (now : ℕ) (old new : CleanupJob) : Type 0 where
  pub expired : HasExpired now old → HasFailed "CLEANUP_LEASE_EXPIRED" now now old new
  pub others : (HasExpired now old → ⊥) → new ≡ old

-- The tables have the same rows, in places where the second has what `R` makes of the first.
abbrev pub RowByRow :
    (CleanupJob → CleanupJob → Type 0) → List CleanupJob → List CleanupJob → Type 0
RowByRow R [] [] = Unit
RowByRow R [] (y ∷ ys) = ⊥
RowByRow R (x ∷ xs) [] = ⊥
RowByRow R (x ∷ xs) (y ∷ ys) = R x y × RowByRow R xs ys

-- One row of the table is replaced, and every other one is as it was.
pub record Replaces (js js' : List CleanupJob) (old new : CleanupJob) : Type 0 where
  pub was_there : In old js
  pub stored : In new js'
  pub others_kept :
      (k : CleanupJob) → k.cleanup_id ≢ old.cleanup_id → (In k js → In k js') × (In k js' → In k js)

-- `new` in `js'` is the first row of `js` that was due and free, under a fresh lease.
pub record IsFirstClaim (before : String → String → Bool) (locked : CleanupJob → Bool) (now : ℕ)
    (token : String) (expires_at : ℕ) (js js' : List CleanupJob) (new : CleanupJob) : Type 0 where
  pub old : CleanupJob
  pub was_due : IsDue now old
  pub was_free : locked old ≡ false
  pub was_first :
      (k : CleanupJob) → In k js → IsDue now k → locked k ≡ false → Precedes before k old → ⊥
  pub is_leased : IsLeased token expires_at now old new
  pub replaces : Replaces js js' old new

pub leased-IsLeased :
    (token : String) (expires_at now : ℕ) (j : CleanupJob)
    → IsLeased token expires_at now j (leased token expires_at now j)
unfolding leased
leased-IsLeased token expires_at now j = record {
  same = record {
    same_id = refl;
    same_backend = refl;
    same_owner = refl;
    same_document = refl;
    same_version = refl;
    same_limit = refl;
    same_creation = refl;
  };
  is_running = refl;
  one_more = refl;
  has_token = refl;
  until = refl;
  no_failure = refl;
  not_completed = refl;
  same_time = refl;
  stamped = refl;
}

pub completed-HasSucceeded : (now : ℕ) (j : CleanupJob) → HasSucceeded now j (completed now j)
unfolding completed
completed-HasSucceeded now j = record {
  same = record {
    same_id = refl;
    same_backend = refl;
    same_owner = refl;
    same_document = refl;
    same_version = refl;
    same_limit = refl;
    same_creation = refl;
  };
  is_succeeded = refl;
  completed_now = refl;
  no_failure = refl;
  no_token = refl;
  no_expiry = refl;
  same_count = refl;
  stamped = refl;
}

pub failed_attempt-HasFailed :
    (code : String) (retry_at now : ℕ) (j : CleanupJob)
    → HasFailed code retry_at now j (failed_attempt code retry_at now j)
unfolding failed_attempt
failed_attempt-HasFailed code retry_at now j = record {
  same = record {
    same_id = refl;
    same_backend = refl;
    same_owner = refl;
    same_document = refl;
    same_version = refl;
    same_limit = refl;
    same_creation = refl;
  };
  may_retry = λ left. (ground arith, ground arith);
  was_last = λ spent. (ground arith, ground arith);
  has_code = refl;
  next_time = refl;
  no_token = refl;
  no_expiry = refl;
  same_count = refl;
  stamped = refl;
}

expired_row : (now : ℕ) (j : CleanupJob) → lease_has_expired now j ≡ true → HasExpired now j
unfolding lease_has_expired
expired_row now j h = elim (Option-cases j.lease_expires_at) [
  | inl e ↦ absurd (ground arith)
  | inr (t, e) ↦ (ground arith, (t, e, ground arith))
]

current_row : (now : ℕ) (j : CleanupJob) → lease_has_expired now j ≡ false → HasExpired now j → ⊥
unfolding lease_has_expired
current_row now j h (running, (t, e, late)) = ground arith

-- The recovery takes the table row by row.
pub recover_expired-IsRecovered :
    (now : ℕ) (js : List CleanupJob) → RowByRow (IsRecovered now) js (recover_expired now js)
unfolding recover_expired update_where
recover_expired-IsRecovered now [] = tt
recover_expired-IsRecovered now (j ∷ js) = elim (Bool-cases (lease_has_expired now j)) [
  | inl hit ↦ rw hit (
    record {
      expired = λ h. failed_attempt-HasFailed "CLEANUP_LEASE_EXPIRED" now now j;
      others = λ none'. absurd (none' (expired_row now j hit));
    },
    recover_expired-IsRecovered now js,
  )
  | inr miss ↦ rw miss (
    record { expired = λ h. absurd (current_row now j miss h); others = λ none'. refl },
    recover_expired-IsRecovered now js,
  )
]

pub is_due-IsDue : (now : ℕ) (j : CleanupJob) → is_due now j ≡ true → IsDue now j
unfolding is_due
is_due-IsDue now j h = ground arith

pub IsDue-is_due : (now : ℕ) (j : CleanupJob) → IsDue now j → is_due now j ≡ true
unfolding is_due
IsDue-is_due now j (inl e, h) = ground arith
IsDue-is_due now j (inr e, h) = ground arith

pub Precedes-due_before :
    (before : String → String → Bool) (a b : CleanupJob)
    → Precedes before a b
    → due_before before a b ≡ true
unfolding due_before
Precedes-due_before before a b h = ground arith
