-- ===== src/Ingestion/Worker/Batches.antt =====
-- A batch of rounds of the worker, and the delay before a retry.
use zhiyan_personal_academic.Prelude.{
  [], ◌∷◌, refl, ◌≡◌, ℕ, ◌≤◌, length, All, arith, ◌^◌, ◌*◌, ◌-◌, zero, Bool-cases, inl, inr,
}
use zhiyan_personal_academic.Ingestion.Worker.{
  idle, executed, raised, finished, stopped, invalid_batch, continue_batch, Batch, with_result,
  WorkerConfig, Execution, cleanup_is_running, Cleaners, Readings, System, List, finished, String,
  Option, false, Bool, CleanupJob, none, Outcome, run_batch, run_rounds, Round, config_is_valid,
  true, stopped, some, executed, raised, run_once, retry_delay, min, suc, ltb,
}
use zhiyan_personal_academic.Ingestion.Worker.Laws.{
  RoundResult, HasOutcome, Executes, RestsIdle, run_once-RoundResult,
}
use zhiyan_personal_academic.Storage.CleanupQueue.Contract.{IsRecovered, RowByRow}
use zhiyan_personal_academic.Storage.CleanupQueue.Order.{IsTextOrder}
use zhiyan_personal_academic.Storage.Records.{CleanupJobStatus}
use zhiyan_personal_academic.Storage.Database.{IsSettled}
use zhiyan_personal_academic.Storage.CleanupQueue.Invariant.{IsQueue}

power_positive : (k : ℕ) → 1 ≤ 2 ^ k
power_positive zero = omega arith
power_positive (suc k) = let less = power_positive k in omega arith

scaled_up : (a p : ℕ) → 1 ≤ p → a ≤ a * p
scaled_up a p h = grind arith

between : (a x m : ℕ) → a ≤ x → a ≤ m → (a ≤ min x m) × (min x m ≤ m)
between a x m h k = (ground arith, ground arith)

-- With a valid configuration the delay before a retry is at least the base delay and at most the
-- maximum, however often the cleanup was attempted.
pub retry_delay_bounds :
    (config : WorkerConfig) (job : CleanupJob)
    → config_is_valid config ≡ true
    → (config.base_retry_seconds ≤ retry_delay config job)
      × (retry_delay config job ≤ config.max_retry_seconds)
unfolding retry_delay config_is_valid
retry_delay_bounds config job valid =
    between config.base_retry_seconds (config.base_retry_seconds * 2 ^ (job.attempt_count - 1))
      config.max_retry_seconds
      (scaled_up config.base_retry_seconds (2 ^ (job.attempt_count - 1))
        (power_positive (job.attempt_count - 1)))
      (ground arith)

-- An executed job is settled: its outcome is on record, and no lease is held on it.
abbrev pub IsReported : Execution → Type 0
IsReported e = (cleanup_is_running e.job.status ≡ false) × (e.job.lease_token ≡ none)

module _ {W : Type 0} (config : WorkerConfig) (cleaners : Cleaners W)
    (before : String → String → Bool) where
  -- A round from `s` to `t` that executed `e`, and one that found nothing to do.
  abbrev pub RoundExecutes : Round → System W → Execution → System W → Type 0
  RoundExecutes r s e t =
      (js : List CleanupJob) × RowByRow (IsRecovered r.now.claim_now) s.connection.working.cleanups
        js
      × Executes config cleaners before r.now r.locked js s e t

  abbrev pub RoundRests : Round → System W → System W → Type 0
  RoundRests r s t =
      (js : List CleanupJob) × RowByRow (IsRecovered r.now.claim_now) s.connection.working.cleanups
        js
      × RestsIdle r.now r.locked js s t

  -- The rounds, one after the other, that give these results: each starts where the one before it
  -- ended, and the first that finds nothing to do is the last.
  abbrev pub IsRun : List Round → System W → List Execution → System W → Type 0
  IsRun [] s es s' = (es ≡ []) × (s' ≡ s)
  IsRun (r ∷ rs) s [] s' = RoundRests r s s'
  IsRun (r ∷ rs) s (e ∷ es) s' = (t : System W) × RoundExecutes r s e t × IsRun rs t es s'

  -- The batch returned what its rounds executed, at most one result for each, and left a settled and
  -- sound queue.
  abbrev pub IsFinished : List Round → System W → Batch × System W → Type 0
  IsFinished rounds s (finished es, s') =
      (length es ≤ length rounds)
      × All IsReported es
      × IsRun rounds s es s'
      × IsSettled s'.connection
      × IsQueue s'.connection.committed.cleanups
  IsFinished rounds s (stopped error, s') = ⊥
  IsFinished rounds s (invalid_batch, s') = ⊥

not_running_retry :
    (j : CleanupJob) → j.status ≡ CleanupJobStatus.retry → cleanup_is_running j.status ≡ false
not_running_retry j e = ground arith

not_running_failed :
    (j : CleanupJob) → j.status ≡ CleanupJobStatus.failed → cleanup_is_running j.status ≡ false
not_running_failed j e = ground arith

HasOutcome-IsReported :
    (config : WorkerConfig) (now : Readings) (existed : Option Bool) (old new : CleanupJob)
    → HasOutcome config now existed old new
    → (cleanup_is_running new.status ≡ false) × (new.lease_token ≡ none)
HasOutcome-IsReported config now (some existed) old new h =
    let e = h.is_succeeded in (ground arith, h.no_token)
HasOutcome-IsReported config now none old new h =
    elim (Bool-cases (ltb old.attempt_count old.max_attempts)) [
      | inl left ↦ (not_running_retry new (h.may_retry (ground arith)).0, h.no_token)
      | inr spent ↦ (not_running_failed new (h.was_last (ground arith)).0, h.no_token)
    ]

module _ {W : Type 0} (config : WorkerConfig) (cleaners : Cleaners W)
    (before : String → String → Bool) where
  with_result-IsFinished :
      (r : Round) (rs : List Round) (s t : System W) (e : Execution) (x : Batch × System W)
      → RoundExecutes config cleaners before r s e t
      → IsFinished config cleaners before rs t x
      → IsFinished config cleaners before (r ∷ rs) s (with_result e x)
  unfolding with_result
  with_result-IsFinished r rs s t e (finished es, s') (js, rec, own)
        (few, others, run, settled, q) =
      (
        omega arith,
        (HasOutcome-IsReported config r.now e.existed own.claimed e.job own.has_outcome, others),
        (t, (js, rec, own), run),
        settled,
        q,
      )
  with_result-IsFinished r rs s t e (stopped error, s') own h = h
  with_result-IsFinished r rs s t e (invalid_batch, s') own h = h

  continue_batch-IsFinished :
      (r : Round) (rs : List Round) (s : System W) (js : List CleanupJob)
      (rest : System W → Batch × System W) (x : Outcome × System W)
      → RowByRow (IsRecovered r.now.claim_now) s.connection.working.cleanups js
      → RoundResult config cleaners before r.now r.locked js s x
      → ((t : System W)
          → IsSettled t.connection
          → IsQueue t.connection.committed.cleanups
          → IsFinished config cleaners before rs t (rest t))
      → IsFinished config cleaners before (r ∷ rs) s (continue_batch rest x)
  unfolding continue_batch
  continue_batch-IsFinished r rs s js rest (idle, t) rec h next =
      (omega arith, tt, (js, rec, h), h.settled, rw h.only_recovered h.sound)
  continue_batch-IsFinished r rs s js rest (raised error, t) rec h next = absurd h
  continue_batch-IsFinished r rs s js rest (executed e, t) rec h next =
      with_result-IsFinished r rs s t e (rest t) (js, rec, h) (next t h.settled h.sound)

  run_rounds-IsFinished :
      (rounds : List Round) (s : System W)
      → IsTextOrder before
      → config_is_valid config ≡ true
      → IsSettled s.connection
      → IsQueue s.connection.committed.cleanups
      → IsFinished config cleaners before rounds s (run_rounds config cleaners before rounds s)
  unfolding run_rounds
  run_rounds-IsFinished [] s o valid settled q = (omega arith, tt, (refl, refl), settled, q)
  run_rounds-IsFinished (r ∷ rs) s o valid settled q =
      let (js, rec, h) =
        run_once-RoundResult config cleaners before r.now r.locked s o valid settled
          (rw settled q) in
      continue_batch-IsFinished r rs s js (run_rounds config cleaners before rs)
        (run_once config cleaners before r.locked r.now s) rec h
        (λ t settled' q'. run_rounds-IsFinished rs t o valid settled' q')

  -- A batch of at least one round, with a valid configuration, a strict order of keys and on a sound
  -- and settled queue, never raises. It gives at most one result for each round, and its results are those of its
  -- rounds, run one after the other until one finds nothing to do: each round leased the first
  -- cleanup that was due and free, and replaced its row in the committed queue by its outcome,
  -- without the lease. The queue that the batch leaves is sound and settled.
  pub run_batch-IsFinished :
      (r : Round) (rs : List Round) (s : System W)
      → IsTextOrder before
      → config_is_valid config ≡ true
      → IsSettled s.connection
      → IsQueue s.connection.committed.cleanups
      → IsFinished config cleaners before (r ∷ rs) s (run_batch config cleaners before (r ∷ rs) s)
  unfolding run_batch
  run_batch-IsFinished r rs s = run_rounds-IsFinished (r ∷ rs) s
