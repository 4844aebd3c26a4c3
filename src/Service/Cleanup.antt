-- ===== src/Service/Cleanup.antt =====
-- internal/document/cleanup_worker.go. A duration is a number of nanoseconds, an `int64`; the
-- clock, the context's error, the queue and the storage act on a world `W`.
pub mod Backoff
pub mod Queue
pub mod Batch
use test.Common.{
  ℕ, zero, suc, ◌+◌, ◌*◌, ◌-◌, ◌/◌, ◌%◌, Bool, true, false, ◌||◌, Option, none, some, List, [], ◌∷◌,
  ltb, leb, eqb, if◌then◌else◌, length, is_some,
}
use mathlib.Core.Option
use test.Blob.{Storage}
use test.Common.Int.{ℤ, pos, is_nonpositive, to_ℕ}
use test.Errors.{
  Error, Result, ok, err, Action, is, wrap, join, blob, BlobError, err_invalid_argument,
}
use test.Repository.{BlobCleanupTask, BlobCleanupRepository}

pub record CleanupWorkerConfig (W : Type 0) : Type 0 where
  pub batch_size : ℤ
  pub poll_interval : ℤ
  pub operation_timeout : ℤ
  pub initial_backoff : ℤ
  pub max_backoff : ℤ
  pub now : Option (W → ℕ)

-- The worker with its settings after the defaults are filled in.
pub record CleanupWorker (W : Type 0) : Type 0 where
  pub tasks : BlobCleanupRepository W
  pub blobs : Storage W
  pub batch_size : ℕ
  pub poll_interval : ℕ
  pub operation_timeout : ℕ
  pub initial_backoff : ℕ
  pub max_backoff : ℕ
  pub now : W → ℕ

abbrev pub second : ℕ
second = 1000000000

-- A setting that is not positive takes its default.
abbrev pub defaulted : ℕ → ℤ → ℕ
defaulted default value = if is_nonpositive value then default else to_ℕ value

-- The product of two `int64` values; one that is not negative and below 2^63 is not changed.
abbrev pub int64_product : ℕ → ℕ → ℕ
int64_product a b = a * b % 18446744073709551616

-- The loop of `backoff`, with the turns that `i` leaves.
unfoldable pub backoff_loop : ℕ → ℕ → ℕ → ℕ
backoff_loop max zero delay = if ltb max delay then max else delay
backoff_loop max (suc turns) delay =
    let rest = backoff_loop max turns (int64_product delay 2) in
    if ltb delay max
    then if ltb (max / 2) delay then max else rest
    else if ltb max delay
    then max
    else delay

abbrev pub max_duration : ℕ
max_duration = 9223372036854775807

-- The time for which a batch is leased.
unfoldable pub lease_duration : ℕ → ℕ → ℕ
lease_duration operation_timeout batch_size =
    if leb batch_size (max_duration / operation_timeout)
    then int64_product operation_timeout batch_size
    else max_duration

-- `errors.Join` of the errors of a batch.
unfoldable pub join_errors : List Error → Option Error
join_errors [] = none
join_errors (e ∷ rest) = elim (join_errors rest) [ none ↦ some e | some r ↦ some (join e r) ]

-- What `Run` does after a batch: claim again at once, wait for the poll interval, or return.
pub data Turn : Type 0 where
  again wait : Turn
  stopped : Error → Turn

module _ {W : Type 0} where
  unfoldable pub new_cleanup_worker :
      (W → ℕ)
      → Option (BlobCleanupRepository W)
      → Option (Storage W)
      → CleanupWorkerConfig W
      → Result (CleanupWorker W)
  new_cleanup_worker time_now (some tasks) (some blobs) cfg =
      let initial_backoff = defaulted second cfg.initial_backoff in
      let max_backoff = defaulted (60 * second) cfg.max_backoff in
      if ltb max_backoff initial_backoff
      then err (wrap "configure cleanup worker" err_invalid_argument)
      else ok (record {
        tasks = tasks;
        blobs = blobs;
        batch_size = defaulted 16 cfg.batch_size;
        poll_interval = defaulted second cfg.poll_interval;
        operation_timeout = defaulted (5 * second) cfg.operation_timeout;
        initial_backoff = initial_backoff;
        max_backoff = max_backoff;
        now = Option.get_or cfg.now time_now;
      })
  new_cleanup_worker time_now _ _ cfg = err (wrap "configure cleanup worker" err_invalid_argument)

  module _ (worker : CleanupWorker W) where
    unfoldable pub backoff : ℤ → ℕ
    unfolding backoff_loop
    backoff attempts = backoff_loop worker.max_backoff (to_ℕ attempts - 1) worker.initial_backoff

    -- `context_error` is the error of the parent context.
    module _ (context_error : W → Option Error) where
      settle : BlobCleanupTask → Result (Unit {0}) × W → Result (Unit {0}) × W
      unfolding backoff
      settle task (ok done, w) = worker.tasks.complete_blob_cleanup_task task.id w
      settle task (err e, w) =
          if is e (blob BlobError.not_found)
          then worker.tasks.complete_blob_cleanup_task task.id w
          else elim (context_error w) [
            | some c ↦ (err c, w)
            | none ↦
                worker.tasks.retry_blob_cleanup_task task.id (worker.now w + backoff task.attempts)
                  w
          ]

      unfoldable pub process : BlobCleanupTask → Action W (Unit {0})
      unfolding settle
      process task w = settle task (worker.blobs.delete task.storage_key w)

      with_error : Error → Result (List Error) × W → Result (List Error) × W
      with_error e (ok errors, w) = (ok (e ∷ errors), w)
      with_error e (err c, w) = (err c, w)

      next : Action W (List Error) → Result (Unit {0}) × W → Result (List Error) × W
      unfolding with_error
      next rest (ok done, w) = rest w
      next rest (err e, w) = elim (context_error w) [
        | some c ↦ (err c, w)
        | none ↦ with_error e (rest w)
      ]

      -- The loop of `ProcessBatch`: the errors of the tasks, or that of the context.
      unfoldable pub process_tasks : List BlobCleanupTask → Action W (List Error)
      unfolding next process
      process_tasks [] w = (ok [], w)
      process_tasks (task ∷ tasks) w = next (process_tasks tasks) (process task w)

      counted : ℕ → Result (List Error) × W → (ℕ × Option Error) × W
      unfolding join_errors
      counted n (ok errors, w) = ((n, join_errors errors), w)
      counted n (err c, w) = ((n, some c), w)

      claimed : Result (List BlobCleanupTask) × W → (ℕ × Option Error) × W
      unfolding counted process_tasks
      claimed (err e, w) = ((0, some e), w)
      claimed (ok tasks, w) = counted (length tasks) (process_tasks tasks w)

      unfoldable pub process_batch : W → (ℕ × Option Error) × W
      unfolding claimed lease_duration
      process_batch w = claimed (
          worker.tasks.claim_blob_cleanup_tasks (pos worker.batch_size)
            (worker.now w + lease_duration worker.operation_timeout worker.batch_size) w)

      turn_after : (ℕ × Option Error) × W → Turn
      turn_after ((n, none), w) = if eqb n 0 then wait else again
      turn_after ((n, some e), w) = elim (context_error w) [ some c ↦ stopped c | none ↦ wait ]

      -- One turn of the loop of `Run`, up to the wait.
      unfoldable pub turn : W → Turn × W
      unfolding turn_after process_batch
      turn w = let after = process_batch w in (turn_after after, after.1)
