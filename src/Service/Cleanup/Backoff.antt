-- ===== src/Service/Cleanup/Backoff.antt =====
-- `backoff` and the lease of `ProcessBatch`, of internal/document/cleanup_worker.go.
use test.Common.{
  ℕ, zero, suc, ◌*◌, ◌-◌, ◌/◌, ◌≤◌, ◌<◌, ◌≡◌, arith, ltb, leb, if◌then◌else◌, inl, inr, Bool-cases,
}
use native.Mathlib.Nat.{le-div_iff_mul-le}
use test.Common.Int.{ℤ, to_ℕ}
use test.Service.Cleanup.{
  CleanupWorker, backoff, backoff_loop, int64_product, lease_duration, max_duration,
}

abbrev pub min : ℕ → ℕ → ℕ
min a b = if leb a b then a else b

-- `n` doublings.
abbrev pub doubled : ℕ → ℕ → ℕ
doubled zero d = d
doubled (suc n) d = doubled n (d * 2)

doubled-ge : (n d : ℕ) → d ≤ doubled n d
doubled-ge zero d = omega arith
doubled-ge (suc n) d = omega (arith, doubled-ge n (d * 2))

backoff_loop_lem :
    (max turns delay : ℕ)
    → max ≤ max_duration
    → backoff_loop max turns delay ≡ min max (doubled turns delay)
unfolding backoff_loop
backoff_loop_lem max zero delay bound = ground arith
backoff_loop_lem max (suc turns) delay bound = elim (Bool-cases (ltb delay max)) [
  | inl less ↦ elim (Bool-cases (ltb (max / 2) delay)) [
    | inl over ↦ ground (arith, less, over, doubled-ge turns (delay * 2))
    | inr fits ↦
        let same : int64_product delay 2 ≡ delay * 2 = ground arith in
        ground (arith, less, fits, same, backoff_loop_lem max turns (delay * 2) bound)
  ]
  | inr more ↦ ground (arith, more, doubled-ge turns (delay * 2))
]

module _ {W : Type 0} (worker : CleanupWorker W) where
  -- The delay before the next attempt doubles with each attempt, from the initial delay up to
  -- the greatest one, and is not changed by the bounds of an `int64`, where the greatest delay
  -- is within them.
  pub backoff_lem :
      (attempts : ℤ)
      → worker.max_backoff ≤ max_duration
      → backoff worker attempts
        ≡ min worker.max_backoff (doubled (to_ℕ attempts - 1) worker.initial_backoff)
  unfolding backoff
  backoff_lem attempts bound =
      backoff_loop_lem worker.max_backoff (to_ℕ attempts - 1) worker.initial_backoff bound

-- The lease of a batch is the time that its operations may take, one after the other, or the
-- longest duration where that is less, if the timeout of an operation is positive.
pub lease_duration_lem :
    (operation_timeout batch_size : ℕ)
    → 0 < operation_timeout
    → lease_duration operation_timeout batch_size
      ≡ min (operation_timeout * batch_size) max_duration
unfolding lease_duration
lease_duration_lem operation_timeout batch_size positive =
    ground (arith, le-div_iff_mul-le {x = batch_size} {y = max_duration} positive)
