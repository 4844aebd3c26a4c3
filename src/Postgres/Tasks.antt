-- ===== src/Postgres/Tasks.antt =====
-- blob_cleanup.go of internal/repository/postgres: the queue of blobs to delete.
use test.Common.{
  ℕ, suc, String, Bool, not, ◌&&◌, ◌||◌, List, [], ◌∷◌, ◌==◌, ltb, leb, eqb, if◌then◌else◌, any,
  select, map, take,
}
use test.Common.Int.{ℤ, pos, negsuc, is_nonpositive, to_ℕ}
use test.Common.Text.{codes, is_blank}
use test.Errors.{ok, Action}
use test.Postgres.{Store}
use test.Postgres.Sessions.{statement, invalid}
use test.Repository.{BlobCleanupTask, BlobCleanupRepository}

abbrev next : ℤ → ℤ
next (pos n) = pos (suc n)
next (negsuc n) = if eqb n 0 then pos 0 else negsuc (Prim.Native.Nat.pred n)

-- `ORDER BY next_attempt_at, id`
abbrev is_before : BlobCleanupTask → BlobCleanupTask → Bool
is_before a b =
    ltb a.next_attempt_at b.next_attempt_at
    || (eqb a.next_attempt_at b.next_attempt_at && leb a.id b.id)

unfoldable pub insert_task : BlobCleanupTask → List BlobCleanupTask → List BlobCleanupTask
insert_task a [] = a ∷ []
insert_task a (b ∷ l) = let rest = insert_task a l in if is_before a b then a ∷ b ∷ l else b ∷ rest

unfoldable pub sort_tasks : List BlobCleanupTask → List BlobCleanupTask
unfolding insert_task
sort_tasks [] = []
sort_tasks (a ∷ l) = insert_task a (sort_tasks l)

abbrev pub is_due : ℕ → BlobCleanupTask → Bool
is_due clock task = leb task.next_attempt_at clock

abbrev pub has_id : ℕ → BlobCleanupTask → Bool
has_id id task = eqb task.id id

-- The tasks that the common table expression `due` selects.
unfoldable pub due_tasks : ℕ → ℕ → List BlobCleanupTask → List BlobCleanupTask
unfolding sort_tasks take
due_tasks limit clock tasks = take limit (sort_tasks (select (is_due clock) tasks))

abbrev pub leased : ℕ → BlobCleanupTask → BlobCleanupTask
leased lease_until task = record task {
  attempts = next task.attempts;
  next_attempt_at = lease_until;
}

abbrev pub is_among : List BlobCleanupTask → BlobCleanupTask → Bool
is_among tasks task = any (has_id task.id) tasks

-- The rows after the update.
unfoldable pub lease_rows : List BlobCleanupTask → ℕ → List BlobCleanupTask → List BlobCleanupTask
lease_rows due lease_until rows =
    map (λ task. if is_among due task then leased lease_until task else task) rows

unfoldable pub claim_blob_cleanup_tasks : ℤ → ℕ → Action Store (List BlobCleanupTask)
unfolding statement due_tasks lease_rows
claim_blob_cleanup_tasks limit lease_until s =
    if is_nonpositive limit || eqb lease_until 0
    then (invalid "claim blob cleanup tasks", s)
    else statement "claim blob cleanup tasks"
        (λ s.
          let due = due_tasks (to_ℕ limit) s.clock s.blob_cleanup_tasks in
          let rows = lease_rows due lease_until s.blob_cleanup_tasks in
          (ok (select (is_among due) rows), record s { blob_cleanup_tasks = rows }))
        s

-- Identifiers of rows are positive, so the test `id <= 0` is that for zero.
unfoldable pub complete_blob_cleanup_task : ℕ → Action Store (Unit {0})
unfolding statement
complete_blob_cleanup_task id s =
    if eqb id 0
    then (invalid "complete blob cleanup task", s)
    else statement "complete blob cleanup task"
        (λ s. (
          ok tt,
          record s {
            blob_cleanup_tasks = select (λ task. not (has_id id task)) s.blob_cleanup_tasks;
          },
        ))
        s

abbrev pub has_key : String → BlobCleanupTask → Bool
has_key key task = task.storage_key == key

unfoldable pub complete_blob_cleanup_by_storage_key : String → Action Store (Unit {0})
unfolding statement is_blank
complete_blob_cleanup_by_storage_key key s =
    if is_blank (codes key)
    then (invalid "complete blob cleanup task", s)
    else statement "complete blob cleanup task"
        (λ s. (
          ok tt,
          record s {
            blob_cleanup_tasks = select (λ task. not (has_key key task)) s.blob_cleanup_tasks;
          },
        ))
        s

unfoldable pub retry_blob_cleanup_task : ℕ → ℕ → Action Store (Unit {0})
unfolding statement
retry_blob_cleanup_task id next_attempt_at s =
    if eqb id 0 || eqb next_attempt_at 0
    then (invalid "retry blob cleanup task", s)
    else statement "retry blob cleanup task"
        (λ s. (
          ok tt,
          record s {
            blob_cleanup_tasks =
                map
                  (λ task.
                    if has_id id task
                    then record task { next_attempt_at = next_attempt_at }
                    else task)
                  s.blob_cleanup_tasks;
          },
        ))
        s

abbrev pub blob_cleanup : BlobCleanupRepository Store
blob_cleanup = record {
  claim_blob_cleanup_tasks = claim_blob_cleanup_tasks;
  complete_blob_cleanup_task = complete_blob_cleanup_task;
  complete_blob_cleanup_by_storage_key = complete_blob_cleanup_by_storage_key;
  retry_blob_cleanup_task = retry_blob_cleanup_task;
}
