-- ===== src/Service/Cleanup/Queue.antt =====
-- The lemmas on the rows of the cleanup queue: leasing, and completing the tasks of a batch.
use test.Common.{
  ℕ, ◌<◌, ◌≡◌, refl, sym, ap, ◌∙◌, Bool, true, false, not, ◌&&◌, none, List, [], ◌∷◌, arith, eqb,
  leb, All, any, select, eqb_iff, if_cases, map, String, inl, inr, Bool-cases,
}
use test.Common.Int.{pos}
use test.Blob.{valid_key}
use test.Errors.{ok}
use test.Postgres.{Store}
use test.Postgres.Sessions.{statement}
use test.Postgres.Tasks
use test.Postgres.Tasks.{is_among, has_id, leased, due_tasks, lease_rows}
use test.Repository.{BlobCleanupTask}
use test.Service.System.{Server, server_cleanup}

-- A row with an identifier and a valid key.
abbrev pub IsDeletable : BlobCleanupTask → Type 0
IsDeletable task = (eqb task.id 0 ≡ false) × (valid_key task.storage_key ≡ true)

abbrev pub without_id : ℕ → List BlobCleanupTask → List BlobCleanupTask
without_id id rows = select (λ task. not (has_id id task)) rows

unfoldable pub completed : List BlobCleanupTask → Store → Store
completed [] s = s
completed (task ∷ tasks) s =
    completed tasks (record s { blob_cleanup_tasks = without_id task.id s.blob_cleanup_tasks })

eqb_refl : (n : ℕ) → eqb n n ≡ true
eqb_refl n = ground arith

select-ext :
    (p q : BlobCleanupTask → Bool) (l : List BlobCleanupTask)
    → ((t : BlobCleanupTask) → p t ≡ q t)
    → select p l ≡ select q l
select-ext p q [] h = refl
select-ext p q (u ∷ l) h = ground (arith, h u, select-ext p q l h)

is_among-select :
    (p : BlobCleanupTask → Bool) (t : BlobCleanupTask) (l : List BlobCleanupTask)
    → ((u : BlobCleanupTask) → eqb u.id t.id ≡ true → p u ≡ p t)
    → is_among (select p l) t ≡ (is_among l t && p t)
is_among-select p t [] h = refl
is_among-select p t (u ∷ l) h =
    let rest = is_among-select p t l h in
    elim (Bool-cases (eqb u.id t.id)) [
      | inl same ↦ ground (arith, rest, same, h u same)
      | inr other ↦ ground (arith, rest, other)
    ]

select_among :
    (due rows l : List BlobCleanupTask)
    → ((t : BlobCleanupTask) → is_among l t ≡ true → is_among rows t ≡ true)
    → select (λ t. not (is_among rows t && is_among due t)) l ≡ select (λ t. not (is_among due t)) l
select_among due rows [] h = refl
select_among due rows (u ∷ l) h =
    let here = h u (ground (arith, eqb_refl u.id)) in
    let rest = select_among due rows l (λ t among. h t (ground (arith, among))) in
    ground (arith, here, rest)

same_id :
    (due : List BlobCleanupTask) (t u : BlobCleanupTask)
    → eqb u.id t.id ≡ true
    → is_among due u ≡ is_among due t
same_id due t u h = ap (λ id. any (has_id id) due) ((eqb_iff u.id t.id).0 h)

-- Of some rows, those that are among the rows which `due` selects are the ones in `due`.
pub among_claimed :
    (due rows l : List BlobCleanupTask)
    → ((t : BlobCleanupTask) → is_among l t ≡ true → is_among rows t ≡ true)
    → select (λ t. not (is_among (select (is_among due) rows) t)) l
      ≡ select (λ t. not (is_among due t)) l
among_claimed due rows l h =
    select-ext _ _ l (λ t. ap not (is_among-select (is_among due) t rows (same_id due t)))
    ∙ select_among due rows l h

pub without_leased :
    (due : List BlobCleanupTask) (lease_until : ℕ) (rows : List BlobCleanupTask)
    → select (λ t. not (is_among due t)) (lease_rows due lease_until rows)
      ≡ select (λ t. not (is_among due t)) rows
unfolding lease_rows
without_leased due lease_until [] = refl
without_leased due lease_until (u ∷ rows) =
    let rest = without_leased due lease_until rows in
    if_cases
      (λ v.
        select (λ t. not (is_among due t)) (v ∷ lease_rows due lease_until rows)
        ≡ select (λ t. not (is_among due t)) (u ∷ rows))
      (is_among due u) (leased lease_until u) u (λ among. ground (arith, rest, among))
      (λ other. ground (arith, rest, other))

select-true : (l : List BlobCleanupTask) → select (λ t. true) l ≡ l
select-true [] = refl
select-true (u ∷ l) = ap (◌∷◌ u) (select-true l)

without_id_lem :
    (task : BlobCleanupTask) (tasks l : List BlobCleanupTask)
    → select (λ t. not (is_among tasks t)) (without_id task.id l)
      ≡ select (λ t. not (is_among (task ∷ tasks) t)) l
without_id_lem task tasks [] = refl
without_id_lem task tasks (u ∷ l) =
    let rest = without_id_lem task tasks l in
    elim (Bool-cases (eqb u.id task.id)) [
      | inl same ↦
          let turned : eqb task.id u.id ≡ true = ground (arith, same) in
          ground (arith, rest, same, turned)
      | inr other ↦
          let turned : eqb task.id u.id ≡ false = ground (arith, other) in
          ground (arith, rest, other, turned)
    ]

pub rows-completed :
    (tasks : List BlobCleanupTask) (s : Store)
    → (completed tasks s).blob_cleanup_tasks
      ≡ select (λ t. not (is_among tasks t)) s.blob_cleanup_tasks
unfolding completed
rows-completed [] s = sym (select-true s.blob_cleanup_tasks)
rows-completed (task ∷ tasks) s =
    rows-completed tasks (record s { blob_cleanup_tasks = without_id task.id s.blob_cleanup_tasks })
    ∙ without_id_lem task tasks s.blob_cleanup_tasks

pub All-select :
    (p : BlobCleanupTask → Bool) (l : List BlobCleanupTask)
    → All IsDeletable l
    → All IsDeletable (select p l)
All-select p [] h = tt
All-select p (u ∷ l) h =
    let (named, rest) = h in
    if_cases (All IsDeletable) (p u) (u ∷ select p l) (select p l)
      (λ _. (named, All-select p l rest)) (λ _. All-select p l rest)

pub All-lease_rows :
    (due : List BlobCleanupTask) (lease_until : ℕ) (l : List BlobCleanupTask)
    → All IsDeletable l
    → All IsDeletable (lease_rows due lease_until l)
unfolding lease_rows
All-lease_rows due lease_until [] h = tt
All-lease_rows due lease_until (u ∷ l) h =
    let (named, rest) = h in
    (
      if_cases IsDeletable (is_among due u) (leased lease_until u) u (λ _. named) (λ _. named),
      All-lease_rows due lease_until l rest,
    )

abbrev pub keys : List BlobCleanupTask → List String
keys tasks = map (λ (t : BlobCleanupTask). t.storage_key) tasks

-- A lease changes no key.
pub keys-leased :
    (due : List BlobCleanupTask) (lease_until : ℕ) (rows : List BlobCleanupTask)
    → keys (select (is_among due) (lease_rows due lease_until rows))
      ≡ keys (select (is_among due) rows)
unfolding lease_rows
keys-leased due lease_until [] = refl
keys-leased due lease_until (u ∷ rows) =
    let rest = keys-leased due lease_until rows in
    if_cases
      (λ v.
        keys (select (is_among due) (v ∷ lease_rows due lease_until rows))
        ≡ keys (select (is_among due) (u ∷ rows)))
      (is_among due u) (leased lease_until u) u (λ among. ground (arith, rest, among))
      (λ other. ground (arith, rest, other))

pub claim_lem :
    (limit lease_until : ℕ) (w : Server)
    → 0 < limit
    → 0 < lease_until
    → w.store.failure ≡ none
    → server_cleanup.claim_blob_cleanup_tasks (pos limit) lease_until w ≡ (
      ok (
          select (is_among (due_tasks limit w.store.clock w.store.blob_cleanup_tasks)) (
            lease_rows
              (due_tasks limit w.store.clock w.store.blob_cleanup_tasks)
              lease_until
              w.store.blob_cleanup_tasks)),
      record w {
        store = record w.store {
          blob_cleanup_tasks =
              lease_rows
                (due_tasks limit w.store.clock w.store.blob_cleanup_tasks)
                lease_until
                w.store.blob_cleanup_tasks;
        };
      },
    )
unfolding Tasks.claim_blob_cleanup_tasks statement
claim_lem limit lease_until w some_limit some_lease running =
    let limited : leb limit 0 ≡ false = ground (arith, some_limit) in
    let later : eqb lease_until 0 ≡ false = ground (arith, some_lease) in
    rw (limited, later, running) refl

pub complete_lem :
    (id : ℕ) (w : Server)
    → eqb id 0 ≡ false
    → w.store.failure ≡ none
    → (server_cleanup.complete_blob_cleanup_task id w) ≡ (
      ok tt,
      record w {
        store = record w.store { blob_cleanup_tasks = without_id id w.store.blob_cleanup_tasks };
      },
    )
unfolding Tasks.complete_blob_cleanup_task statement
complete_lem id w named running = rw (named, running) refl
