-- ===== src/Service/Cleanup/Batch.antt =====
-- A batch of the cleanup worker of cmd/server/main.go: what it leaves in the queue of the tables and
-- in the directory of the storage.
use test.Common.{
  ℕ, ◌+◌, ◌<◌, ◌≡◌, refl, sym, subst, ap, ◌∙◌, String, Bool, true, not, Option, none, some, List,
  [], ◌∷◌, arith, All, select, length, eq_refl, inl, inr, Option-cases,
}
use test.Common.Assoc.{lookup, without, lookup-without}
use test.Common.Int.{pos}
use test.Blob
use test.Blob.{Disk, valid_key, err_not_found}
use test.Errors.{Error, Result, ok, err, is, blob, BlobError}
use test.Postgres.{Store}
use test.Postgres.Tasks.{is_among, due_tasks, lease_rows}
use test.Repository.{BlobCleanupTask}
use test.Service.Cleanup
use test.Service.Cleanup.{CleanupWorker, process, process_tasks, process_batch, lease_duration}
use test.Service.System.{Server, server_cleanup, server_blobs}
use test.Service.Cleanup.Queue.{
  IsDeletable, without_id, completed, keys, complete_lem, claim_lem, rows-completed, All-select,
  All-lease_rows, keys-leased, among_claimed, without_leased,
}

abbrev is_done : Result (Unit {0}) → Bool
is_done (ok _) = true
is_done (err e) = is e (blob BlobError.not_found)

-- The server of the tables answers, the context has no error, and `os.Remove` does not fail on a
-- file that is there.
pub record IsAnswering (w : Server) : Type 0 where
  pub running : w.store.failure ≡ none
  pub context : w.disk.context_error ≡ none
  pub remove : w.disk.remove_error ≡ none

-- What the deletion of an object leaves of the directory.
record IsGone (key : String) (d d' : Disk) : Type 0 where
  context : d'.context_error ≡ none
  remove : d'.remove_error ≡ none
  gone : lookup key d'.files ≡ none
  absent : (j : String) → lookup j d.files ≡ none → lookup j d'.files ≡ none

delete_done :
    (key : String) (d : Disk)
    → valid_key key ≡ true
    → d.context_error ≡ none
    → d.remove_error ≡ none
    → (is_done (Blob.delete key d).0 ≡ true) × IsGone key d (Blob.delete key d).1
unfolding is
delete_done key d named running removing = elim (Option-cases (lookup key d.files)) [
  | inl missing ↦
      rw (delete_missing missing)
        (refl, record { context = running; remove = removing; gone = missing; absent = λ j h. h })
  | inr (content, there) ↦ rw (delete_there content there) (
    refl,
    record {
      context = running;
      remove = removing;
      gone = lookup-without key key d.files ∙ rw (eq_refl key) refl;
      absent = λ j h. ground (arith, lookup-without key j d.files, h);
    },
  )
]
  where
    delete_missing : lookup key d.files ≡ none → Blob.delete key d ≡ (err err_not_found, d)
    delete_missing missing =
        unfold Blob.delete Blob.os_remove is in ground (arith, named, running, removing, missing)

    delete_there :
        (content : List ℕ)
        → lookup key d.files ≡ some content
        → Blob.delete key d ≡ (ok tt, record d { files = without key d.files })
    delete_there content there =
        unfold Blob.delete Blob.os_remove in ground (arith, named, running, removing, there)

-- What the tasks of a batch leave.
record IsProcessed (tasks : List BlobCleanupTask) (w w' : Server) : Type 0 where
  store : w'.store ≡ completed tasks w.store
  context : w'.disk.context_error ≡ none
  remove : w'.disk.remove_error ≡ none
  gone : All (λ key. lookup key w'.disk.files ≡ none) (keys tasks)
  absent : (j : String) → lookup j w.disk.files ≡ none → lookup j w'.disk.files ≡ none

failure-completed :
    (tasks : List BlobCleanupTask) (s : Store) → (completed tasks s).failure ≡ s.failure
unfolding completed
failure-completed [] s = refl
failure-completed (task ∷ tasks) s =
    failure-completed tasks
      (record s { blob_cleanup_tasks = without_id task.id s.blob_cleanup_tasks })

module _ (suffix : ℕ → String) (worker : CleanupWorker Server)
    (context_error : Server → Option Error) where
  settle_lem :
      (task : BlobCleanupTask) (answer : Result (Unit {0}) × Server)
      → is_done answer.0 ≡ true
      → Cleanup.settle worker context_error task answer
        ≡ worker.tasks.complete_blob_cleanup_task task.id answer.1
  unfolding Cleanup.settle
  settle_lem task (ok _, w) h = refl
  settle_lem task (err e, w) h = rw (h, Cleanup.settle) refl

  process_lem :
      (task : BlobCleanupTask) (w : Server)
      → worker.tasks ≡ server_cleanup
      → worker.blobs ≡ server_blobs suffix
      → IsDeletable task
      → IsAnswering w
      → ((process worker context_error task w).0 ≡ ok tt)
        × IsProcessed (task ∷ []) w (process worker context_error task w).1
  unfolding process completed
  process_lem task w queue blobs deletable answering =
      let (named, valid) = deletable in
      let d = (Blob.delete task.storage_key w.disk).1 in
      let (done, gone) =
        delete_done task.storage_key w.disk valid answering.context answering.remove in
      let left : Server = record {
        store = record w.store {
          blob_cleanup_tasks = without_id task.id w.store.blob_cleanup_tasks;
        };
        disk = d;
      } in
      let p : process worker context_error task w ≡ (ok tt, left) =
        ap (λ b. Cleanup.settle worker context_error task (b.delete task.storage_key w)) blobs
        ∙ settle_lem task ((server_blobs suffix).delete task.storage_key w) done
        ∙ ap (λ q. q.complete_blob_cleanup_task task.id (record w { disk = d })) queue
        ∙ complete_lem task.id (record w { disk = d }) named answering.running in
      rw (p) (
        refl,
        record {
          store = refl;
          context = gone.context;
          remove = gone.remove;
          gone = (gone.gone, tt);
          absent = gone.absent;
        },
      )

  next_lem :
      (rest : Server → Result (List Error) × Server) (answer : Result (Unit {0}) × Server)
      → answer.0 ≡ ok tt
      → Cleanup.next worker context_error rest answer ≡ rest answer.1
  unfolding Cleanup.next
  next_lem rest (ok _, w) h = refl
  next_lem rest (err e, w) h = absurd (cc)

  process_tasks_lem :
      (tasks : List BlobCleanupTask) (w : Server)
      → worker.tasks ≡ server_cleanup
      → worker.blobs ≡ server_blobs suffix
      → All IsDeletable tasks
      → IsAnswering w
      → ((process_tasks worker context_error tasks w).0 ≡ ok [])
        × IsProcessed tasks w (process_tasks worker context_error tasks w).1
  unfolding process_tasks completed
  process_tasks_lem [] w queue blobs deletable answering = (
    refl,
    record {
      store = refl;
      context = answering.context;
      remove = answering.remove;
      gone = tt;
      absent = λ j h. h;
    },
  )
  process_tasks_lem (task ∷ tasks) w queue blobs deletable answering =
      let (first_deletable, others) = deletable in
      let (fine, first_left) = process_lem task w queue blobs first_deletable answering in
      let after = (process worker context_error task w).1 in
      let (rest_fine, left) = process_tasks_lem tasks after queue blobs others (record {
        running = ap (λ (s : Store). s.failure) first_left.store ∙ answering.running;
        context = first_left.context;
        remove = first_left.remove;
      }) in
      let step =
        next_lem (process_tasks worker context_error tasks) (process worker context_error task w)
          fine in
      rw (step) (
        rest_fine,
        record {
          store = left.store ∙ ap (completed tasks) first_left.store;
          context = left.context;
          remove = left.remove;
          gone = (left.absent task.storage_key (first_left.gone.0), left.gone);
          absent = λ j h. left.absent j (first_left.absent j h);
        },
      )

  counted_lem :
      (n : ℕ) (answer : Result (List Error) × Server)
      → answer.0 ≡ ok []
      → Cleanup.counted worker context_error n answer ≡ ((n, none), answer.1)
  unfolding Cleanup.counted Cleanup.join_errors
  counted_lem n (ok [], w) p = refl
  counted_lem n (ok (e ∷ errors), w) p = absurd (cc)
  counted_lem n (err e, w) p = absurd (cc)

  claimed_lem :
      (answer : Result (List BlobCleanupTask) × Server) (tasks : List BlobCleanupTask) (w : Server)
      → answer ≡ (ok tasks, w)
      → (process_tasks worker context_error tasks w).0 ≡ ok []
      → Cleanup.claimed worker context_error answer
        ≡ ((length tasks, none), (process_tasks worker context_error tasks w).1)
  unfolding Cleanup.claimed
  claimed_lem answer tasks w p fine =
      ap (Cleanup.claimed worker context_error) p
      ∙ counted_lem (length tasks) (process_tasks worker context_error tasks w) fine

  -- A batch of the worker over the tables and the directory, of a positive size and after the zero
  -- instant, when the server answers, the context has no error and files can be removed: it ends
  -- without an error; the queue then has lost the tasks that were due, the first of them up to the
  -- size of the batch, and no others; and under the key of each of them the storage has no object,
  -- whether it had one or not. All rows have identifiers and valid keys, as those that the service
  -- enqueues.
  pub process_batch_lem :
      (w : Server)
      → worker.tasks ≡ server_cleanup
      → worker.blobs ≡ server_blobs suffix
      → All IsDeletable w.store.blob_cleanup_tasks
      → IsAnswering w
      → 0 < worker.batch_size
      → 0 < worker.now w
      → (let due = due_tasks worker.batch_size w.store.clock w.store.blob_cleanup_tasks in
          let after = process_batch worker context_error w in
          (after.0.1 ≡ none)
          × (after.1.store.blob_cleanup_tasks
              ≡ select (λ t. not (is_among due t)) w.store.blob_cleanup_tasks)
          × All
              (λ key. lookup key after.1.disk.files ≡ none)
              (keys (select (is_among due) w.store.blob_cleanup_tasks)))
  unfolding process_batch
  process_batch_lem w queue blobs deletable answering some_size some_time =
      let due = due_tasks worker.batch_size w.store.clock w.store.blob_cleanup_tasks in
      let lease_until = worker.now w + lease_duration worker.operation_timeout worker.batch_size in
      let rows = lease_rows due lease_until w.store.blob_cleanup_tasks in
      let tasks = select (is_among due) rows in
      let leased_world : Server = record w {
        store = record w.store { blob_cleanup_tasks = rows };
      } in
      let claim =
        ap (λ q. q.claim_blob_cleanup_tasks (pos worker.batch_size) lease_until w) queue
        ∙ claim_lem worker.batch_size lease_until w some_size (omega arith) answering.running in
      let (fine, left) =
        process_tasks_lem tasks leased_world queue blobs
          (All-select (is_among due) rows
            (All-lease_rows due lease_until w.store.blob_cleanup_tasks deletable))
          (record {
            running = answering.running;
            context = answering.context;
            remove = answering.remove;
          }) in
      let ended =
        claimed_lem (worker.tasks.claim_blob_cleanup_tasks (pos worker.batch_size) lease_until w)
          tasks leased_world claim fine in
      (
        ap (λ r. r.0.1) ended,
        ap (λ r. r.1.store.blob_cleanup_tasks) ended
            ∙ ap (λ (s : Store). s.blob_cleanup_tasks) left.store
            ∙ rows-completed tasks leased_world.store
            ∙ among_claimed due rows rows (λ t among. among)
            ∙ without_leased due lease_until w.store.blob_cleanup_tasks,
        subst
            (λ (v : Server).
              All (λ key. lookup key v.disk.files ≡ none)
                (keys (select (is_among due) w.store.blob_cleanup_tasks)))
            (sym (ap (λ r. r.1) ended))
            (subst
              (All (λ key.
                lookup key (process_tasks worker context_error tasks leased_world).1.disk.files
                ≡ none))
              (keys-leased due lease_until w.store.blob_cleanup_tasks) left.gone),
      )
