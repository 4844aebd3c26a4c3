-- ===== src/Tests/ServiceTests.antt =====
-- The document service, the tables and the cleanup worker on a small server.
use test.Common.{
  ◌-◌, ◌*◌, first, ◌≡◌, ◌≢◌, ◌⊎◌, refl, String, true, false, not, ◌&&◌, Option, none, some, List,
  all, [], ◌∷◌, ◌==◌, arith, select, eq_iff, take, All,
}
use test.Common.Assoc.{lookup, without}
use test.Common.Base64.{encode}
use test.Common.Int.{pos}
use test.Common.Text.{
  base, same_codes, strip_slashes, last_segment, is_blank, is_space, has_dot_dot, contains_any,
  is_control,
}
use test.Blob
use test.Blob.{Disk, Reader, Storage, valid_key}
use test.Domain.{User, Document}
use test.Errors.{Error, Result, ok, err, is, err_invalid_argument}
use test.Postgres.{Store}
use test.Postgres.Documents as Tables
use test.Postgres.Documents.{create_document, by_id, scanned, unique_non_owner_logins}
use test.Postgres.Documents.Listing.{all-list}
use test.Postgres.Documents.Creation.{by_id-create_document}
use test.Postgres.Documents.Deletion.{IsDeleted, delete-IsDeleted, delete_failed}
use test.Postgres.Sessions
use test.Service.{Upload, Formats}
use test.Service.Cleanup
use test.Service.Cleanup.{CleanupWorker, process_batch, backoff, lease_duration, max_duration}
use test.Service.Cleanup.Backoff.{min, doubled, backoff_lem, lease_duration_lem}
use test.Blob.Missing.{IsPlain}
use test.Service.Reading
use test.Service.Reading.Outbox.{IsAccounted, delete-IsAccounted}
use test.Service.System.{Server, Settings, document_service, server_cleanup, server_blobs}
use test.Service.Cleanup.Batch.{process_batch_lem}
use test.Service.Cleanup.Queue.{IsDeletable, keys}
use test.Postgres.Tasks.{is_among, due_tasks}
use test.Service.Uploading
use test.Service.Uploading.{upload, unique_grants}
use test.Service.Uploading.Grants.{has, has_duplicate, unique_grants_lem}
use test.Service.Uploading.Kept.{IsKept, upload-IsKept}
use test.Service.Uploading.Rollback.{lookup-upload}
use test.Tests.AuthTests.{database, at_start, zeros}
use test.Tests.BlobTests.{suffix, empty_disk, source}

program : Unit {0}
unfolding upload Uploading.is_acceptable Uploading.valid_name Uploading.normalize_mime
    Uploading.limit_reader Uploading.read_limit Uploading.same_login_set unique_grants
    Uploading.unique_from create_document Tables.create_in_transaction Tables.is_valid_input
    Tables.new_row Tables.scanned Tables.is_granted Tables.by_id Tables.unique_non_owner_logins
    Tables.unique_from Tables.delete Tables.delete_in_transaction Tables.enqueue Tables.delete_row
    Sessions.statement Sessions.existing_logins first take is Blob.put Blob.open_object Blob.delete
    valid_key Blob.os_remove Blob.os_link lookup without base same_codes encode strip_slashes
    last_segment is_blank is_space has_dot_dot contains_any is_control zeros
program = tt

abbrev pub server : Server
server = record { store = at_start; disk = empty_disk }

abbrev pub formats : Formats
formats = record {
  valid_json = λ t. true;
  parse_media_type = λ s. some (s, []);
  format_media_type = λ s l. s;
  parse_uuid = λ s. some s;
  uuid_of_bytes = λ b. "7";
  parse_utc = λ s. none;
  parse_rfc3339 = λ s. none;
}

abbrev pub settings : Settings
settings = record {
  max_file = 3;
  max_grants = 2;
  max_list = pos 10;
  rand = λ n w. (ok (zeros n), w);
  invalidate_delete = none;
}

abbrev pub requester : User
requester = record { id = "1"; login = "adalovelace"; created_at = 1 }

abbrev request : Document
request = record {
  id = "";
  owner_id = "1";
  name = "notes";
  mime = "text/plain";
  is_file = true;
  is_public = false;
  json = none;
  storage_key = "k";
  size_bytes = pos 2;
  created_at = 0;
  updated_at = 0;
  version = 0;
  grants = [];
}

abbrev input : Upload
input = record { document = request; file = some source }

abbrev pub uploaded : Result Document × Server
uploaded = upload formats (document_service database suffix settings) requester input server

abbrev pub document : Document
document = record request { id = "7"; storage_key = encode (zeros 32); created_at = 3; version = 1 }

was_uploaded : uploaded ≡ (ok document, uploaded.1)
unfolding program
was_uploaded = refl

upload-IsKept_example : IsKept 3 source document uploaded.1
unfolding program
upload-IsKept_example =
    upload-IsKept formats database suffix settings (omega arith) source requester input server
      uploaded.1 document refl refl was_uploaded

-- A file that is too large is rejected.
abbrev too_large : Upload
too_large = record input { file = some (record source { content = 1 ∷ 2 ∷ 3 ∷ 4 ∷ [] }) }

abbrev refused : Result Document × Server
refused = upload formats (document_service database suffix settings) requester too_large server

was_refused : refused ≡ (err err_invalid_argument, refused.1)
unfolding program
was_refused = refl

key_named : valid_key "key" ≡ true
unfolding program
key_named = refl

lookup-upload_example : lookup "key" refused.1.disk.files ≡ lookup "key" server.disk.files
lookup-upload_example =
    lookup-upload formats database suffix settings "key" key_named requester too_large server
      refused.1 _ (λ n v. refl) refl was_refused

abbrev made : Result Document × Store
made = create_document database request at_start

abbrev made_document : Document
made_document = record request { id = "new"; created_at = 3; version = 1 }

was_made : made ≡ (ok made_document, made.1)
unfolding program
was_made = refl

by_id-create_document_example :
    by_id database "new" made.1 ≡ (ok (scanned database made.1 made_document), made.1)
unfolding program
by_id-create_document_example =
    by_id-create_document database request made_document at_start made.1 made.1 (λ x key p. refl)
      (λ n. refl) was_made refl refl

abbrev dropped : Result Document × Store
dropped = Tables.delete database "new" "1" made.1

was_dropped : dropped ≡ (ok made_document, dropped.1)
unfolding program
was_dropped = refl

delete-IsDeleted_example :
    (key : String) × (database.parse_uuid "new" ≡ some key)
    × IsDeleted key "1" made_document made.1 dropped.1
delete-IsDeleted_example =
    delete-IsDeleted database "new" "1" made_document made.1 dropped.1 was_dropped

others : ◌≢◌ {A = String} "1" "2"
others p = cc ((eq_iff "1" "2").1 p)

found_row : first (Tables.has_id "new") made.1.documents ≡ some made_document
unfolding program
found_row = refl

delete_failed_example :
    ((Tables.delete database "new" "2" made.1).1 ≡ made.1)
    × ((e : Error) × ((Tables.delete database "new" "2" made.1).0 ≡ err e))
delete_failed_example =
    delete_failed database "new" "2" "new" made_document made.1
      (Tables.delete database "new" "2" made.1).1 (Tables.delete database "new" "2" made.1).0 refl
      found_row others refl

unique_grants_lem_example :
    (has "bob" (unique_grants ("bob" ∷ "ada" ∷ "bob" ∷ []) "ada")
      ≡ (has "bob" ("bob" ∷ "ada" ∷ "bob" ∷ []) && not ("bob" == "ada")))
    × (has_duplicate (unique_grants ("bob" ∷ "ada" ∷ "bob" ∷ []) "ada") ≡ false)
unique_grants_lem_example = unique_grants_lem ("bob" ∷ "ada" ∷ "bob" ∷ []) "ada" "bob"

abbrev worker : CleanupWorker Server
worker = record {
  tasks = server_cleanup;
  blobs = server_blobs suffix;
  batch_size = 16;
  poll_interval = 1000000000;
  operation_timeout = 5000000000;
  initial_backoff = 1000000000;
  max_backoff = 60000000000;
  now = λ w. w.store.clock;
}

third_attempt : backoff worker (pos 3) ≡ 4000000000
unfolding backoff Cleanup.backoff_loop
third_attempt = refl

backoff_lem_example : backoff worker (pos 9) ≡ min 60000000000 (doubled (9 - 1) 1000000000)
backoff_lem_example = backoff_lem worker (pos 9) (omega arith)

lease_duration_lem_example : lease_duration 5000000000 16 ≡ min (5000000000 * 16) max_duration
lease_duration_lem_example = lease_duration_lem 5000000000 16 (omega arith)

stored_row : first (Tables.has_id "7") uploaded.1.store.documents ≡ some document
unfolding program
stored_row = refl

uploaded-IsPlain : IsPlain uploaded.1.disk
unfolding program
uploaded-IsPlain = record {
  context = λ e p. absurd (none_some e p);
  remove = λ e p. absurd (none_some e p);
}
  where
    none_some : (e : Error) → ◌≡◌ {A = Option Error} none (some e) → ⊥
    none_some e p = cc

delete-IsAccounted_example :
    (first
        (Tables.has_id "7")
        (Reading.delete
          (document_service database suffix settings)
          requester
          "7"
          uploaded.1).1.store.documents
      ≡ some document)
    ⊎ IsAccounted
        (encode (zeros 32))
        (Reading.delete (document_service database suffix settings) requester "7" uploaded.1).1
delete-IsAccounted_example =
    delete-IsAccounted database suffix settings requester "7" "7" document uploaded.1 tt
      uploaded-IsPlain refl stored_row refl

abbrev listing : Result (List Document) × Store
listing =
    Tables.list database "1" (record { owner_login = ""; key = ""; value = ""; limit = pos 5 })
      made.1

was_listed : listing ≡ (ok (made_document ∷ []), made.1)
unfolding program Tables.list Tables.build_document_filter Tables.list_rows Tables.sort_documents
    Tables.is_listed Tables.insert_document
was_listed = refl

all-list_example :
    (all (Tables.is_accessible "1" made.1) (made_document ∷ []) ≡ true) × (made.1 ≡ made.1)
all-list_example =
    all-list database "1" "1" (record { owner_login = ""; key = ""; value = ""; limit = pos 5 })
      made.1 made.1 (made_document ∷ []) refl was_listed

-- One object to delete, and a task for an object that is gone.
abbrev with_task : Server
with_task = record {
  store = record at_start {
    blob_cleanup_tasks =
        (record { id = 1; storage_key = "k"; attempts = pos 0; next_attempt_at = 0 })
        ∷ (record { id = 2; storage_key = "m"; attempts = pos 0; next_attempt_at = 0 })
        ∷ [];
  };
  disk = record empty_disk { files = ("k", 1 ∷ []) ∷ [] };
}

with_task-IsDeletable : All IsDeletable with_task.store.blob_cleanup_tasks
unfolding program
with_task-IsDeletable = ((refl, refl), ((refl, refl), tt))

process_batch_lem_example :
    ((process_batch worker (λ w. none) with_task).0.1 ≡ none)
    × ((process_batch worker (λ w. none) with_task).1.store.blob_cleanup_tasks
        ≡ select
            (λ t. not (is_among (due_tasks 16 at_start.clock with_task.store.blob_cleanup_tasks) t))
            with_task.store.blob_cleanup_tasks)
    × All
        (λ key. lookup key (process_batch worker (λ w. none) with_task).1.disk.files ≡ none)
        (keys (
          select
            (is_among (due_tasks 16 at_start.clock with_task.store.blob_cleanup_tasks))
            with_task.store.blob_cleanup_tasks))
process_batch_lem_example =
    process_batch_lem suffix worker (λ w. none) with_task refl refl with_task-IsDeletable
      (record { running = refl; context = refl; remove = refl }) (omega arith) (omega arith)
