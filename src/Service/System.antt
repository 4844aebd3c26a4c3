-- ===== src/Service/System.antt =====
-- The services as cmd/server/main.go puts them together: the PostgreSQL repositories and the file
-- storage, in one world of the tables and the directory.
use test.Common.{ℕ, String, Option, some, List}
use test.Common.Int.{ℤ}
use test.Blob
use test.Blob.{Disk, Storage, Reader}
use test.Errors.{Action}
use test.Postgres.{Store, Database}
use test.Postgres.Documents
use test.Postgres.Sessions
use test.Postgres.Tasks
use test.Repository.{DocumentRepository, UserRepository, SessionRepository, BlobCleanupRepository}
use test.Service.{Service}

pub record Server : Type 0 where
  pub store : Store
  pub disk : Disk

abbrev pub on_store : {A : Type 0} → Action Store A → Action Server A
on_store body w = let r = body w.store in (r.0, record w { store = r.1 })

abbrev pub on_disk : {A : Type 0} → Action Disk A → Action Server A
on_disk body w = let r = body w.disk in (r.0, record w { disk = r.1 })

abbrev pub server_documents : Database → DocumentRepository Server
server_documents d = record {
  create = λ input. on_store (Documents.create_document d input);
  by_id = λ id. on_store (Documents.by_id d id);
  by_id_accessible = λ id requester. on_store (Documents.by_id_accessible d id requester);
  list = λ requester filter. on_store (Documents.list d requester filter);
  delete = λ id owner. on_store (Documents.delete d id owner);
}

abbrev pub server_users : Database → UserRepository Server
server_users d = record {
  create = λ login hash. on_store (Sessions.create_user d login hash);
  by_login = λ login. on_store (Sessions.by_login login);
  existing_logins = λ logins. on_store (Sessions.existing_logins d logins);
}

abbrev pub server_sessions : Database → SessionRepository Server
server_sessions d = record {
  create = λ user_id hash expires_at. on_store (Sessions.create_session d user_id hash expires_at);
  by_token_hash = λ hash now. on_store (Sessions.by_token_hash hash now);
  revoke = λ hash now. on_store (Sessions.revoke hash now);
}

abbrev pub server_blobs : (ℕ → String) → Storage Server
server_blobs suffix = record {
  put = λ key source. on_disk (Blob.put suffix key source);
  open_object = λ key. on_disk (Blob.open_object key);
  delete = λ key. on_disk (Blob.delete key);
}

abbrev pub server_cleanup : BlobCleanupRepository Server
server_cleanup = record {
  claim_blob_cleanup_tasks = λ limit lease. on_store (Tasks.claim_blob_cleanup_tasks limit lease);
  complete_blob_cleanup_task = λ id. on_store (Tasks.complete_blob_cleanup_task id);
  complete_blob_cleanup_by_storage_key =
      λ key. on_store (Tasks.complete_blob_cleanup_by_storage_key key);
  retry_blob_cleanup_task = λ id next. on_store (Tasks.retry_blob_cleanup_task id next);
}

-- The settings, the random bytes and the invalidation hook of the document service.
pub record Settings : Type 0 where
  pub max_file : ℕ
  pub max_grants : ℕ
  pub max_list : ℤ
  pub rand : ℕ → Action Server (List ℕ)
  pub invalidate_delete : Option (String → Action Server (Unit {0}))

abbrev pub document_service : Database → (ℕ → String) → Settings → Service Server
document_service d suffix settings = record {
  documents = server_documents d;
  users = server_users d;
  blobs = server_blobs suffix;
  max_file = settings.max_file;
  max_grants = settings.max_grants;
  max_list = settings.max_list;
  rand = settings.rand;
  cleanup = some server_cleanup;
  invalidate_delete = settings.invalidate_delete;
}
