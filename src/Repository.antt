-- ===== src/Repository.antt =====
-- internal/repository/repository.go: the persistence ports, as actions on a world `W` that an
-- implementation chooses. The context of each call is part of that world.
use test.Common.{ℕ, String, List}
use test.Common.Int.{ℤ}
use test.Domain.{User, Session, Document, DocumentFilter}
use test.Errors.{Action}

pub record UserRepository (W : Type 0) : Type 0 where
  pub create : String → List ℕ → Action W User
  pub by_login : String → Action W (User × List ℕ)
  pub existing_logins : List String → Action W (List String)

pub record SessionRepository (W : Type 0) : Type 0 where
  pub create : String → List ℕ → ℕ → Action W Session
  pub by_token_hash : List ℕ → ℕ → Action W (Session × User)
  pub revoke : List ℕ → ℕ → Action W Unit

pub record DocumentRepository (W : Type 0) : Type 0 where
  pub create : Document → Action W Document
  pub by_id : String → Action W Document
  pub by_id_accessible : String → String → Action W Document
  pub list : String → DocumentFilter → Action W (List Document)
  pub delete : String → String → Action W Document

pub record BlobCleanupTask : Type 0 where
  pub id : ℕ
  pub storage_key : String
  pub attempts : ℤ
  pub next_attempt_at : ℕ

pub record BlobCleanupRepository (W : Type 0) : Type 0 where
  pub claim_blob_cleanup_tasks : ℤ → ℕ → Action W (List BlobCleanupTask)
  pub complete_blob_cleanup_task : ℕ → Action W Unit
  pub complete_blob_cleanup_by_storage_key : String → Action W Unit
  pub retry_blob_cleanup_task : ℕ → ℕ → Action W Unit
