-- ===== src/Postgres.antt =====
-- internal/repository/postgres: the repository ports over the tables of the migrations. A query is
-- a function of the tables; `uuid.Parse`, `uuid.NewString` and the rounding of `timestamptz(0)` and of
-- `date_trunc` are the parameter `Database`.
pub mod Sessions
pub mod Documents
pub mod Tasks
pub mod Errors
pub mod Migrations
pub mod SessionLaws
use test.Common.{ℕ, String, Bool, Option, List}
use test.Domain.{Document, Session}
use test.Errors.{Error}
use test.Repository.{BlobCleanupTask}

pub record UserRow : Type 0 where
  pub id : String
  pub login : String
  pub password_hash : List ℕ
  pub created_at : ℕ

-- The tables, with the server's clock, the number of identifiers drawn so far, and the error that
-- every statement meets while the server cannot be reached. The `grants` of a document's row are
-- not used: they stand in their own table.
pub record Store : Type 0 where
  pub users : List UserRow
  pub sessions : List Session
  pub documents : List Document
  pub document_grants : List (String × String)
  pub blob_cleanup_tasks : List BlobCleanupTask
  pub task_sequence : ℕ
  pub clock : ℕ
  pub drawn : ℕ
  pub failure : Option Error

-- `parse_uuid` is `none` where `uuid.Parse` fails, and the canonical text otherwise; `new_uuid n` is
-- the identifier that the `n`-th call of `uuid.NewString` draws. `sort_texts` and `text_lt` are
-- the database's collation, `uuid_lt` is its order of identifiers, `valid_json` is `json.Valid`,
-- `stored_json` the text that `jsonb` gives back, `parse_utc` and `parse_rfc3339` are the two calls of
-- `time.Parse`.
pub record Database : Type 0 where
  pub parse_uuid : String → Option String
  pub new_uuid : ℕ → String
  pub round_second : ℕ → ℕ
  pub truncate_second : ℕ → ℕ
  pub sort_texts : List String → List String
  pub text_lt : String → String → Bool
  pub uuid_lt : String → String → Bool
  pub valid_json : List ℕ → Bool
  pub stored_json : List ℕ → List ℕ
  pub parse_utc : String → Option ℕ
  pub parse_rfc3339 : String → Option ℕ
