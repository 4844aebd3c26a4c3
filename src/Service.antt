-- ===== src/Service.antt =====
-- internal/document: the use cases of documents. The repositories, the blob storage, the random
-- bytes and the invalidation hook act on a world `W`.
pub mod Uploading
pub mod Reading
pub mod Cleanup
pub mod System
use test.Common.{
  ℕ, ◌+◌, String, Bool, true, false, ◌||◌, Option, none, some, List, ◌==◌, if◌then◌else◌,
}
use test.Common.Int.{ℤ, pos, is_nonpositive, to_ℕ}
use mathlib.Core.Option
use test.Blob.{Storage, Reader}
use test.Domain.{User, Document}
use test.Errors.{
  Error, Result, ok, err, Action, is, wrap, sentinel, repository, RepositoryError,
  err_invalid_argument, err_not_found, err_forbidden,
}
use test.Repository.{DocumentRepository, UserRepository, BlobCleanupRepository}

pub record Upload : Type 0 where
  pub document : Document
  pub file : Option Reader

pub record Content : Type 0 where
  pub document : Document
  pub file : Option Reader

-- The library functions that the use cases call: `json.Valid`, `mime.ParseMediaType` and
-- `mime.FormatMediaType`, `uuid.Parse`, the identifier made of random bytes, and the two calls of
-- `time.Parse`.
pub record Formats : Type 0 where
  pub valid_json : List ℕ → Bool
  pub parse_media_type : String → Option (String × List (String × String))
  pub format_media_type : String → List (String × String) → String
  pub parse_uuid : String → Option String
  pub uuid_of_bytes : List ℕ → String
  pub parse_utc : String → Option ℕ
  pub parse_rfc3339 : String → Option ℕ

pub record Config (W : Type 0) : Type 0 where
  pub max_file_bytes : ℤ
  pub max_grant_items : ℤ
  pub max_list_limit : ℤ
  pub rand : Option (ℕ → Action W (List ℕ))
  pub cleanup : Option (BlobCleanupRepository W)
  pub invalidate_delete : Option (String → Action W (Unit {0}))

pub record Service (W : Type 0) : Type 0 where
  pub documents : DocumentRepository W
  pub users : UserRepository W
  pub blobs : Storage W
  pub max_file : ℕ
  pub max_grants : ℕ
  pub max_list : ℤ
  pub rand : ℕ → Action W (List ℕ)
  pub cleanup : Option (BlobCleanupRepository W)
  pub invalidate_delete : Option (String → Action W (Unit {0}))

module _ {W : Type 0} (rand_reader : ℕ → Action W (List ℕ)) where
  -- `own_cleanup` is the cleanup repository that the document repository itself is, if it is one;
  -- a missing dependency is `none`.
  unfoldable pub new_service :
      Option (BlobCleanupRepository W)
      → Option (DocumentRepository W)
      → Option (UserRepository W)
      → Option (Storage W)
      → Config W
      → Result (Service W)
  new_service own_cleanup (some documents) (some users) (some blobs) cfg =
      if is_nonpositive cfg.max_file_bytes || is_nonpositive cfg.max_grant_items
      then err (wrap "configure document service" err_invalid_argument)
      else ok (record {
        documents = documents;
        users = users;
        blobs = blobs;
        max_file = to_ℕ cfg.max_file_bytes;
        max_grants = to_ℕ cfg.max_grant_items;
        max_list = if is_nonpositive cfg.max_list_limit then pos 100 else cfg.max_list_limit;
        rand = Option.get_or cfg.rand rand_reader;
        cleanup = elim cfg.cleanup [ some c ↦ some c | none ↦ own_cleanup ];
        invalidate_delete = cfg.invalidate_delete;
      })
  new_service _ _ _ _ _ = err (wrap "configure document service" err_invalid_argument)

-- `requester.ID == "" || requester.Login == ""`
abbrev pub is_anonymous : User → Bool
is_anonymous requester = requester.id == "" || requester.login == ""

-- `mapRepositoryError`
unfoldable pub map_repository_error : Error → Error
unfolding is
map_repository_error e =
    if is e (repository RepositoryError.invalid_argument)
      || is e (repository RepositoryError.conflict)
    then err_invalid_argument
    else if is e (repository RepositoryError.not_found)
    then err_not_found
    else if is e (repository RepositoryError.forbidden)
    then err_forbidden
    else wrap "document repository" e
