-- ===== src/Domain.antt =====
-- internal/domain/models.go. An instant is a number of time units since the epoch; a text is valid
-- UTF-8, and raw bytes are numbers. `nil` and empty slices are one list, but for the raw JSON.
use test.Common.{ℕ, String, Bool, Option, List}
use test.Common.Int.{ℤ}

pub record User : Type 0 where
  pub id : String
  pub login : String
  pub created_at : ℕ

pub record Session : Type 0 where
  pub id : String
  pub user_id : String
  pub token_hash : List ℕ
  pub created_at : ℕ
  pub expires_at : ℕ
  pub revoked_at : Option ℕ

-- `json` is `none` where the raw message is `nil`.
pub record Document : Type 0 where
  pub id : String
  pub owner_id : String
  pub name : String
  pub mime : String
  pub is_file : Bool
  pub is_public : Bool
  pub json : Option (List ℕ)
  pub storage_key : String
  pub size_bytes : ℤ
  pub created_at : ℕ
  pub updated_at : ℕ
  pub version : ℕ
  pub grants : List String

pub record DocumentFilter : Type 0 where
  pub owner_login : String
  pub key : String
  pub value : String
  pub limit : ℤ
