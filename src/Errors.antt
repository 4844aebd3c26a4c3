-- ===== src/Errors.antt =====
-- internal/domain/errors.go and the sentinels of internal/repository/repository.go and
-- internal/blob/storage.go, with the error values that the code builds around them, and the
-- results and actions of fallible code.
use test.Common.{
  ◌⊎◌, inl, inr, ◌≡◌, refl, ℕ, String, Bool, false, ◌||◌, Option, none, some, eqb, true,
}

pub data DomainError : Type 0 where
  invalid_argument unauthorized forbidden not_found not_implemented : DomainError

pub data RepositoryError : Type 0 where
  not_found conflict forbidden invalid_argument internal : RepositoryError

pub data BlobError : Type 0 where
  invalid_key not_found : BlobError

-- The sentinel errors that the code compares with `errors.Is`, those of `context`, bcrypt and
-- pgx among them.
pub data Sentinel : Type 0 where
  domain : DomainError → Sentinel
  repository : RepositoryError → Sentinel
  blob : BlobError → Sentinel
  canceled deadline_exceeded mismatched_password no_rows not_exist : Sentinel

-- `wrap` is `fmt.Errorf` with `%w`, `join` is `errors.Join`, `pg_error` a server's error with its
-- code, `plain` any other error.
pub data Error : Type 0 where
  sentinel : Sentinel → Error
  wrap : String → Error → Error
  join : Error → Error → Error
  pg_error : String → Error
  plain : String → Error

abbrev number_of : Sentinel → ℕ
number_of (domain invalid_argument) = 0
number_of (domain unauthorized) = 1
number_of (domain forbidden) = 2
number_of (domain not_found) = 3
number_of (domain not_implemented) = 4
number_of (repository not_found) = 5
number_of (repository conflict) = 6
number_of (repository forbidden) = 7
number_of (repository invalid_argument) = 8
number_of (repository internal) = 9
number_of (blob invalid_key) = 10
number_of (blob not_found) = 11
number_of canceled = 12
number_of deadline_exceeded = 13
number_of mismatched_password = 14
number_of no_rows = 15
number_of not_exist = 16

-- `errors.Is`
unfoldable pub is : Error → Sentinel → Bool
is (sentinel s) t = eqb (number_of s) (number_of t)
is (wrap _ e) t = is e t
is (join a b) t = is a t || is b t
is (pg_error _) t = false
is (plain _) t = false

abbrev pub err_invalid_argument : Error
err_invalid_argument = sentinel (domain invalid_argument)

abbrev pub err_unauthorized : Error
err_unauthorized = sentinel (domain unauthorized)

abbrev pub err_forbidden : Error
err_forbidden = sentinel (domain forbidden)

abbrev pub err_not_found : Error
err_not_found = sentinel (domain not_found)

pub data Result {ℓ} (A : Type ℓ) : Type ℓ where
  ok : A → Result A
  err : Error → Result A

-- Code that changes a world `W` and may fail; what was changed before an error stays changed.
abbrev pub Action : Type 0 → Type 0 → Type 0
Action W A = W → Result A × W

-- The error of a result, as Go's `err`, `none` for `nil`.
abbrev pub error_of {ℓ} : {A : Type ℓ} → Result A → Option Error
error_of (ok _) = none
error_of (err e) = some e

pub Result-cases {ℓ} :
    {A : Type ℓ} (r : Result A) → ((a : A) × (r ≡ ok a)) ⊎ ((e : Error) × (r ≡ err e))
Result-cases (ok a) = inl (a, refl)
Result-cases (err e) = inr (e, refl)

abbrev pub is_ok {ℓ} : {A : Type ℓ} → Result A → Bool
is_ok (ok _) = true
is_ok (err _) = false
