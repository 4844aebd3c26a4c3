-- ===== src/Postgres/Errors.antt =====
-- `classify` of internal/repository/postgres/postgres.go.
use test.Common.{String, ◌||◌, Option, none, some, ◌==◌, if◌then◌else◌}
use test.Errors.{
  Error, RepositoryError, sentinel, wrap, join, pg_error, plain, repository, no_rows, canceled,
  deadline_exceeded, is,
}

-- `errors.As(err, &pgErr)`: the code of the server's error in the chain.
unfoldable pub pg_code : Error → Option String
pg_code (sentinel _) = none
pg_code (wrap _ e) = pg_code e
pg_code (join a b) = elim (pg_code a) [ some code ↦ some code | none ↦ pg_code b ]
pg_code (pg_error code) = some code
pg_code (plain _) = none

abbrev internal_error : String → Error
internal_error operation = wrap operation (sentinel (repository RepositoryError.internal))

classify_code : String → Option String → Error
classify_code operation none = internal_error operation
classify_code operation (some code) =
    if code == "23505"
    then wrap operation (sentinel (repository RepositoryError.conflict))
    else if code == "23503"
    then wrap operation (sentinel (repository RepositoryError.not_found))
    else internal_error operation

-- For an error that is not `nil`.
unfoldable pub classify : String → Error → Error
unfolding classify_code pg_code is
classify operation e =
    if is e no_rows
    then wrap operation (sentinel (repository RepositoryError.not_found))
    else if is e canceled || is e deadline_exceeded
    then wrap operation e
    else classify_code operation (pg_code e)
