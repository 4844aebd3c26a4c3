-- ===== src/Postgres/Sessions.antt =====
-- users.go and sessions.go of internal/repository/postgres.
use test.Common.{
  ℕ, suc, String, Bool, not, ◌&&◌, ◌||◌, Option, none, some, List, [], ◌∷◌, ◌==◌, ltb, eqb,
  if◌then◌else◌, is_some, any, select, map, length, first,
}
use test.Common.Bytes.{same_bytes}
use test.Domain.{User, Session}
use test.Errors.{
  Result, ok, err, Action, sentinel, wrap, repository, RepositoryError, no_rows, pg_error,
}
use test.Postgres.{Store, Database, UserRow}
use test.Postgres.Errors.{classify}
use test.Repository.{UserRepository, SessionRepository}

-- A statement: while the server cannot be reached it fails, and its error is classified.
unfoldable pub statement : {A : Type 0} → String → Action Store A → Action Store A
statement operation body s = elim s.failure [
  | some e ↦ (err (classify operation e), s)
  | none ↦ body s
]

abbrev pub invalid : {A : Type 0} → String → Result A
invalid operation = err (wrap operation (sentinel (repository RepositoryError.invalid_argument)))

abbrev pub user_of : UserRow → User
user_of row = record { id = row.id; login = row.login; created_at = row.created_at }

-- `revoked_at IS NULL AND expires_at > now`, of a session with the hash.
abbrev pub is_live : List ℕ → ℕ → Session → Bool
is_live token_hash now row =
    same_bytes row.token_hash token_hash && not (is_some row.revoked_at) && ltb now row.expires_at

-- The join of the live session with its user.
unfoldable pub session_row : Option Session → List UserRow → Option (Session × User)
unfolding first
session_row none rows = none
session_row (some session) rows = elim (first (λ row. row.id == session.user_id) rows) [
  | none ↦ none
  | some row ↦ some (session, user_of row)
]

-- `UPDATE sessions SET revoked_at`
unfoldable pub revoke_rows : List ℕ → ℕ → List Session → List Session
revoke_rows token_hash now rows =
    map (λ row. if is_live token_hash now row then record row { revoked_at = some now } else row)
      rows

unfoldable pub by_login : String → Action Store (User × List ℕ)
unfolding statement first
by_login login = statement "find user by login" (λ s.
    elim (first (λ row. row.login == login) s.users) [
      | none ↦ (err (classify "find user by login" (sentinel no_rows)), s)
      | some row ↦ (ok (user_of row, row.password_hash), s)
    ])

unfoldable pub by_token_hash : List ℕ → ℕ → Action Store (Session × User)
unfolding statement first session_row
by_token_hash token_hash now s =
    if eqb (length token_hash) 0 || eqb now 0
    then (invalid "find session", s)
    else statement "find session"
        (λ s. elim (session_row (first (is_live token_hash now) s.sessions) s.users) [
          | none ↦ (err (classify "find session" (sentinel no_rows)), s)
          | some found ↦ (ok found, s)
        ])
        s

unfoldable pub revoke : List ℕ → ℕ → Action Store (Unit {0})
unfolding statement revoke_rows
revoke token_hash now s =
    if eqb (length token_hash) 0 || eqb now 0
    then (invalid "revoke session", s)
    else statement "revoke session"
        (λ s.
          if any (is_live token_hash now) s.sessions
          then (ok tt, record s { sessions = revoke_rows token_hash now s.sessions })
          else (err (wrap "revoke session" (sentinel (repository RepositoryError.not_found))), s))
        s

module _ (d : Database) where
  -- `INSERT INTO users`: the login is unique.
  unfoldable pub insert_user : String → List ℕ → Action Store User
  insert_user login password_hash s =
      if any (λ row. row.login == login) s.users
      then (err (classify "create user" (pg_error "23505")), s)
      else (let row : UserRow = record {
        id = d.new_uuid s.drawn;
        login = login;
        password_hash = password_hash;
        created_at = d.round_second s.clock;
      } in
          (ok (user_of row), record s { users = row ∷ s.users; drawn = suc s.drawn }))

  unfoldable pub create_user : String → List ℕ → Action Store User
  unfolding statement insert_user
  create_user login password_hash s =
      if login == "" || eqb (length password_hash) 0
      then (invalid "create user", s)
      else statement "create user" (insert_user login password_hash) s

  unfoldable pub existing_logins : List String → Action Store (List String)
  unfolding statement
  existing_logins [] s = (ok [], s)
  existing_logins (login ∷ logins) s =
      statement "find existing logins"
        (λ s. (
          ok (
              d.sort_texts (
                map (λ row. row.login)
                  (select (λ row. any (λ l. l == row.login) (login ∷ logins)) s.users))),
          s,
        ))
        s

  abbrev pub users : UserRepository Store
  users = record { create = create_user; by_login = by_login; existing_logins = existing_logins }

  -- `INSERT INTO sessions`, with the check, the unique and the foreign key constraint of the table.
  unfoldable pub insert_session : String → List ℕ → ℕ → Action Store Session
  insert_session user_id token_hash expires_at s =
      let created_at = d.round_second s.clock in
      if not (ltb created_at expires_at)
      then (err (classify "create session" (pg_error "23514")), s)
      else if any (λ row. same_bytes row.token_hash token_hash) s.sessions
      then (err (classify "create session" (pg_error "23505")), s)
      else if not (any (λ row. row.id == user_id) s.users)
      then (err (classify "create session" (pg_error "23503")), s)
      else (let row : Session = record {
        id = d.new_uuid s.drawn;
        user_id = user_id;
        token_hash = token_hash;
        created_at = created_at;
        expires_at = expires_at;
        revoked_at = none;
      } in
          (ok row, record s { sessions = row ∷ s.sessions; drawn = suc s.drawn }))

  -- The instant 0 is Go's zero time.
  unfoldable pub create_session : String → List ℕ → ℕ → Action Store Session
  unfolding statement insert_session
  create_session user_id token_hash expires_at s = elim (d.parse_uuid user_id) [
    | none ↦ (invalid "create session", s)
    | some id ↦
        if eqb (length token_hash) 0 || eqb expires_at 0
        then (invalid "create session", s)
        else statement "create session" (insert_session id token_hash expires_at) s
  ]

  abbrev pub sessions : SessionRepository Store
  sessions = record { create = create_session; by_token_hash = by_token_hash; revoke = revoke }
