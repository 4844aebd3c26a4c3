-- ===== src/Auth/Lifecycle.antt =====
-- The auth service over the PostgreSQL repositories: what `Authenticate`, `Authorize` and `Logout`
-- promise to one another.
use test.Common.{
  first, ℕ, zero, suc, ◌+◌, ◌≤◌, ◌<◌, ◌≡◌, refl, ap, ◌∙◌, String, false, none, some, List, ◌∷◌,
  ◌==◌, arith, inl, inr, ltb, if◌then◌else◌, length, Bool-cases, Option-cases,
}
use test.Common.Base64.{encode, encode-ne}
use test.Common.Int.{ℤ}
use test.Auth.{
  Crypto, Service, authenticate, authorize, logout, create_session, token_digest, after_create,
  after_rand, check_password, token_bytes, max_token_attempts,
}
use test.Domain.{Session}
use test.Errors.{
  Result, ok, err, Action, err_unauthorized, sentinel, no_rows, is, repository, RepositoryError,
}
use test.Postgres.{Store, Database, UserRow}
use test.Postgres.Errors.{classify}
use test.Postgres.Sessions as Tables
use test.Postgres.Sessions.{user_of}
use test.Postgres.SessionLaws.{
  IsInserted, create_session_lem, create_session_failed, by_token_hash-inserted,
  by_token_hash-revoke,
}

-- Reading random bytes leaves the users alone, and a successful read returns as many bytes as asked.
pub record IsEntropy (rand : ℕ → Action Store (List ℕ)) : Type 0 where
  pub users : (n : ℕ) (w : Store) → (rand n w).1.users ≡ w.users
  pub full : (n : ℕ) (w : Store) (bytes : List ℕ) → (rand n w).0 ≡ ok bytes → length bytes ≡ n

-- A table of users in which identifiers are canonical and belong to one user.
pub record IsKeyed (d : Database) (users : List UserRow) : Type 0 where
  pub canonical :
      (login : String) (row : UserRow)
      → first (λ r. r.login == login) users ≡ some row
      → d.parse_uuid row.id ≡ some row.id
  pub by_id :
      (login : String) (row : UserRow)
      → first (λ r. r.login == login) users ≡ some row
      → first (λ r. r.id == row.id) users ≡ some row

-- The service that main.go builds: both repositories are those of the store.
abbrev pub service :
    Database → List ℕ → ℕ → ℤ → (ℕ → Action Store (List ℕ)) → (Store → ℕ) → Service Store
service d admin_digest ttl cost rand now = record {
  users = Tables.users d;
  sessions = Tables.sessions d;
  admin_digest = admin_digest;
  session_ttl = ttl;
  password_cost = cost;
  rand = rand;
  now = now;
}

-- The tables behind a token that was issued: a session was inserted for the user whose password
-- was checked, under the token's digest.
pub record IsIssued (x : Crypto) (ttl : ℕ) (now : Store → ℕ) (row : UserRow) (w w' : Store)
    (token : String) : Type 0 where
  pub before : Store
  pub session : Session
  pub inserted : IsInserted (x.sha256 token) (now before + ttl) row.id before w' session
  pub same_users : before.users ≡ w.users
  pub hashed : 0 < length (x.sha256 token)
  pub keyed : (token == "") ≡ false

module _ (x : Crypto) (d : Database) (digest : List ℕ) (ttl : ℕ) (cost : ℤ)
    (rand : ℕ → Action Store (List ℕ)) (now : Store → ℕ) (keeps : IsEntropy rand) where
  abbrev over : Service Store
  over = service d digest ttl cost rand now

  same_users_trans :
      (row : UserRow) (v w w' : Store) (token : String)
      → v.users ≡ w.users
      → IsIssued x ttl now row v w' token
      → IsIssued x ttl now row w w' token
  same_users_trans row v w w' token e i = record {
    before = i.before;
    session = i.session;
    inserted = i.inserted;
    same_users = i.same_users ∙ e;
    hashed = i.hashed;
    keyed = i.keyed;
  }

  -- One attempt, after the insertion.
  create_outcome :
      (row : UserRow) (retry : Action Store String) (fresh token : String) (w w' : Store)
      (r : Result Session × Store)
      → d.parse_uuid row.id ≡ some row.id
      → ((v : Store) → retry v ≡ (ok token, w') → IsIssued x ttl now row v w' token)
      → (fresh == "") ≡ false
      → Tables.create_session d row.id (x.sha256 fresh) (now w + ttl) w ≡ r
      → after_create x over retry fresh r ≡ (ok token, w')
      → IsIssued x ttl now row w w' token
  unfolding after_create
  create_outcome row retry fresh token w w' (ok session, v) known again known_token p q =
      let same : fresh ≡ token = ground arith in
      let final : v ≡ w' = ground arith in
      let p' : Tables.create_session d row.id (x.sha256 token) (now w + ttl) w ≡ (ok session, w') =
        rw (← same, ← final) p in
      let (inserted, hashed) =
        create_session_lem d row.id (x.sha256 token) (now w + ttl) w w' session known p' in
      record {
        before = w;
        session = session;
        inserted = inserted;
        same_users = refl;
        hashed = hashed;
        keyed = rw (← same) known_token;
      }
  create_outcome row retry fresh token w w' (err e, v) known again known_token p q =
      elim (Bool-cases (is e (repository RepositoryError.conflict))) [
        | inl taken ↦
            let back : v ≡ w =
              create_session_failed d row.id (x.sha256 fresh) (now w + ttl) w v e p in
            let q' : retry v ≡ (ok token, w') = ground (arith, taken) in
            same_users_trans row v w w' token (ap (λ (t : Store). t.users) back) (again v q')
        | inr broken ↦ absurd (ground (arith, broken))
      ]

  -- One attempt, after the random bytes are read.
  rand_outcome :
      (row : UserRow) (retry : Action Store String) (token : String) (w' : Store)
      (r : Result (List ℕ) × Store)
      → ((bytes : List ℕ) → r.0 ≡ ok bytes → length bytes ≡ token_bytes)
      → d.parse_uuid row.id ≡ some row.id
      → ((v : Store) → retry v ≡ (ok token, w') → IsIssued x ttl now row v w' token)
      → after_rand x over (user_of row) retry r ≡ (ok token, w')
      → IsIssued x ttl now row r.1 w' token
  unfolding after_rand token_digest
  rand_outcome row retry token w' (err e, v) full known again q = absurd (ground arith)
  rand_outcome row retry token w' (ok raw, v) full known again q =
      create_outcome row retry (encode raw) token v w'
        (Tables.create_session d row.id (x.sha256 (encode raw)) (now v + ttl) v) known again
        (encode-ne raw (omega (arith, full raw refl))) refl q

  create_session-IsIssued :
      (attempts : ℕ) (row : UserRow) (w w' : Store) (token : String)
      → d.parse_uuid row.id ≡ some row.id
      → create_session x over attempts (user_of row) w ≡ (ok token, w')
      → IsIssued x ttl now row w w' token
  unfolding create_session
  create_session-IsIssued zero row w w' token known p = absurd (ground arith)
  create_session-IsIssued (suc attempts) row w w' token known p =
      same_users_trans row (rand token_bytes w).1 w w' token (keeps.users token_bytes w) (
        rand_outcome row (create_session x over attempts (user_of row)) token w'
          (rand token_bytes w) (keeps.full token_bytes w) known
          (λ v q. create_session-IsIssued attempts row v w' token known q) p)

  -- The password of the named user is right, and a session was inserted for this user.
  authenticate-IsIssued :
      (login password : String) (w w' : Store) (token : String)
      → IsKeyed d w.users
      → authenticate x over login password w ≡ (ok token, w')
      → (row : UserRow) × (first (λ r. r.login == login) w.users ≡ some row)
        × (x.compare_hash_and_password row.password_hash password ≡ none)
        × IsIssued x ttl now row w w' token
  unfolding authenticate check_password Tables.by_login Tables.statement
  authenticate-IsIssued login password w w' token keyed p =
      elim (Option-cases (first (λ r. r.login == login) w.users)) [
        | inl missing ↦ absurd (ground (arith, missing))
        | inr (row, found) ↦
            let checked : x.compare_hash_and_password row.password_hash password ≡ none =
              ground (arith, found) in
            let looped : create_session x over max_token_attempts (user_of row) w ≡ (ok token, w') =
              ground (arith, found, checked) in
            (
              row,
              found,
              checked,
              create_session-IsIssued max_token_attempts row w w' token
                  (keyed.canonical login row found) looped,
            )
      ]

  found_live :
      (e : ℕ) (token : String) (session : Session) (row : UserRow) (t : Store)
      → (token == "") ≡ false
      → Tables.by_token_hash (x.sha256 token) (now t) t ≡ (
          if ltb (now t) e
          then (ok (session, user_of row), t)
          else (err (classify "find session" (sentinel no_rows)), t))
      → authorize x over token t
        ≡ (if ltb (now t) e then (ok (user_of row), t) else (err err_unauthorized, t))
  unfolding authorize classify
  found_live e token session row t named p = ground (arith, p)

  -- Where identifiers of users are canonical and unique, and reading random bytes leaves the
  -- users alone: a token that `Authenticate` returns is that of a user with this login and
  -- password, whose session is the newest row of the table. While the tables of users and
  -- sessions are those that it left and the server answers, `Authorize` returns this user
  -- exactly until the session expires, and afterwards the token is unauthorized.
  pub authorize-authenticate :
      (login password : String) (w w' t : Store) (token : String)
      → IsKeyed d w.users
      → authenticate x over login password w ≡ (ok token, w')
      → t.sessions ≡ w'.sessions
      → t.users ≡ w'.users
      → t.failure ≡ none
      → 0 < now t
      → (row : UserRow) × (session : Session) × (before : Store) × (first
            (λ r. r.login == login)
            w.users
          ≡ some row)
        × (x.compare_hash_and_password row.password_hash password ≡ none)
        × (w'.sessions ≡ session ∷ before.sessions)
        × (session.expires_at ≡ now before + ttl)
        × (authorize x over token t ≡ (
            if ltb (now t) session.expires_at
            then (ok (user_of row), t)
            else (err err_unauthorized, t)))
  authorize-authenticate login password w w' t token keyed p rows users up timed =
      let (row, found, checked, i) = authenticate-IsIssued login password w w' token keyed p in
      let owned : first (λ r. r.id == row.id) i.before.users ≡ some row =
        rw i.same_users (keyed.by_id login row found) in
      let looked =
        by_token_hash-inserted (x.sha256 token) (now i.before + ttl) row.id i.before w' t i.session
          row (now t) i.inserted i.hashed timed owned rows users up in
      (
        row,
        i.session,
        i.before,
        found,
        checked,
        i.inserted.rows,
        i.inserted.expiry,
        rw i.inserted.expiry (found_live (now i.before + ttl) token i.session row t i.keyed looked),
      )

module _ (x : Crypto) (d : Database) (digest : List ℕ) (ttl : ℕ) (cost : ℤ)
    (rand : ℕ → Action Store (List ℕ)) (now : Store → ℕ) where
  abbrev answering : Service Store
  answering = service d digest ttl cost rand now

  -- After a successful `Logout` the token is unauthorized, at that instant and at every later
  -- one, while the sessions are those that it left and the server answers.
  pub authorize-logout :
      (token : String) (w w' t : Store)
      → logout x answering token w ≡ (ok tt, w')
      → now w ≤ now t
      → t.sessions ≡ w'.sessions
      → t.failure ≡ none
      → authorize x answering token t ≡ (err err_unauthorized, t)
  authorize-logout token w w' t p later rows up =
      let done = revoked_of_logout token w w' p in
      missing token t done.0
        (by_token_hash-revoke (x.sha256 token) (now w) (now t) w w' t later done.1 rows up)
    where
      revoked_of_logout :
          (token : String) (w w' : Store)
          → logout x answering token w ≡ (ok tt, w')
          → ((token == "") ≡ false) × (Tables.revoke (x.sha256 token) (now w) w ≡ (ok tt, w'))
      revoked_of_logout token w w' p = unfold logout in ground arith

      missing :
          (token : String) (t : Store)
          → (token == "") ≡ false
          → Tables.by_token_hash (x.sha256 token) (now t) t
            ≡ (err (classify "find session" (sentinel no_rows)), t)
          → authorize x answering token t ≡ (err err_unauthorized, t)
      missing token t named q = unfold authorize classify in ground (arith, q)
