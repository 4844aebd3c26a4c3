-- ===== src/Postgres/SessionLaws.antt =====
-- What the session queries of sessions.go promise to one another.
use test.Common.{
  first, ℕ, ◌≤◌, ◌<◌, ◌≡◌, refl, ap, ◌∙◌, String, false, none, some, List, [], ◌∷◌, ◌==◌, arith,
  inl, inr, ltb, if◌then◌else◌, any, length, Option-cases,
}
use test.Common.Bytes.{same_bytes, same_bytes_refl}
use test.Domain.{Session}
use test.Errors.{Error, ok, err, sentinel, no_rows}
use test.Postgres.{Store, Database, UserRow}
use test.Postgres.Errors.{classify}
use test.Postgres.Sessions.{
  create_session, by_token_hash, revoke, insert_session, revoke_rows, statement, is_live, user_of,
}

-- Where no row has the hash, none is live under it.
first-absent :
    (h : List ℕ) (now : ℕ) (rows : List Session)
    → any (λ row. same_bytes row.token_hash h) rows ≡ false
    → first (is_live h now) rows ≡ none
unfolding first
first-absent h now [] p = refl
first-absent h now (row ∷ rows) p = ground (arith, first-absent h now rows)

-- What holds of a successful `INSERT INTO sessions`.
pub record IsInserted (h : List ℕ) (expires_at : ℕ) (user_id : String) (s s' : Store)
    (session : Session) : Type 0 where
  pub rows : s'.sessions ≡ session ∷ s.sessions
  pub users : s'.users ≡ s.users
  pub fresh : any (λ row. same_bytes row.token_hash h) s.sessions ≡ false
  pub hash : session.token_hash ≡ h
  pub user : session.user_id ≡ user_id
  pub expiry : session.expires_at ≡ expires_at
  pub unrevoked : session.revoked_at ≡ none

module _ (d : Database) where
  insert_session_lem :
      (user_id : String) (h : List ℕ) (expires_at : ℕ) (s s' : Store) (session : Session)
      → insert_session d user_id h expires_at s ≡ (ok session, s')
      → IsInserted h expires_at user_id s s' session
  unfolding insert_session
  insert_session_lem user_id h expires_at s s' session p = ground arith

-- An identifier that `uuid.Parse` leaves as it is.
pub create_session_lem :
    (d : Database) (user_id : String) (h : List ℕ) (expires_at : ℕ) (s s' : Store)
    (session : Session)
    → d.parse_uuid user_id ≡ some user_id
    → create_session d user_id h expires_at s ≡ (ok session, s')
    → IsInserted h expires_at user_id s s' session × (0 < length h)
unfolding create_session statement
create_session_lem d user_id h expires_at s s' session known p =
    let body : insert_session d user_id h expires_at s ≡ (ok session, s') = ground arith in
    (insert_session_lem d user_id h expires_at s s' session body, ground arith)

-- The newest session is the one that is found, for as long as it is live.
first-inserted :
    (h : List ℕ) (expires_at : ℕ) (user_id : String) (s s' : Store) (session : Session) (now : ℕ)
    → IsInserted h expires_at user_id s s' session
    → first (is_live h now) s'.sessions ≡ (if ltb now expires_at then some session else none)
first-inserted h expires_at user_id s s' session now i = ap (first (is_live h now)) i.rows ∙ head
  where
    head :
        first (is_live h now) (session ∷ s.sessions)
        ≡ (if ltb now expires_at then some session else none)
    head =
        unfold first in
        rw (i.hash, same_bytes_refl h, i.unrevoked, i.expiry)
          (rw (first-absent h now s.sessions i.fresh) refl)

module _ (d : Database) where
  -- A failed insertion changes nothing.
  insert_failed :
      (user_id : String) (h : List ℕ) (expires_at : ℕ) (s s' : Store) (e : Error)
      → insert_session d user_id h expires_at s ≡ (err e, s')
      → s' ≡ s
  unfolding insert_session
  insert_failed user_id h expires_at s s' e p = ground arith

  pub create_session_failed :
      (user_id : String) (h : List ℕ) (expires_at : ℕ) (s s' : Store) (e : Error)
      → create_session d user_id h expires_at s ≡ (err e, s')
      → s' ≡ s
  unfolding create_session statement
  create_session_failed user_id h expires_at s s' e p = elim (Option-cases (d.parse_uuid user_id)) [
    | inl bad ↦ ground arith
    | inr (id, good) ↦ ground (arith, insert_failed id h expires_at s s' e)
  ]

-- A lookup of the newest session's hash finds its user exactly until the session expires.
pub by_token_hash-inserted :
    (h : List ℕ) (expires_at : ℕ) (user_id : String) (s s' t : Store) (session : Session)
    (row : UserRow) (now : ℕ)
    → IsInserted h expires_at user_id s s' session
    → 0 < length h
    → 0 < now
    → first (λ r. r.id == user_id) s.users ≡ some row
    → t.sessions ≡ s'.sessions
    → t.users ≡ s'.users
    → t.failure ≡ none
    → by_token_hash h now t ≡ (
        if ltb now expires_at
        then (ok (session, user_of row), t)
        else (err (classify "find session" (sentinel no_rows)), t))
unfolding by_token_hash
by_token_hash-inserted h expires_at user_id s s' t session row now i hashed timed owned rows users
      up =
    let found : first (is_live h now) t.sessions
        ≡ (if ltb now expires_at then some session else none) =
      ap (first (is_live h now)) rows ∙ first-inserted h expires_at user_id s s' session now i in
    let user : first (λ r. r.id == session.user_id) t.users ≡ some row =
      rw (users, i.users, i.user) owned in
    ground (arith, found, user)

-- After a revocation no session under the hash is live, then or later.
revoke_rows_lem :
    (h : List ℕ) (now later : ℕ) (rows : List Session)
    → now ≤ later
    → first (is_live h later) (revoke_rows h now rows) ≡ none
unfolding first revoke_rows
revoke_rows_lem h now later [] p = refl
revoke_rows_lem h now later (row ∷ rows) p = ground (arith, revoke_rows_lem h now later rows)

pub by_token_hash-revoke :
    (h : List ℕ) (now later : ℕ) (s s' t : Store)
    → now ≤ later
    → revoke h now s ≡ (ok tt, s')
    → t.sessions ≡ s'.sessions
    → t.failure ≡ none
    → by_token_hash h later t ≡ (err (classify "find session" (sentinel no_rows)), t)
unfolding by_token_hash revoke
by_token_hash-revoke h now later s s' t p q rows up =
    let kept : s'.sessions ≡ revoke_rows h now s.sessions = ground arith in
    let gone : first (is_live h later) t.sessions ≡ none =
      ap (first (is_live h later)) (rows ∙ kept) ∙ revoke_rows_lem h now later s.sessions p in
    ground (arith, gone)
