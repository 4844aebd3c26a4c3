-- ===== src/Auth/Registration.antt =====
-- `Register` over the PostgreSQL users, and the sign-in of the registered user.
use test.Common.{
  first, ℕ, suc, ◌+◌, ◌<◌, length, any, ◌≡◌, refl, ap, ◌∙◌, String, true, false, none, some, List,
  ◌∷◌, ◌==◌, arith, inl, inr, eq_iff, eq_refl, Bool-cases,
}
use test.Auth.{
  Crypto, Service, register, register_outcome, authenticate, create_session, check_password,
  valid_login, valid_password, max_token_attempts, token_bytes, token_digest, after_rand,
  after_create,
}
use test.Domain.{User, Session}
use test.Auth.Lifecycle.{service}
use test.Common.Base64.{encode}
use test.Common.Bytes.{same_bytes}
use test.Common.Int.{ℤ}
use test.Errors.{
  Action, Result-cases, sentinel, mismatched_password, err_unauthorized, Result, ok, err, is,
}
use test.Postgres.{Store, Database, UserRow}
use test.Postgres.SessionLaws.{IsInserted, create_session_lem}
use test.Postgres.Sessions as Tables
use test.Postgres.Sessions.{user_of}

-- The row that a successful registration inserted.
record IsRegistered (login : String) (hash : List ℕ) (user : User) (w w' : Store) : Type 0 where
  row : UserRow
  rows : w'.users ≡ row ∷ w.users
  named : row.login ≡ login
  hashed : row.password_hash ≡ hash
  same : user_of row ≡ user

module _ (d : Database) where
  insert_user-IsRegistered :
      (login : String) (hash : List ℕ) (user : User) (w w' : Store)
      → Tables.insert_user d login hash w ≡ (ok user, w')
      → IsRegistered login hash user w w'
  unfolding Tables.insert_user
  insert_user-IsRegistered login hash user w w' p = record {
    row = record {
      id = d.new_uuid w.drawn;
      login = login;
      password_hash = hash;
      created_at = d.round_second w.clock;
    };
    rows = ground arith;
    named = refl;
    hashed = refl;
    same = ground arith;
  }

  create_user-IsRegistered :
      (login : String) (hash : List ℕ) (user : User) (w w' : Store)
      → Tables.create_user d login hash w ≡ (ok user, w')
      → IsRegistered login hash user w w'
  unfolding Tables.create_user Tables.statement
  create_user-IsRegistered login hash user w w' p =
      insert_user-IsRegistered login hash user w w' (ground arith)

no_login : valid_login "" ≡ true → ⊥
no_login p = unfold valid_login in cc

by_login_row :
    (login : String) (hash : List ℕ) (user : User) (w w' t : Store)
    → IsRegistered login hash user w w'
    → t.users ≡ w'.users
    → t.failure ≡ none
    → Tables.by_login login t ≡ (ok (user, hash), t)
by_login_row login hash user w w' t i rows up =
    let first_row : first (λ r. r.login == login) t.users ≡ some i.row =
      ap (first (λ r. r.login == login)) (rows ∙ i.rows)
      ∙ unfold first in rw (i.named, eq_refl login) refl in
    unfold Tables.by_login Tables.statement in ground (arith, first_row, up, i.hashed, i.same)

login_nonempty : (login : String) → valid_login login ≡ true → (login == "") ≡ false
login_nonempty login fine = elim (Bool-cases (login == "")) [
  | inl e ↦ absurd (no_login (rw ((eq_iff login "").0 e) at fine))
  | inr ne ↦ ne
]

module _ (d : Database) where
  -- The insertion of a session whose constraints hold.
  create_session_ok :
      (user_id : String) (h : List ℕ) (expires_at : ℕ) (s : Store)
      → d.parse_uuid user_id ≡ some user_id
      → 0 < length h
      → s.failure ≡ none
      → d.round_second s.clock < expires_at
      → any (λ row. same_bytes row.token_hash h) s.sessions ≡ false
      → any (λ row. row.id == user_id) s.users ≡ true
      → (session : Session) × (s' : Store) × (Tables.create_session d user_id h expires_at s
          ≡ (ok session, s'))
        × IsInserted h expires_at user_id s s' session
  create_session_ok user_id h expires_at s known hashed running ahead fresh owned =
      let session : Session = record {
        id = d.new_uuid s.drawn;
        user_id = user_id;
        token_hash = h;
        created_at = d.round_second s.clock;
        expires_at = expires_at;
        revoked_at = none;
      } in
      let s' : Store = record s { sessions = session ∷ s.sessions; drawn = suc s.drawn } in
      let made : Tables.create_session d user_id h expires_at s ≡ (ok session, s') =
        unfold Tables.create_session Tables.statement Tables.insert_session in
        ground (arith, known, hashed, running, ahead, fresh, owned) in
      (session, s', made, (create_session_lem d user_id h expires_at s s' session known made).0)

module _ (x : Crypto) (d : Database) (digest : List ℕ) (ttl : ℕ) (cost : ℤ)
    (rand : ℕ → Action Store (List ℕ)) (now : Store → ℕ) where
  abbrev auth : Service Store
  auth = service d digest ttl cost rand now

  outcome-IsRegistered :
      (login : String) (hash : List ℕ) (user : User) (w w' : Store) (r : Result User × Store)
      → Tables.create_user d login hash w ≡ r
      → register_outcome x auth r ≡ (ok user, w')
      → IsRegistered login hash user w w'
  unfolding register_outcome
  outcome-IsRegistered login hash user w w' (ok found, v) made p =
      create_user-IsRegistered d login hash user w w' (made ∙ p)
  outcome-IsRegistered login hash user w w' (err e, v) made p = absurd (ground arith)

  register-IsRegistered :
      (admin_token login password : String) (w w' : Store) (user : User)
      → register x auth admin_token login password w ≡ (ok user, w')
      → (hash : List ℕ) × (x.generate_from_password password cost ≡ ok hash)
        × (valid_login login ≡ true)
        × (valid_password x password ≡ true)
        × IsRegistered login hash user w w'
  unfolding register
  register-IsRegistered admin_token login password w w' user p =
      elim (Result-cases (x.generate_from_password password cost)) [
        | inl (hash, good) ↦
            let login_fine : valid_login login ≡ true = ground (arith, good) in
            let password_fine : valid_password x password ≡ true = ground (arith, good) in
            let out : register_outcome x auth (Tables.create_user d login hash w) ≡ (ok user, w') =
              ground (arith, good, login_fine, password_fine) in
            (
              hash,
              good,
              login_fine,
              password_fine,
              outcome-IsRegistered login hash user w w' (Tables.create_user d login hash w) refl
                  out,
            )
        | inr (e, bad) ↦ absurd (ground (arith, bad))
      ]

  no_password : valid_password x "" ≡ true → ⊥
  no_password p = unfold valid_password in cc

  password_nonempty :
      (password : String) → valid_password x password ≡ true → (password == "") ≡ false
  password_nonempty password fine = elim (Bool-cases (password == "")) [
    | inl e ↦ absurd (no_password (rw ((eq_iff password "").0 e) at fine))
    | inr ne ↦ ne
  ]

  rejected :
      (login other : String) (hash : List ℕ) (user : User) (t : Store)
      → Tables.by_login login t ≡ (ok (user, hash), t)
      → x.compare_hash_and_password hash other ≡ some (sentinel mismatched_password)
      → (authenticate x auth login other t).0 ≡ err err_unauthorized
  rejected login other hash user t found mismatch =
      unfold authenticate check_password is in ground (arith, found, mismatch)

  -- The first attempt to create a session, whose random bytes are new.
  create_session_first :
      (attempts : ℕ) (user : User) (t v : Store) (raw : List ℕ)
      → rand token_bytes t ≡ (ok raw, v)
      → d.parse_uuid user.id ≡ some user.id
      → 0 < length (x.sha256 (encode raw))
      → v.failure ≡ none
      → d.round_second v.clock < now v + ttl
      → any (λ row. same_bytes row.token_hash (x.sha256 (encode raw))) v.sessions ≡ false
      → any (λ row. row.id == user.id) v.users ≡ true
      → (session : Session) × (t' : Store) × (create_session x auth (suc attempts) user t
          ≡ (ok (encode raw), t'))
        × IsInserted (x.sha256 (encode raw)) (now v + ttl) user.id v t' session
  create_session_first attempts user t v raw drawn known hashed running ahead fresh owned =
      let (session, t', made, inserted) =
        create_session_ok d user.id (x.sha256 (encode raw)) (now v + ttl) v known hashed running
          ahead fresh owned in
      (
        session,
        t',
        unfold create_session after_rand after_create token_digest in ground (arith, drawn, made),
        inserted,
      )

  owned_user :
      (login : String) (hash : List ℕ) (user : User) (w w' v : Store)
      → IsRegistered login hash user w w'
      → v.users ≡ w'.users
      → any (λ row. row.id == user.id) v.users ≡ true
  owned_user login hash user w w' v i rows =
      let same : i.row.id ≡ user.id = ap (λ (u : User). u.id) i.same in
      ap (any (λ row. row.id == user.id)) (rows ∙ i.rows) ∙ rw (same, eq_refl user.id) refl

  -- A user who was registered, with an identifier that `uuid.Parse` leaves as it is, signs in with
  -- the password that was given, if bcrypt accepts what it made of it, while the table of users is
  -- the one that the registration left: where random bytes are read whose digest no session has, the
  -- server answers before and after that, and the session would end after its creation, the token is
  -- the text of these bytes, and the newest session is this user's, under the digest of the token and
  -- for the time to live. Another password, which bcrypt does not match, is unauthorized.
  pub authenticate-register :
      (admin_token login password other : String) (w w' t v : Store) (user : User) (raw : List ℕ)
      → ((p : String) (hash : List ℕ)
          → x.generate_from_password p cost ≡ ok hash
          → x.compare_hash_and_password hash p ≡ none)
      → ((hash : List ℕ)
          → x.generate_from_password password cost ≡ ok hash
          → x.compare_hash_and_password hash other ≡ some (sentinel mismatched_password))
      → register x auth admin_token login password w ≡ (ok user, w')
      → d.parse_uuid user.id ≡ some user.id
      → t.users ≡ w'.users
      → t.failure ≡ none
      → rand token_bytes t ≡ (ok raw, v)
      → v.users ≡ w'.users
      → v.failure ≡ none
      → 0 < length (x.sha256 (encode raw))
      → d.round_second v.clock < now v + ttl
      → any (λ row. same_bytes row.token_hash (x.sha256 (encode raw))) v.sessions ≡ false
      → ((session : Session) × (t' : Store) × (authenticate x auth login password t
            ≡ (ok (encode raw), t'))
          × IsInserted (x.sha256 (encode raw)) (now v + ttl) user.id v t' session)
        × ((authenticate x auth login other t).0 ≡ err err_unauthorized)
  authenticate-register admin_token login password other w w' t v user raw accepts rejects p known
        rows up drawn rows_after up_after hashed ahead fresh =
      let (hash, good, login_fine, password_fine, i) =
        register-IsRegistered admin_token login password w w' user p in
      let found : Tables.by_login login t ≡ (ok (user, hash), t) =
        by_login_row login hash user w w' t i rows up in
      let named = login_nonempty login login_fine in
      let signed : authenticate x auth login password t
          ≡ create_session x auth max_token_attempts user t =
        unfold authenticate check_password in
        ground (
          arith,
          found,
          named,
          password_nonempty password password_fine,
          accepts password hash good,
        ) in
      let (session, t', created, inserted) =
        create_session_first 4 user t v raw drawn known hashed up_after ahead fresh
          (owned_user login hash user w w' v i rows_after) in
      (
        (session, t', signed ∙ created, inserted),
        rejected login other hash user t found (rejects hash good),
      )
