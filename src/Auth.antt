-- ===== src/Auth.antt =====
-- internal/auth/service.go. The repositories, the source of random bytes and the clock act on a
-- world `W`; the digest, bcrypt and the tables of `unicode` are the parameter `Crypto`.
pub mod Passwords
pub mod Lifecycle
pub mod Registration
use test.Common.{
  ℕ, zero, suc, ◌+◌, String, len, Bool, true, false, not, ◌&&◌, ◌||◌, Option, none, some, List, [],
  ◌∷◌, ◌==◌, ltb, leb, eqb, if◌then◌else◌, length, all, is_some,
}
use mathlib.Core.Option
use test.Common.Base64.{encode}
use test.Common.Bytes.{same_bytes}
use test.Common.Int.{ℤ, pos, negsuc, ltb_ℤ, is_nonpositive, to_ℕ}
use test.Common.Text.{codes, in_range}
use test.Domain.{User, Session}
use test.Errors.{
  Error, Result, ok, err, Action, is, wrap, plain, sentinel, repository, mismatched_password,
  RepositoryError, err_invalid_argument, err_unauthorized,
}
use test.Repository.{UserRepository, SessionRepository}

-- What the service calls and this repository does not implement: `sha256.Sum256`, bcrypt and its
-- bounds for the cost, `unicode.IsLetter` and `unicode.IsDigit`.
pub record Crypto : Type 0 where
  pub sha256 : String → List ℕ
  pub generate_from_password : String → ℤ → Result (List ℕ)
  pub compare_hash_and_password : List ℕ → String → Option Error
  pub min_cost : ℤ
  pub max_cost : ℤ
  pub is_letter : ℕ → Bool
  pub is_digit : ℕ → Bool

-- `rand.Reader` read in full, and `time.Now`.
pub record Machine (W : Type 0) : Type 0 where
  pub rand_reader : ℕ → Action W (List ℕ)
  pub time_now : W → ℕ

pub record Config (W : Type 0) : Type 0 where
  pub admin_token : String
  pub session_ttl : ℤ
  pub password_cost : ℤ
  pub rand : Option (ℕ → Action W (List ℕ))
  pub now : Option (W → ℕ)

pub record Service (W : Type 0) : Type 0 where
  pub users : UserRepository W
  pub sessions : SessionRepository W
  pub admin_digest : List ℕ
  pub session_ttl : ℕ
  pub password_cost : ℤ
  pub rand : ℕ → Action W (List ℕ)
  pub now : W → ℕ

abbrev pub default_password_cost : ℤ
default_password_cost = pos 12

abbrev pub token_bytes : ℕ
token_bytes = 32

abbrev pub max_token_attempts : ℕ
max_token_attempts = 5

module _ {W : Type 0} (x : Crypto) (machine : Machine W) where
  unfoldable pub new_with_cost :
      UserRepository W → SessionRepository W → Config W → ℤ → Result (Service W)
  new_with_cost users sessions cfg cost =
      if ltb_ℤ cost x.min_cost || ltb_ℤ x.max_cost cost
      then err (wrap "configure auth" err_invalid_argument)
      else ok (record {
        users = users;
        sessions = sessions;
        admin_digest = x.sha256 cfg.admin_token;
        session_ttl = to_ℕ cfg.session_ttl;
        password_cost = cost;
        rand = Option.get_or cfg.rand machine.rand_reader;
        now = Option.get_or cfg.now machine.time_now;
      })

  abbrev is_zero : ℤ → Bool
  is_zero (pos n) = eqb n 0
  is_zero (negsuc n) = false

  -- `none` stands for a `nil` repository.
  unfoldable pub new_service :
      Option (UserRepository W) → Option (SessionRepository W) → Config W → Result (Service W)
  unfolding new_with_cost
  new_service (some users) (some sessions) cfg =
      if cfg.admin_token == "" || is_nonpositive cfg.session_ttl
      then err (wrap "configure auth" err_invalid_argument)
      else new_with_cost users sessions cfg
          (if is_zero cfg.password_cost then default_password_cost else cfg.password_cost)
  new_service _ _ cfg = err (wrap "configure auth" err_invalid_argument)

abbrev pub is_lower_char : ℕ → Bool
is_lower_char c = in_range b'a' b'z' c

abbrev pub is_upper_char : ℕ → Bool
is_upper_char c = in_range b'A' b'Z' c

abbrev pub is_digit_char : ℕ → Bool
is_digit_char c = in_range b'0' b'9' c

unfoldable pub valid_login : String → Bool
valid_login login =
    if ltb (len login) 8
    then false
    else all (λ c. is_lower_char c || is_upper_char c || is_digit_char c) (codes login)

-- The flags of the loop of `validPassword`.
pub record Seen : Type 0 where
  pub lower : Bool
  pub upper : Bool
  pub digit : Bool
  pub special : Bool

module _ (x : Crypto) where
  -- The `switch` of the loop, on one character.
  unfoldable pub see_char : ℕ → Seen → Seen
  see_char c seen =
      if is_lower_char c
      then record seen { lower = true }
      else if is_upper_char c
      then record seen { upper = true }
      else if is_digit_char c
      then record seen { digit = true }
      else if not (x.is_letter c) && not (x.is_digit c)
      then record seen { special = true }
      else seen

  unfoldable pub see_all : List ℕ → Seen → Seen
  unfolding see_char
  see_all [] seen = seen
  see_all (c ∷ rest) seen = see_all rest (see_char c seen)

  unfoldable pub valid_password : String → Bool
  unfolding see_all
  valid_password password =
      if ltb (length (codes password)) 8
      then false
      else (let seen =
            see_all (codes password)
              (record { lower = false; upper = false; digit = false; special = false }) in
          seen.lower && seen.upper && seen.digit && seen.special)

  unfoldable pub token_digest : String → List ℕ
  token_digest token = x.sha256 token

  module _ {W : Type 0} (s : Service W) where
    -- The errors of `users.Create`.
    register_outcome : Result User × W → Result User × W
    register_outcome (ok user, w) = (ok user, w)
    register_outcome (err e, w) =
        if is e (repository RepositoryError.conflict)
          || is e (repository RepositoryError.invalid_argument)
        then (err err_invalid_argument, w)
        else (err (wrap "register user" e), w)

    unfoldable pub register : String → String → String → Action W User
    unfolding register_outcome same_bytes valid_login valid_password
    register admin_token login password w =
        if not (same_bytes (x.sha256 admin_token) s.admin_digest)
        then (err err_unauthorized, w)
        else if not (valid_login login) || not (valid_password password)
        then (err err_invalid_argument, w)
        else elim (x.generate_from_password password s.password_cost) [
          | err e ↦ (err (wrap "register user" err_invalid_argument), w)
          | ok hash ↦ register_outcome (s.users.create login hash w)
        ]

    after_create : Action W String → String → Result Session × W → Result String × W
    after_create retry token (ok session, w) = (ok token, w)
    after_create retry token (err e, w) =
        if is e (repository RepositoryError.conflict)
        then retry w
        else (err (wrap "create session" e), w)

    after_rand : User → Action W String → Result (List ℕ) × W → Result String × W
    after_rand user retry (err e, w) = (err (wrap "generate session token" e), w)
    after_rand user retry (ok raw, w) =
        let token = encode raw in
        after_create retry token
          (s.sessions.create user.id (token_digest token) (s.now w + s.session_ttl) w)

    -- The loop of `Authenticate`: so many attempts are left to create a session.
    unfoldable pub create_session : ℕ → User → Action W String
    unfolding after_rand after_create token_digest
    create_session zero user w =
        (err (wrap "create session" (sentinel (repository RepositoryError.conflict))), w)
    create_session (suc attempts) user w =
        after_rand user (create_session attempts user) (s.rand token_bytes w)

    unfoldable pub check_password : String → User × List ℕ → Action W String
    unfolding create_session
    check_password password (user, hash) w = elim (x.compare_hash_and_password hash password) [
      | none ↦ create_session max_token_attempts user w
      | some e ↦
          if is e mismatched_password
          then (err err_unauthorized, w)
          else (err (plain "authenticate user: invalid stored credential"), w)
    ]

    found_user : String → Result (User × List ℕ) × W → Result String × W
    unfolding check_password
    found_user password (ok found, w) = check_password password found w
    found_user password (err e, w) =
        if is e (repository RepositoryError.not_found)
        then (err err_unauthorized, w)
        else (err (wrap "authenticate user" e), w)

    unfoldable pub authenticate : String → String → Action W String
    unfolding found_user
    authenticate login password w =
        if login == "" || password == ""
        then (err err_unauthorized, w)
        else found_user password (s.users.by_login login w)

    -- The errors of a session lookup or of a revocation: an unknown session is no session.
    session_error : String → Error → Error
    session_error operation e =
        if is e (repository RepositoryError.not_found)
          || is e (repository RepositoryError.invalid_argument)
        then err_unauthorized
        else wrap operation e

    found_session : Result (Session × User) × W → Result User × W
    unfolding session_error
    found_session (ok (session, user), w) = (ok user, w)
    found_session (err e, w) = (err (session_error "authorize session" e), w)

    unfoldable pub authorize : String → Action W User
    unfolding found_session token_digest
    authorize token w =
        if token == ""
        then (err err_unauthorized, w)
        else found_session (s.sessions.by_token_hash (token_digest token) (s.now w) w)

    revoked : Result (Unit {0}) × W → Result (Unit {0}) × W
    unfolding session_error
    revoked (ok done, w) = (ok done, w)
    revoked (err e, w) = (err (session_error "logout session" e), w)

    unfoldable pub logout : String → Action W Unit
    unfolding revoked token_digest
    logout token w =
        if token == ""
        then (err err_unauthorized, w)
        else revoked (s.sessions.revoke (token_digest token) (s.now w) w)
