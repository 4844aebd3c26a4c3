-- ===== src/Tests/AuthTests.antt =====
-- The auth service on a store with one user, and passwords.
use test.Common.{
  first, ℕ, zero, suc, ◌+◌, ◌≡◌, refl, String, true, false, ◌&&◌, none, some, List, [], ◌∷◌, ◌==◌,
  arith, ltb, leb, if◌then◌else◌, length, any, Bool-cases, inl, inr, ap, sym, ◌∙◌, ◌<◌,
}
use test.Common.Base64.{encode}
use test.Common.Bytes.{same_bytes, same_bytes_refl}
use test.Common.Int.{pos}
use test.Common.Text.{codes}
use test.Domain.{Session, User}
use test.Errors.{Result, ok, err, Action, err_unauthorized, sentinel, mismatched_password, is}
use test.Auth
use test.Auth.{
  Crypto, valid_password, authenticate, authorize, logout, is_lower_char, is_upper_char,
  is_digit_char,
}
use test.Auth.Lifecycle.{IsEntropy, IsKeyed, service, authorize-authenticate, authorize-logout}
use test.Auth.Registration.{authenticate-register}
use test.Auth.Passwords.{valid_password_lem, is_special_char}
use test.Postgres.{Store, Database, UserRow}
use test.Postgres.SessionLaws.{IsInserted}
use test.Postgres.Sessions as Tables
use test.Postgres.Sessions.{user_of}

program : Unit {0}
unfolding Auth.register Tables.create_user Tables.insert_user Auth.valid_login authenticate
    authorize logout Auth.check_password Auth.create_session Auth.token_digest Tables.by_login
    Tables.by_token_hash Tables.revoke Tables.create_session Tables.insert_session Tables.statement
    Tables.revoke_rows Tables.session_row encode same_bytes first valid_password is Auth.see_all
    Auth.see_char
program = tt

abbrev pub crypto : Crypto
crypto = record {
  sha256 = codes;
  generate_from_password = λ password cost. ok (codes password);
  compare_hash_and_password = λ hash password.
      if same_bytes hash (codes password) then none else some (sentinel mismatched_password);
  min_cost = pos 4;
  max_cost = pos 31;
  is_letter = λ c. false;
  is_digit = λ c. false;
}

abbrev pub database : Database
database = record {
  parse_uuid = λ s. some s;
  new_uuid = λ n. "new";
  round_second = λ t. t;
  truncate_second = λ t. t;
  sort_texts = λ l. l;
  text_lt = λ a b. false;
  uuid_lt = λ a b. false;
  valid_json = λ t. true;
  stored_json = λ t. t;
  parse_utc = λ s. none;
  parse_rfc3339 = λ s. none;
}

abbrev pub ada : UserRow
ada = record { id = "1"; login = "adalovelace"; password_hash = codes "Secret-12"; created_at = 1 }

abbrev pub at_start : Store
at_start = record {
  users = ada ∷ [];
  sessions = [];
  documents = [];
  document_grants = [];
  blob_cleanup_tasks = [];
  task_sequence = 0;
  clock = 3;
  drawn = 0;
  failure = none;
}

unfoldable pub zeros : ℕ → List ℕ
zeros zero = []
zeros (suc n) = 0 ∷ zeros n

length-zeros : (n : ℕ) → length (zeros n) ≡ n
unfolding zeros
length-zeros zero = omega arith
length-zeros (suc n) = omega (arith, length-zeros n)

abbrev pub entropy : ℕ → Action Store (List ℕ)
entropy n w = (ok (zeros n), w)

entropy-IsEntropy : IsEntropy entropy
entropy-IsEntropy = record { users = λ n w. refl; full = full_read }
  where
    full_read : (n : ℕ) (w : Store) (bytes : List ℕ) → (entropy n w).0 ≡ ok bytes → length bytes ≡ n
    full_read n w bytes p = ground (arith, length-zeros n)

at_start-IsKeyed : IsKeyed database at_start.users
unfolding first
at_start-IsKeyed = record { canonical = known; by_id = one_user }
  where
    known :
        (login : String) (row : UserRow)
        → first (λ r. r.login == login) (ada ∷ []) ≡ some row
        → database.parse_uuid row.id ≡ some row.id
    known login row p = ground (arith)

    one_user :
        (login : String) (row : UserRow)
        → first (λ r. r.login == login) (ada ∷ []) ≡ some row
        → first (λ r. r.id == row.id) (ada ∷ []) ≡ some row
    one_user login row p = elim (Bool-cases ("adalovelace" == login)) [
      | inl e ↦
          let same : ada ≡ row = cc (rw e at p) in
          ap (λ (r : UserRow). first (λ u. u.id == r.id) (ada ∷ [])) (sym same) ∙ ap some same
      | inr ne ↦ absurd (ground (arith, ne))
    ]

abbrev pub auth : Auth.Service Store
auth = service database [] 10 (pos 12) entropy (λ s. s.clock)

abbrev signed_in : Result String × Store
signed_in = authenticate crypto auth "adalovelace" "Secret-12" at_start

abbrev token : String
token = encode (zeros 32)

wrong_password :
    (authenticate crypto auth "adalovelace" "Secret-13" at_start).0 ≡ err err_unauthorized
unfolding program
wrong_password = refl

issued : signed_in ≡ (ok token, signed_in.1)
unfolding program zeros
issued = refl

authorize-authenticate_example :
    (row : UserRow) × (session : Session) × (before : Store) × (first
        (λ r. r.login == "adalovelace")
        at_start.users
      ≡ some row)
    × (crypto.compare_hash_and_password row.password_hash "Secret-12" ≡ none)
    × (signed_in.1.sessions ≡ session ∷ before.sessions)
    × (session.expires_at ≡ before.clock + 10)
    × (authorize crypto auth token (record signed_in.1 { clock = 9 }) ≡ (
        if ltb 9 session.expires_at
        then (ok (user_of row), record signed_in.1 { clock = 9 })
        else (err err_unauthorized, record signed_in.1 { clock = 9 })))
unfolding program zeros
authorize-authenticate_example =
    authorize-authenticate crypto database [] 10 (pos 12) entropy (λ s. s.clock) entropy-IsEntropy
      "adalovelace" "Secret-12" at_start signed_in.1 (record signed_in.1 { clock = 9 }) token
      at_start-IsKeyed issued refl refl refl (omega arith)

abbrev signed_out : Result (Unit {0}) × Store
signed_out = logout crypto auth token signed_in.1

left : signed_out ≡ (ok tt, signed_out.1)
unfolding program zeros
left = refl

authorize-logout_example :
    authorize crypto auth token signed_out.1 ≡ (err err_unauthorized, signed_out.1)
unfolding program zeros
authorize-logout_example =
    authorize-logout crypto database [] 10 (pos 12) entropy (λ s. s.clock) token signed_in.1
      signed_out.1 signed_out.1 left (omega arith) refl refl

valid_password_lem_example : valid_password crypto "Secret-12" ≡ (
    leb 8 (length (codes "Secret-12"))
    && any is_lower_char (codes "Secret-12")
    && any is_upper_char (codes "Secret-12")
    && any is_digit_char (codes "Secret-12")
    && any (is_special_char crypto) (codes "Secret-12"))
valid_password_lem_example = valid_password_lem crypto "Secret-12"

abbrev added : Result User × Store
added =
    Auth.register crypto (service database (codes "admin") 10 (pos 12) entropy (λ s. s.clock))
      "admin" "gracehopper" "Secret-34" at_start

abbrev grace : User
grace = record { id = "new"; login = "gracehopper"; created_at = 3 }

was_added : added ≡ (ok grace, added.1)
unfolding program
was_added = refl

accepts :
    (p : String) (hash : List ℕ)
    → crypto.generate_from_password p (pos 12) ≡ ok hash
    → crypto.compare_hash_and_password hash p ≡ none
accepts p hash made = ground (arith, same_bytes_refl (codes p), made)

rejects :
    (hash : List ℕ)
    → crypto.generate_from_password "Secret-34" (pos 12) ≡ ok hash
    → crypto.compare_hash_and_password hash "Secret-35" ≡ some (sentinel mismatched_password)
unfolding same_bytes
rejects hash made = ground (arith, made)

abbrev administered : Auth.Service Store
administered = service database (codes "admin") 10 (pos 12) entropy (λ s. s.clock)

new_token :
    any
      (λ (row : Session). same_bytes row.token_hash (crypto.sha256 (encode (zeros 32))))
      added.1.sessions
    ≡ false
unfolding program
new_token = refl

some_bytes : 0 < length (crypto.sha256 (encode (zeros 32)))
unfolding program zeros
some_bytes = omega arith

clock_before : added.1.clock < added.1.clock + 10
unfolding program
clock_before = omega arith

added_up : added.1.failure ≡ none
unfolding program
added_up = refl

authenticate-register_example :
    ((session : Session) × (t' : Store) × (authenticate crypto administered "gracehopper"
          "Secret-34" added.1
        ≡ (ok (encode (zeros 32)), t'))
      × IsInserted
          (crypto.sha256 (encode (zeros 32)))
          (added.1.clock + 10)
          "new"
          added.1
          t'
          session)
    × ((authenticate crypto administered "gracehopper" "Secret-35" added.1).0
        ≡ err err_unauthorized)
authenticate-register_example =
    authenticate-register crypto database (codes "admin") 10 (pos 12) entropy (λ s. s.clock) "admin"
      "gracehopper" "Secret-34" "Secret-35" at_start added.1 added.1 added.1 grace (zeros 32)
      accepts rejects was_added refl refl added_up refl refl added_up some_bytes clock_before
      new_token
