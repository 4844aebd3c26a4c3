-- ===== src/Config/Accepted.antt =====
-- What the services may rely on where the configuration is loaded.
use test.Common.{
  ℕ, eqb, ◌≡◌, refl, subst, String, Bool, true, false, ◌||◌, Option, none, some, List, [], ◌∷◌,
  ◌++◌, ◌==◌, arith, eq_iff, inl, inr, All, Bool-cases,
}
use test.Auth
use test.Auth.{Crypto, Machine}
use test.Blob.{Storage}
use test.Common.Int.{ℤ, pos, to_ℕ, is_nonpositive, is_negative, ltb_ℤ}
use test.Common.Text.{codes, is_blank}
use test.Config.{Config, Lookup, Parsers}
use test.Config.Checks.{
  validate, problem_lists, problem, concat, not_positive, positive_durations, positive_values,
  storage_problems, is_log_level,
}
use test.Config.Settings.{loaded, loaded_of, load_from_lookup, read_settings}
use test.Errors.{Action, Result, ok, err, is_ok}
use test.Repository.{UserRepository, SessionRepository, DocumentRepository, BlobCleanupRepository}
use test.Service
use test.Service.Cleanup.{CleanupWorker, CleanupWorkerConfig, new_cleanup_worker}

append-nil : (xs ys : List String) → xs ++ ys ≡ [] → (xs ≡ []) × (ys ≡ [])
append-nil [] ys p = (refl, p)
append-nil (x ∷ xs) ys p = absurd (cc)

concat-nil : (ls : List (List String)) → concat ls ≡ [] → All (λ l. l ≡ []) ls
unfolding concat
concat-nil [] p = tt
concat-nil (l ∷ rest) p =
    let (first, others) = append-nil l (concat rest) p in (first, concat-nil rest others)

problem-nil : (test : Bool) (text : String) → problem test text ≡ [] → test ≡ false
problem-nil true text p = absurd (cc)
problem-nil false text p = refl

not_positive-nil :
    (l : List (String × ℤ)) → not_positive l ≡ [] → All (λ e. is_nonpositive e.1 ≡ false) l
unfolding not_positive
not_positive-nil [] p = tt
not_positive-nil ((name, value) ∷ rest) p =
    let (first, others) = append-nil _ _ p in
    (problem-nil (is_nonpositive value) _ first, not_positive-nil rest others)

-- What `validate` asks of the settings.
pub record IsAccepted (c : Config) : Type 0 where
  pub host : is_blank (codes c.http_host) ≡ false
  pub port : (ltb_ℤ c.http_port (pos 1) || ltb_ℤ (pos 65535) c.http_port) ≡ false
  pub token : is_blank (codes c.admin_token) ≡ false
  pub storage : storage_problems c ≡ []
  pub durations : All (λ e. is_nonpositive e.1 ≡ false) (positive_durations c)
  pub min_conns : is_negative c.postgres_min_conns ≡ false
  pub conns : ltb_ℤ c.postgres_max_conns c.postgres_min_conns ≡ false
  pub max_conns : ltb_ℤ (pos 2147483647) c.postgres_max_conns ≡ false
  pub values : All (λ e. is_nonpositive e.1 ≡ false) (positive_values c)
  pub file_bytes : ltb_ℤ c.max_request_bytes c.max_file_bytes ≡ false
  pub json_bytes : ltb_ℤ c.max_request_bytes c.max_json_bytes ≡ false
  pub write_timeout : ltb_ℤ c.http_write_timeout c.http_processing_timeout ≡ false
  pub log_level : is_log_level c.log_level ≡ true

module _ (x : Parsers) where
  validate-IsAccepted : (c : Config) → validate x c ≡ [] → IsAccepted c
  unfolding validate problem_lists
  validate-IsAccepted c p =
      let (host, after_host) = concat-nil (problem_lists x c) p in
      let (port, after_port) = after_host in
      let (dsn, after_dsn) = after_port in
      let (token, after_token) = after_dsn in
      let (storage, after_storage) = after_token in
      let (durations, after_durations) = after_storage in
      let (min_conns, after_min_conns) = after_durations in
      let (conns, after_conns) = after_min_conns in
      let (max_conns, after_max_conns) = after_conns in
      let (values, after_values) = after_max_conns in
      let (file_bytes, after_file_bytes) = after_values in
      let (json_bytes, after_json_bytes) = after_file_bytes in
      let (write_timeout, after_write_timeout) = after_json_bytes in
      let (log_level, after_log_level) = after_write_timeout in
      record {
        host = problem-nil _ _ host;
        port = problem-nil _ _ port;
        token = problem-nil _ _ token;
        storage = storage;
        durations = not_positive-nil (positive_durations c) durations;
        min_conns = problem-nil _ _ min_conns;
        conns = problem-nil _ _ conns;
        max_conns = problem-nil _ _ max_conns;
        values = not_positive-nil (positive_values c) values;
        file_bytes = problem-nil _ _ file_bytes;
        json_bytes = problem-nil _ _ json_bytes;
        write_timeout = problem-nil _ _ write_timeout;
        log_level = ground (arith, problem-nil _ _ log_level);
      }

  loaded_of_nil :
      (c d : Config) (problems : List String)
      → loaded_of c problems ≡ loaded d
      → (c ≡ d) × (problems ≡ [])
  loaded_of_nil c d [] p = (cc, refl)
  loaded_of_nil c d (q ∷ problems) p = absurd (cc)

  -- Settings that are loaded passed every check.
  load_from_lookup-IsAccepted :
      (lookup : Lookup) (c : Config) → load_from_lookup x lookup ≡ loaded c → IsAccepted c
  unfolding load_from_lookup
  load_from_lookup-IsAccepted lookup c p =
      let l = read_settings x lookup in
      let (same, none_left) = loaded_of_nil l.config c (l.problems ++ validate x l.config) p in
      let (read, checked) = append-nil l.problems (validate x l.config) none_left in
      subst IsAccepted same (validate-IsAccepted l.config checked)

not_blank : (s : String) → is_blank (codes s) ≡ false → (s == "") ≡ false
unfolding is_blank
not_blank s h = elim (Bool-cases (s == "")) [
  | inl e ↦ absurd (blank (rw ((eq_iff s "").0 e) at h))
  | inr ne ↦ ne
]
  where
    blank : is_blank (codes "") ≡ false → ⊥
    blank p = cc

session_ttl_positive : (c : Config) → IsAccepted c → is_nonpositive c.session_ttl ≡ false
unfolding positive_durations
session_ttl_positive c accepted = let (first, _) = accepted.durations in first

limits_positive :
    (c : Config)
    → IsAccepted c
    → (is_nonpositive c.max_file_bytes ≡ false) × (is_nonpositive c.max_grant_items ≡ false)
unfolding positive_values
limits_positive c accepted =
    let (_, after_bytes) = accepted.values in
    let (_, after_items) = after_bytes in
    let (_, after_requests) = after_items in
    let (files, after_files) = after_requests in
    let (_, after_json) = after_files in let (grants, _) = after_json in (files, grants)

module _ {W : Type 0} where
  built_auth :
      (crypto : Crypto) (machine : Machine W) (users : UserRepository W)
      (sessions : SessionRepository W) (token : String) (ttl : ℤ)
      → ltb_ℤ (pos 12) crypto.min_cost ≡ false
      → ltb_ℤ crypto.max_cost (pos 12) ≡ false
      → (token == "") ≡ false
      → is_nonpositive ttl ≡ false
      → is_ok (
          Auth.new_service crypto machine (some users) (some sessions) (record {
            admin_token = token;
            session_ttl = ttl;
            password_cost = pos 0;
            rand = none;
            now = none;
          }))
        ≡ true
  unfolding Auth.new_service Auth.new_with_cost
  built_auth crypto machine users sessions token ttl low high named positive =
      rw (named, positive, low, high)

  built_service :
      (machine : Machine W) (users : UserRepository W) (documents : DocumentRepository W)
      (blobs : Storage W) (own_cleanup : Option (BlobCleanupRepository W)) (cfg : Service.Config W)
      → is_nonpositive cfg.max_file_bytes ≡ false
      → is_nonpositive cfg.max_grant_items ≡ false
      → is_ok (
          Service.new_service machine.rand_reader own_cleanup
            (some documents)
            (some users)
            (some blobs)
            cfg)
        ≡ true
  unfolding Service.new_service
  built_service machine users documents blobs own_cleanup cfg files grants = rw (files, grants)

processing_timeout_positive :
    (c : Config) → IsAccepted c → is_nonpositive c.http_processing_timeout ≡ false
unfolding positive_durations
processing_timeout_positive c accepted =
    let (_, after_session) = accepted.durations in
    let (_, after_cache) = after_session in
    let (_, after_read) = after_cache in
    let (_, after_write) = after_read in
    let (_, after_idle) = after_write in let (processing, _) = after_idle in processing

-- Whether the worker allows this time for an operation.
abbrev pub allows : {W : Type 0} → ℤ → Result (CleanupWorker W) → Bool
allows timeout (ok worker) = eqb worker.operation_timeout (to_ℕ timeout)
allows timeout (err e) = false

-- The worker as cmd/server/main.go configures it.
abbrev pub worker_config : {W : Type 0} → ℤ → CleanupWorkerConfig W
worker_config timeout = record {
  batch_size = pos 0;
  poll_interval = pos 0;
  operation_timeout = timeout;
  initial_backoff = pos 0;
  max_backoff = pos 0;
  now = none;
}

built_worker :
    {W : Type 0} (machine : Machine W) (blobs : Storage W) (cleanup : BlobCleanupRepository W)
    (timeout : ℤ)
    → is_nonpositive timeout ≡ false
    → allows timeout
        (new_cleanup_worker machine.time_now (some cleanup) (some blobs) (worker_config timeout))
      ≡ true
unfolding new_cleanup_worker
built_worker machine blobs cleanup timeout positive = rw (positive) (eqb_refl (to_ℕ timeout))
  where
    eqb_refl : (n : ℕ) → eqb n n ≡ true
    eqb_refl n = ground arith

-- A configuration that is loaded names a port of TCP and keeps files within the size of requests.
-- With the arguments that cmd/server/main.go takes from it, and given the repositories and a storage,
-- `auth.NewService`, `document.NewService` and `NewCleanupWorker` fail on none of it, if bcrypt allows
-- the default cost, and the worker has the processing timeout for an operation, not its default. Of the
-- storage, which main.go builds for the file system only, nothing is said.
pub load_from_lookup-new_service :
    {W : Type 0} (x : Parsers) (crypto : Crypto) (machine : Machine W) (lookup : Lookup)
    (c : Config) (users : UserRepository W) (sessions : SessionRepository W)
    (documents : DocumentRepository W) (blobs : Storage W)
    (own_cleanup : Option (BlobCleanupRepository W)) (cleanup : BlobCleanupRepository W)
    (invalidate_delete : Option (String → Action W (Unit {0})))
    → ltb_ℤ (pos 12) crypto.min_cost ≡ false
    → ltb_ℤ crypto.max_cost (pos 12) ≡ false
    → load_from_lookup x lookup ≡ loaded c
    → ((ltb_ℤ c.http_port (pos 1) || ltb_ℤ (pos 65535) c.http_port) ≡ false)
      × (ltb_ℤ c.max_request_bytes c.max_file_bytes ≡ false)
      × (is_ok (
            Auth.new_service crypto machine (some users) (some sessions) (record {
              admin_token = c.admin_token;
              session_ttl = c.session_ttl;
              password_cost = pos 0;
              rand = none;
              now = none;
            }))
          ≡ true)
      × (is_ok (
            Service.new_service machine.rand_reader own_cleanup
              (some documents)
              (some users)
              (some blobs)
              (record {
                max_file_bytes = c.max_file_bytes;
                max_grant_items = c.max_grant_items;
                max_list_limit = c.max_list_limit;
                rand = none;
                cleanup = some cleanup;
                invalidate_delete = invalidate_delete;
              }))
          ≡ true)
      × (allows c.http_processing_timeout (
            new_cleanup_worker machine.time_now
              (some cleanup)
              (some blobs)
              (worker_config c.http_processing_timeout))
          ≡ true)
load_from_lookup-new_service x crypto machine lookup c users sessions documents blobs own_cleanup
      cleanup invalidate_delete low high p =
    let accepted = load_from_lookup-IsAccepted x lookup c p in
    let (files, grants) = limits_positive c accepted in
    (
      accepted.port,
      accepted.file_bytes,
      built_auth crypto machine users sessions c.admin_token c.session_ttl low high
          (not_blank c.admin_token accepted.token) (session_ttl_positive c accepted),
      built_service machine users documents blobs own_cleanup _ files grants,
      built_worker machine blobs cleanup c.http_processing_timeout
          (processing_timeout_positive c accepted),
    )
