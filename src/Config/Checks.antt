-- ===== src/Config/Checks.antt =====
-- `validate` of internal/config/config.go.
use test.Common.{
  String, Bool, not, ◌&&◌, ◌||◌, none, some, List, [], ◌∷◌, ◌++◌, ◌==◌, if◌then◌else◌,
}
use test.Common.Int.{ℤ, pos, is_nonpositive, is_negative, ltb_ℤ}
use test.Common.Text.{codes, is_blank}
use test.Config.{Config, Parsers, ◌+++◌}

unfoldable pub concat : List (List String) → List String
concat [] = []
concat (l ∷ rest) = l ++ concat rest

-- A problem, where the test holds.
abbrev pub problem : Bool → String → List String
problem test text = if test then text ∷ [] else []

-- The loop over settings that must be positive.
unfoldable pub not_positive : List (String × ℤ) → List String
not_positive [] = []
not_positive ((name, value) ∷ rest) =
    problem (is_nonpositive value) (name +++ " must be positive") ++ not_positive rest

unfoldable pub is_log_level : String → Bool
is_log_level value = value == "debug" || value == "info" || value == "warn" || value == "error"

unfoldable pub positive_durations : Config → List (String × ℤ)
positive_durations c =
    ("SESSION_TTL", c.session_ttl)
    ∷ ("CACHE_TTL", c.cache_ttl)
    ∷ ("HTTP_READ_TIMEOUT", c.http_read_timeout)
    ∷ ("HTTP_WRITE_TIMEOUT", c.http_write_timeout)
    ∷ ("HTTP_IDLE_TIMEOUT", c.http_idle_timeout)
    ∷ ("HTTP_PROCESSING_TIMEOUT", c.http_processing_timeout)
    ∷ ("GRACEFUL_SHUTDOWN_TIMEOUT", c.graceful_shutdown_timeout)
    ∷ ("POSTGRES_MAX_CONN_LIFETIME", c.postgres_max_conn_lifetime)
    ∷ ("POSTGRES_MAX_CONN_IDLE_TIME", c.postgres_max_conn_idle_time)
    ∷ ("POSTGRES_HEALTH_CHECK_PERIOD", c.postgres_health_check_period)
    ∷ []

unfoldable pub positive_values : Config → List (String × ℤ)
positive_values c =
    ("CACHE_MAX_BYTES", c.cache_max_bytes)
    ∷ ("CACHE_MAX_ITEMS", c.cache_max_items)
    ∷ ("MAX_REQUEST_BYTES", c.max_request_bytes)
    ∷ ("MAX_FILE_BYTES", c.max_file_bytes)
    ∷ ("MAX_JSON_BYTES", c.max_json_bytes)
    ∷ ("MAX_GRANT_ITEMS", c.max_grant_items)
    ∷ ("MAX_LIST_LIMIT", c.max_list_limit)
    ∷ ("POSTGRES_MAX_CONNS", c.postgres_max_conns)
    ∷ []

-- The `switch` on the storage driver; the order of the problems of S3 is that of the source, which a
-- Go map does not promise.
unfoldable pub storage_problems : Config → List String
unfolding is_blank
storage_problems c =
    if c.storage_driver == "filesystem"
    then problem (is_blank (codes c.file_storage.root))
        "FILE_STORAGE_ROOT is required for filesystem storage"
    else if c.storage_driver == "s3"
    then problem (is_blank (codes c.s3_storage.endpoint)) "S3_ENDPOINT is required for S3 storage"
      ++ problem (is_blank (codes c.s3_storage.bucket)) "S3_BUCKET is required for S3 storage"
      ++ problem (is_blank (codes c.s3_storage.access_key))
          "S3_ACCESS_KEY is required for S3 storage"
      ++ problem (is_blank (codes c.s3_storage.secret_key))
          "S3_SECRET_KEY is required for S3 storage"
    else "STORAGE_DRIVER must be filesystem or s3" ∷ []

module _ (x : Parsers) where
  unfoldable pub validate_postgres_dsn : String → List String
  validate_postgres_dsn raw =
      let value = x.trim_space raw in
      if value == "" then "POSTGRES_DSN is required" ∷ [] else elim (x.parse_url value) [
        | none ↦
            "POSTGRES_DSN must be a valid postgres or postgresql URL with host and database" ∷ []
        | some u ↦
            problem
              (not (u.scheme == "postgres") && not (u.scheme == "postgresql")
                || u.host == ""
                || x.trim_slashes u.path == "")
              "POSTGRES_DSN must be a valid postgres or postgresql URL with host and database"
      ]

  -- The checks of `validate`, each with its problems.
  unfoldable pub problem_lists : Config → List (List String)
  unfolding is_blank validate_postgres_dsn storage_problems not_positive is_log_level
      positive_durations positive_values
  problem_lists c =
      problem (is_blank (codes c.http_host)) "HTTP_HOST must not be empty"
      ∷ problem (ltb_ℤ c.http_port (pos 1) || ltb_ℤ (pos 65535) c.http_port)
          "HTTP_PORT must be between 1 and 65535"
      ∷ validate_postgres_dsn c.postgres_dsn
      ∷ problem (is_blank (codes c.admin_token)) "ADMIN_TOKEN is required"
      ∷ storage_problems c
      ∷ not_positive (positive_durations c)
      ∷ problem (is_negative c.postgres_min_conns) "POSTGRES_MIN_CONNS must not be negative"
      ∷ problem (ltb_ℤ c.postgres_max_conns c.postgres_min_conns)
          "POSTGRES_MIN_CONNS must not exceed POSTGRES_MAX_CONNS"
      ∷ problem (ltb_ℤ (pos 2147483647) c.postgres_max_conns) "POSTGRES_MAX_CONNS is too large"
      ∷ not_positive (positive_values c)
      ∷ problem (ltb_ℤ c.max_request_bytes c.max_file_bytes)
          "MAX_FILE_BYTES must not exceed MAX_REQUEST_BYTES"
      ∷ problem (ltb_ℤ c.max_request_bytes c.max_json_bytes)
          "MAX_JSON_BYTES must not exceed MAX_REQUEST_BYTES"
      ∷ problem (ltb_ℤ c.http_write_timeout c.http_processing_timeout)
          "HTTP_WRITE_TIMEOUT must be at least HTTP_PROCESSING_TIMEOUT"
      ∷ problem (not (is_log_level c.log_level)) "LOG_LEVEL must be debug, info, warn, or error"
      ∷ []

  unfoldable pub validate : Config → List String
  unfolding concat problem_lists
  validate c = concat (problem_lists c)
