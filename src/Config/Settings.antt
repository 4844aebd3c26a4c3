-- ===== src/Config/Settings.antt =====
-- `LoadFromLookup` of internal/config/config.go.
use test.Common.{String, Option, none, some, List, [], ◌∷◌, ◌++◌}
use test.Common.Int.{ℤ}
use test.Config.{Config, Parsers, Lookup, default_config, ◌+++◌}
use test.Config.Checks.{validate}

-- The configuration so far, and the problems so far in the order in which they were met.
pub record Loading : Type 0 where
  pub config : Config
  pub problems : List String

-- `setString`
unfoldable pub set_string : Lookup → String → (String → Config → Config) → Config → Config
set_string lookup name set c = elim (lookup name) [ none ↦ c | some value ↦ set value c ]

-- `parseDuration`, `parseInt`, `parseInt64` and `parseBool` with `appendParse`: a value that does not
-- parse is a problem and changes nothing.
unfoldable pub parse_setting :
    {A : Type 0}
    → Lookup
    → (String → Option A)
    → String
    → String
    → (A → Config → Config)
    → Loading
    → Loading
parse_setting lookup parse complaint name set l = elim (lookup name) [
  | none ↦ l
  | some value ↦ elim (parse value) [
    | none ↦ record l { problems = l.problems ++ (name +++ complaint) ∷ [] }
    | some parsed ↦ record l { config = set parsed l.config }
  ]
]

-- A loop over a table of names and destinations.
unfoldable pub parse_table :
    {A : Type 0}
    → Lookup
    → (String → Option A)
    → String
    → List (String × (A → Config → Config))
    → Loading
    → Loading
unfolding parse_setting
parse_table lookup parse complaint [] l = l
parse_table lookup parse complaint ((name, set) ∷ table) l =
    parse_table lookup parse complaint table (parse_setting lookup parse complaint name set l)

abbrev integer_complaint : String
integer_complaint = " must be an integer"

abbrev bool_complaint : String
bool_complaint = " must be true or false"

abbrev duration_settings : List (String × (ℤ → Config → Config))
duration_settings =
    ("SESSION_TTL", λ v c. record c { session_ttl = v })
    ∷ ("CACHE_TTL", λ v c. record c { cache_ttl = v })
    ∷ ("HTTP_READ_TIMEOUT", λ v c. record c { http_read_timeout = v })
    ∷ ("HTTP_WRITE_TIMEOUT", λ v c. record c { http_write_timeout = v })
    ∷ ("HTTP_IDLE_TIMEOUT", λ v c. record c { http_idle_timeout = v })
    ∷ ("HTTP_PROCESSING_TIMEOUT", λ v c. record c { http_processing_timeout = v })
    ∷ ("GRACEFUL_SHUTDOWN_TIMEOUT", λ v c. record c { graceful_shutdown_timeout = v })
    ∷ ("POSTGRES_MAX_CONN_LIFETIME", λ v c. record c { postgres_max_conn_lifetime = v })
    ∷ ("POSTGRES_MAX_CONN_IDLE_TIME", λ v c. record c { postgres_max_conn_idle_time = v })
    ∷ ("POSTGRES_HEALTH_CHECK_PERIOD", λ v c. record c { postgres_health_check_period = v })
    ∷ []

abbrev int64_settings : List (String × (ℤ → Config → Config))
int64_settings =
    ("CACHE_MAX_BYTES", λ v c. record c { cache_max_bytes = v })
    ∷ ("MAX_REQUEST_BYTES", λ v c. record c { max_request_bytes = v })
    ∷ ("MAX_FILE_BYTES", λ v c. record c { max_file_bytes = v })
    ∷ ("MAX_JSON_BYTES", λ v c. record c { max_json_bytes = v })
    ∷ []

abbrev int_settings : List (String × (ℤ → Config → Config))
int_settings =
    ("CACHE_MAX_ITEMS", λ v c. record c { cache_max_items = v })
    ∷ ("POSTGRES_MAX_CONNS", λ v c. record c { postgres_max_conns = v })
    ∷ ("POSTGRES_MIN_CONNS", λ v c. record c { postgres_min_conns = v })
    ∷ ("MAX_GRANT_ITEMS", λ v c. record c { max_grant_items = v })
    ∷ ("MAX_LIST_LIMIT", λ v c. record c { max_list_limit = v })
    ∷ []

-- The configuration, or all problems.
pub data Loaded : Type 0 where
  loaded : Config → Loaded
  invalid : List String → Loaded

abbrev pub loaded_of : Config → List String → Loaded
loaded_of c [] = loaded c
loaded_of c (p ∷ problems) = invalid (p ∷ problems)

module _ (x : Parsers) where
  -- The texts of the environment that are taken as they are, between the settings that are parsed.
  abbrev read_storage : Lookup → Config → Config
  read_storage lookup c =
      let driven = set_string lookup "STORAGE_DRIVER" (λ v c. record c { storage_driver = v }) c in
      let lowered : Config = record driven {
        storage_driver = x.to_lower (x.trim_space driven.storage_driver);
      } in
      set_string lookup "S3_SECRET_KEY"
        (λ v c. record c { s3_storage = record c.s3_storage { secret_key = v } })
        (set_string lookup "S3_ACCESS_KEY"
          (λ v c. record c { s3_storage = record c.s3_storage { access_key = v } })
          (set_string lookup "S3_BUCKET"
            (λ v c. record c { s3_storage = record c.s3_storage { bucket = v } })
            (set_string lookup "S3_REGION"
              (λ v c. record c { s3_storage = record c.s3_storage { region = v } })
              (set_string lookup "S3_ENDPOINT"
                (λ v c. record c { s3_storage = record c.s3_storage { endpoint = v } })
                (set_string lookup "FILE_STORAGE_ROOT"
                  (λ v c. record c { file_storage = record { root = v } }) lowered)))))

  abbrev read_http : Lookup → Loading → Loading
  read_http lookup l =
      let host = record l {
        config = set_string lookup "HTTP_HOST" (λ v c. record c { http_host = v }) l.config;
      } in
      let port =
        parse_setting lookup x.atoi integer_complaint "HTTP_PORT"
          (λ v c. record c { http_port = v }) host in
      record port {
        config =
            set_string lookup "ADMIN_TOKEN" (λ v c. record c { admin_token = v })
              (set_string lookup "POSTGRES_DSN" (λ v c. record c { postgres_dsn = v }) port.config);
      }

  abbrev read_tables : Lookup → Loading → Loading
  read_tables lookup l = parse_table lookup x.atoi integer_complaint int_settings (
      parse_table lookup x.parse_int64 " must be an integer number of bytes" int64_settings
        (parse_table lookup x.parse_duration " must be a valid duration" duration_settings l))

  abbrev read_logging : Lookup → Loading → Loading
  read_logging lookup l =
      let levelled = set_string lookup "LOG_LEVEL" (λ v c. record c { log_level = v }) l.config in
      parse_setting lookup x.parse_bool bool_complaint "EXPOSE_CACHE_HEADER"
        (λ v c. record c { expose_cache_header = v })
        (record l {
          config = record levelled { log_level = x.to_lower (x.trim_space levelled.log_level) };
        })

  -- The settings of `LoadFromLookup` before they are validated.
  unfoldable pub read_settings : Lookup → Loading
  unfolding set_string parse_setting parse_table
  read_settings lookup =
      let http = read_http lookup (record { config = default_config; problems = [] }) in
      let storage = record http { config = read_storage lookup http.config } in
      let tls =
        parse_setting lookup x.parse_bool bool_complaint "S3_USE_TLS"
          (λ v c. record c { s3_storage = record c.s3_storage { use_tls = v } }) storage in
      read_logging lookup (read_tables lookup tls)

  unfoldable pub load_from_lookup : Lookup → Loaded
  unfolding read_settings validate
  load_from_lookup lookup =
      let l = read_settings lookup in loaded_of l.config (l.problems ++ validate x l.config)
