-- ===== src/Config.antt =====
-- internal/config: the settings, read from the environment and checked. Durations are nanoseconds.
pub mod Checks
pub mod Settings
pub mod Accepted
use test.Common.{
  ℕ, ◌*◌, String, Bool, true, false, not, ◌&&◌, ◌||◌, Option, none, some, List, [], ◌∷◌, ◌++◌, ◌==◌,
  if◌then◌else◌,
}
use Prim.Native.String
use test.Common.Int.{ℤ, pos, is_nonpositive, is_negative, ltb_ℤ}
use test.Common.Text.{codes, is_blank}

pub record FileStorageConfig : Type 0 where
  pub root : String

pub record S3StorageConfig : Type 0 where
  pub endpoint : String
  pub region : String
  pub bucket : String
  pub access_key : String
  pub secret_key : String
  pub use_tls : Bool

pub record Config : Type 0 where
  pub http_host : String
  pub http_port : ℤ
  pub postgres_dsn : String
  pub admin_token : String
  pub storage_driver : String
  pub file_storage : FileStorageConfig
  pub s3_storage : S3StorageConfig
  pub session_ttl : ℤ
  pub cache_ttl : ℤ
  pub cache_max_bytes : ℤ
  pub cache_max_items : ℤ
  pub max_request_bytes : ℤ
  pub max_file_bytes : ℤ
  pub max_json_bytes : ℤ
  pub max_grant_items : ℤ
  pub max_list_limit : ℤ
  pub http_read_timeout : ℤ
  pub http_write_timeout : ℤ
  pub http_idle_timeout : ℤ
  pub http_processing_timeout : ℤ
  pub graceful_shutdown_timeout : ℤ
  pub postgres_max_conns : ℤ
  pub postgres_min_conns : ℤ
  pub postgres_max_conn_lifetime : ℤ
  pub postgres_max_conn_idle_time : ℤ
  pub postgres_health_check_period : ℤ
  pub log_level : String
  pub expose_cache_header : Bool

-- A parsed URL.
pub record Url : Type 0 where
  pub scheme : String
  pub host : String
  pub path : String

-- The functions of the library that read the texts: `time.ParseDuration`, `strconv.Atoi`,
-- `strconv.ParseInt`, `strconv.ParseBool`, `url.Parse`, `strings.TrimSpace`, `strings.ToLower` and
-- `strings.Trim` with "/".
pub record Parsers : Type 0 where
  pub parse_duration : String → Option ℤ
  pub atoi : String → Option ℤ
  pub parse_int64 : String → Option ℤ
  pub parse_bool : String → Option Bool
  pub parse_url : String → Option Url
  pub trim_space : String → String
  pub to_lower : String → String
  pub trim_slashes : String → String

abbrev pub Lookup : Type 0
Lookup = String → Option String

abbrev second : ℕ
second = 1000000000

-- The configuration before the environment is read.
abbrev pub default_config : Config
default_config = record {
  http_host = "0.0.0.0";
  http_port = pos 8080;
  postgres_dsn = "";
  admin_token = "";
  storage_driver = "filesystem";
  file_storage = record { root = "./data/blobs" };
  s3_storage = record {
    endpoint = "";
    region = "us-east-1";
    bucket = "";
    access_key = "";
    secret_key = "";
    use_tls = true;
  };
  session_ttl = pos (24 * 3600 * second);
  cache_ttl = pos (5 * 60 * second);
  cache_max_bytes = pos (64 * 1048576);
  cache_max_items = pos 1000;
  max_request_bytes = pos (32 * 1048576);
  max_file_bytes = pos (25 * 1048576);
  max_json_bytes = pos 1048576;
  max_grant_items = pos 100;
  max_list_limit = pos 100;
  http_read_timeout = pos (10 * second);
  http_write_timeout = pos (30 * second);
  http_idle_timeout = pos (60 * second);
  http_processing_timeout = pos (30 * second);
  graceful_shutdown_timeout = pos (10 * second);
  postgres_max_conns = pos 10;
  postgres_min_conns = pos 1;
  postgres_max_conn_lifetime = pos (3600 * second);
  postgres_max_conn_idle_time = pos (30 * 60 * second);
  postgres_health_check_period = pos (60 * second);
  log_level = "info";
  expose_cache_header = false;
}

infixr 5 ◌+++◌
abbrev pub ◌+++◌ : String → String → String
a +++ b = String.◌++◌ a b
