-- ===== src/Tests/ConfigTests.antt =====
-- A configuration that is loaded, and the services that are built from it.
use test.Common.{◌≡◌, refl, true, false, ◌||◌, none, some, [], ◌∷◌, ◌==◌, if◌then◌else◌}
use test.Auth
use test.Auth.{Machine}
use test.Common.Int.{pos, ltb_ℤ}
use test.Config.{Config, Lookup, Parsers}
use test.Config.Checks
use test.Config.Settings
use test.Config.Settings.{loaded, load_from_lookup, read_settings}
use test.Config.Accepted.{allows, worker_config, load_from_lookup-new_service}
use test.Errors.{ok, is_ok}
use test.Service
use test.Service.Cleanup.{new_cleanup_worker}
use test.Service.System.{
  Server, server_users, server_documents, server_blobs, server_cleanup, server_sessions,
}
use test.Tests.AuthTests.{crypto, database, zeros}
use test.Tests.BlobTests.{suffix}

abbrev parsers : Parsers
parsers = record {
  parse_duration = λ s. none;
  atoi = λ s. if s == "8081" then some (pos 8081) else none;
  parse_int64 = λ s. none;
  parse_bool = λ s. none;
  parse_url = λ s. some (record { scheme = "postgres"; host = "db"; path = "/documents" });
  trim_space = λ s. s;
  to_lower = λ s. s;
  trim_slashes = λ s. s;
}

abbrev environment : Lookup
environment name =
    if name == "POSTGRES_DSN"
    then some "postgres://db/documents"
    else if name == "ADMIN_TOKEN"
    then some "admin"
    else if name == "HTTP_PORT"
    then some "8081"
    else none

program : Unit {0}
unfolding load_from_lookup Checks.validate Checks.validate_postgres_dsn Settings.parse_table
    Settings.parse_setting Settings.set_string
program = tt

abbrev config : Config
config = (read_settings parsers environment).config

was_loaded : load_from_lookup parsers environment ≡ loaded config
unfolding program
was_loaded = refl

-- Without the environment the two settings without a default are the problems.
missing :
    load_from_lookup parsers (λ name. none)
    ≡ Settings.invalid ("POSTGRES_DSN is required" ∷ "ADMIN_TOKEN is required" ∷ [])
unfolding program
missing = refl

abbrev machine : Machine Server
machine = record { rand_reader = λ n w. (ok (zeros n), w); time_now = λ w. w.store.clock }

load_from_lookup-new_service_example :
    ((ltb_ℤ config.http_port (pos 1) || ltb_ℤ (pos 65535) config.http_port) ≡ false)
    × (ltb_ℤ config.max_request_bytes config.max_file_bytes ≡ false)
    × (is_ok (
          Auth.new_service crypto machine
            (some (server_users database))
            (some (server_sessions database))
            (record {
              admin_token = config.admin_token;
              session_ttl = config.session_ttl;
              password_cost = pos 0;
              rand = none;
              now = none;
            }))
        ≡ true)
    × (is_ok (
          Service.new_service machine.rand_reader none
            (some (server_documents database))
            (some (server_users database))
            (some (server_blobs suffix))
            (record {
              max_file_bytes = config.max_file_bytes;
              max_grant_items = config.max_grant_items;
              max_list_limit = config.max_list_limit;
              rand = none;
              cleanup = some server_cleanup;
              invalidate_delete = none;
            }))
        ≡ true)
    × (allows config.http_processing_timeout (
          new_cleanup_worker machine.time_now
            (some server_cleanup)
            (some (server_blobs suffix))
            (worker_config config.http_processing_timeout))
        ≡ true)
load_from_lookup-new_service_example =
    load_from_lookup-new_service parsers crypto machine environment config (server_users database)
      (server_sessions database) (server_documents database) (server_blobs suffix) none
      server_cleanup none refl refl was_loaded
