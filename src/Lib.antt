-- ===== src/Lib.antt =====
-- A model of the document server: users register and sign in, upload documents and files, share
-- them, list, read and delete them over HTTP. Metadata stand in PostgreSQL, the content of files in
-- a directory, and responses in a cache in memory.
--
-- The parts, and the files that model them (paths from the root of the repository):
--   Cache              internal/cache/cache.go: the LRU of responses (NewMemory, Get, Set, Delete,
--                      Invalidate, EntryFits, Stats, Close). `container/list` is a list with the
--                      newest element in front, the map an association list. The mutex makes each
--                      method one step, so a history of the cache is a list of calls (Cache/Run).
--   Errors, Domain,    internal/domain, internal/repository/repository.go: the error values with
--   Repository         `errors.Is`, the records, and the repository interfaces as records of actions.
--   Auth               internal/auth/service.go: Register, Authenticate, Authorize, Logout.
--   Blob               internal/blob: Put, Open and Delete of the file storage.
--   Postgres           internal/repository/postgres: users.go and sessions.go (Sessions), documents.go
--                      (Documents), blob_cleanup.go (Tasks), classify of postgres.go (Errors), and
--                      migrate.go (Migrations): loadMigrations, MigrateUp and MigrateDown, where each
--                      call of the driver may fail, and the text of a migration is a function. A
--                      statement is a function of the tables with the constraints of the migrations;
--                      a transaction that fails leaves the tables as they were.
--   Service            internal/document: List, Get and Delete (Reading), Upload (Uploading), and the
--                      cleanup worker (Cleanup). System puts the service over the tables and the
--                      directory together, as cmd/server/main.go does.
--   Transport          internal/httptransport: the observed response of handler.go (Response), the
--                      query of a listing (Filter), response.go with the response writers
--                      (Writer), NewHandler and what the handlers share (Handler),
--                      response_cache.go (Caching), the file answers of read_handler.go (Files),
--                      the handlers of users and sessions (Accounts) and of documents (Documents,
--                      with Documents/Reading, Documents/Parts and Documents/Uploads), route and
--                      normalizedRoute (Routing), and serveHTTP (Serving). A handler is a function
--                      of an `Exchange`: the world, the response and the observation of one
--                      request. The services and the cache are records of actions on that world,
--                      so that the cache which the service's hook of cmd/server/main.go shares is
--                      one value.
--   Config             internal/config/config.go: the settings and their defaults (Config), validate
--                      (Checks) and LoadFromLookup (Settings).
--   Common             tests, lists, association lists, texts, bytes, base64 and integers.
--   Tests              runs of the model, and the theorems at concrete inputs.
--
-- How code becomes definitions. Code that may fail and changes state is an `Action W A`, a function
-- from a world `W` to a result and the world after it: what was changed before an error stays
-- changed. Every step after a call of a repository, of the storage or of the random source is a
-- small function by clauses on the result of that call, in the order of the source. A `nil`
-- interface is `none`. An instant or a duration is a number; the instant 0 is Go's zero time. A
-- text is valid UTF-8 and is read by its code points.
--
-- What is not of this repository is a parameter: SHA-256, bcrypt and the tables of `unicode`
-- (`Crypto`), the parsing of UUIDs, times, JSON and media types (`Formats`, `Database`), the
-- collation, the order of identifiers and the rounding of PostgreSQL (`Database`), the writer of
-- net/http (`Wire`), the encoding of JSON, the parsing of queries, forms and settings and the
-- formats of numbers (`Library`, `Parsers`), random bytes and the clock. Where a theorem relies on
-- one of these it says so in its hypotheses.
--
-- Bounds and fuel. The eviction loop of Set runs on fuel, as many turns as the list has elements,
-- which is enough because each turn removes one. The copy of a file runs on fuel, as many rounds
-- as it has bytes, which is enough because each round takes one at least. The loop of Authenticate
-- has five attempts, as in the source. Int64 products of the cleanup worker and the read limit of
-- an upload wrap around; the limits of the cache, its sizes and instants are unbounded numbers,
-- and the limits given to NewMemory are not negative.
--
-- Not modelled: logging and the metrics behind their calls, the process wiring beside the composition
-- of the services, and the black-box test client; row locks and concurrent transactions of PostgreSQL;
-- the timers and timeouts of contexts. A handler runs to its end without a cancellation of its
-- context, and loads of one key do not overlap (singleflight); the deadline of a request may pass
-- between any two calls of the observed response (Response/Trace), and ends it in Serving.
pub mod Common
pub mod Cache
pub mod Errors
pub mod Domain
pub mod Repository
pub mod Auth
pub mod Blob
pub mod Postgres
pub mod Service
pub mod Transport
pub mod Config
mod Tests
