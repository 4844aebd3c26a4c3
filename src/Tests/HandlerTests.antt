-- ===== src/Tests/HandlerTests.antt =====
-- Requests to a handler over a world of a cache and an epoch.
use test.Common.{
  ℕ, suc, ◌≡◌, refl, true, false, not, none, some, [], ◌∷◌, ◌++◌, ◌==◌, any, if◌then◌else◌, is_some,
  ◌%◌, subst, first, Bool-cases, inl, inr, eqb, length,
}
use test.Common.Assoc.{lookup, without}
use test.Common.Int.{pos}
use test.Blob.{Reader}
use test.Cache
use test.Cache.{Memory, Entry, new_memory, has_tag}
use test.Cache.Operations.{new_memory-IsValid}
use test.Cache.Invariant.{IsValid}
use test.Cache.Store.{set-IsValid}
use test.Auth
use test.Common.Text.{codes}
use test.Postgres.{Store}
use test.Postgres.Errors as Failures
use test.Postgres.Sessions as Tables
use test.Transport.Response
use test.Transport.Response.{Wire, ObservedResponse}
use test.Errors.{ok, err, is, Action, err_unauthorized, err_not_found}
use test.Transport.Caching.{Library, memory_cache, list_cache_tag}
use test.Transport.Documents.Parts.{Decoder, RequiredMeta}
use test.Transport.Documents.Uploads.{store_upload}
use test.Transport.Documents.Uploads.Invalidation.{IsApart, HasMemory, get-store_upload}
use test.Transport.Files.{copy_buffer, new_capture}
use test.Transport.Files.Copy.{captured, copy_buffer_lem, sent_body, IsStreamed, observed-IsHealthy}
use test.Transport.Handler as Handling
use test.Transport.Handler.{
  Handler, Dependencies, AuthService, Metrics, DocumentService, Exchange, Request, Parsing, Epoch,
  new_handler,
}
use test.Transport.Routing
use test.Transport.Routing.{normalized_route, route}
use test.Transport.Routing.Labels.{labels, normalized_route-IsLabel}
use test.Transport.Routing.Refusals.{IsRefused, Refuses, is_docs, route-IsRefused}
use test.Transport.Response.Trace.{is_one_response}
use test.Transport.Serving.{serve, returned, expired}
use test.Transport.Serving.OneResponse.{serve-is_one_response}
use test.Transport.Writer
use test.Transport.Writer.{
  BufferedResponse, Encoding, observed_writer, buffered_writer, buffered_write,
  new_buffered_response,
}
use test.Tests.TransportTests.{wire}
use test.Tests.AuthTests.{crypto, auth, at_start}
use test.Tests.ServiceTests.{formats, requester, document}

pub record Site : Type 0 where
  pub memory : Memory
  pub epoch : ℕ
  pub store : Store
  pub observed : ℕ

abbrev library : Library
library = record {
  encoding = record {
    marshal = λ payload. some (1 ∷ []);
    error_json = λ code text. 2 ∷ [];
    itoa = λ n. "2";
  };
  parsing = record {
    parse_query = λ s. if s == "" then some [] else some (("token", s ∷ []) ∷ []);
    parse_form = λ r. none;
    parse_multipart_form = λ limit r. none;
    parse_media_type = λ s. none;
  };
  formats = formats;
  printing = record {
    decimal = λ n. "0";
    integer = λ n. "0";
    quote = λ s. s;
    rfc3339_nano = λ n. "now";
    date_time = λ n. "now";
  };
  atoi = λ s. none;
}

abbrev epoch : Epoch Site
epoch = record {
  load = λ s. s.epoch;
  add_one = λ s. record s { epoch = suc s.epoch % 18446744073709551616 };
}

abbrev on_tables : {A : Type 0} → Action Store A → Action Site A
on_tables body w = let r = body w.store in (r.0, record w { store = r.1 })

-- The auth service over the tables.
abbrev closed : AuthService Site
closed = record {
  register = λ token login password. on_tables (Auth.register crypto auth token login password);
  authenticate = λ login password. on_tables (Auth.authenticate crypto auth login password);
  authorize = λ token. on_tables (Auth.authorize crypto auth token);
  logout = λ token. on_tables (Auth.logout crypto auth token);
}

abbrev metrics : Metrics Site
metrics = record {
  observe_request = λ route method status w. w;
  observe_timeout = none;
  observe_cache = λ hit w. w;
  set_cache_size = λ w. record w { observed = suc w.observed };
  observe_file = λ operation size w. record w { observed = suc w.observed };
}

-- A service that takes every upload.
abbrev taking : DocumentService Site
taking = record {
  upload = λ user input w. (ok document, w);
  list = λ user filter w. (ok [], w);
  get = λ user id w. (err err_not_found, w);
  delete = λ user id w. (ok tt, w);
  get_metadata = none;
  invalidates_delete_cache = false;
}

abbrev deps : Dependencies Site
deps = record {
  auth = some closed;
  documents = some taking;
  cache = some (memory_cache (λ s. s.memory) (λ m s. record s { memory = m }) (λ s. 0));
  cache_epoch = some epoch;
  cache_ttl = pos 0;
  expose_cache_header = true;
  metrics = some metrics;
  readiness = none;
  limits = record {
    max_request_bytes = pos 0;
    max_file_bytes = pos 0;
    max_json_bytes = pos 0;
    max_grant_items = pos 0;
    max_list_limit = pos 0;
  };
}

abbrev handler : Handler Site
handler = new_handler epoch deps

abbrev decoder : Decoder
decoder bytes = none

abbrev listing : Entry
listing = record {
  status = 200;
  header = [];
  body = 3 ∷ [];
  body_omitted = false;
  stored_at = 0;
  tags = list_cache_tag ∷ [];
}

abbrev stocked : Memory
stocked = Cache.set false 0 "list" listing 10 (new_memory 100 5)

abbrev site : Site
site = record { memory = stocked; epoch = 4; store = at_start; observed = 0 }

abbrev start : Exchange Site BufferedResponse
start = record { world = site; response = new_buffered_response; cache_result = "none" }

abbrev request : Request
request = record {
  method = "GET";
  path = "/api/docs/7";
  raw_query = "secret";
  content_type = "";
  content_length = pos 0;
  body = none;
}

program : Unit {0}
unfolding new_handler normalized_route Handling.single_path_value Handling.trim_prefix is_docs route
    lookup without Writer.write_api_error Writer.write_encoded Routing.with_method
    Routing.method_not_allowed Routing.join_comma buffered_write Writer.buffered_write_header
program = tt

-- No session is live in the tables.
closed-Refuses : Refuses library buffered_writer closed site
unfolding Refuses Auth.authorize Auth.token_digest Tables.by_token_hash Tables.session_row
    Tables.statement first is Failures.classify
closed-Refuses token = elim (Bool-cases (token == "")) [
  | inl e ↦ (err_unauthorized, rw (e) refl)
  | inr named ↦ elim (Bool-cases (eqb (length (codes token)) 0)) [
    | inl e ↦ (err_unauthorized, rw (named, e) refl)
    | inr long ↦ (err_unauthorized, rw (named, long) refl)
  ]
]

is_document : is_docs (normalized_route "/api/docs/7") ≡ true
unfolding program
is_document = refl

-- A method that the path does not have.
not_allowed :
    (route library buffered_writer decoder handler
      (record request { path = "/api/auth"; method = "GET" })
      start).response.status
    ≡ 405
unfolding program
not_allowed = refl

has_closed : handler.deps.auth ≡ some closed
unfolding program
has_closed = refl

route-IsRefused_example :
    IsRefused library buffered_writer start
      (route library buffered_writer decoder handler request start)
route-IsRefused_example =
    route-IsRefused library buffered_writer handler decoder closed request start has_closed
      closed-Refuses is_document

normalized_route-IsLabel_example :
    any (λ l. normalized_route "/api/auth/c2VjcmV0" == l) labels ≡ true
normalized_route-IsLabel_example = normalized_route-IsLabel "/api/auth/c2VjcmV0"

abbrev file : Reader
file = record { content = 5 ∷ 6 ∷ 7 ∷ []; failure = none }

-- The server's writer takes every byte.
abbrev healthy : Wire
healthy = record wire { accepted = λ calls bytes. length bytes }

-- A response that the handler streams.
abbrev streamed : ObservedResponse
streamed = Response.start_streaming healthy (Response.new_observed_response [] false)

streamed-IsStreamed : IsStreamed streamed
unfolding Response.start_streaming Response.new_observed_response
streamed-IsStreamed = record { state = refl; full = refl; early = refl }

copy_buffer_lem_example :
    ((copy_buffer (observed_writer healthy) file (streamed, new_capture 2)).0
      ≡ not (is_some file.failure))
    × (sent_body
          (copy_buffer (observed_writer healthy) file (streamed, new_capture 2)).1.0.destination
        ≡ sent_body streamed.destination ++ file.content)
    × ((copy_buffer (observed_writer healthy) file (streamed, new_capture 2)).1.1
        ≡ captured 2 file.content)
copy_buffer_lem_example =
    copy_buffer_lem (observed_writer healthy) (λ w. sent_body w.destination) IsStreamed file 2
      streamed (observed-IsHealthy healthy (λ calls bytes. refl)) streamed-IsStreamed

some_injective : {A : Type 0} {a b : A} → some a ≡ some b → a ≡ b
some_injective p = cc

handler-HasMemory : HasMemory handler (λ s. s.memory) (λ m s. record s { memory = m }) (λ s. 0)
unfolding program
handler-HasMemory = record {
  cache = refl;
  files = λ m operation size p.
      subst
        (λ (n : Metrics Site).
          IsApart handler (λ s. s.memory) (λ m s. record s { memory = m }) (λ s. 0)
            (n.observe_file operation size))
        (some_injective p) (record { memory_same = λ w. refl; epoch_same = λ w. refl });
  sizes = λ m p.
      subst
        (λ (n : Metrics Site).
          IsApart handler (λ s. s.memory) (λ m s. record s { memory = m }) (λ s. 0)
            n.set_cache_size)
        (some_injective p) (record { memory_same = λ w. refl; epoch_same = λ w. refl });
  stored = λ m w. refl;
  apart = λ w. refl;
  counts = λ w. refl;
  put_apart = λ m w. refl;
}

abbrev meta : RequiredMeta
meta = record {
  name = "notes";
  file = false;
  is_public = false;
  token = "t";
  mime = none;
  grant = [];
}

stocked-IsValid : IsValid stocked
stocked-IsValid =
    set-IsValid 0 "list" listing 10 (new_memory 100 5) false (new_memory-IsValid 100 5)

get-store_upload_example :
    ((Cache.get false 1 "list"
        (store_upload library decoder buffered_writer handler taking meta
          (some (1 ∷ []))
          none
          requester
          start).world.memory).1
      ≡ elim ((Cache.get false 1 "list" stocked).1) [
        | none ↦ none
        | some entry ↦ if has_tag entry.tags (list_cache_tag ∷ []) then none else some entry
      ])
    × ((store_upload library decoder buffered_writer handler taking meta
          (some (1 ∷ []))
          none
          requester
          start).world.epoch
        ≡ suc 4 % 18446744073709551616)
unfolding new_handler
get-store_upload_example =
    get-store_upload library buffered_writer decoder handler (λ s. s.memory)
      (λ m s. record s { memory = m }) (λ s. 0) taking meta (some (1 ∷ [])) none requester start
      document site 1 "list" handler-HasMemory refl stocked-IsValid

-- The request that is refused gets one response.
serve-is_one_response_example :
    is_one_response
      (serve library wire handler decoder returned "id" [] request
        site).exchange.response.destination
    ≡ true
serve-is_one_response_example =
    serve-is_one_response wire library handler decoder returned "id" [] request site

timed_out_outcome :
    (serve library wire handler decoder expired "id" [] request site).outcome ≡ "timeout"
unfolding program serve Auth.authorize Tables.by_token_hash Failures.classify
timed_out_outcome = refl
