-- ===== src/Transport/Caching.antt =====
-- internal/httptransport/response_cache.go: the answers that are kept, and their keys. A request is
-- not cancelled while it is served, and loads of one key do not overlap: `singleflight` then runs each
-- load in the place of its caller.
use test.Common.{
  ℕ, String, Bool, true, false, not, ◌&&◌, ◌||◌, Option, none, some, List, [], ◌∷◌, ◌==◌, ltb, leb,
  if◌then◌else◌, eqb,
}
use Prim.Native.String
use test.Common.Int.{ℤ, to_ℕ}
use test.Cache
use test.Cache.{Memory, Entry}
use test.Service.{Formats}
use test.Transport.Handler.{Handler, Parsing, ResponseCache, Metrics, Exchange, respond, in_world}
use test.Transport.Response.{Header}
use test.Transport.Writer.{ResponseWriter, Encoding, BufferedResponse, new_buffered_response}

abbrev pub list_cache_tag : String
list_cache_tag = "documents:list"

infixr 5 ◌+++◌
abbrev ◌+++◌ : String → String → String
a +++ b = String.◌++◌ a b

abbrev pub document_tag : String → String
document_tag id = "document:" +++ id

-- The cache of internal/cache in a world that holds it, with the clock of that world. The calls are
-- made with a context that is not cancelled.
abbrev pub memory_cache : {W : Type 0} → (W → Memory) → (Memory → W → W) → (W → ℕ) → ResponseCache W
memory_cache memory put now = record {
  get = λ key w. let r = Cache.get false (now w) key (memory w) in (r.1, put r.0 w);
  set = λ key entry ttl w. put (Cache.set false (now w) key entry ttl (memory w)) w;
  invalidate = λ tags w. put (Cache.invalidate false tags (memory w)) w;
  entry_fits = some (λ key entry bytes w. Cache.entry_fits key entry bytes (memory w));
}

-- What `fmt` and `strconv` make of numbers, `%q`, and the formats of an instant, RFC 3339 with
-- nanoseconds and that of the listing.
pub record Printing : Type 0 where
  pub decimal : ℕ → String
  pub integer : ℤ → String
  pub quote : String → String
  pub rfc3339_nano : ℕ → String
  pub date_time : ℕ → String

-- The functions of the libraries that the handlers call; `valid_json` is in `formats`.
pub record Library : Type 0 where
  pub encoding : Encoding
  pub parsing : Parsing
  pub formats : Formats
  pub printing : Printing
  pub atoi : String → Option ℤ

-- `normalizedFilterValue` of list_handler.go.
unfoldable pub normalized_filter_value : Formats → Printing → String → String → String
normalized_filter_value f p key value =
    if key == "id"
    then (elim (f.parse_uuid value) [ none ↦ value | some id ↦ id ])
    else if key == "created"
    then (elim (f.parse_utc value) [
      | some instant ↦ p.rfc3339_nano instant
      | none ↦ elim (f.parse_rfc3339 value) [ none ↦ value | some instant ↦ p.rfc3339_nano instant ]
    ])
    else value

-- An entry that was found and serves the request.
abbrev pub usable : Bool → Option Entry → Option Entry
usable accept_body_omitted none = none
usable accept_body_omitted (some entry) =
    if accept_body_omitted || not entry.body_omitted then some entry else none

-- The entry of a response that was loaded.
abbrev pub entry_of : List String → BufferedResponse → Entry
entry_of tags response = record {
  status = response.status;
  header = response.header;
  body = response.body;
  body_omitted = false;
  stored_at = 0;
  tags = tags;
}

module _ {W : Type 0} (h : Handler W) where
  unfoldable pub list_cache_key :
      Formats → Printing → String → String → String → String → ℤ → W → String
  unfolding normalized_filter_value
  list_cache_key f p user_id owner filter_key value limit w =
      "list:v"
      +++ p.decimal (h.cache_epoch.load w)
      +++ ":u="
      +++ p.quote user_id
      +++ ":o="
      +++ p.quote owner
      +++ ":k="
      +++ p.quote filter_key
      +++ ":value="
      +++ p.quote (normalized_filter_value f p filter_key value)
      +++ ":limit="
      +++ p.integer limit

  unfoldable pub document_cache_key : Printing → String → ℕ → W → String
  document_cache_key p id version w =
      "document:v"
      +++ p.decimal (h.cache_epoch.load w)
      +++ ":id="
      +++ p.quote id
      +++ ":version="
      +++ p.decimal version

  module _ {R : Type 0} where
    unfoldable pub observe_cache : Bool → Exchange W R → Exchange W R
    observe_cache hit e =
        let observed : Exchange W R = record e { cache_result = if hit then "hit" else "miss" } in
        elim h.deps.metrics [ none ↦ observed | some m ↦ in_world (m.observe_cache hit) observed ]

    unfoldable pub set_size : Option (Metrics W) → Exchange W R → Exchange W R
    set_size none e = e
    set_size (some m) e = in_world m.set_cache_size e

    unfoldable pub observe_cache_size : Exchange W R → Exchange W R
    unfolding set_size
    observe_cache_size = set_size h.deps.metrics

    -- The steps with which an upload and a deletion make entries unreachable, where there is a cache.
    unfoldable pub invalidate_tags :
        Option (ResponseCache W) → List String → Exchange W R → Exchange W R
    unfolding observe_cache_size
    invalidate_tags none tags e = e
    invalidate_tags (some cache) tags e =
        observe_cache_size (in_world (cache.invalidate tags) (in_world h.cache_epoch.add_one e))

    unfoldable pub expose_cache_status : ResponseWriter R → Bool → Exchange W R → Exchange W R
    expose_cache_status out hit e =
        if not h.deps.expose_cache_header
        then e
        else respond (out.set "X-Cache" (if hit then "HIT" else "MISS")) e

    -- The part of the load that runs when the cache still has no entry.
    unfoldable pub load_response :
        ResponseCache W
        → String
        → List String
        → (Exchange W BufferedResponse → Bool × Exchange W BufferedResponse)
        → Exchange W R
        → (Entry × Bool) × Exchange W R
    unfolding observe_cache observe_cache_size
    load_response cache key tags load e =
        let loaded = load (record {
          world = e.world;
          response = new_buffered_response;
          cache_result = e.cache_result;
        }) in
        let entry = entry_of tags loaded.1.response in
        let stored : Exchange W R = record e {
          world =
              if loaded.0 && leb 200 entry.status && ltb entry.status 300
              then cache.set key entry (to_ℕ h.deps.cache_ttl) loaded.1.world
              else loaded.1.world;
        } in
        ((entry, false), observe_cache_size (observe_cache false stored))

    unfoldable pub cached_response :
        ResponseCache W
        → String
        → List String
        → Bool
        → (Exchange W BufferedResponse → Bool × Exchange W BufferedResponse)
        → Exchange W R
        → (Entry × Bool) × Exchange W R
    unfolding load_response observe_cache observe_cache_size
    cached_response cache key tags accept_body_omitted load e =
        let first = cache.get key e.world in
        let looked : Exchange W R = record e { world = first.1 } in
        elim (usable accept_body_omitted first.0) [
          | some entry ↦ ((entry, true), observe_cache true looked)
          | none ↦
              let second = cache.get key first.1 in
              let again : Exchange W R = record e { world = second.1 } in
              elim (usable accept_body_omitted second.0) [
                | some entry ↦ ((entry, true), observe_cache_size (observe_cache true again))
                | none ↦ load_response cache key tags load again
              ]
        ]

module _ {R : Type 0} (out : ResponseWriter R) where
  unfoldable pub write_headers : Header → R → R
  write_headers [] w = w
  write_headers ((name, values) ∷ header) w = write_headers header (out.set_values name values w)

  abbrev pub status_of : Entry → ℕ
  status_of entry = if eqb entry.status 0 then 200 else entry.status

  unfoldable pub write_cached_response : Entry → R → R
  unfolding write_headers
  write_cached_response entry w =
      (out.write entry.body (out.write_header (status_of entry) (write_headers entry.header w))).1

  -- `writeCachedFileResponse` of read_handler.go.
  unfoldable pub write_cached_file_response : Entry → R → R
  unfolding write_headers
  write_cached_file_response entry w =
      let started = out.start_streaming (write_headers entry.header w) in
      (out.write entry.body (out.write_header (status_of entry) started)).1
