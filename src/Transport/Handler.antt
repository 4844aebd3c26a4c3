-- ===== src/Transport/Handler.antt =====
-- The handler of internal/httptransport/handler.go: its dependencies, the request that it serves and
-- what the handlers of the operations share. The services, the cache and the metrics act on a world
-- `W`; the library functions that read a request are arguments.
use test.Common.{
  ℕ, String, Bool, true, false, not, ◌&&◌, Option, none, some, List, [], ◌∷◌, ◌==◌, ◌*◌, eqb,
  if◌then◌else◌, any,
}
use Prim.Native.Char.{code}
use test.Common.Int.{ℤ, pos, is_nonpositive}
use test.Common.Text.{codes, is_space, same_codes}
use test.Blob.{Reader}
use test.Cache.{Entry}
use test.Domain.{User, Document, DocumentFilter}
use test.Errors.{Result, ok, err, Action}
use test.Service.{Upload, Content}
use test.Transport.Filter.{Query}
use test.Transport.Writer.{ResponseWriter, Encoding, write_domain_error, bad_request}

-- `auth.Service`
pub record AuthService (W : Type 0) : Type 0 where
  pub register : String → String → String → Action W User
  pub authenticate : String → String → Action W String
  pub authorize : String → Action W User
  pub logout : String → Action W (Unit {0})

-- `document.Service`, with the two optional interfaces that the handlers ask for:
-- `documentMetadataReader` and `InvalidatesDeleteCache`, whose answer is `false` without it.
pub record DocumentService (W : Type 0) : Type 0 where
  pub upload : User → Upload → Action W Document
  pub list : User → DocumentFilter → Action W (List Document)
  pub get : User → String → Action W Content
  pub delete : User → String → Action W (Unit {0})
  pub get_metadata : Option (User → String → Action W Document)
  pub invalidates_delete_cache : Bool

-- `responsecache.Cache`, with the clock in the world, and with `cacheEntrySizer` where the cache has
-- it.
pub record ResponseCache (W : Type 0) : Type 0 where
  pub get : String → W → Option Entry × W
  pub set : String → Entry → ℕ → W → W
  pub invalidate : List String → W → W
  pub entry_fits : Option (String → Entry → ℤ → W → Bool)

-- The shared counter of invalidations, an `atomic.Uint64`.
pub record Epoch (W : Type 0) : Type 0 where
  pub load : W → ℕ
  pub add_one : W → W

-- `set_cache_size` reads the size from the cache, as `observeCacheSize` does, and `observe_request`,
-- given the route, the method and the status, takes the duration from the clock of the world;
-- `observe_timeout` is there where the metrics have it.
pub record Metrics (W : Type 0) : Type 0 where
  pub observe_request : String → String → ℕ → W → W
  pub observe_timeout : Option (String → String → Bool → W → W)
  pub observe_cache : Bool → W → W
  pub set_cache_size : W → W
  pub observe_file : String → ℤ → W → W

pub record Limits : Type 0 where
  pub max_request_bytes : ℤ
  pub max_file_bytes : ℤ
  pub max_json_bytes : ℤ
  pub max_grant_items : ℤ
  pub max_list_limit : ℤ

pub record Dependencies (W : Type 0) : Type 0 where
  pub auth : Option (AuthService W)
  pub documents : Option (DocumentService W)
  pub cache : Option (ResponseCache W)
  pub cache_epoch : Option (Epoch W)
  pub cache_ttl : ℤ
  pub expose_cache_header : Bool
  pub metrics : Option (Metrics W)
  pub readiness : Option (Action W (Unit {0}))
  pub limits : Limits

pub record Handler (W : Type 0) : Type 0 where
  pub deps : Dependencies W
  pub cache_epoch : Epoch W

abbrev or_default : ℤ → ℕ → ℤ
or_default value n = if is_nonpositive value then pos n else value

-- `NewHandler`; `own` is the counter that it makes where none is shared. Durations are nanoseconds.
unfoldable pub new_handler : {W : Type 0} → Epoch W → Dependencies W → Handler W
new_handler own deps = record {
  deps = record deps {
    limits = record {
      max_request_bytes = or_default deps.limits.max_request_bytes (32 * 1048576);
      max_file_bytes = or_default deps.limits.max_file_bytes (25 * 1048576);
      max_json_bytes = or_default deps.limits.max_json_bytes 1048576;
      max_grant_items = or_default deps.limits.max_grant_items 100;
      max_list_limit = or_default deps.limits.max_list_limit 100;
    };
    cache_ttl = elim deps.cache [
      | none ↦ deps.cache_ttl
      | some _ ↦ or_default deps.cache_ttl 300000000000
    ];
  };
  cache_epoch = elim deps.cache_epoch [ none ↦ own | some shared ↦ shared ];
}

-- A file of a multipart form; `opened` is `none` where `Open` fails.
pub record FileHeader : Type 0 where
  pub size : ℤ
  pub opened : Option Reader

-- `multipart.Form`
pub record Form : Type 0 where
  pub value : List (String × List (List ℕ))
  pub file : List (String × List FileHeader)

-- `body` is what `io.ReadAll` gives, `none` for an error, as when the body is larger than
-- `http.MaxBytesReader` lets through.
pub record Request : Type 0 where
  pub method : String
  pub path : String
  pub raw_query : String
  pub content_type : String
  pub content_length : ℤ
  pub body : Option String

-- `url.ParseQuery`; `ParseForm` with the `PostForm` that it fills; `ParseMultipartForm` with the bytes
-- that it may keep in memory; `mime.ParseMediaType` without its parameters.
pub record Parsing : Type 0 where
  pub parse_query : String → Option Query
  pub parse_form : Request → Option Query
  pub parse_multipart_form : ℤ → Request → Option Form
  pub parse_media_type : String → Option String

-- The world and the response during one request, and the `requestObservation`.
pub record Exchange (W R : Type 0) : Type 0 where
  pub world : W
  pub response : R
  pub cache_result : String

abbrev pub get_method : String
get_method = "GET"

abbrev pub head_method : String
head_method = "HEAD"

abbrev pub post_method : String
post_method = "POST"

abbrev pub delete_method : String
delete_method = "DELETE"

module _ {W R : Type 0} where
  abbrev pub respond : (R → R) → Exchange W R → Exchange W R
  respond write e = record e { response = write e.response }

  abbrev pub in_world : (W → W) → Exchange W R → Exchange W R
  in_world change e = record e { world = change e.world }

  -- A call of a service, and `writeDomainError` where it fails.
  unfoldable pub or_domain_error :
      {A : Type 0}
      → Encoding
      → ResponseWriter R
      → Result A × W
      → (A → Exchange W R → Exchange W R)
      → Exchange W R
      → Exchange W R
  unfolding write_domain_error
  or_domain_error x out (ok a, w) next e = next a (record e { world = w })
  or_domain_error x out (err problem, w) next e =
      respond (write_domain_error x out problem) (record e { world = w })

  module _ (x : Encoding) (out : ResponseWriter R) where
    -- "bad request" where a value is missing.
    unfoldable pub or_bad_request :
        {A : Type 0} → Option A → (A → Exchange W R → Exchange W R) → Exchange W R → Exchange W R
    unfolding bad_request
    or_bad_request none next e = respond (bad_request x out) e
    or_bad_request (some a) next e = next a e

    -- "bad request" where the test holds.
    unfoldable pub refuse_if : Bool → (Exchange W R → Exchange W R) → Exchange W R → Exchange W R
    unfolding bad_request
    refuse_if true next e = respond (bad_request x out) e
    refuse_if false next e = next e

-- `strings.TrimPrefix`
unfoldable pub after_prefix : String → String → Option String
after_prefix s String.[] = some s
after_prefix String.[] (String.◌∷◌ d prefix) = none
after_prefix (String.◌∷◌ c s) (String.◌∷◌ d prefix) =
    let rest = after_prefix s prefix in if eqb (code c) (code d) then rest else none

unfoldable pub trim_prefix : String → String → String
unfolding after_prefix
trim_prefix s prefix = elim (after_prefix s prefix) [ none ↦ s | some rest ↦ rest ]

unfoldable pub single_path_value : String → String → Bool
unfolding trim_prefix
single_path_value path prefix =
    let value = trim_prefix path prefix in
    not (value == path) && not (value == "") && not (any (eqb b'/') (codes value))

unfoldable trim_left : List ℕ → List ℕ
unfolding is_space
trim_left [] = []
trim_left (c ∷ s) = let rest = trim_left s in if is_space c then rest else c ∷ s

unfoldable trim_right : List ℕ → List ℕ
unfolding is_space
trim_right [] = []
trim_right (c ∷ s) = elim (trim_right s) [
  | [] ↦ if is_space c then [] else c ∷ []
  | d ∷ rest ↦ c ∷ d ∷ rest
]

-- `strings.SplitN(s, ";", 2)[0]`
unfoldable before_semicolon : List ℕ → List ℕ
before_semicolon [] = []
before_semicolon (c ∷ s) = let rest = before_semicolon s in if eqb c b';' then [] else c ∷ rest

-- Whether the media type is that of an encoded form.
unfoldable pub is_url_encoded : String → Bool
unfolding trim_left trim_right before_semicolon same_codes
is_url_encoded content_type =
    same_codes (trim_right (trim_left (before_semicolon (codes content_type))))
      (codes "application/x-www-form-urlencoded")
