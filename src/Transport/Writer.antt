-- ===== src/Transport/Writer.antt =====
-- internal/httptransport/response.go, and the `http.ResponseWriter`s that the handlers write to: the
-- observed response, the `bufferedResponse` of response_cache.go and the `headerWriter` of
-- read_handler.go.
use test.Common.{
  ℕ, String, Bool, true, Option, none, some, List, [], ◌∷◌, ◌++◌, eqb, if◌then◌else◌, length,
}
use test.Common.Assoc.{without}
use test.Errors.{Error, Sentinel, DomainError, is}
use test.Transport.Response
use test.Transport.Response.{Wire, Header, ObservedResponse, set_value}

-- `http.ResponseWriter`: `Header().Set`, the assignment `Header()[name] = values`, `WriteHeader`, and
-- `Write` with whether it took every byte without an error; `start_streaming` is `beginStreaming`,
-- which does nothing to a writer without `startStreaming`.
pub record ResponseWriter (R : Type 0) : Type 0 where
  pub set : String → String → R → R
  pub set_values : String → List String → R → R
  pub write_header : ℕ → R → R
  pub write : List ℕ → R → Bool × R
  pub start_streaming : R → R

abbrev pub observed_writer : Wire → ResponseWriter ObservedResponse
observed_writer x = record {
  set = Response.set_header;
  set_values = Response.set_values;
  write_header = Response.write_header;
  write = λ bytes w. (Response.takes x bytes w, Response.write x bytes w);
  start_streaming = Response.start_streaming x;
}

pub record BufferedResponse : Type 0 where
  pub header : Header
  pub body : List ℕ
  pub status : ℕ

abbrev pub new_buffered_response : BufferedResponse
new_buffered_response = record { header = []; body = []; status = 0 }

unfoldable pub buffered_write_header : ℕ → BufferedResponse → BufferedResponse
buffered_write_header status w = if eqb w.status 0 then record w { status = status } else w

unfoldable pub buffered_write : List ℕ → BufferedResponse → BufferedResponse
buffered_write bytes w = record w {
  status = if eqb w.status 0 then 200 else w.status;
  body = w.body ++ bytes;
}

abbrev pub buffered_writer : ResponseWriter BufferedResponse
buffered_writer = record {
  set = λ name value w. record w { header = set_value name value w.header };
  set_values = λ name values w. record w { header = (name, values) ∷ without name w.header };
  write_header = buffered_write_header;
  write = λ bytes w. (true, buffered_write bytes w);
  start_streaming = λ w. w;
}

-- `headerWriter`, which keeps headers only.
abbrev pub header_writer : ResponseWriter Header
header_writer = record {
  set = set_value;
  set_values = λ name values header. (name, values) ∷ without name header;
  write_header = λ status header. header;
  write = λ bytes header. (true, header);
  start_streaming = λ header. header;
}

pub record DocumentListItem : Type 0 where
  pub id : String
  pub name : String
  pub mime : String
  pub file : Bool
  pub is_public : Bool
  pub created : String
  pub grant : List String

-- What the handlers give to `json.Marshal`: `{"response": {name: text}}`, `{"response": {name: true}}`,
-- `{"data": raw}`, `{"data": {"docs": items}}`, and the answer to an upload, `{"data": {"json": raw,
-- "file": name}}`, whose members may be missing.
pub data Payload : Type 0 where
  response_text : String → String → Payload
  response_flag : String → Payload
  data_raw : Option (List ℕ) → Payload
  data_docs : List DocumentListItem → Payload
  data_upload : Option (List ℕ) → Option String → Payload

-- `json.Marshal` of a payload and of an error's code and text, which are always encoded, and
-- `strconv.Itoa`.
pub record Encoding : Type 0 where
  pub marshal : Payload → Option (List ℕ)
  pub error_json : ℕ → String → List ℕ
  pub itoa : ℕ → String

module _ (x : Encoding) {R : Type 0} (out : ResponseWriter R) where
  -- `writeJSON` once the value is encoded.
  unfoldable pub write_encoded : ℕ → List ℕ → R → R
  write_encoded status json w =
      let encoded = json ++ 10 ∷ [] in
      let typed = out.set "Content-Type" "application/json; charset=utf-8" w in
      let sized = out.set "Content-Length" (x.itoa (length encoded)) typed in
      (out.write encoded (out.write_header status sized)).1

  -- `writeAPIError`, with the status, the code and the text.
  unfoldable pub write_api_error : ℕ → ℕ → String → R → R
  unfolding write_encoded
  write_api_error status code text w = write_encoded status (x.error_json code text) w

  -- `writeJSON`, `writeResponse` and `writeData`, which differ in the payload.
  unfoldable pub write_json : ℕ → Payload → R → R
  unfolding write_api_error write_encoded
  write_json status value w = elim (x.marshal value) [
    | none ↦ write_api_error 500 500 "internal server error" w
    | some encoded ↦ write_encoded status encoded w
  ]

  unfoldable pub write_domain_error : Error → R → R
  unfolding write_api_error is
  write_domain_error e w =
      if is e (Sentinel.domain DomainError.invalid_argument)
      then write_api_error 400 400 "bad request" w
      else if is e (Sentinel.domain DomainError.unauthorized)
      then write_api_error 401 401 "unauthorized" w
      else if is e (Sentinel.domain DomainError.forbidden)
      then write_api_error 403 403 "forbidden" w
      else if is e (Sentinel.domain DomainError.not_found)
      then write_api_error 404 404 "resource not found" w
      else if is e (Sentinel.domain DomainError.not_implemented)
      then write_api_error 501 501 "operation not implemented" w
      else write_api_error 500 500 "internal server error" w

  unfoldable pub bad_request : R → R
  unfolding write_api_error
  bad_request = write_api_error 400 400 "bad request"

  unfoldable pub not_implemented : R → R
  unfolding write_api_error
  not_implemented = write_api_error 501 501 "operation not implemented"

  unfoldable pub internal_error : R → R
  unfolding write_api_error
  internal_error = write_api_error 500 500 "internal server error"
