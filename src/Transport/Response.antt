-- ===== src/Transport/Response.antt =====
-- `observedResponse` of internal/httptransport/handler.go. Each method is one step, as the mutex and
-- the atomic state make it; `destination` holds the calls that the server's own response writer got,
-- the newest first, and its headers.
pub mod Trace
use test.Common.{
  ℕ, ◌+◌, String, Bool, true, false, not, ◌&&◌, ◌||◌, Option, none, some, List, [], ◌∷◌, ◌++◌, ◌==◌,
  ltb, leb, eqb, if◌then◌else◌, length,
}
use test.Common.Assoc.{lookup, without}

pub data ResponseState : Type 0 where
  pending streaming completed timed_out streaming_timed_out : ResponseState

pub data DstCall : Type 0 where
  sent_header : ℕ → DstCall
  sent_bytes : List ℕ → DstCall
  flushed : DstCall

abbrev pub Header : Type 0
Header = List (String × List String)

-- What is not of this repository: how many bytes the server's writer takes after some calls,
-- whether it can flush, `strconv.Itoa`, and the JSON of an error's code and text.
pub record Wire : Type 0 where
  pub accepted : List DstCall → List ℕ → ℕ
  pub is_flusher : Bool
  pub itoa : ℕ → String
  pub error_json : ℕ → String → List ℕ
  pub timeout_json : List ℕ

pub record ObservedResponse : Type 0 where
  pub head : Bool
  pub header : Header
  pub body : List ℕ
  pub status : ℕ
  pub wrote_header : Bool
  pub state : ResponseState
  pub bytes_written : ℕ
  pub deadline_exceeded : Bool
  pub dst_header : Header
  pub destination : List DstCall

unfoldable pub new_observed_response : Header → Bool → ObservedResponse
new_observed_response dst_header head = record {
  head = head;
  header = dst_header;
  body = [];
  status = 0;
  wrote_header = false;
  state = pending;
  bytes_written = 0;
  deadline_exceeded = false;
  dst_header = dst_header;
  destination = [];
}

abbrev pub is_pending : ResponseState → Bool
is_pending pending = true
is_pending _ = false

abbrev is_streaming : ResponseState → Bool
is_streaming streaming = true
is_streaming _ = false

-- `http.Header.Set`
abbrev pub set_value : String → String → Header → Header
set_value name value header = (name, value ∷ []) ∷ without name header

abbrev pub get_value : String → Header → String
get_value name header = elim (lookup name header) [
  | none ↦ ""
  | some values ↦ elim values [ [] ↦ "" | v ∷ _ ↦ v ]
]

unfoldable pub response_may_have_body : ℕ → Bool
response_may_have_body status = leb 200 status && not (eqb status 204) && not (eqb status 304)

-- A handler's `Header().Set`.
unfoldable pub set_header : String → String → ObservedResponse → ObservedResponse
unfolding without
set_header name value w =
    if is_streaming w.state
    then record w { dst_header = set_value name value w.dst_header }
    else record w { header = set_value name value w.header }

-- A handler's assignment `Header()[name] = values`.
unfoldable pub set_values : String → List String → ObservedResponse → ObservedResponse
unfolding without
set_values name values w =
    if is_streaming w.state
    then record w { dst_header = (name, values) ∷ without name w.dst_header }
    else record w { header = (name, values) ∷ without name w.header }

unfoldable pub write_header : ℕ → ObservedResponse → ObservedResponse
write_header status w = if w.deadline_exceeded || w.wrote_header then w else record w {
  status = status;
  wrote_header = true;
  destination =
      if is_streaming w.state then DstCall.sent_header status ∷ w.destination else w.destination;
}

module _ (x : Wire) where
  -- `dst.Write`, whose bytes are counted.
  unfoldable pub dst_write : List ℕ → ObservedResponse → ObservedResponse
  dst_write bytes w = record w {
    destination = DstCall.sent_bytes bytes ∷ w.destination;
    bytes_written = w.bytes_written + x.accepted w.destination bytes;
  }

  -- `Write` after the header.
  unfoldable pub write_body : List ℕ → ObservedResponse → ObservedResponse
  unfolding dst_write
  write_body bytes w = if w.head then w else elim w.state [
    | pending ↦ record w { body = w.body ++ bytes }
    | streaming ↦ if w.deadline_exceeded then w else dst_write bytes w
    | completed ↦ w
    | timed_out ↦ w
    | streaming_timed_out ↦ w
  ]

  -- What the server got before the bytes of a `Write`.
  write_header_calls : ObservedResponse → List DstCall
  unfolding write_header
  write_header_calls w = (if w.wrote_header then w else write_header 200 w).destination

  unfoldable pub write : List ℕ → ObservedResponse → ObservedResponse
  unfolding write_header write_body
  write bytes w =
      if w.deadline_exceeded
      then w
      else write_body bytes (if w.wrote_header then w else write_header 200 w)

  -- Whether `Write` gives no error and takes every byte.
  unfoldable pub takes : List ℕ → ObservedResponse → Bool
  unfolding write_header_calls
  takes bytes w =
      not w.deadline_exceeded
      && (w.head || (elim w.state [
        | pending ↦ true
        | streaming ↦ leb (length bytes) (x.accepted (write_header_calls w) bytes)
        | completed ↦ false
        | timed_out ↦ false
        | streaming_timed_out ↦ false
      ]))

  -- With the status of a response whose handler wrote none.
  abbrev with_status : ObservedResponse → ObservedResponse
  with_status w = if w.wrote_header then w else record w { status = 200; wrote_header = true }

  -- The header and what was buffered go to the server.
  abbrev sent : Bool → ObservedResponse → ObservedResponse
  sent has_body w =
      let named = record w {
        dst_header = w.header;
        destination = DstCall.sent_header w.status ∷ w.destination;
      } in
      record (if has_body then dst_write w.body named else named) { body = [] }

  unfoldable pub start_streaming : ObservedResponse → ObservedResponse
  unfolding dst_write
  start_streaming w =
      if w.deadline_exceeded || not (is_pending w.state)
      then w
      else sent (not w.head && not (eqb (length w.body) 0))
          (with_status (record w { state = streaming }))

  unfoldable pub flush : ObservedResponse → ObservedResponse
  unfolding start_streaming
  flush w =
      let started = start_streaming w in
      if x.is_flusher && is_streaming started.state
      then record started { destination = DstCall.flushed ∷ started.destination }
      else started

  -- The length of the body, where the handler did not set it.
  abbrev with_length : ObservedResponse → ObservedResponse
  with_length w =
      if get_value "Content-Length" w.header == "" && response_may_have_body w.status
      then record w { header = set_value "Content-Length" (x.itoa (length w.body)) w.header }
      else w

  unfoldable pub finish : ObservedResponse → ObservedResponse
  unfolding dst_write response_may_have_body lookup without
  finish w =
      if not (is_pending w.state)
      then w
      else (let ready = with_length (with_status (record w { state = completed })) in
          sent (not ready.head && response_may_have_body ready.status) ready)

  -- `writeAPIError` on the observed response.
  unfoldable pub write_api_error : ℕ → String → ObservedResponse → ObservedResponse
  unfolding write write_header set_header
  write_api_error status text w =
      let encoded = x.error_json status text ++ 10 ∷ [] in
      write encoded (
        write_header status (
          set_header "Content-Length" (x.itoa (length encoded))
            (set_header "Content-Type" "application/json; charset=utf-8" w)))

  unfoldable pub replace_with_internal_error : ObservedResponse → ObservedResponse
  unfolding write_api_error lookup
  replace_with_internal_error w =
      if not (is_pending w.state)
      then w
      else write_api_error 500 "internal server error" (record w {
        header = ("X-Request-ID", get_value "X-Request-ID" w.header ∷ []) ∷ [];
        body = [];
        status = 0;
        wrote_header = false;
      })

  -- The response of a timeout, while nothing was sent.
  unfoldable pub timeout_pending : String → ObservedResponse → ObservedResponse
  unfolding dst_write
  timeout_pending request_id w =
      let named = record w {
        state = timed_out;
        dst_header =
            ("X-Request-ID", request_id ∷ [])
            ∷ ("Content-Type", "application/json; charset=utf-8" ∷ [])
            ∷ ("Content-Length", x.itoa (length x.timeout_json) ∷ [])
            ∷ [];
        status = 503;
        destination = DstCall.sent_header 503 ∷ w.destination;
      } in
      if w.head then named else dst_write x.timeout_json named

  -- `timeout`, with its answer whether the response was streaming.
  unfoldable pub timeout : String → ObservedResponse → ObservedResponse × Bool
  unfolding timeout_pending
  timeout request_id w = elim w.state [
    | pending ↦ (timeout_pending request_id w, false)
    | streaming ↦ (record w { state = streaming_timed_out }, true)
    | completed ↦ (w, false)
    | timed_out ↦ (w, false)
    | streaming_timed_out ↦ (w, true)
  ]

unfoldable pub status_code : ObservedResponse → ℕ
status_code w = if eqb w.status 0 then 200 else w.status

-- `responseHeader`
unfoldable pub response_header : ObservedResponse → Header
response_header w = elim w.state [
  | pending ↦ w.header
  | completed ↦ w.header
  | streaming ↦ w.dst_header
  | timed_out ↦ w.dst_header
  | streaming_timed_out ↦ w.dst_header
]
