-- ===== src/Transport/Serving.antt =====
-- `ServeHTTP` and `serveHTTP` of internal/httptransport/handler.go. The handler runs in its own goroutine:
-- `Ending` says how the wait for it ended. The log of the request is left out, but for its outcome.
pub mod Writes
pub mod Unwritten
pub mod Answers
pub mod Steps
pub mod Lists
pub mod Reads
pub mod Handlers
pub mod OneResponse
use test.Common.{String, Bool, not, ◌&&◌, Option, none, some, ◌==◌, if◌then◌else◌}
use test.Common.Assoc.{lookup}
use test.Common.Int.{pos, ltb_ℤ}
use test.Transport.Caching.{Library}
use test.Transport.Documents.Parts.{Decoder}
use test.Transport.Handler.{Handler, Metrics, Exchange, Request, respond, head_method}
use test.Transport.Response.{
  Wire, Header, ObservedResponse, new_observed_response, set_value, get_value, finish, timeout,
  replace_with_internal_error, status_code, response_header,
}
use test.Transport.Routing.{route, normalized_route}
use test.Transport.Writer.{observed_writer, write_api_error}

-- The handler returned, it panicked, or the deadline passed, which is preferred where both are seen.
pub data Ending : Type 0 where
  returned panicked expired : Ending

-- The exchange at the end of a request, and the outcome that is logged.
pub record Served (W : Type 0) : Type 0 where
  pub exchange : Exchange W ObservedResponse
  pub outcome : String
  pub timed_out : Option Bool

module _ {W : Type 0} (x : Library) (wire : Wire) where
  -- The end of the response; `timed_out` tells whether it was streaming when the deadline passed.
  unfoldable pub conclude : Ending → String → Exchange W ObservedResponse → Served W
  unfolding finish timeout replace_with_internal_error
  conclude returned request_id e = record {
    exchange = respond (finish wire) e;
    outcome = "completed";
    timed_out = none;
  }
  conclude panicked request_id e = record {
    exchange = respond (λ w. finish wire (replace_with_internal_error wire w)) e;
    outcome = "completed";
    timed_out = none;
  }
  conclude expired request_id e =
      let ended = timeout wire request_id e.response in
      record {
        exchange = record e { response = ended.0 };
        outcome = if ended.1 then "streaming_timeout" else "timeout";
        timed_out = some ended.1;
      }

  unfoldable pub observe_timeout : Metrics W → Request → Option Bool → W → W
  unfolding normalized_route
  observe_timeout m r none w = w
  observe_timeout m r (some streaming) w = elim m.observe_timeout [
    | none ↦ w
    | some observe ↦ observe (normalized_route r.path) r.method streaming w
  ]

  -- The metrics of a request.
  unfoldable pub observe_request : Option (Metrics W) → Request → Served W → Served W
  unfolding normalized_route observe_timeout response_header lookup status_code
  observe_request none r served = served
  observe_request (some m) r served =
      let response = served.exchange.response in
      let counted =
        m.observe_request (normalized_route r.path) r.method (status_code response)
          served.exchange.world in
      let timed = observe_timeout m r served.timed_out counted in
      let downloaded =
        not (r.method == head_method)
        && not (get_value "Content-Disposition" (response_header response) == "") in
      record served {
        exchange = record served.exchange {
          world =
              if downloaded
              then m.observe_file "download" (pos response.bytes_written) timed
              else timed;
        };
      }

  module _ (h : Handler W) where
    -- What the goroutine runs: `next`, unless the request is declared too large.
    unfoldable pub guarded :
        (Exchange W ObservedResponse → Exchange W ObservedResponse)
        → Request
        → Exchange W ObservedResponse
        → Exchange W ObservedResponse
    unfolding write_api_error
    guarded next r e =
        if ltb_ℤ h.deps.limits.max_request_bytes r.content_length
        then respond
            (write_api_error x.encoding (observed_writer wire) 400 400 "request body is too large")
            e
        else next e

    -- `serveHTTP`; of a handler that panics, `next` is what it did until then.
    unfoldable pub serve_http :
        (Exchange W ObservedResponse → Exchange W ObservedResponse)
        → Ending
        → String
        → Header
        → Request
        → W
        → Served W
    unfolding new_observed_response guarded conclude observe_request
    serve_http next ending request_id dst_header r w = observe_request h.deps.metrics r (
        conclude ending request_id (
          guarded next r (record {
            world = w;
            response =
                new_observed_response (set_value "X-Request-ID" request_id dst_header)
                  (r.method == head_method);
            cache_result = "none";
          })))

    -- `ServeHTTP`
    unfoldable pub serve : Decoder → Ending → String → Header → Request → W → Served W
    unfolding serve_http route
    serve decode ending request_id dst_header r =
        serve_http (route x (observed_writer wire) decode h r) ending request_id dst_header r
