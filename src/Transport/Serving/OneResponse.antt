-- ===== src/Transport/Serving/OneResponse.antt =====
-- Every request gets one response.
use test.Common.{
  ◌≡◌, refl, ap, subst, ◌∙◌, String, Bool, true, false, Option, none, some, List, [], ◌∷◌, ◌++◌,
  ◌==◌, if◌then◌else◌, if_cases, arith,
}
use test.Common.Int.{ltb_ℤ}
use test.Transport.Caching.{Library}
use test.Transport.Documents.Parts.{Decoder}
use test.Transport.Handler.{Handler, Metrics, Exchange, Request, respond, head_method}
use test.Transport.Response
use test.Transport.Response.{
  Wire, Header, ObservedResponse, new_observed_response, set_value, is_pending, finish, timeout,
  replace_with_internal_error, pending, streaming, completed, timed_out, streaming_timed_out,
}
use test.Transport.Response.Trace.{Op, run, step, is_one_response, is_silent, run-is_one_response}
use test.Transport.Routing.{route}
use test.Transport.Serving.{
  Ending, Served, conclude, observe_request, guarded, serve_http, serve, returned, panicked,
  expired,
}
use test.Transport.Serving.Handlers.{route-Keeps}
use test.Transport.Serving.Writes.{IsReached, Keeps, at_start, by_op, write_api_error-IsReached}
use test.Transport.Writer.{observed_writer, write_api_error}

module _ (wire : Wire) where
  run-append :
      (xs ys : List Op) (w : ObservedResponse) → run wire (xs ++ ys) w ≡ run wire ys (run wire xs w)
  unfolding run
  run-append [] ys w = refl
  run-append (op ∷ xs) ys w = run-append xs ys (step wire op w)

  run-IsReached :
      {w v : ObservedResponse} → IsReached wire w v → (ops : List Op) × (run wire ops w ≡ v)
  unfolding run
  run-IsReached at_start = ([], refl)
  run-IsReached {w = w} (by_op rest op) =
      let (ops, p) = run-IsReached rest in
      (ops ++ op ∷ [], run-append ops (op ∷ []) w ∙ ap (step wire op) p)

  not_pending-finish : (w : ObservedResponse) → is_pending (finish wire w).state ≡ false
  unfolding finish
  not_pending-finish w = ground arith

  not_pending-timeout :
      (request_id : String) (w : ObservedResponse)
      → is_pending (timeout wire request_id w).0.state ≡ false
  unfolding timeout Response.timeout_pending
  not_pending-timeout request_id w = ground arith

  finish-IsReached :
      {w v : ObservedResponse} → IsReached wire w v → IsReached wire w (finish wire v)
  unfolding step
  finish-IsReached h = by_op h Op.finish

  replace-IsReached :
      {w v : ObservedResponse}
      → IsReached wire w v
      → IsReached wire w (replace_with_internal_error wire v)
  unfolding step
  replace-IsReached h = by_op h Op.replace_with_internal_error

  timeout-IsReached :
      {w v : ObservedResponse} (request_id : String)
      → IsReached wire w v
      → IsReached wire w (timeout wire request_id v).0
  unfolding step
  timeout-IsReached request_id h = by_op h (Op.timeout request_id)

  ended_once :
      (dst_header : Header) (head : Bool) (v : ObservedResponse)
      → IsReached wire (new_observed_response dst_header head) v
      → is_pending v.state ≡ false
      → is_one_response v.destination ≡ true
  ended_once dst_header head v reached ended =
      let (ops, p) = run-IsReached reached in
      let once =
        subst
          (λ (u : ObservedResponse).
            (if is_pending u.state then is_silent u.destination else is_one_response u.destination)
            ≡ true)
          p (run-is_one_response wire ops dst_header head) in
      ground (arith, once, ended)

  module _ {W : Type 0} (x : Library) where
    conclude_lem :
        (ending : Ending) (request_id : String) (dst_header : Header) (head : Bool)
        (e : Exchange W ObservedResponse)
        → IsReached wire (new_observed_response dst_header head) e.response
        → is_one_response (conclude x wire ending request_id e).exchange.response.destination ≡ true
    unfolding conclude
    conclude_lem returned request_id dst_header head e h =
        ended_once dst_header head (finish wire e.response) (finish-IsReached h)
          (not_pending-finish e.response)
    conclude_lem panicked request_id dst_header head e h =
        ended_once dst_header head (finish wire (replace_with_internal_error wire e.response))
          (finish-IsReached (replace-IsReached h))
          (not_pending-finish (replace_with_internal_error wire e.response))
    conclude_lem expired request_id dst_header head e h =
        ended_once dst_header head (timeout wire request_id e.response).0
          (timeout-IsReached request_id h) (not_pending-timeout request_id e.response)

    response-observe_request :
        (m : Option (Metrics W)) (r : Request) (served : Served W)
        → (observe_request x wire m r served).exchange.response ≡ served.exchange.response
    unfolding observe_request
    response-observe_request none r served = refl
    response-observe_request (some m) r served = refl

    -- For every request the server's writer gets one response, one header before all bytes, whatever
    -- the services, the cache and the metrics answer, and whether the handler returned, it panicked at
    -- its end, or the deadline had passed when it was done.
    pub serve-is_one_response :
        (h : Handler W) (decode : Decoder) (ending : Ending) (request_id : String)
        (dst_header : Header) (r : Request) (world : W)
        → is_one_response
            (serve x wire h decode ending request_id dst_header r
              world).exchange.response.destination
          ≡ true
    unfolding serve serve_http guarded Keeps
    serve-is_one_response h decode ending request_id dst_header r world =
        let start =
          new_observed_response (set_value "X-Request-ID" request_id dst_header)
            (r.method == head_method) in
        let begun : Exchange W ObservedResponse = record {
          world = world;
          response = start;
          cache_result = "none";
        } in
        let handled = guarded x wire h (route x (observed_writer wire) decode h r) r begun in
        let reached =
          if_cases (λ (e : Exchange W ObservedResponse). IsReached wire start e.response)
            (ltb_ℤ h.deps.limits.max_request_bytes r.content_length)
            (respond
              (write_api_error x.encoding (observed_writer wire) 400 400
                "request body is too large")
              begun)
            (route x (observed_writer wire) decode h r begun)
            (λ _.
              write_api_error-IsReached wire start x.encoding 400 400 "request body is too large"
                start at_start)
            (λ _. route-Keeps W wire start x decode h r begun at_start) in
        ap (λ (v : ObservedResponse). is_one_response v.destination)
          (response-observe_request h.deps.metrics r (conclude x wire ending request_id handled))
        ∙ conclude_lem ending request_id (set_value "X-Request-ID" request_id dst_header)
            (r.method == head_method) handled reached
