-- ===== src/Transport/Response/Trace.antt =====
-- What the server's response writer receives from `observedResponse`, whatever a handler and the
-- timer do.
use test.Common.{
  ℕ, ◌≡◌, refl, ◌∙◌, String, Bool, true, false, ◌&&◌, List, [], ◌∷◌, arith, if◌then◌else◌,
}
use test.Transport.Response
use test.Transport.Response.{
  Wire, ObservedResponse, ResponseState, DstCall, Header, new_observed_response, is_pending,
  is_streaming, pending, streaming, completed, timed_out, streaming_timed_out,
}

-- The calls of a handler's methods, the ends of the request, and the passing of the deadline.
pub data Op : Type 0 where
  set_header : String → String → Op
  set_values : String → List String → Op
  write_header : ℕ → Op
  write : List ℕ → Op
  flush start_streaming finish replace_with_internal_error deadline : Op
  timeout : String → Op

module _ (x : Wire) where
  unfoldable pub step : Op → ObservedResponse → ObservedResponse
  unfolding Response.write_header Response.write Response.flush Response.start_streaming
      Response.finish Response.replace_with_internal_error Response.timeout Response.set_header
      Response.set_values
  step (set_header name value) w = Response.set_header name value w
  step (set_values name values) w = Response.set_values name values w
  step (write_header status) w = Response.write_header status w
  step (write bytes) w = Response.write x bytes w
  step flush w = Response.flush x w
  step start_streaming w = Response.start_streaming x w
  step finish w = Response.finish x w
  step replace_with_internal_error w = Response.replace_with_internal_error x w
  step deadline w = record w { deadline_exceeded = true }
  step (timeout request_id) w = (Response.timeout x request_id w).0

  unfoldable pub run : List Op → ObservedResponse → ObservedResponse
  unfolding step
  run [] w = w
  run (op ∷ ops) w = run ops (step op w)

-- One header, and before everything else; the newest call is the first of the list.
abbrev pub is_one_response : List DstCall → Bool
is_one_response [] = false
is_one_response (DstCall.sent_header status ∷ []) = true
is_one_response (DstCall.sent_header status ∷ c ∷ calls) = false
is_one_response (DstCall.sent_bytes bytes ∷ calls) = is_one_response calls
is_one_response (DstCall.flushed ∷ calls) = is_one_response calls

abbrev pub is_silent : List DstCall → Bool
is_silent [] = true
is_silent (c ∷ calls) = false

-- What holds of the calls in each state.
abbrev is_sound : ResponseState → Bool → List DstCall → Bool
is_sound pending wrote calls = is_silent calls
is_sound streaming wrote calls = wrote && is_one_response calls
is_sound completed wrote calls = is_one_response calls
is_sound timed_out wrote calls = is_one_response calls
is_sound streaming_timed_out wrote calls = is_one_response calls

abbrev IsSound : ObservedResponse → Type 0
IsSound w = is_sound w.state w.wrote_header w.destination ≡ true

silent_lem : (calls : List DstCall) → is_silent calls ≡ true → calls ≡ []
silent_lem [] p = refl
silent_lem (c ∷ calls) p = cc

write_header-IsSound :
    (status : ℕ) (w : ObservedResponse) → IsSound w → IsSound (Response.write_header status w)
unfolding Response.write_header
write_header-IsSound status w h = ground arith

module _ (x : Wire) where
  write_body-IsSound :
      (bytes : List ℕ) (w : ObservedResponse) → IsSound w → IsSound (Response.write_body x bytes w)
  unfolding Response.write_body Response.dst_write
  write_body-IsSound bytes w h = ground arith

  write-IsSound :
      (bytes : List ℕ) (w : ObservedResponse) → IsSound w → IsSound (Response.write x bytes w)
  unfolding Response.write
  write-IsSound bytes w h = ground (
    arith,
    write_body-IsSound bytes w h,
    write_body-IsSound bytes (Response.write_header 200 w) (write_header-IsSound 200 w h),
  )

  start_streaming-IsSound :
      (w : ObservedResponse) → IsSound w → IsSound (Response.start_streaming x w)
  unfolding Response.start_streaming Response.dst_write
  start_streaming-IsSound w h = ground (arith, silent_lem w.destination)

  finish-IsSound : (w : ObservedResponse) → IsSound w → IsSound (Response.finish x w)
  unfolding Response.finish Response.dst_write
  finish-IsSound w h = ground (arith, silent_lem w.destination)

  timeout-IsSound :
      (request_id : String) (w : ObservedResponse)
      → IsSound w
      → IsSound (Response.timeout x request_id w).0
  unfolding Response.timeout Response.timeout_pending Response.dst_write
  timeout-IsSound request_id w h = ground (arith, silent_lem w.destination)

  flush-IsSound : (w : ObservedResponse) → IsSound w → IsSound (Response.flush x w)
  unfolding Response.flush
  flush-IsSound w h = ground (arith, start_streaming-IsSound w h)

  -- In the pending state nothing was sent, and the new error is only buffered.
  replace-IsSound :
      (w : ObservedResponse) → IsSound w → IsSound (Response.replace_with_internal_error x w)
  unfolding Response.replace_with_internal_error Response.write_api_error Response.write
      Response.write_header Response.write_body Response.set_header Response.set_values
  replace-IsSound w h = ground (arith, silent_lem w.destination)

  step-IsSound : (op : Op) (w : ObservedResponse) → IsSound w → IsSound (step x op w)
  unfolding step
  step-IsSound (set_header name value) w h = unfold Response.set_header in ground arith
  step-IsSound (set_values name values) w h = unfold Response.set_values in ground arith
  step-IsSound (write_header status) w h = write_header-IsSound status w h
  step-IsSound (write bytes) w h = write-IsSound bytes w h
  step-IsSound flush w h = flush-IsSound w h
  step-IsSound start_streaming w h = start_streaming-IsSound w h
  step-IsSound finish w h = finish-IsSound w h
  step-IsSound replace_with_internal_error w h = replace-IsSound w h
  step-IsSound deadline w h = h
  step-IsSound (timeout request_id) w h = timeout-IsSound request_id w h

  run-IsSound : (ops : List Op) (w : ObservedResponse) → IsSound w → IsSound (run x ops w)
  unfolding run
  run-IsSound [] w h = h
  run-IsSound (op ∷ ops) w h = run-IsSound ops (step x op w) (step-IsSound op w h)

  -- Whatever is called in whatever order, nothing is sent while the response is pending, and in
  -- every other state exactly one header was sent, before all bytes and flushes.
  pub run-is_one_response :
      (ops : List Op) (dst_header : Header) (head : Bool)
      → (let w = run x ops (new_observed_response dst_header head) in
          if is_pending w.state then is_silent w.destination else is_one_response w.destination)
        ≡ true
  run-is_one_response ops dst_header head =
      let w = run x ops (new_observed_response dst_header head) in
      ground (
        arith,
        run-IsSound ops (new_observed_response dst_header head)
            (unfold new_observed_response in refl),
      )

-- The states in which the response is over.
abbrev pub is_over : ResponseState → Bool
is_over pending = false
is_over streaming = false
is_over _ = true

module _ (x : Wire) where
  step_over :
      (op : Op) (w : ObservedResponse)
      → is_over w.state ≡ true
      → (is_over (step x op w).state ≡ true) × ((step x op w).destination ≡ w.destination)
  unfolding step Response.write_header Response.write Response.write_body Response.flush
      Response.start_streaming Response.finish Response.replace_with_internal_error Response.timeout
      Response.set_header Response.set_values
  step_over (set_header name value) w h = ground arith
  step_over (set_values name values) w h = ground arith
  step_over (write_header status) w h = ground arith
  step_over (write bytes) w h = ground arith
  step_over flush w h = ground arith
  step_over start_streaming w h = ground arith
  step_over finish w h = ground arith
  step_over replace_with_internal_error w h = ground arith
  step_over deadline w h = (h, refl)
  step_over (timeout request_id) w h = ground arith

  timeout-is_over :
      (request_id : String) (w : ObservedResponse)
      → is_over (Response.timeout x request_id w).0.state ≡ true
  unfolding Response.timeout Response.timeout_pending Response.dst_write
  timeout-is_over request_id w = ground arith

  run_from_over :
      (ops : List Op) (w : ObservedResponse)
      → is_over w.state ≡ true
      → (run x ops w).destination ≡ w.destination
  unfolding run
  run_from_over [] w h = refl
  run_from_over (op ∷ ops) w h =
      let (over, same) = step_over op w h in run_from_over ops (step x op w) over ∙ same

  -- While the state of a response is completed or timed out, before or after it was streamed, no
  -- call of its methods in whatever order makes a further call of the server's writer. And a timeout
  -- leaves every response, the streamed ones included, in such a state: whatever the handler that is
  -- still running calls later, the writer is not called again.
  pub run_over :
      (ops : List Op) (request_id : String) (w v : ObservedResponse)
      → is_over w.state ≡ true
      → ((run x ops w).destination ≡ w.destination)
        × ((run x ops (Response.timeout x request_id v).0).destination
            ≡ (Response.timeout x request_id v).0.destination)
  run_over ops request_id w v h = (
    run_from_over ops w h,
    run_from_over ops (Response.timeout x request_id v).0 (timeout-is_over request_id v),
  )
