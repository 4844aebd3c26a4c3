-- ===== src/Tests/TransportTests.antt =====
-- The observed response and the query of a listing.
use test.Common.{
  ◌≡◌, refl, String, true, false, Option, none, some, List, [], ◌∷◌, ◌==◌, if◌then◌else◌,
}
use test.Common.Assoc.{lookup}
use test.Common.Int.{ℤ, pos, is_negative, ltb_ℤ}
use test.Service.Reading.{validate_document_filter}
use test.Transport.Filter
use test.Transport.Filter.{parse_document_list_filter, validate-parse}
use test.Transport.Response
use test.Transport.Response.{Wire, ObservedResponse, DstCall, new_observed_response, is_pending}
use test.Transport.Response.Trace.{
  Op, run, is_silent, is_one_response, run-is_one_response, run_over,
}
use test.Tests.ServiceTests.{formats}

abbrev pub wire : Wire
wire = record {
  accepted = λ calls bytes. 1;
  is_flusher = true;
  itoa = λ n. "1";
  error_json = λ status text. 1 ∷ [];
  timeout_json = 2 ∷ [];
}

abbrev ops : List Op
ops = Op.write_header 200 ∷ Op.write (1 ∷ []) ∷ Op.flush ∷ Op.timeout "id" ∷ Op.write (2 ∷ []) ∷ []

abbrev timed_out : ObservedResponse
timed_out = run wire ops (new_observed_response [] false)

program : Unit {0}
unfolding run Response.write_header Response.write Response.write_body Response.flush
    Response.start_streaming Response.dst_write Response.timeout new_observed_response lookup
    parse_document_list_filter Filter.valid_document_list_filter_value Filter.query_value
program = tt

-- What was written before the flush is sent with the flush; after the timeout nothing is sent, as
-- the state says, even where the deadline was not seen.
streamed :
    timed_out.destination
    ≡ DstCall.flushed ∷ DstCall.sent_bytes (1 ∷ []) ∷ DstCall.sent_header 200 ∷ []
unfolding program
streamed = refl

run-is_one_response_example :
    (if is_pending timed_out.state
      then is_silent timed_out.destination
      else is_one_response timed_out.destination)
    ≡ true
run-is_one_response_example = run-is_one_response wire ops [] false

abbrev flushing : ObservedResponse
flushing =
    run wire (Op.write_header 200 ∷ Op.write (1 ∷ []) ∷ Op.flush ∷ [])
      (new_observed_response [] false)

run_over_example :
    ((run wire (Op.write (3 ∷ []) ∷ Op.finish ∷ []) timed_out).destination ≡ timed_out.destination)
    × ((run wire
          (Op.write (3 ∷ []) ∷ Op.finish ∷ [])
          (Response.timeout wire "id" flushing).0).destination
        ≡ (Response.timeout wire "id" flushing).0.destination)
unfolding program
run_over_example = run_over wire (Op.write (3 ∷ []) ∷ Op.finish ∷ []) "id" timed_out flushing refl

abbrev atoi : String → Option ℤ
atoi s = if s == "5" then some (pos 5) else none

abbrev query : Filter.Query
query = ("key", "name" ∷ []) ∷ ("value", "notes" ∷ []) ∷ ("limit", "5" ∷ []) ∷ []

validate-parse_example :
    (validate_document_filter formats "name" "notes" ≡ true)
    × (is_negative (pos 5) ≡ false)
    × (ltb_ℤ (pos 10) (pos 5) ≡ false)
unfolding program
validate-parse_example =
    validate-parse formats atoi (pos 10) query
      (record { owner_login = ""; key = "name"; value = "notes"; limit = pos 5 }) refl refl
