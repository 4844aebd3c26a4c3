-- ===== src/Transport/Serving/Writes.antt =====
-- What a handler does to the observed response is a sequence of calls of its methods.
use test.Common.{ℕ, String, Bool, true, false, Option, none, some, List, if_cases}
use test.Errors.{Error, Result, ok, err, Sentinel, DomainError, is}
use test.Transport.Handler.{Exchange, or_domain_error, or_bad_request, refuse_if}
use test.Transport.Response.{Wire, ObservedResponse}
use test.Transport.Response.Trace.{Op, step}
use test.Transport.Writer.{
  ResponseWriter, Encoding, Payload, observed_writer, write_encoded, write_api_error, write_json,
  write_domain_error, bad_request,
}

-- The responses that calls of the methods lead to from `w`.
pub data IsReached (wire : Wire) (w : ObservedResponse) : ObservedResponse → Type 0 where
  at_start : IsReached wire w w
  by_op :
      {v : ObservedResponse} → IsReached wire w v → (op : Op) → IsReached wire w (step wire op v)

module _ (wire : Wire) (w : ObservedResponse) where
  abbrev out : ResponseWriter ObservedResponse
  out = observed_writer wire

  pub set-IsReached :
      {v : ObservedResponse} (name value : String)
      → IsReached wire w v
      → IsReached wire w (out.set name value v)
  unfolding step
  set-IsReached name value h = by_op h (Op.set_header name value)

  pub set_values-IsReached :
      {v : ObservedResponse} (name : String) (values : List String)
      → IsReached wire w v
      → IsReached wire w (out.set_values name values v)
  unfolding step
  set_values-IsReached name values h = by_op h (Op.set_values name values)

  pub write_header-IsReached :
      {v : ObservedResponse} (status : ℕ)
      → IsReached wire w v
      → IsReached wire w (out.write_header status v)
  unfolding step
  write_header-IsReached status h = by_op h (Op.write_header status)

  pub write-IsReached :
      {v : ObservedResponse} (bytes : List ℕ)
      → IsReached wire w v
      → IsReached wire w (out.write bytes v).1
  unfolding step
  write-IsReached bytes h = by_op h (Op.write bytes)

  pub start_streaming-IsReached :
      {v : ObservedResponse} → IsReached wire w v → IsReached wire w (out.start_streaming v)
  unfolding step
  start_streaming-IsReached h = by_op h Op.start_streaming

  module _ (x : Encoding) where
    write_encoded-IsReached :
        (status : ℕ) (json : List ℕ) (v : ObservedResponse)
        → IsReached wire w v
        → IsReached wire w (write_encoded x out status json v)
    unfolding write_encoded
    write_encoded-IsReached status json v h =
        write-IsReached _ (write_header-IsReached _ (set-IsReached _ _ (set-IsReached _ _ h)))

    pub write_api_error-IsReached :
        (status code : ℕ) (text : String) (v : ObservedResponse)
        → IsReached wire w v
        → IsReached wire w (write_api_error x out status code text v)
    unfolding write_api_error
    write_api_error-IsReached status code text v h =
        write_encoded-IsReached status (x.error_json code text) v h

    pub write_json-IsReached :
        (status : ℕ) (value : Payload) (v : ObservedResponse)
        → IsReached wire w v
        → IsReached wire w (write_json x out status value v)
    unfolding write_json
    write_json-IsReached status value v h = by_json (x.marshal value)
      where
        by_json :
            (json : Option (List ℕ))
            → IsReached wire w (elim json [
              | none ↦ write_api_error x out 500 500 "internal server error" v
              | some encoded ↦ write_encoded x out status encoded v
            ])
        by_json none = write_api_error-IsReached 500 500 "internal server error" v h
        by_json (some json) = write_encoded-IsReached status json v h

    pub write_domain_error-IsReached :
        (e : Error) (v : ObservedResponse)
        → IsReached wire w v
        → IsReached wire w (write_domain_error x out e v)
    unfolding write_domain_error
    write_domain_error-IsReached e v h =
        let sent =
          λ (status : ℕ) (text : String). write_api_error-IsReached status status text v h in
        if_cases (IsReached wire w) (is e (Sentinel.domain DomainError.invalid_argument)) _ _
          (λ _. sent 400 "bad request")
          (λ _.
            if_cases (IsReached wire w) (is e (Sentinel.domain DomainError.unauthorized)) _ _
              (λ _. sent 401 "unauthorized")
              (λ _.
                if_cases (IsReached wire w) (is e (Sentinel.domain DomainError.forbidden)) _ _
                  (λ _. sent 403 "forbidden")
                  (λ _.
                    if_cases (IsReached wire w) (is e (Sentinel.domain DomainError.not_found)) _ _
                      (λ _. sent 404 "resource not found")
                      (λ _.
                        if_cases (IsReached wire w)
                          (is e (Sentinel.domain DomainError.not_implemented)) _ _
                          (λ _. sent 501 "operation not implemented")
                          (λ _. sent 500 "internal server error")))))

    -- A function of exchanges that only writes to the response by its methods.
    unfoldable pub Keeps :
        {W : Type 0} → (Exchange W ObservedResponse → Exchange W ObservedResponse) → Type 0
    Keeps {W = W} f =
        (e : Exchange W ObservedResponse)
        → IsReached wire w e.response
        → IsReached wire w (f e).response

    pub or_domain_error-Keeps :
        {W A : Type 0} (answer : Exchange W ObservedResponse → Result A × W)
        (next : A → Exchange W ObservedResponse → Exchange W ObservedResponse)
        → ((a : A) → Keeps (next a))
        → Keeps (λ e. or_domain_error x out (answer e) next e)
    unfolding Keeps
    or_domain_error-Keeps {W = W} {A = A} answer next keeps e h = by_answer (answer e)
      where
        by_answer : (r : Result A × W) → IsReached wire w (or_domain_error x out r next e).response
        by_answer (ok a, v) = unfold or_domain_error in keeps a (record e { world = v }) h
        by_answer (err problem, v) =
            unfold or_domain_error in write_domain_error-IsReached problem e.response h

    pub or_bad_request-Keeps :
        {W A : Type 0} (o : Option A)
        (next : A → Exchange W ObservedResponse → Exchange W ObservedResponse)
        → ((a : A) → Keeps (next a))
        → Keeps (or_bad_request x out o next)
    unfolding or_bad_request bad_request Keeps
    or_bad_request-Keeps none next keeps e h =
        write_api_error-IsReached 400 400 "bad request" e.response h
    or_bad_request-Keeps (some a) next keeps e h = keeps a e h

    pub refuse_if-Keeps :
        {W : Type 0} (test : Bool)
        (next : Exchange W ObservedResponse → Exchange W ObservedResponse)
        → Keeps next
        → Keeps (refuse_if x out test next)
    unfolding refuse_if bad_request Keeps
    refuse_if-Keeps true next keeps e h =
        write_api_error-IsReached 400 400 "bad request" e.response h
    refuse_if-Keeps false next keeps e h = keeps e h
