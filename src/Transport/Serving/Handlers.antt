-- ===== src/Transport/Serving/Handlers.antt =====
-- Every handler writes to the observed response by its methods only.
use test.Common.{String, not, ◌||◌, [], ◌∷◌, ◌==◌, any}
use test.Errors.{Result, ok, err}
use test.Transport.Accounts.{register, authenticate, logout, form_value}
use test.Transport.Caching.{Library}
use test.Transport.Documents.Parts.{Decoder}
use test.Transport.Handler.{
  Handler, Exchange, Request, get_method, head_method, post_method, delete_method, trim_prefix,
  single_path_value,
}
use test.Transport.Response.{Wire, ObservedResponse}
use test.Errors.{Action}
use test.Transport.Routing
use test.Transport.Routing.{
  join_comma, route, route_docs, route_document, operation, method_not_allowed, with_method, ready,
}
use test.Transport.Serving.Writes.{
  IsReached, Keeps, write_api_error-IsReached, write_json-IsReached, or_domain_error-Keeps,
}
use test.Transport.Writer.{ResponseWriter, Payload, observed_writer, not_implemented}
use test.Transport.Serving.Steps.{
  write_json-Keeps, error-Keeps, if-Keeps, method_not_allowed-Keeps, parse_url_form-Keeps,
  elim-Keeps,
}
use test.Transport.Serving.Lists.{
  list_documents-Keeps, delete_document-Keeps, upload_document-Keeps,
}
use test.Transport.Serving.Reads.{read_document-Keeps}

module _ (W : Type 0) (wire : Wire) (w : ObservedResponse) (x : Library) where
  abbrev out : ResponseWriter ObservedResponse
  out = observed_writer wire

  abbrev Kept : (Exchange W ObservedResponse → Exchange W ObservedResponse) → Type 0
  Kept f = Keeps wire w x.encoding f

  module _ (decode : Decoder) (h : Handler W) where
    register-Keeps : (r : Request) → Kept (register x out h r)
    unfolding register not_implemented
    register-Keeps r =
        elim-Keeps W wire w x h.deps.auth _ _
          (error-Keeps W wire w x 501 501 "operation not implemented")
          (λ auth. parse_url_form-Keeps W wire w x r _ (λ form.
            or_domain_error-Keeps wire w x.encoding
              (λ (e : Exchange W ObservedResponse).
                auth.register (form_value form "token") (form_value form "login")
                  (form_value form "pswd") e.world)
              _
              (λ user. write_json-Keeps W wire w x 200 (Payload.response_text "login" user.login))))

    authenticate-Keeps : (r : Request) → Kept (authenticate x out h r)
    unfolding authenticate not_implemented
    authenticate-Keeps r =
        elim-Keeps W wire w x h.deps.auth _ _
          (error-Keeps W wire w x 501 501 "operation not implemented")
          (λ auth. parse_url_form-Keeps W wire w x r _ (λ form.
            or_domain_error-Keeps wire w x.encoding
              (λ (e : Exchange W ObservedResponse).
                auth.authenticate (form_value form "login") (form_value form "pswd") e.world)
              _ (λ token. write_json-Keeps W wire w x 200 (Payload.response_text "token" token))))

    logout-Keeps : (token : String) → Kept (logout x out h token)
    unfolding logout not_implemented
    logout-Keeps token =
        elim-Keeps W wire w x h.deps.auth _ _
          (error-Keeps W wire w x 501 501 "operation not implemented")
          (λ auth.
            or_domain_error-Keeps wire w x.encoding
              (λ (e : Exchange W ObservedResponse). auth.logout token e.world) _
              (λ _. write_json-Keeps W wire w x 200 (Payload.response_flag token)))

    with_method-Keeps :
        (method : String) (r : Request)
        (body : Exchange W ObservedResponse → Exchange W ObservedResponse)
        → Kept body
        → Kept (with_method x out method r body)
    unfolding with_method
    with_method-Keeps method r body keeps =
        if-Keeps W wire w x (not (r.method == method)) (method_not_allowed x out (method ∷ [])) body
          (method_not_allowed-Keeps W wire w x (method ∷ [])) keeps

    ready-Keeps : Kept (ready x out decode h)
    unfolding ready
    ready-Keeps =
        elim-Keeps W wire w x h.deps.readiness _ _
          (write_json-Keeps W wire w x 200 (Payload.response_text "status" "ok")) ready_answer
      where
        ready_answer :
            (readiness : Action W (Unit {0}))
            → Kept (λ e. Routing.readiness_answer x out e (readiness e.world))
        ready_answer readiness = unfold Keeps in λ e r. by_answer e r (readiness e.world)
          where
            by_answer :
                (e : Exchange W ObservedResponse)
                → IsReached wire w e.response
                → (answer : Result (Unit {0}) × W)
                → IsReached wire w (Routing.readiness_answer x out e answer).response
            by_answer e r (ok done, v) =
                unfold Routing.readiness_answer in
                write_json-IsReached wire w x.encoding 200 (Payload.response_text "status" "ok")
                  e.response r
            by_answer e r (err problem, v) =
                unfold Routing.readiness_answer in
                write_api_error-IsReached wire w x.encoding 503 500 "service unavailable" e.response
                  r

    route_docs-Keeps : (r : Request) → Kept (route_docs x out decode h r)
    unfolding route_docs operation not_implemented
    route_docs-Keeps r =
        if-Keeps W wire w x (r.method == post_method) _ _
          (upload_document-Keeps W wire w x decode h r)
          (if-Keeps W wire w x (r.method == get_method || r.method == head_method) _ _
            (list_documents-Keeps W wire w x decode h r)
            (if-Keeps W wire w x
              (any (λ method. r.method == method) (get_method ∷ head_method ∷ post_method ∷ [])) _ _
              (error-Keeps W wire w x 501 501 "operation not implemented")
              (method_not_allowed-Keeps W wire w x (get_method ∷ head_method ∷ post_method ∷ []))))

    route_document-Keeps : (r : Request) (id : String) → Kept (route_document x out decode h r id)
    unfolding route_document
    route_document-Keeps r id =
        if-Keeps W wire w x (r.method == get_method || r.method == head_method) _ _
          (read_document-Keeps W wire w x decode h r id)
          (if-Keeps W wire w x (r.method == delete_method) _ _
            (delete_document-Keeps W wire w x decode h r id)
            (method_not_allowed-Keeps W wire w x (delete_method ∷ get_method ∷ head_method ∷ [])))

    pub route-Keeps : (r : Request) → Kept (route x out decode h r)
    unfolding route
    route-Keeps r =
        if-Keeps W wire w x (r.path == "/health/live") _ _
          (with_method-Keeps get_method r _
            (write_json-Keeps W wire w x 200 (Payload.response_text "status" "ok")))
          (if-Keeps W wire w x (r.path == "/health/ready") _ _
            (with_method-Keeps get_method r _ ready-Keeps)
            (if-Keeps W wire w x (r.path == "/api/register") _ _
              (with_method-Keeps post_method r _ (register-Keeps r))
              (if-Keeps W wire w x (r.path == "/api/auth") _ _
                (with_method-Keeps post_method r _ (authenticate-Keeps r))
                (if-Keeps W wire w x (single_path_value r.path "/api/auth/") _ _
                  (with_method-Keeps delete_method r _
                    (logout-Keeps (trim_prefix r.path "/api/auth/")))
                  (if-Keeps W wire w x (r.path == "/api/docs") _ _ (route_docs-Keeps r) (
                    if-Keeps W wire w x (single_path_value r.path "/api/docs/") _ _
                      (route_document-Keeps r (trim_prefix r.path "/api/docs/"))
                      (error-Keeps W wire w x 404 404 "resource not found")))))))
