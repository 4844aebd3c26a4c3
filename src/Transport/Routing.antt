-- ===== src/Transport/Routing.antt =====
-- `route`, `normalizedRoute` and `serveHTTP` of internal/httptransport/handler.go.
pub mod Refusals
pub mod Labels
use test.Common.{
  String, Bool, true, false, not, ◌&&◌, ◌||◌, Option, none, some, List, [], ◌∷◌, ◌==◌,
  if◌then◌else◌, any,
}
use Prim.Native.String
use test.Common.Int.{ℤ, ltb_ℤ}
use test.Errors.{Result, ok, err, Action}
use test.Transport.Accounts.{register, authenticate, logout}
use test.Transport.Caching.{Library}
use test.Transport.Documents.{list_documents, delete_document}
use test.Transport.Documents.Reading.{read_document}
use test.Transport.Documents.Parts.{Decoder}
use test.Transport.Documents.Uploads.{upload_document}
use test.Transport.Handler.{
  Handler, Exchange, Request, respond, single_path_value, trim_prefix, get_method, head_method,
  post_method, delete_method,
}
use test.Transport.Writer.{
  ResponseWriter, Payload, write_json, write_api_error, not_implemented, bad_request,
}

-- The paths without a parameter.
abbrev pub is_fixed : String → Bool
is_fixed path =
    path == "/health/live"
    || path == "/health/ready"
    || path == "/metrics"
    || path == "/api/register"
    || path == "/api/auth"
    || path == "/api/docs"

unfoldable pub normalized_route : String → String
unfolding single_path_value
normalized_route path =
    if is_fixed path
    then path
    else if single_path_value path "/api/auth/"
    then "/api/auth/{token}"
    else if single_path_value path "/api/docs/"
    then "/api/docs/{id}"
    else "not_found"

-- `strings.Join` with ", "
unfoldable pub join_comma : List String → String
join_comma [] = ""
join_comma (s ∷ []) = s
join_comma (s ∷ t ∷ rest) = String.◌++◌ s (String.◌++◌ ", " (join_comma (t ∷ rest)))

module _ {W R : Type 0} (x : Library) (out : ResponseWriter R) where
  unfoldable pub method_not_allowed : List String → Exchange W R → Exchange W R
  unfolding write_api_error join_comma
  method_not_allowed allowed = respond (λ w.
      write_api_error x.encoding out 405 405 "method not allowed"
        (out.set "Allow" (join_comma allowed) w))

  unfoldable pub operation : Request → List String → Exchange W R → Exchange W R
  unfolding not_implemented method_not_allowed
  operation r allowed e =
      if any (λ method. r.method == method) allowed
      then respond (not_implemented x.encoding out) e
      else method_not_allowed allowed e

  abbrev status_ok : Exchange W R → Exchange W R
  status_ok = respond (write_json x.encoding out 200 (Payload.response_text "status" "ok"))

  unfoldable pub readiness_answer : Exchange W R → Result (Unit {0}) × W → Exchange W R
  unfolding write_json write_api_error
  readiness_answer e (ok _, w) = status_ok (record e { world = w })
  readiness_answer e (err _, w) =
      respond (write_api_error x.encoding out 503 500 "service unavailable")
        (record e { world = w })

  -- `next` where the request has the method, the only one that is allowed.
  unfoldable pub with_method :
      String → Request → (Exchange W R → Exchange W R) → Exchange W R → Exchange W R
  unfolding method_not_allowed
  with_method method r next e =
      if not (r.method == method) then method_not_allowed (method ∷ []) e else next e

  module _ (decode : Decoder) (h : Handler W) where
    unfoldable pub ready : Exchange W R → Exchange W R
    unfolding readiness_answer write_json
    ready e = elim h.deps.readiness [
      | none ↦ status_ok e
      | some readiness ↦ readiness_answer e (readiness e.world)
    ]

    unfoldable pub route_docs : Request → Exchange W R → Exchange W R
    unfolding upload_document list_documents operation
    route_docs r e =
        if r.method == post_method
        then upload_document x decode out h r e
        else if r.method == get_method || r.method == head_method
        then list_documents x out h r e
        else operation r (get_method ∷ head_method ∷ post_method ∷ []) e

    unfoldable pub route_document : Request → String → Exchange W R → Exchange W R
    unfolding read_document delete_document method_not_allowed
    route_document r id e =
        if r.method == get_method || r.method == head_method
        then read_document x out h r id e
        else if r.method == delete_method
        then delete_document x out h r id e
        else method_not_allowed (delete_method ∷ get_method ∷ head_method ∷ []) e

    unfoldable pub route : Request → Exchange W R → Exchange W R
    unfolding with_method ready register authenticate logout route_docs route_document
        single_path_value trim_prefix write_json write_api_error
    route r e =
        if r.path == "/health/live"
        then with_method get_method r status_ok e
        else if r.path == "/health/ready"
        then with_method get_method r ready e
        else if r.path == "/api/register"
        then with_method post_method r (register x out h r) e
        else if r.path == "/api/auth"
        then with_method post_method r (authenticate x out h r) e
        else if single_path_value r.path "/api/auth/"
        then with_method delete_method r (logout x out h (trim_prefix r.path "/api/auth/")) e
        else if r.path == "/api/docs"
        then route_docs r e
        else if single_path_value r.path "/api/docs/"
        then route_document r (trim_prefix r.path "/api/docs/") e
        else respond (write_api_error x.encoding out 404 404 "resource not found") e
