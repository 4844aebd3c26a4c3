-- ===== src/Transport/Routing/Refusals.antt =====
-- Requests for documents whose token is not accepted.
use test.Common.{
  ◌≡◌, refl, sym, subst, String, Bool, true, false, not, ◌||◌, Option, none, some, List, [], ◌∷◌,
  ◌==◌, inl, inr, Bool-cases, if_cases, any, eq_iff,
}
use test.Domain.{User}
use test.Errors.{Error, Result, err}
use test.Transport.Caching.{Library}
use test.Transport.Documents.{
  if_present, with_services, list_documents, parse_delete_form, delete_document,
}
use test.Transport.Documents.Reading.{read_document}
use test.Transport.Documents.Parts.{Decoder}
use test.Transport.Documents.Uploads.{upload_document, answer_form}
use test.Transport.Handler.{
  Handler, AuthService, DocumentService, Exchange, Request, respond, or_domain_error,
  or_bad_request, refuse_if, single_path_value, get_method, head_method, post_method, delete_method,
}
use test.Transport.Routing.{
  is_fixed, normalized_route, route, route_docs, route_document, method_not_allowed, operation,
}
use test.Transport.Writer.{ResponseWriter, bad_request, not_implemented, write_domain_error}

some_injective : {A : Type 0} {a b : A} → some a ≡ some b → a ≡ b
some_injective p = cc

unfoldable pub is_docs : String → Bool
is_docs label = label == "/api/docs" || label == "/api/docs/{id}"

clash : {b : Bool} → b ≡ false → b ≡ true → ⊥
clash p q = cc

named :
    (path literal : String)
    → (path == literal) ≡ true
    → is_docs (normalized_route literal) ≡ false
    → is_docs (normalized_route path) ≡ true
    → ⊥
named path literal same no_docs docs =
    clash no_docs
      (subst (λ s. is_docs (normalized_route s) ≡ true) ((eq_iff path literal).0 same) docs)

differs :
    (path literal prefix : String) (value : Bool)
    → single_path_value path prefix ≡ value
    → single_path_value literal prefix ≡ not value
    → (path == literal) ≡ false
differs path literal prefix value p q = elim (Bool-cases (path == literal)) [
  | inr other ↦ other
  | inl same ↦ absurd (
      not_clash value
        (subst (λ s. single_path_value s prefix ≡ value) ((eq_iff path literal).0 same) p) q)
]
  where
    not_clash : {b : Bool} (v : Bool) → b ≡ v → b ≡ not v → ⊥
    not_clash true p q = cc
    not_clash false p q = cc

session_docs : single_path_value "/api/docs" "/api/auth/" ≡ false
unfolding single_path_value
session_docs = refl

session_document : single_path_value "/api/docs/{id}" "/api/auth/" ≡ false
unfolding single_path_value
session_document = refl

document_document : single_path_value "/api/docs/{id}" "/api/docs/" ≡ true
unfolding single_path_value
document_document = refl

session_path :
    (path : String)
    → single_path_value path "/api/auth/" ≡ true
    → is_docs (normalized_route path) ≡ false
unfolding is_docs normalized_route
session_path path single =
    let no_docs = differs path "/api/docs" "/api/auth/" true single session_docs in
    let no_document = differs path "/api/docs/{id}" "/api/auth/" true single session_document in
    rw (single) (
      if_cases (λ t. is_docs t ≡ false) (is_fixed path) path "/api/auth/{token}"
        (λ _. rw (no_docs, no_document)) (λ _. refl))

other_path :
    (path : String)
    → (path == "/api/docs") ≡ false
    → single_path_value path "/api/auth/" ≡ false
    → single_path_value path "/api/docs/" ≡ false
    → is_docs (normalized_route path) ≡ false
unfolding is_docs normalized_route
other_path path no_docs no_session no_single =
    let no_document =
      differs path "/api/docs/{id}" "/api/docs/" false no_single document_document in
    rw (no_session, no_single)
      (if_cases (λ t. is_docs t ≡ false) (is_fixed path) path "not_found"
        (λ _. rw (no_docs, no_document)) (λ _. refl))

module _ {W R : Type 0} (x : Library) (out : ResponseWriter R) where
  -- The exchange after a refusal: the world is as it was, and the response is one of the refusals.
  pub data IsRefused (e : Exchange W R) : Exchange W R → Type 0 where
    bad : IsRefused e (respond (bad_request x.encoding out) e)
    missing : IsRefused e (respond (not_implemented x.encoding out) e)
    denied : (problem : Error) → IsRefused e (respond (write_domain_error x.encoding out problem) e)
    wrong_method : (allowed : List String) → IsRefused e (method_not_allowed x out allowed e)

  -- No token is accepted in this world, and asking changes nothing.
  unfoldable pub Refuses : AuthService W → W → Type 0
  Refuses auth w =
      (token : String) → (problem : Error) × (auth.authorize token w ≡ (err problem, w))

  -- A handler that refuses where no token is accepted.
  pub IsRefusal : AuthService W → (Exchange W R → Exchange W R) → Type 0
  IsRefusal auth body = (e : Exchange W R) → Refuses auth e.world → IsRefused e (body e)

  denied_lem :
      {A : Type 0} (e : Exchange W R) (answer : Result A × W)
      (next : A → Exchange W R → Exchange W R) (problem : Error)
      → answer ≡ (err problem, e.world)
      → IsRefused e (or_domain_error x.encoding out answer next e)
  unfolding or_domain_error
  denied_lem e answer next problem p = rw (p) (denied problem)

  or_bad_request-IsRefusal :
      {A : Type 0} (auth : AuthService W) (o : Option A) (next : A → Exchange W R → Exchange W R)
      → ((a : A) → IsRefusal auth (next a))
      → IsRefusal auth (or_bad_request x.encoding out o next)
  unfolding or_bad_request IsRefusal
  or_bad_request-IsRefusal auth none next body e refuses = bad
  or_bad_request-IsRefusal auth (some a) next body e refuses = body a e refuses

  refuse_if-IsRefusal :
      (auth : AuthService W) (test : Bool) (next : Exchange W R → Exchange W R)
      → IsRefusal auth next
      → IsRefusal auth (refuse_if x.encoding out test next)
  unfolding refuse_if IsRefusal
  refuse_if-IsRefusal auth true next body e refuses = bad
  refuse_if-IsRefusal auth false next body e refuses = body e refuses

  module _ (h : Handler W) (decode : Decoder) (auth : AuthService W) where
    authorize-IsRefusal :
        (token : String) (next : User → Exchange W R → Exchange W R)
        → IsRefusal auth (λ e. or_domain_error x.encoding out (auth.authorize token e.world) next e)
    unfolding Refuses IsRefusal
    authorize-IsRefusal token next e refuses =
        let (problem, p) = refuses token in
        denied_lem e (auth.authorize token e.world) next problem p

    if_present-IsRefusal :
        (services : Option (AuthService W)) (documents : Option (DocumentService W))
        (next : AuthService W → DocumentService W → Exchange W R → Exchange W R)
        → services ≡ some auth
        → ((d : DocumentService W) → IsRefusal auth (next auth d))
        → IsRefusal auth (if_present x out h services documents next)
    unfolding if_present IsRefusal
    if_present-IsRefusal none documents next p body e refuses = missing
    if_present-IsRefusal (some a) none next p body e refuses = missing
    if_present-IsRefusal (some a) (some d) next p body e refuses =
        subst (λ s. IsRefused e (next s d e)) (sym (some_injective p)) (body d e refuses)

    module _ (p : h.deps.auth ≡ some auth) where
      list_documents-IsRefusal : (r : Request) → IsRefusal auth (list_documents x out h r)
      unfolding list_documents with_services
      list_documents-IsRefusal r =
          search
            (
              if_present-IsRefusal, or_bad_request-IsRefusal, refuse_if-IsRefusal,
              authorize-IsRefusal, p,
            )
            depth 12

      read_document-IsRefusal :
          (r : Request) (id : String) → IsRefusal auth (read_document x out h r id)
      unfolding read_document with_services
      read_document-IsRefusal r id =
          search (if_present-IsRefusal, or_bad_request-IsRefusal, authorize-IsRefusal, p) depth 12

      delete_document-IsRefusal :
          (r : Request) (id : String) → IsRefusal auth (delete_document x out h r id)
      unfolding delete_document parse_delete_form with_services
      delete_document-IsRefusal r id =
          search
            (
              if_present-IsRefusal, or_bad_request-IsRefusal, refuse_if-IsRefusal,
              authorize-IsRefusal, p,
            )
            depth 12

      upload_document-IsRefusal : (r : Request) → IsRefusal auth (upload_document x decode out h r)
      unfolding upload_document answer_form with_services
      upload_document-IsRefusal r =
          search
            (
              if_present-IsRefusal, or_bad_request-IsRefusal, refuse_if-IsRefusal,
              authorize-IsRefusal, p,
            )
            depth 12

      route_docs-IsRefusal : (r : Request) → IsRefusal auth (route_docs x out decode h r)
      unfolding route_docs operation IsRefusal
      route_docs-IsRefusal r e refuses =
          if_cases (IsRefused e) (r.method == post_method) _ _
            (λ _. upload_document-IsRefusal r e refuses)
            (λ _.
              if_cases (IsRefused e) (r.method == get_method || r.method == head_method) _ _
                (λ _. list_documents-IsRefusal r e refuses)
                (λ _.
                  if_cases (IsRefused e)
                    (any (λ method. r.method == method)
                      (get_method ∷ head_method ∷ post_method ∷ []))
                    _ _ (λ _. missing)
                    (λ _. wrong_method (get_method ∷ head_method ∷ post_method ∷ []))))

      route_document-IsRefusal :
          (r : Request) (id : String) → IsRefusal auth (route_document x out decode h r id)
      unfolding route_document IsRefusal
      route_document-IsRefusal r id e refuses =
          if_cases (IsRefused e) (r.method == get_method || r.method == head_method) _ _
            (λ _. read_document-IsRefusal r id e refuses)
            (λ _.
              if_cases (IsRefused e) (r.method == delete_method) _ _
                (λ _. delete_document-IsRefusal r id e refuses)
                (λ _. wrong_method (delete_method ∷ get_method ∷ head_method ∷ [])))

    -- Where no token is accepted, as where no session is live, and asking for one changes nothing,
    -- a request whose route is that of the documents or of one document, by any method and with any
    -- body, is refused: the world is as it was, so that neither the document service nor the cache
    -- nor the epoch is called with an effect, and the response is one of the refusals.
    pub route-IsRefused :
        (r : Request) (e : Exchange W R)
        → h.deps.auth ≡ some auth
        → Refuses auth e.world
        → is_docs (normalized_route r.path) ≡ true
        → IsRefused e (route x out decode h r e)
    unfolding route IsRefusal is_docs normalized_route
    route-IsRefused r e p refuses docs =
        if_cases (IsRefused e) (r.path == "/health/live") _ _
          (λ same. absurd (named r.path "/health/live" same refl docs))
          (λ _.
            if_cases (IsRefused e) (r.path == "/health/ready") _ _
              (λ same. absurd (named r.path "/health/ready" same refl docs))
              (λ _.
                if_cases (IsRefused e) (r.path == "/api/register") _ _
                  (λ same. absurd (named r.path "/api/register" same refl docs))
                  (λ _.
                    if_cases (IsRefused e) (r.path == "/api/auth") _ _
                      (λ same. absurd (named r.path "/api/auth" same refl docs))
                      (λ _.
                        if_cases (IsRefused e) (single_path_value r.path "/api/auth/") _ _
                          (λ single. absurd (clash (session_path r.path single) docs))
                          (λ no_session.
                            if_cases (IsRefused e) (r.path == "/api/docs") _ _
                              (λ _. route_docs-IsRefusal p r e refuses)
                              (λ no_docs.
                                if_cases (IsRefused e) (single_path_value r.path "/api/docs/") _ _
                                  (λ _. route_document-IsRefusal p r _ e refuses)
                                  (λ no_document. absurd (
                                    clash (other_path r.path no_docs no_session no_document)
                                      docs))))))))
