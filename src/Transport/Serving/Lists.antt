-- ===== src/Transport/Serving/Lists.antt =====
-- The listing, the deletion and the upload write to the observed response by its methods only.
use test.Common.{
  ℕ, ◌≡◌, refl, sym, subst, ◌∙◌, String, Bool, Option, none, some, List, [], ◌∷◌, ◌==◌,
}
use test.Domain.{User, DocumentFilter}
use test.Transport.Caching.{
  Library, expose_cache_status, cached_response, write_cached_response, list_cache_key,
  list_cache_tag, document_tag,
}
use test.Transport.Documents.{
  with_services, list_documents, answer_list, load_document_list, delete_document,
  parse_delete_form, invalidate_deleted,
}
use test.Transport.Documents.Parts.{Decoder, RequiredMeta, OpenedFile, upload_of}
use test.Transport.Documents.Uploads.{
  upload_document, answer_form, answer_upload, check_upload, store_upload, uploaded, observe_upload,
}
use test.Transport.Handler.{
  Handler, Metrics, DocumentService, ResponseCache, Exchange, Request, respond, head_method,
}
use test.Transport.Response.{Wire, ObservedResponse}
use test.Transport.Serving.Unwritten.{response-invalidate_tags, response-cached_response}
use test.Transport.Serving.Answers.{expose_cache_status-IsReached, write_cached_response-IsReached}
use test.Transport.Serving.Writes.{
  IsReached, Keeps, or_domain_error-Keeps, or_bad_request-Keeps, refuse_if-Keeps,
}
use test.Transport.Writer.{
  ResponseWriter, BufferedResponse, buffered_writer, Payload, observed_writer, write_json,
}
use test.Transport.Serving.Steps.{
  write_json-Keeps, if-Keeps, if_present-Keeps, load_document_list-Keeps, elim-Keeps, same-Keeps,
}

module _ (W : Type 0) (wire : Wire) (w : ObservedResponse) (x : Library) where
  abbrev out : ResponseWriter ObservedResponse
  out = observed_writer wire

  abbrev Kept : (Exchange W ObservedResponse → Exchange W ObservedResponse) → Type 0
  Kept f = Keeps wire w x.encoding f

  module _ (decode : Decoder) (h : Handler W) where
    pub cached_answer-Keeps :
        (cache : ResponseCache W) (key : Exchange W ObservedResponse → String) (tags : List String)
        (accept : Bool) (load : Exchange W BufferedResponse → Bool × Exchange W BufferedResponse)
        → Kept (λ e.
          let answer = cached_response h cache (key e) tags accept load e in
          respond
            (write_cached_response out answer.0.0)
            (expose_cache_status h out answer.0.1 answer.1))
    unfolding Keeps
    cached_answer-Keeps cache key tags accept load e r =
        let answer = cached_response h cache (key e) tags accept load e in
        write_cached_response-IsReached wire w answer.0.0
          (expose_cache_status h out answer.0.1 answer.1).response
          (expose_cache_status-IsReached wire w h answer.0.1 answer.1 (
            subst (IsReached wire w)
              (sym (response-cached_response h cache (key e) tags accept load e)) r))

    answer_list-Keeps :
        (documents : DocumentService W) (r : Request) (requester : User) (filter : DocumentFilter)
        → Kept (answer_list x out h documents r requester filter)
    unfolding answer_list
    answer_list-Keeps documents r requester filter =
        elim-Keeps W wire w x h.deps.cache
          (λ e. (load_document_list x documents out requester filter e).1) _
          (load_document_list-Keeps W wire w x documents requester filter)
          (λ cache.
            cached_answer-Keeps cache
              (λ e.
                list_cache_key h x.formats x.printing requester.id filter.owner_login filter.key
                  filter.value filter.limit e.world)
              (list_cache_tag ∷ []) (r.method == head_method)
              (load_document_list x documents buffered_writer requester filter))

    pub list_documents-Keeps : (r : Request) → Kept (list_documents x out h r)
    unfolding list_documents with_services
    list_documents-Keeps r =
        search
          (
            if_present-Keeps, or_bad_request-Keeps, refuse_if-Keeps, or_domain_error-Keeps,
            answer_list-Keeps,
          )
          depth 12

    invalidate_deleted-Keeps :
        (documents : DocumentService W) (id : String)
        → Kept (invalidate_deleted x out h documents id)
    unfolding invalidate_deleted
    invalidate_deleted-Keeps documents id =
        if-Keeps W wire w x documents.invalidates_delete_cache (λ e. e) _
          (same-Keeps W wire w x (λ e. e) (λ e. refl))
          (same-Keeps W wire w x _
            (response-invalidate_tags h h.deps.cache (list_cache_tag ∷ document_tag id ∷ [])))

    deleted-Keeps :
        (documents : DocumentService W) (id : String)
        → Kept (λ e.
          respond
            (write_json x.encoding out 200 (Payload.response_flag id))
            (invalidate_deleted x out h documents id e))
    unfolding Keeps
    deleted-Keeps documents id e r =
        write_json-Keeps W wire w x 200 (Payload.response_flag id)
          (invalidate_deleted x out h documents id e) (invalidate_deleted-Keeps documents id e r)

    pub delete_document-Keeps : (r : Request) (id : String) → Kept (delete_document x out h r id)
    unfolding delete_document parse_delete_form with_services
    delete_document-Keeps r id =
        search
          (
            if_present-Keeps, or_bad_request-Keeps, refuse_if-Keeps, or_domain_error-Keeps,
            deleted-Keeps,
          )
          depth 14

    response-observe_upload :
        (m : Option (Metrics W)) (file : Option OpenedFile) (e : Exchange W ObservedResponse)
        → (observe_upload x decode out h m file e).response ≡ e.response
    unfolding observe_upload
    response-observe_upload none file e = refl
    response-observe_upload (some m) none e = refl
    response-observe_upload (some m) (some file) e = refl

    stored-Keeps :
        (documents : DocumentService W) (meta : RequiredMeta) (json : Option (List ℕ))
        (file : Option OpenedFile)
        → Kept (λ e.
          respond
            (write_json x.encoding out 200
              (Payload.data_upload json (elim file [ none ↦ none | some _ ↦ some meta.name ])))
            (uploaded x decode out h file e))
    unfolding Keeps uploaded
    stored-Keeps documents meta json file e r =
        write_json-Keeps W wire w x 200 _ (uploaded x decode out h file e) (
          subst (IsReached wire w)
            (sym (
              response-invalidate_tags h h.deps.cache (list_cache_tag ∷ [])
                (observe_upload x decode out h h.deps.metrics file e)
              ∙ response-observe_upload h.deps.metrics file e))
            r)

    store_upload-Keeps :
        (documents : DocumentService W) (meta : RequiredMeta) (json : Option (List ℕ))
        (file : Option OpenedFile) (requester : User)
        → Kept (store_upload x decode out h documents meta json file requester)
    unfolding store_upload
    store_upload-Keeps documents meta json file requester =
        or_domain_error-Keeps wire w x.encoding
          (λ e. documents.upload requester (upload_of meta json file) e.world) _
          (λ _. stored-Keeps documents meta json file)

    pub upload_document-Keeps : (r : Request) → Kept (upload_document x decode out h r)
    unfolding upload_document answer_form answer_upload check_upload with_services
    upload_document-Keeps r =
        search
          (
            if_present-Keeps, or_bad_request-Keeps, refuse_if-Keeps, or_domain_error-Keeps,
            store_upload-Keeps,
          )
          depth 20
