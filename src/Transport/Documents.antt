-- ===== src/Transport/Documents.antt =====
-- What the handlers of documents in internal/httptransport share, with list_handler.go and
-- delete_handler.go.
pub mod Reading
pub mod Parts
pub mod Uploads
use test.Common.{
  ℕ, String, Bool, true, false, not, ◌&&◌, ◌||◌, Option, none, some, List, [], ◌∷◌, ◌==◌, ltb, eqb,
  if◌then◌else◌, length, map,
}
use test.Common.Assoc.{lookup}
use test.Domain.{User, Document, DocumentFilter}
use test.Errors.{Result, ok, err}
use test.Transport.Accounts.{form_value}
use test.Transport.Caching.{
  Library, Printing, list_cache_tag, document_tag, list_cache_key, cached_response,
  expose_cache_status, write_cached_response, invalidate_tags,
}
use test.Transport.Filter.{
  Query, single_query_value, query_value, parse_document_list_filter, or_empty,
}
use test.Transport.Handler.{
  Handler, AuthService, DocumentService, ResponseCache, Exchange, Request, respond, in_world,
  or_domain_error, or_bad_request, refuse_if, is_url_encoded, head_method,
}
use test.Transport.Writer.{
  ResponseWriter, DocumentListItem, Payload, buffered_writer, write_json, write_domain_error,
  bad_request, not_implemented,
}

-- `len(query[name])`
unfoldable pub value_count : Query → String → ℕ
unfolding lookup
value_count query name = elim (lookup name query) [ none ↦ 0 | some values ↦ length values ]

abbrev pub list_item : Printing → Document → DocumentListItem
list_item p document = record {
  id = document.id;
  name = document.name;
  mime = document.mime;
  file = document.is_file;
  is_public = document.is_public;
  created = p.date_time document.created_at;
  grant = document.grants;
}

module _ {W : Type 0} (x : Library) where
  unfoldable pub listed_documents :
      {R : Type 0}
      → ResponseWriter R
      → Exchange W R
      → Result (List Document) × W
      → Bool × Exchange W R
  unfolding write_json write_domain_error
  listed_documents out e (err problem, w) =
      (false, respond (write_domain_error x.encoding out problem) (record e { world = w }))
  listed_documents out e (ok found, w) = (
    true,
    respond (write_json x.encoding out 200 (Payload.data_docs (map (list_item x.printing) found)))
        (record e { world = w }),
  )

  unfoldable pub load_document_list :
      {R : Type 0}
      → DocumentService W
      → ResponseWriter R
      → User
      → DocumentFilter
      → Exchange W R
      → Bool × Exchange W R
  unfolding listed_documents
  load_document_list documents out requester filter e =
      listed_documents out e (documents.list requester filter e.world)

module _ {W R : Type 0} (x : Library) (out : ResponseWriter R) (h : Handler W) where
  -- The handlers start with the services, and answer "not implemented" where one is missing.
  unfoldable pub if_present :
      Option (AuthService W)
      → Option (DocumentService W)
      → (AuthService W → DocumentService W → Exchange W R → Exchange W R)
      → Exchange W R
      → Exchange W R
  unfolding not_implemented
  if_present (some auth) (some documents) next e = next auth documents e
  if_present none documents next e = respond (not_implemented x.encoding out) e
  if_present (some auth) none next e = respond (not_implemented x.encoding out) e

  unfoldable pub with_services :
      (AuthService W → DocumentService W → Exchange W R → Exchange W R)
      → Exchange W R
      → Exchange W R
  unfolding if_present
  with_services = if_present h.deps.auth h.deps.documents

  -- A listing of an authorized requester with an accepted filter.
  unfoldable pub answer_list :
      DocumentService W → Request → User → DocumentFilter → Exchange W R → Exchange W R
  unfolding list_cache_key cached_response expose_cache_status write_cached_response
      load_document_list
  answer_list documents r requester filter e = elim h.deps.cache [
    | none ↦ (load_document_list x documents out requester filter e).1
    | some cache ↦
        let key =
          list_cache_key h x.formats x.printing requester.id filter.owner_login filter.key
            filter.value filter.limit e.world in
        let answer =
          cached_response h cache key (list_cache_tag ∷ []) (r.method == head_method)
            (load_document_list x documents buffered_writer requester filter) e in
        respond (write_cached_response out answer.0.0)
          (expose_cache_status h out answer.0.1 answer.1)
  ]

  unfoldable pub list_documents : Request → Exchange W R → Exchange W R
  unfolding with_services or_bad_request refuse_if single_query_value value_count or_domain_error
      answer_list parse_document_list_filter
  list_documents r = with_services (λ auth documents.
      or_bad_request x.encoding out (x.parsing.parse_query r.raw_query) (λ query.
        refuse_if x.encoding out (ltb 1 (value_count query "token")) (λ e.
          or_domain_error x.encoding out
            (auth.authorize (or_empty (single_query_value query "token")) e.world)
            (λ requester.
              or_bad_request x.encoding out
                (parse_document_list_filter x.formats x.atoi h.deps.limits.max_list_limit query)
                (answer_list documents r requester))
            e)))

  -- `parseDeleteForm`; `next` is what follows on the parsed form.
  unfoldable pub parse_delete_form :
      Request → (Query → Exchange W R → Exchange W R) → Exchange W R → Exchange W R
  unfolding is_url_encoded refuse_if or_bad_request
  parse_delete_form r next = refuse_if x.encoding out (not (is_url_encoded r.content_type)) (
      or_bad_request x.encoding out r.body
        (λ encoded. or_bad_request x.encoding out (x.parsing.parse_query encoded) next))

  -- The entries that a deletion makes stale go, unless the service has seen to it.
  unfoldable pub invalidate_deleted : DocumentService W → String → Exchange W R → Exchange W R
  unfolding invalidate_tags
  invalidate_deleted documents id e =
      if documents.invalidates_delete_cache
      then e
      else invalidate_tags h h.deps.cache (list_cache_tag ∷ document_tag id ∷ []) e

  unfoldable pub delete_document : Request → String → Exchange W R → Exchange W R
  unfolding with_services parse_delete_form refuse_if value_count or_domain_error invalidate_deleted
      write_json query_value
  delete_document r id = with_services (λ auth documents.
      refuse_if x.encoding out (not (r.raw_query == "")) (
        parse_delete_form r (λ form.
          refuse_if x.encoding out
            (not (eqb (length form) 1) || not (eqb (value_count form "token") 1))
            (λ e.
              or_domain_error x.encoding out (auth.authorize (form_value form "token") e.world)
                (λ requester authorized.
                  or_domain_error x.encoding out (documents.delete requester id authorized.world)
                    (λ _ deleted.
                      respond (write_json x.encoding out 200 (Payload.response_flag id))
                        (invalidate_deleted documents id deleted))
                    authorized)
                e))))
