-- ===== src/Transport/Serving/Steps.antt =====
-- The handlers are put together from steps that write to the observed response by its methods only.
use test.Common.{
  ℕ, ◌≡◌, sym, subst, String, Bool, true, false, not, Option, none, some, List, if◌then◌else◌,
}
use test.Domain.{User, Document, DocumentFilter}
use test.Errors.{Result, ok, err}
use test.Service.{Content}
use test.Transport.Accounts.{parse_url_form}
use test.Transport.Caching.{Library}
use test.Transport.Documents.{
  if_present, with_services, list_documents, answer_list, load_document_list, delete_document,
  parse_delete_form, invalidate_deleted,
}
use test.Transport.Documents.Reading.{
  read_document, answer_read, read_cached, read_uncached, read_file_with_cache, answer_file,
  answer_opened, store_and_stream, answer_file_head, stream_and_keep, answer_hit, answer_missed,
  keep_streamed, store_entry, load_document_content,
}
use test.Transport.Documents
use test.Transport.Documents.Reading
use test.Transport.Filter
use test.Transport.Handler.{
  Handler, AuthService, DocumentService, Exchange, Request, respond, or_bad_request, is_url_encoded,
}
use test.Transport.Response.{Wire, ObservedResponse}
use test.Transport.Routing.{join_comma, method_not_allowed}
use test.Transport.Serving.Answers.{write_document_content-IsReached}
use test.Transport.Serving.Writes.{
  IsReached, Keeps, set-IsReached, write_api_error-IsReached, write_json-IsReached,
  write_domain_error-IsReached, or_bad_request-Keeps, refuse_if-Keeps,
}
use test.Transport.Writer.{
  ResponseWriter, Payload, observed_writer, write_json, write_api_error, not_implemented,
}

module _ (W : Type 0) (wire : Wire) (w : ObservedResponse) (x : Library) where
  abbrev out : ResponseWriter ObservedResponse
  out = observed_writer wire

  abbrev Kept : (Exchange W ObservedResponse → Exchange W ObservedResponse) → Type 0
  Kept f = Keeps wire w x.encoding f

  pub write_json-Keeps :
      (status : ℕ) (value : Payload) → Kept (respond (write_json x.encoding out status value))
  unfolding Keeps
  write_json-Keeps status value e r =
      write_json-IsReached wire w x.encoding status value e.response r

  pub error-Keeps :
      (status code : ℕ) (text : String)
      → Kept (respond (write_api_error x.encoding out status code text))
  unfolding Keeps
  error-Keeps status code text e r =
      write_api_error-IsReached wire w x.encoding status code text e.response r

  pub if-Keeps :
      (b : Bool) (f g : Exchange W ObservedResponse → Exchange W ObservedResponse)
      → Kept f
      → Kept g
      → Kept (λ e. if b then f e else g e)
  unfolding Keeps
  if-Keeps true f g p q e r = p e r
  if-Keeps false f g p q e r = q e r

  pub method_not_allowed-Keeps : (allowed : List String) → Kept (method_not_allowed x out allowed)
  unfolding Keeps method_not_allowed
  method_not_allowed-Keeps allowed e r =
      write_api_error-IsReached wire w x.encoding 405 405 "method not allowed" _
        (set-IsReached wire w "Allow" (join_comma allowed) r)

  pub parse_url_form-Keeps :
      (r : Request)
      (next : Filter.Query → Exchange W ObservedResponse → Exchange W ObservedResponse)
      → ((form : Filter.Query) → Kept (next form))
      → Kept (parse_url_form x out r next)
  unfolding parse_url_form
  parse_url_form-Keeps r next keeps =
      refuse_if-Keeps wire w x.encoding (not (is_url_encoded r.content_type))
        (or_bad_request x.encoding out (x.parsing.parse_form r) next)
        (or_bad_request-Keeps wire w x.encoding (x.parsing.parse_form r) next keeps)

  pub if_present-Keeps :
      (h : Handler W) (auth : Option (AuthService W)) (documents : Option (DocumentService W))
      (next : AuthService W
        → DocumentService W
        → Exchange W ObservedResponse
        → Exchange W ObservedResponse)
      → ((a : AuthService W) (d : DocumentService W) → Kept (next a d))
      → Kept (if_present x out h auth documents next)
  unfolding if_present not_implemented Keeps
  if_present-Keeps h none documents next keeps e r =
      write_api_error-IsReached wire w x.encoding 501 501 "operation not implemented" e.response r
  if_present-Keeps h (some a) none next keeps e r =
      write_api_error-IsReached wire w x.encoding 501 501 "operation not implemented" e.response r
  if_present-Keeps h (some a) (some d) next keeps e r = keeps a d e r

  pub load_document_list-Keeps :
      (documents : DocumentService W) (requester : User) (filter : DocumentFilter)
      → Kept (λ e. (load_document_list x documents out requester filter e).1)
  unfolding load_document_list Keeps
  load_document_list-Keeps documents requester filter e r =
      by_answer (documents.list requester filter e.world)
    where
      by_answer :
          (answer : Result (List Document) × W)
          → IsReached wire w (Documents.listed_documents x out e answer).1.response
      by_answer (ok found, v) =
          unfold Documents.listed_documents in
          write_json-IsReached wire w x.encoding 200 _ e.response r
      by_answer (err problem, v) =
          unfold Documents.listed_documents in
          write_domain_error-IsReached wire w x.encoding problem e.response r

  pub load_document_content-Keeps :
      (documents : DocumentService W) (requester : User) (id : String)
      → Kept (λ e. (load_document_content x documents out requester id e).1)
  unfolding load_document_content Keeps
  load_document_content-Keeps documents requester id e r =
      by_answer (documents.get requester id e.world)
    where
      by_answer :
          (answer : Result Content × W)
          → IsReached wire w (Reading.loaded_content x out e answer).1.response
      by_answer (ok content, v) =
          unfold Reading.loaded_content in
          write_document_content-IsReached wire w x.formats x.printing.integer x.encoding content
            e.response r
      by_answer (err problem, v) =
          unfold Reading.loaded_content in
          write_domain_error-IsReached wire w x.encoding problem e.response r

  pub elim-Keeps :
      {B : Type 0} (o : Option B) (f : Exchange W ObservedResponse → Exchange W ObservedResponse)
      (g : B → Exchange W ObservedResponse → Exchange W ObservedResponse)
      → Kept f
      → ((b : B) → Kept (g b))
      → Kept (λ e. elim o [ none ↦ f e | some b ↦ g b e ])
  unfolding Keeps
  elim-Keeps none f g p q e r = p e r
  elim-Keeps (some b) f g p q e r = q b e r

  pub same-Keeps :
      (f : Exchange W ObservedResponse → Exchange W ObservedResponse)
      → ((e : Exchange W ObservedResponse) → (f e).response ≡ e.response)
      → Kept f
  unfolding Keeps
  same-Keeps f same e r = subst (IsReached wire w) (sym (same e)) r
