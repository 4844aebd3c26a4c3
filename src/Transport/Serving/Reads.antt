-- ===== src/Transport/Serving/Reads.antt =====
-- Reading a document writes to the observed response by its methods only.
use test.Common.{
  ◌≡◌, sym, subst, ◌∙◌, String, Bool, true, false, Option, none, some, List, [], ◌∷◌, ◌==◌,
  if_cases,
}
use test.Common.Int.{to_ℕ}
use test.Blob.{Reader}
use test.Cache.{Entry}
use test.Domain.{User, Document}
use test.Service.{Content}
use test.Transport.Caching.{
  Library, expose_cache_status, observe_cache, observe_cache_size, document_tag, document_cache_key,
}
use test.Transport.Documents.{with_services}
use test.Transport.Documents.Parts.{Decoder}
use test.Transport.Documents.Reading.{
  read_document, answer_read, read_cached, read_uncached, read_file_with_cache, answer_file,
  answer_opened, store_and_stream, answer_file_head, stream_and_keep, answer_hit, answer_missed,
  keep_streamed, store_entry, load_document_content,
}
use test.Transport.Documents.Reading
use test.Transport.Files.{
  BoundedCapture, write_document_metadata, write_file_stream, new_capture, file_metadata_entry,
}
use test.Transport.Handler.{
  Handler, DocumentService, ResponseCache, Exchange, Request, respond, in_world, head_method,
}
use test.Transport.Response.{Wire, ObservedResponse}
use test.Transport.Serving.Unwritten.{response-observe_cache, response-observe_cache_size}
use test.Transport.Serving.Answers.{
  expose_cache_status-IsReached, write_cached_response-IsReached,
  write_cached_file_response-IsReached, write_file_stream-IsReached,
  write_document_metadata-IsReached,
}
use test.Transport.Serving.Writes.{IsReached, Keeps, or_domain_error-Keeps, or_bad_request-Keeps}
use test.Transport.Writer.{ResponseWriter, buffered_writer, observed_writer, internal_error}
use test.Transport.Serving.Steps.{
  error-Keeps, if-Keeps, if_present-Keeps, load_document_content-Keeps, elim-Keeps, same-Keeps,
}
use test.Transport.Serving.Lists.{cached_answer-Keeps}

module _ (W : Type 0) (wire : Wire) (w : ObservedResponse) (x : Library) where
  abbrev out : ResponseWriter ObservedResponse
  out = observed_writer wire

  abbrev Kept : (Exchange W ObservedResponse → Exchange W ObservedResponse) → Type 0
  Kept f = Keeps wire w x.encoding f

  module _ (decode : Decoder) (h : Handler W) where
    response-store_entry :
        (cache : ResponseCache W) (key : String) (entry : Entry) (e : Exchange W ObservedResponse)
        → (store_entry x out h cache key entry e).response ≡ e.response
    unfolding store_entry
    response-store_entry cache key entry e =
        response-observe_cache_size h (in_world (cache.set key entry (to_ℕ h.deps.cache_ttl)) e)

    store_entry-Keeps :
        (cache : ResponseCache W) (key : String) (entry : Entry)
        → Kept (store_entry x out h cache key entry)
    unfolding store_entry
    store_entry-Keeps cache key entry =
        same-Keeps W wire w x (store_entry x out h cache key entry)
          (response-store_entry cache key entry)

    keep_streamed-IsReached :
        (cache : ResponseCache W) (key : String) (entry : Entry) (document : Document)
        (streamed : Bool × (ObservedResponse × BoundedCapture)) (e : Exchange W ObservedResponse)
        → IsReached wire w streamed.1.0
        → IsReached wire w (keep_streamed x out h cache key entry document streamed e).response
    unfolding keep_streamed
    keep_streamed-IsReached cache key entry document streamed e r =
        let sent : Exchange W ObservedResponse = record e { response = streamed.1.0 } in
        let kept : Entry = record entry { body = streamed.1.1.buffer; body_omitted = false } in
        if_cases (λ (e' : Exchange W ObservedResponse). IsReached wire w e'.response)
          (Reading.is_partial x out h document streamed) sent
          (store_entry x out h cache key kept sent) (λ _. r)
          (λ _. subst (IsReached wire w) (sym (response-store_entry cache key kept sent)) r)

    stream_and_keep-Keeps :
        (cache : ResponseCache W) (key : String) (entry : Entry) (document : Document)
        (file : Reader)
        → Kept (stream_and_keep x out h cache key entry document file)
    unfolding stream_and_keep Keeps
    stream_and_keep-Keeps cache key entry document file e r =
        keep_streamed-IsReached cache key entry document
          (write_file_stream out x.formats x.printing.integer document file
            (e.response, new_capture (to_ℕ document.size_bytes)))
          e
          (write_file_stream-IsReached wire w x.formats x.printing.integer document file e.response
            (new_capture (to_ℕ document.size_bytes)) r)

    store_and_stream-Keeps :
        (cache : ResponseCache W) (key : String) (entry : Entry) (document : Document)
        (file : Reader)
        → Kept (store_and_stream x out h cache key entry document file)
    unfolding store_and_stream Keeps
    store_and_stream-Keeps cache key entry document file e r =
        write_file_stream-IsReached wire w x.formats x.printing.integer document file
          (store_entry x out h cache key entry e).response (new_capture 0)
          (store_entry-Keeps cache key entry e r)

    answer_opened-Keeps :
        (cache : ResponseCache W) (key : String) (tags : List String) (document : Document)
        (file : Reader)
        → Kept (answer_opened x out h cache key tags document file)
    unfolding answer_opened Keeps
    answer_opened-Keeps cache key tags document file e r =
        let entry = file_metadata_entry x.formats x.printing.integer document tags in
        if_cases (λ (e' : Exchange W ObservedResponse). IsReached wire w e'.response)
          (Reading.keeps_body x out h cache key entry document.size_bytes e.world)
          (stream_and_keep x out h cache key entry document file e)
          (store_and_stream x out h cache key entry document file e)
          (λ _. stream_and_keep-Keeps cache key entry document file e r)
          (λ _. store_and_stream-Keeps cache key entry document file e r)

    answer_file-Keeps :
        (cache : ResponseCache W) (key : String) (tags : List String) (content : Content)
        → Kept (answer_file x out h cache key tags content)
    unfolding answer_file internal_error
    answer_file-Keeps cache key tags content =
        elim-Keeps W wire w x content.file _ _
          (error-Keeps W wire w x 500 500 "internal server error")
          (answer_opened-Keeps cache key tags content.document)

    answer_file_head-Keeps :
        (cache : ResponseCache W) (key : String) (tags : List String) (metadata : Document)
        (found : Option Entry)
        → Kept (answer_file_head x out h cache key tags metadata found)
    unfolding answer_file_head Keeps
    answer_file_head-Keeps cache key tags metadata (some entry) e r =
        write_cached_response-IsReached wire w entry _ (
          expose_cache_status-IsReached wire w h true (observe_cache h true e)
            (subst (IsReached wire w) (sym (response-observe_cache h true e)) r))
    answer_file_head-Keeps cache key tags metadata none e r =
        let entry = file_metadata_entry x.formats x.printing.integer metadata tags in
        let stored = in_world (cache.set key entry (to_ℕ h.deps.cache_ttl)) e in
        write_cached_response-IsReached wire w entry _ (
          expose_cache_status-IsReached wire w h false
            (observe_cache_size h (observe_cache h false stored))
            (subst (IsReached wire w)
              (sym (
                response-observe_cache_size h (observe_cache h false stored)
                ∙ response-observe_cache h false stored))
              r))

    missed-Keeps :
        (documents : DocumentService W) (cache : ResponseCache W) (key : String)
        (tags : List String) (requester : User) (id : String)
        → Kept (answer_missed x out h documents cache key tags requester id)
    unfolding answer_missed Keeps
    missed-Keeps documents cache key tags requester id e r =
        or_domain_error-Keeps wire w x.encoding
          (λ (e' : Exchange W ObservedResponse). documents.get requester id e'.world)
          (answer_file x out h cache key tags) (answer_file-Keeps cache key tags)
          (expose_cache_status h out false (observe_cache h false e))
          (expose_cache_status-IsReached wire w h false (observe_cache h false e)
            (subst (IsReached wire w) (sym (response-observe_cache h false e)) r))

    hit-Keeps : (entry : Entry) → Kept (answer_hit x out h entry)
    unfolding answer_hit Keeps
    hit-Keeps entry e r = write_cached_file_response-IsReached wire w entry _ (
        expose_cache_status-IsReached wire w h true (observe_cache h true e)
          (subst (IsReached wire w) (sym (response-observe_cache h true e)) r))

    read_file_with_cache-Keeps :
        (documents : DocumentService W) (cache : ResponseCache W) (r : Request) (requester : User)
        (id : String) (metadata : Document)
        → Kept (read_file_with_cache x out h documents cache r requester id metadata)
    unfolding read_file_with_cache Keeps
    read_file_with_cache-Keeps documents cache r requester id metadata e h0 =
        let key = document_cache_key h x.printing id metadata.version e.world in
        let found = cache.get key e.world in
        let looked : Exchange W ObservedResponse = record e { world = found.1 } in
        if_cases (λ (e' : Exchange W ObservedResponse). IsReached wire w e'.response)
          (r.method == head_method) _ _
          (λ _. answer_file_head-Keeps cache key (document_tag id ∷ []) metadata found.0 looked h0)
          (λ _.
            elim-Keeps W wire w x (Reading.with_body x out h found.0)
              (answer_missed x out h documents cache key (document_tag id ∷ []) requester id)
              (answer_hit x out h)
              (missed-Keeps documents cache key (document_tag id ∷ []) requester id) hit-Keeps
              looked h0)

    read_cached-Keeps :
        (documents : DocumentService W) (cache : ResponseCache W) (r : Request) (requester : User)
        (id : String) (metadata : Document)
        → Kept (read_cached x out h documents cache r requester id metadata)
    unfolding read_cached
    read_cached-Keeps documents cache r requester id metadata =
        if-Keeps W wire w x metadata.is_file
          (read_file_with_cache x out h documents cache r requester id metadata) _
          (read_file_with_cache-Keeps documents cache r requester id metadata)
          (cached_answer-Keeps W wire w x decode h cache
            (λ e. document_cache_key h x.printing id metadata.version e.world)
            (document_tag id ∷ []) (r.method == head_method)
            (load_document_content x documents buffered_writer requester id))

    metadata-Keeps :
        (metadata : Document)
        → Kept
            (respond (write_document_metadata out x.encoding x.formats x.printing.integer metadata))
    unfolding Keeps
    metadata-Keeps metadata e r =
        write_document_metadata-IsReached wire w x.formats x.printing.integer x.encoding metadata
          e.response r

    read_uncached-Keeps :
        (documents : DocumentService W) (r : Request) (requester : User) (id : String)
        → Kept (read_uncached x out h documents r requester id)
    unfolding read_uncached internal_error
    read_uncached-Keeps documents r requester id =
        if-Keeps W wire w x (r.method == head_method) _ _
          (elim-Keeps W wire w x documents.get_metadata _ _
            (error-Keeps W wire w x 500 500 "internal server error")
            (λ get_metadata.
              or_domain_error-Keeps wire w x.encoding
                (λ (e : Exchange W ObservedResponse). get_metadata requester id e.world) _
                metadata-Keeps))
          (load_document_content-Keeps W wire w x documents requester id)

    answer_read-Keeps :
        (documents : DocumentService W) (r : Request) (id : String) (requester : User)
        → Kept (answer_read x out h documents r id requester)
    unfolding answer_read
    answer_read-Keeps documents r id requester =
        elim-Keeps W wire w x h.deps.cache _ _ (read_uncached-Keeps documents r requester id)
          (λ cache.
            elim-Keeps W wire w x documents.get_metadata _ _
              (read_uncached-Keeps documents r requester id)
              (λ get_metadata.
                or_domain_error-Keeps wire w x.encoding
                  (λ (e : Exchange W ObservedResponse). get_metadata requester id e.world) _
                  (read_cached-Keeps documents cache r requester id)))

    pub read_document-Keeps : (r : Request) (id : String) → Kept (read_document x out h r id)
    unfolding read_document with_services
    read_document-Keeps r id =
        search (if_present-Keeps, or_bad_request-Keeps, or_domain_error-Keeps, answer_read-Keeps)
          depth 12
