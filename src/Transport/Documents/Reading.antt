-- ===== src/Transport/Documents/Reading.antt =====
-- `readDocument` and `readFileWithCache` of internal/httptransport/read_handler.go.
use test.Common.{
  ℕ, String, Bool, true, false, not, ◌||◌, Option, none, some, List, [], ◌∷◌, ◌==◌, eqb,
  if◌then◌else◌, length,
}
use test.Common.Int.{ℤ, pos, negsuc, to_ℕ}
use test.Blob.{Reader}
use test.Cache.{Entry}
use test.Domain.{User, Document}
use test.Errors.{Result, ok, err}
use test.Service.{Content}
use test.Transport.Caching.{
  Library, document_tag, document_cache_key, cached_response, expose_cache_status,
  write_cached_response, write_cached_file_response, observe_cache, observe_cache_size,
}
use test.Transport.Documents.{with_services}
use test.Transport.Files.{
  BoundedCapture, new_capture, file_metadata_entry, write_file_stream, write_document_metadata,
  write_document_content,
}
use test.Transport.Filter.{Query, single_query_value}
use test.Transport.Handler.{
  Handler, DocumentService, ResponseCache, Exchange, Request, respond, in_world, or_domain_error,
  or_bad_request, head_method,
}
use test.Transport.Writer.{ResponseWriter, buffered_writer, write_domain_error, internal_error}

abbrev is_length : ℕ → ℤ → Bool
is_length n (pos m) = eqb n m
is_length n (negsuc m) = false

module _ {W : Type 0} (x : Library) where
  unfoldable pub loaded_content :
      {R : Type 0} → ResponseWriter R → Exchange W R → Result Content × W → Bool × Exchange W R
  unfolding write_document_content write_domain_error
  loaded_content out e (err problem, w) =
      (false, respond (write_domain_error x.encoding out problem) (record e { world = w }))
  loaded_content out e (ok content, w) =
      let written =
        write_document_content out x.encoding x.formats x.printing.integer content e.response in
      (written.0, record e { world = w; response = written.1 })

  unfoldable pub load_document_content :
      {R : Type 0}
      → DocumentService W
      → ResponseWriter R
      → User
      → String
      → Exchange W R
      → Bool × Exchange W R
  unfolding loaded_content
  load_document_content documents out requester id e =
      loaded_content out e (documents.get requester id e.world)

module _ {W R : Type 0} (x : Library) (out : ResponseWriter R) (h : Handler W) where
  unfoldable pub store_entry : ResponseCache W → String → Entry → Exchange W R → Exchange W R
  unfolding observe_cache_size
  store_entry cache key entry e =
      observe_cache_size h (in_world (cache.set key entry (to_ℕ h.deps.cache_ttl)) e)

  -- Whether the captured bytes are not the whole file.
  abbrev pub is_partial : Document → Bool × (R × BoundedCapture) → Bool
  is_partial document streamed =
      not streamed.0
      || streamed.1.1.overflow
      || not (is_length (length streamed.1.1.buffer) document.size_bytes)

  unfoldable pub keep_streamed :
      ResponseCache W
      → String
      → Entry
      → Document
      → Bool × (R × BoundedCapture)
      → Exchange W R
      → Exchange W R
  unfolding store_entry
  keep_streamed cache key entry document streamed e =
      let sent : Exchange W R = record e { response = streamed.1.0 } in
      if is_partial document streamed
      then sent
      else store_entry cache key (record entry { body = streamed.1.1.buffer; body_omitted = false })
          sent

  -- The stream of a file whose body may be kept.
  unfoldable pub stream_and_keep :
      ResponseCache W → String → Entry → Document → Reader → Exchange W R → Exchange W R
  unfolding write_file_stream keep_streamed
  stream_and_keep cache key entry document file e =
      keep_streamed cache key entry document
        (write_file_stream out x.formats x.printing.integer document file
          (e.response, new_capture (to_ℕ document.size_bytes)))
        e

  -- Whether the body of the file may be kept.
  abbrev pub keeps_body : ResponseCache W → String → Entry → ℤ → W → Bool
  keeps_body cache key entry size world = elim cache.entry_fits [
    | none ↦ false
    | some fits ↦ fits key entry size world
  ]

  -- The stream of a file of which only the metadata are kept.
  unfoldable pub store_and_stream :
      ResponseCache W → String → Entry → Document → Reader → Exchange W R → Exchange W R
  unfolding write_file_stream store_entry
  store_and_stream cache key entry document file e =
      respond
        (λ w.
          (write_file_stream out x.formats x.printing.integer document file (w, new_capture 0)).1.0)
        (store_entry cache key entry e)

  -- `readFileWithCache` with the file, and on opened content.
  unfoldable pub answer_opened :
      ResponseCache W → String → List String → Document → Reader → Exchange W R → Exchange W R
  unfolding stream_and_keep file_metadata_entry store_and_stream
  answer_opened cache key tags document file e =
      let entry = file_metadata_entry x.formats x.printing.integer document tags in
      if keeps_body cache key entry document.size_bytes e.world
      then stream_and_keep cache key entry document file e
      else store_and_stream cache key entry document file e

  unfoldable pub answer_file :
      ResponseCache W → String → List String → Content → Exchange W R → Exchange W R
  unfolding answer_opened internal_error
  answer_file cache key tags content e = elim content.file [
    | none ↦ respond (internal_error x.encoding out) e
    | some file ↦ answer_opened cache key tags content.document file e
  ]

  -- `readFileWithCache` for `HEAD`, after the cache was asked.
  unfoldable pub answer_file_head :
      ResponseCache W → String → List String → Document → Option Entry → Exchange W R → Exchange W R
  unfolding observe_cache observe_cache_size expose_cache_status write_cached_response
      file_metadata_entry store_entry
  answer_file_head cache key tags metadata (some entry) e =
      respond (write_cached_response out entry)
        (expose_cache_status h out true (observe_cache h true e))
  answer_file_head cache key tags metadata none e =
      let entry = file_metadata_entry x.formats x.printing.integer metadata tags in
      let stored : Exchange W R = in_world (cache.set key entry (to_ℕ h.deps.cache_ttl)) e in
      respond (write_cached_response out entry)
        (expose_cache_status h out false (observe_cache_size h (observe_cache h false stored)))

  -- The entry, where it has its body.
  abbrev pub with_body : Option Entry → Option Entry
  with_body none = none
  with_body (some entry) = if entry.body_omitted then none else some entry

  -- `readFileWithCache` for `GET`, with the entry and without.
  unfoldable pub answer_hit : Entry → Exchange W R → Exchange W R
  unfolding observe_cache expose_cache_status write_cached_file_response
  answer_hit entry e =
      respond (write_cached_file_response out entry)
        (expose_cache_status h out true (observe_cache h true e))

  unfoldable pub answer_missed :
      DocumentService W
      → ResponseCache W
      → String
      → List String
      → User
      → String
      → Exchange W R
      → Exchange W R
  unfolding observe_cache expose_cache_status or_domain_error answer_file
  answer_missed documents cache key tags requester id e =
      let missed = expose_cache_status h out false (observe_cache h false e) in
      or_domain_error x.encoding out (documents.get requester id missed.world)
        (answer_file cache key tags) missed

  unfoldable pub read_file_with_cache :
      DocumentService W
      → ResponseCache W
      → Request
      → User
      → String
      → Document
      → Exchange W R
      → Exchange W R
  unfolding document_cache_key answer_file_head answer_hit answer_missed
  read_file_with_cache documents cache r requester id metadata e =
      let key = document_cache_key h x.printing id metadata.version e.world in
      let tags = document_tag id ∷ [] in
      let found = cache.get key e.world in
      let looked : Exchange W R = record e { world = found.1 } in
      if r.method == head_method
      then answer_file_head cache key tags metadata found.0 looked
      else elim (with_body found.0) [
        | some entry ↦ answer_hit entry looked
        | none ↦ answer_missed documents cache key tags requester id looked
      ]

  -- `readDocument` with a cache and a reader of metadata.
  unfoldable pub read_cached :
      DocumentService W
      → ResponseCache W
      → Request
      → User
      → String
      → Document
      → Exchange W R
      → Exchange W R
  unfolding read_file_with_cache document_cache_key cached_response load_document_content
      expose_cache_status write_cached_response
  read_cached documents cache r requester id metadata e =
      if metadata.is_file
      then read_file_with_cache documents cache r requester id metadata e
      else (let answer =
            cached_response h cache (document_cache_key h x.printing id metadata.version e.world)
              (document_tag id ∷ []) (r.method == head_method)
              (load_document_content x documents buffered_writer requester id) e in
          respond (write_cached_response out answer.0.0)
            (expose_cache_status h out answer.0.1 answer.1))

  -- `readDocument` without the cache.
  unfoldable pub read_uncached :
      DocumentService W → Request → User → String → Exchange W R → Exchange W R
  unfolding or_domain_error write_document_metadata internal_error load_document_content
  read_uncached documents r requester id e =
      if r.method == head_method
      then (elim documents.get_metadata [
        | none ↦ respond (internal_error x.encoding out) e
        | some get_metadata ↦
            or_domain_error x.encoding out (get_metadata requester id e.world)
              (λ metadata.
                respond
                  (write_document_metadata out x.encoding x.formats x.printing.integer metadata))
              e
      ])
      else (load_document_content x documents out requester id e).1

  -- `readDocument` for an authorized requester.
  unfoldable pub answer_read :
      DocumentService W → Request → String → User → Exchange W R → Exchange W R
  unfolding read_cached read_uncached or_domain_error
  answer_read documents r id requester e = elim h.deps.cache [
    | none ↦ read_uncached documents r requester id e
    | some cache ↦ elim documents.get_metadata [
      | none ↦ read_uncached documents r requester id e
      | some get_metadata ↦
          or_domain_error x.encoding out (get_metadata requester id e.world)
            (read_cached documents cache r requester id) e
    ]
  ]

  -- The token of the query: `none` where the query is refused.
  unfoldable pub token_of : Query → Option String
  unfolding single_query_value
  token_of [] = some ""
  token_of (entry ∷ []) = single_query_value (entry ∷ []) "token"
  token_of (_ ∷ _ ∷ _) = none

  unfoldable pub read_document : Request → String → Exchange W R → Exchange W R
  unfolding with_services or_bad_request token_of or_domain_error answer_read
  read_document r id = with_services x out h (λ auth documents.
      or_bad_request x.encoding out (x.parsing.parse_query r.raw_query) (λ query.
        or_bad_request x.encoding out (token_of query) (λ token e.
          or_domain_error x.encoding out (auth.authorize token e.world) (answer_read documents r id)
            e)))
