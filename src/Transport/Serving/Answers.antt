-- ===== src/Transport/Serving/Answers.antt =====
-- The answers with entries of the cache and with files, as calls of the observed response.
use test.Common.{
  ℕ, suc, zero, Bool, true, false, not, Option, none, some, List, [], ◌∷◌, if◌then◌else◌, if_cases,
  take,
}
use test.Blob.{Reader}
use test.Cache.{Entry}
use test.Domain.{Document}
use test.Service.{Formats, Content}
use test.Transport.Caching.{
  expose_cache_status, write_headers, write_cached_response, write_cached_file_response,
}
use test.Transport.Files.{
  FormatInt, BoundedCapture, new_capture, drop, capture_write, write_file_headers, copy_loop,
  copy_buffer, write_file_stream, write_document_metadata, write_document_content,
  file_copy_buffer_bytes,
}
use test.Transport.Handler.{Handler, Exchange}
use test.Transport.Response.{Wire, Header, ObservedResponse}
use test.Transport.Serving.Writes.{
  IsReached, set-IsReached, set_values-IsReached, write_header-IsReached, write-IsReached,
  start_streaming-IsReached, write_api_error-IsReached, write_json-IsReached,
}
use test.Transport.Writer.{ResponseWriter, Encoding, Payload, observed_writer, internal_error}

module _ (wire : Wire) (w : ObservedResponse) where
  abbrev out : ResponseWriter ObservedResponse
  out = observed_writer wire

  pub expose_cache_status-IsReached :
      {W : Type 0} (h : Handler W) (hit : Bool) (e : Exchange W ObservedResponse)
      → IsReached wire w e.response
      → IsReached wire w (expose_cache_status h out hit e).response
  unfolding expose_cache_status
  expose_cache_status-IsReached h hit e r =
      if_cases (λ e'. IsReached wire w e'.response) (not h.deps.expose_cache_header) e _ (λ _. r)
        (λ _. set-IsReached wire w "X-Cache" (if hit then "HIT" else "MISS") r)

  write_headers-IsReached :
      (header : Header) (v : ObservedResponse)
      → IsReached wire w v
      → IsReached wire w (write_headers out header v)
  unfolding write_headers
  write_headers-IsReached [] v r = r
  write_headers-IsReached ((name, values) ∷ header) v r =
      write_headers-IsReached header _ (set_values-IsReached wire w name values r)

  pub write_cached_response-IsReached :
      (entry : Entry) (v : ObservedResponse)
      → IsReached wire w v
      → IsReached wire w (write_cached_response out entry v)
  unfolding write_cached_response
  write_cached_response-IsReached entry v r =
      write-IsReached wire w entry.body
        (write_header-IsReached wire w _ (write_headers-IsReached entry.header v r))

  pub write_cached_file_response-IsReached :
      (entry : Entry) (v : ObservedResponse)
      → IsReached wire w v
      → IsReached wire w (write_cached_file_response out entry v)
  unfolding write_cached_file_response
  write_cached_file_response-IsReached entry v r = write-IsReached wire w entry.body (
      write_header-IsReached wire w _
        (start_streaming-IsReached wire w (write_headers-IsReached entry.header v r)))

  module _ (f : Formats) (format_int : FormatInt) where
    write_file_headers-IsReached :
        (document : Document) (v : ObservedResponse)
        → IsReached wire w v
        → IsReached wire w (write_file_headers f format_int out document v)
    unfolding write_file_headers
    write_file_headers-IsReached document v r = set-IsReached wire w _ _ (
        set-IsReached wire w _ _
          (set-IsReached wire w _ _ (set-IsReached wire w _ _ (set-IsReached wire w _ _ r))))

    copy_loop-IsReached :
        (fuel size : ℕ) (rest : List ℕ) (v : ObservedResponse) (capture : BoundedCapture)
        → IsReached wire w v
        → IsReached wire w (copy_loop out fuel size rest (v, capture)).1.0
    unfolding copy_loop
    copy_loop-IsReached fuel size [] v capture r = r
    copy_loop-IsReached zero size (b ∷ rest) v capture r = r
    copy_loop-IsReached (suc fuel) size (b ∷ rest) v capture r =
        by_written (out.write (take size (b ∷ rest)) v).0
          (copy_loop-IsReached fuel size (drop size (b ∷ rest)) _ _ (write-IsReached wire w _ r))
      where
        by_written :
            (taken : Bool)
            → IsReached wire w
                (copy_loop out fuel size (drop size (b ∷ rest)) (
                  (out.write (take size (b ∷ rest)) v).1,
                  capture_write (take size (b ∷ rest)) capture,
                )).1.0
            → IsReached wire w
                (elim taken as (λ _. Bool × (ObservedResponse × BoundedCapture)) [
                  | false ↦ (false, ((out.write (take size (b ∷ rest)) v).1, capture))
                  | true ↦ copy_loop out fuel size (drop size (b ∷ rest)) (
                    (out.write (take size (b ∷ rest)) v).1,
                    capture_write (take size (b ∷ rest)) capture,
                  )
                ]).1.0
        by_written false rec = write-IsReached wire w _ r
        by_written true rec = rec

    pub write_file_stream-IsReached :
        (document : Document) (file : Reader) (v : ObservedResponse) (capture : BoundedCapture)
        → IsReached wire w v
        → IsReached wire w (write_file_stream out f format_int document file (v, capture)).1.0
    unfolding write_file_stream copy_buffer
    write_file_stream-IsReached document file v capture r =
        copy_loop-IsReached _ file_copy_buffer_bytes file.content _ capture (
          write_header-IsReached wire w 200
            (start_streaming-IsReached wire w (write_file_headers-IsReached document v r)))

    module _ (x : Encoding) where
      pub write_document_metadata-IsReached :
          (metadata : Document) (v : ObservedResponse)
          → IsReached wire w v
          → IsReached wire w (write_document_metadata out x f format_int metadata v)
      unfolding write_document_metadata
      write_document_metadata-IsReached metadata v r =
          if_cases (IsReached wire w) (not metadata.is_file) _ _
            (λ _. write_json-IsReached wire w x 200 (Payload.data_raw metadata.json) v r)
            (λ _. write_header-IsReached wire w 200 (write_file_headers-IsReached metadata v r))

      pub write_document_content-IsReached :
          (content : Content) (v : ObservedResponse)
          → IsReached wire w v
          → IsReached wire w (write_document_content out x f format_int content v).1
      unfolding write_document_content
      write_document_content-IsReached content v r =
          if_cases (λ (answer : Bool × ObservedResponse). IsReached wire w answer.1)
            (not content.document.is_file) _ _
            (λ _. write_json-IsReached wire w x 200 (Payload.data_raw content.document.json) v r)
            (λ _. by_file content.file)
        where
          by_file :
              (file : Option Reader)
              → IsReached wire w
                  (elim file as (λ _. Bool × ObservedResponse) [
                    | none ↦ (false, internal_error x out v)
                    | some file ↦
                        let streamed =
                          write_file_stream out f format_int content.document file
                            (v, new_capture 0) in
                        (streamed.0, streamed.1.0)
                  ]).1
          by_file none =
              unfold internal_error in
              write_api_error-IsReached wire w x 500 500 "internal server error" v r
          by_file (some file) =
              write_file_stream-IsReached content.document file v (new_capture 0) r
