-- ===== src/Transport/Documents/Uploads.antt =====
-- internal/httptransport/upload_handler.go. Closing the readers of a form and removing its temporary
-- files has no effect in the model.
pub mod Invalidation
use test.Common.{
  ℕ, ◌+◌, String, Bool, true, false, not, ◌&&◌, ◌||◌, Option, none, some, List, [], ◌∷◌, ◌==◌, ltb,
  eqb, if◌then◌else◌, length, all, is_some,
}
use test.Common.Assoc.{lookup}
use test.Common.Int.{ℤ, pos, negsuc, ltb_ℤ}
use test.Blob.{Reader}
use test.Domain.{User, Document}
use test.Service.{Upload, Formats}
use test.Transport.Caching.{Library, list_cache_tag, invalidate_tags}
use test.Transport.Documents.{with_services}
use test.Transport.Handler.{
  Handler, Metrics, AuthService, DocumentService, Exchange, Request, Form, FileHeader, respond,
  in_world, or_domain_error, or_bad_request, refuse_if,
}
use test.Transport.Writer.{ResponseWriter, Payload, write_json, bad_request}
use test.Transport.Documents.Parts.{
  failed, absent, present, UploadMeta, RequiredMeta, Decoded, Decoder, required, decode_upload_meta,
  has_mime, may_mime, valid_upload_shape, is_upload_part, known_upload_parts, Part, values_of,
  read_at_most, read_multipart_value, OpenedFile, open_multipart_file, file_size, optional,
  is_multipart, content_of, upload_of,
}

module _ {W R : Type 0} (x : Library) (decode : Decoder) (out : ResponseWriter R)
    (h : Handler W) where
  unfoldable pub observe_upload :
      Option (Metrics W) → Option OpenedFile → Exchange W R → Exchange W R
  observe_upload none file e = e
  observe_upload (some m) none e = e
  observe_upload (some m) (some file) e = in_world (m.observe_file "upload" file.size) e

  -- What follows on a successful upload: the metric, and the listings of the cache go.
  unfoldable pub uploaded : Option OpenedFile → Exchange W R → Exchange W R
  unfolding invalidate_tags observe_upload
  uploaded file e =
      invalidate_tags h h.deps.cache (list_cache_tag ∷ []) (observe_upload h.deps.metrics file e)

  -- `uploadDocument` once the parts are read and their shape is accepted.
  unfoldable pub store_upload :
      DocumentService W
      → RequiredMeta
      → Option (List ℕ)
      → Option OpenedFile
      → User
      → Exchange W R
      → Exchange W R
  unfolding or_domain_error uploaded upload_of write_json
  store_upload documents meta json file requester e =
      or_domain_error x.encoding out (documents.upload requester (upload_of meta json file) e.world)
        (λ _ stored.
          respond
            (write_json x.encoding out 200
              (Payload.data_upload json (elim file [ none ↦ none | some _ ↦ some meta.name ])))
            (uploaded file stored))
        e

  -- The size of the file and the shape of the upload are checked.
  unfoldable pub check_upload :
      DocumentService W
      → RequiredMeta
      → Option (List ℕ)
      → Option OpenedFile
      → User
      → Exchange W R
      → Exchange W R
  unfolding valid_upload_shape refuse_if store_upload
  check_upload documents meta json file requester =
      refuse_if x.encoding out
        (ltb_ℤ h.deps.limits.max_file_bytes (file_size file)
          || not (valid_upload_shape meta (is_some json) (is_some file)))
        (store_upload documents meta json file requester)

  -- The JSON of a part that is absent or valid.
  abbrev accepted_json : Part (List ℕ) → Option (Option (List ℕ))
  accepted_json failed = none
  accepted_json absent = some none
  accepted_json (present json) = if x.formats.valid_json json then some (some json) else none

  -- `uploadDocument` for an authorized requester: the part with the JSON, then that with the file.
  unfoldable pub answer_upload :
      DocumentService W → Form → RequiredMeta → User → Exchange W R → Exchange W R
  unfolding read_multipart_value open_multipart_file or_bad_request check_upload
  answer_upload documents form meta requester =
      or_bad_request x.encoding out
        (accepted_json (read_multipart_value form "json" h.deps.limits.max_json_bytes))
        (λ json.
          or_bad_request x.encoding out (optional (open_multipart_file form "file"))
            (λ file. check_upload documents meta json file requester))

  -- `uploadDocument` on a parsed form.
  unfoldable pub answer_form :
      AuthService W → DocumentService W → Form → Exchange W R → Exchange W R
  unfolding known_upload_parts read_multipart_value decode_upload_meta or_bad_request refuse_if
      or_domain_error answer_upload
  answer_form auth documents form = refuse_if x.encoding out (not (known_upload_parts form)) (
      or_bad_request x.encoding out
        (content_of (read_multipart_value form "meta" h.deps.limits.max_request_bytes))
        (λ body. or_bad_request x.encoding out (decode_upload_meta decode body) (λ meta.
          refuse_if x.encoding out (ltb_ℤ h.deps.limits.max_grant_items (pos (length meta.grant)))
            (λ e.
              or_domain_error x.encoding out (auth.authorize meta.token e.world)
                (answer_upload documents form meta) e))))

  unfoldable pub upload_document : Request → Exchange W R → Exchange W R
  unfolding with_services or_bad_request refuse_if answer_form
  upload_document r = with_services x out h (λ auth documents.
      refuse_if x.encoding out (not (is_multipart (x.parsing.parse_media_type r.content_type))) (
        or_bad_request x.encoding out
          (x.parsing.parse_multipart_form h.deps.limits.max_json_bytes r)
          (answer_form auth documents)))
