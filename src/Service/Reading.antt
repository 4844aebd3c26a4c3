-- ===== src/Service/Reading.antt =====
-- list.go, read.go and delete.go of internal/document.
pub mod Outbox
use test.Common.{
  String, Bool, true, false, not, ◌||◌, Option, none, some, List, ◌==◌, if◌then◌else◌, is_some,
}
use test.Common.Int.{is_negative, ltb_ℤ}
use test.Blob.{Object}
use test.Domain.{User, Document, DocumentFilter}
use test.Errors.{
  Error, Result, ok, err, Action, is, wrap, join, plain, blob, BlobError, err_invalid_argument,
}
use test.Service.{Service, Content, Formats, is_anonymous, map_repository_error}

module _ (f : Formats) where
  -- `validateDocumentFilter`, which answers whether the filter is accepted.
  unfoldable pub validate_document_filter : String → String → Bool
  validate_document_filter key value =
      if key == ""
      then value == ""
      else if value == ""
      then false
      else if key == "id"
      then is_some (f.parse_uuid value)
      else if key == "name" || key == "mime"
      then true
      else if key == "file" || key == "public"
      then value == "true" || value == "false"
      else if key == "created"
      then is_some (f.parse_utc value) || is_some (f.parse_rfc3339 value)
      else false

  module _ {W : Type 0} (s : Service W) where
    listed : Result (List Document) × W → Result (List Document) × W
    listed (ok documents, w) = (ok documents, w)
    listed (err e, w) = (err (map_repository_error e), w)

    unfoldable pub list : User → DocumentFilter → Action W (List Document)
    unfolding listed validate_document_filter
    list requester filter w =
        if is_anonymous requester || is_negative filter.limit || ltb_ℤ s.max_list filter.limit
        then (err err_invalid_argument, w)
        else if not (validate_document_filter filter.key filter.value)
        then (err err_invalid_argument, w)
        else listed (s.documents.list requester.id filter w)

module _ {W : Type 0} (s : Service W) where
  found : Result Document × W → Result Document × W
  found (ok document, w) = (ok document, w)
  found (err e, w) = (err (map_repository_error e), w)

  unfoldable pub get_metadata : User → String → Action W Document
  unfolding found
  get_metadata requester id w =
      if is_anonymous requester || id == ""
      then (err err_invalid_argument, w)
      else found (s.documents.by_id_accessible id requester.id w)

  abbrev invalid_object : Error
  invalid_object = plain "open document blob: invalid object"

  opened : Document → Result Object × W → Result Content × W
  opened document (err e, w) = (err (wrap "open document blob" e), w)
  opened document (ok object, w) = elim object.body [
    | none ↦ (err invalid_object, w)
    | some body ↦ if is_negative object.size then (err invalid_object, w) else (
      ok (record { document = record document { size_bytes = object.size }; file = some body }),
      w,
    )
  ]

  with_metadata : Result Document × W → Result Content × W
  unfolding opened
  with_metadata (err e, w) = (err e, w)
  with_metadata (ok document, w) =
      if not document.is_file
      then (ok (record { document = document; file = none }), w)
      else opened document (s.blobs.open_object document.storage_key w)

  unfoldable pub get : User → String → Action W Content
  unfolding with_metadata get_metadata
  get requester id w = with_metadata (get_metadata requester id w)

  -- `errors.Join` of an error that may be `nil` and another.
  abbrev joined : Option Error → Error → Error
  joined none e = e
  joined (some r) e = join r e

  abbrev finished : Option Error → Result (Unit {0})
  finished none = ok tt
  finished (some e) = err e

  confirmed : Option Error → Result (Unit {0}) × W → Result (Unit {0}) × W
  confirmed result (ok done, w) = (finished result, w)
  confirmed result (err e, w) = (err (joined result (wrap "confirm document blob cleanup" e)), w)

  confirm_cleanup : Option Error → Document → Action W (Unit {0})
  unfolding confirmed
  confirm_cleanup result document w = elim s.cleanup [
    | none ↦ (finished result, w)
    | some cleanup ↦
        confirmed result (cleanup.complete_blob_cleanup_by_storage_key document.storage_key w)
  ]

  blob_deleted : Option Error → Document → Result (Unit {0}) × W → Result (Unit {0}) × W
  unfolding confirm_cleanup
  blob_deleted result document (ok done, w) = confirm_cleanup result document w
  blob_deleted result document (err e, w) =
      if is e (blob BlobError.not_found)
      then confirm_cleanup result document w
      else (err (joined result (wrap "delete document blob" e)), w)

  -- The work after the metadata transaction, with the error of the invalidation.
  delete_blob : Document → Option Error → Action W (Unit {0})
  unfolding blob_deleted
  delete_blob document result w =
      if not document.is_file
      then (finished result, w)
      else blob_deleted result document (s.blobs.delete document.storage_key w)

  invalidated : Document → Result (Unit {0}) × W → Result (Unit {0}) × W
  unfolding delete_blob
  invalidated document (ok done, w) = delete_blob document none w
  invalidated document (err e, w) =
      delete_blob document (some (wrap "invalidate deleted document cache" e)) w

  committed : String → Result Document × W → Result (Unit {0}) × W
  unfolding invalidated
  committed id (err e, w) = (err (map_repository_error e), w)
  committed id (ok document, w) = elim s.invalidate_delete [
    | none ↦ delete_blob document none w
    | some invalidate ↦ invalidated document (invalidate id w)
  ]

  unfoldable pub delete : User → String → Action W (Unit {0})
  unfolding committed
  delete requester id w =
      if is_anonymous requester || id == ""
      then (err err_invalid_argument, w)
      else committed id (s.documents.delete id requester.id w)

  unfoldable pub invalidates_delete_cache : Bool
  invalidates_delete_cache = is_some s.invalidate_delete
