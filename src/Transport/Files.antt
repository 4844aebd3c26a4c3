-- ===== src/Transport/Files.antt =====
-- The answers with a file's content of internal/httptransport/read_handler.go. Closing a reader has no
-- effect in the model; a `boundedCapture` is of a document whose size is not negative, as `EntryFits`
-- asks.
pub mod Copy
use test.Common.{
  ℕ, zero, suc, ◌+◌, ◌-◌, String, Bool, true, false, not, ◌&&◌, ◌||◌, Option, none, some, List, [],
  ◌∷◌, ◌++◌, eqb, ltb, if◌then◌else◌, length, take,
}
use test.Common.Int.{ℤ, pos, negsuc}
use test.Blob.{Reader}
use test.Cache.{Entry}
use test.Domain.{Document}
use test.Service.{Formats, Content}
use test.Transport.Response.{Header}
use test.Transport.Writer.{
  ResponseWriter, Encoding, header_writer, write_json, internal_error, Payload,
}

-- `strconv.FormatInt` in base 10.
abbrev pub FormatInt : Type 0
FormatInt = ℤ → String

unfoldable pub write_file_headers :
    {R : Type 0} → Formats → FormatInt → ResponseWriter R → Document → R → R
write_file_headers f format_int out metadata w =
    let typed = out.set "Content-Type" metadata.mime w in
    let nosniff = out.set "X-Content-Type-Options" "nosniff" typed in
    let sandboxed = out.set "Content-Security-Policy" "sandbox; default-src 'none'" nosniff in
    let sized = out.set "Content-Length" (format_int metadata.size_bytes) sandboxed in
    out.set "Content-Disposition" (f.format_media_type "inline" (("filename", metadata.name) ∷ []))
      sized

unfoldable pub file_metadata_entry : Formats → FormatInt → Document → List String → Entry
unfolding write_file_headers
file_metadata_entry f format_int metadata tags = record {
  status = 200;
  header = write_file_headers f format_int header_writer metadata [];
  body = [];
  body_omitted = true;
  stored_at = 0;
  tags = tags;
}

pub record BoundedCapture : Type 0 where
  pub buffer : List ℕ
  pub remaining : ℕ
  pub overflow : Bool

abbrev pub new_capture : ℕ → BoundedCapture
new_capture size = record { buffer = []; remaining = size; overflow = false }

-- `boundedCapture.Write`
unfoldable pub capture_write : List ℕ → BoundedCapture → BoundedCapture
unfolding take
capture_write bytes w =
    if ltb w.remaining (length bytes)
    then record {
      buffer = if ltb 0 w.remaining then w.buffer ++ take w.remaining bytes else w.buffer;
      remaining = 0;
      overflow = true;
    }
    else record w { remaining = w.remaining - length bytes; buffer = w.buffer ++ bytes }

abbrev pub file_copy_buffer_bytes : ℕ
file_copy_buffer_bytes = 32768

-- What is left after `n` bytes.
unfoldable pub drop : ℕ → List ℕ → List ℕ
drop zero l = l
drop (suc n) [] = []
drop (suc n) (b ∷ l) = drop n l

module _ {R : Type 0} (out : ResponseWriter R) where
  -- The loop of `io.CopyBuffer` into the response and the capture, an `io.MultiWriter` of which stops at
  -- the first writer that fails; on fuel, since each round takes a byte at least. The answer says whether
  -- all that the reader gave was written.
  unfoldable pub copy_loop : ℕ → ℕ → List ℕ → R × BoundedCapture → Bool × (R × BoundedCapture)
  unfolding take drop capture_write
  copy_loop fuel size [] (w, capture) = (true, (w, capture))
  copy_loop zero size (b ∷ rest) (w, capture) = (false, (w, capture))
  copy_loop (suc fuel) size (b ∷ rest) (w, capture) =
      let written = out.write (take size (b ∷ rest)) w in
      elim written.0 [
        | false ↦ (false, (written.1, capture))
        | true ↦
            copy_loop fuel size (drop size (b ∷ rest))
              (written.1, capture_write (take size (b ∷ rest)) capture)
      ]

  -- `io.CopyBuffer`: the error of the reader counts once its bytes are written.
  unfoldable pub copy_buffer : Reader → R × BoundedCapture → Bool × (R × BoundedCapture)
  unfolding copy_loop
  copy_buffer source start =
      let copied = copy_loop (length source.content) file_copy_buffer_bytes source.content start in
      (copied.0 && (elim source.failure [ none ↦ true | some _ ↦ false ]), copied.1)

  -- `writeFileStream`; a capture that nobody reads stands for `nil`.
  unfoldable pub write_file_stream :
      Formats → FormatInt → Document → Reader → R × BoundedCapture → Bool × (R × BoundedCapture)
  unfolding write_file_headers copy_buffer
  write_file_stream f format_int document file (w, capture) =
      let started = out.start_streaming (write_file_headers f format_int out document w) in
      copy_buffer file (out.write_header 200 started, capture)

  unfoldable pub write_document_metadata : Encoding → Formats → FormatInt → Document → R → R
  unfolding write_json write_file_headers
  write_document_metadata x f format_int metadata w =
      if not metadata.is_file
      then write_json x out 200 (Payload.data_raw metadata.json) w
      else out.write_header 200 (write_file_headers f format_int out metadata w)

  -- `writeDocumentContent`, which answers whether it gave no error.
  unfoldable pub write_document_content : Encoding → Formats → FormatInt → Content → R → Bool × R
  unfolding write_json internal_error write_file_stream
  write_document_content x f format_int content w =
      if not content.document.is_file
      then (true, write_json x out 200 (Payload.data_raw content.document.json) w)
      else elim content.file [
        | none ↦ (false, internal_error x out w)
        | some file ↦
            let streamed =
              write_file_stream f format_int content.document file (w, new_capture 0) in
            (streamed.0, streamed.1.0)
      ]
