-- ===== src/Transport/Documents/Parts.antt =====
-- The parts of an upload in internal/httptransport/upload_handler.go: its metadata, its JSON and its file.
use test.Common.{
  ℕ, String, Bool, true, false, not, ◌&&◌, ◌||◌, Option, none, some, List, [], ◌∷◌, ◌==◌,
  if◌then◌else◌, length, all,
}
use test.Common.Assoc.{lookup}
use test.Common.Int.{ℤ, pos, ltb_ℤ}
use test.Blob.{Reader}
use test.Service.{Upload}
use test.Transport.Handler.{Form, FileHeader}
use test.Service.Uploading.{limit_reader, read_limit}
use test.Common.Int.{to_ℕ}

-- `uploadMeta`; a missing member is `none`.
pub record UploadMeta : Type 0 where
  pub name : Option String
  pub file : Option Bool
  pub is_public : Option Bool
  pub token : Option String
  pub mime : Option String
  pub grant : List String

-- `uploadMeta` where the required members are given.
pub record RequiredMeta : Type 0 where
  pub name : String
  pub file : Bool
  pub is_public : Bool
  pub token : String
  pub mime : Option String
  pub grant : List String

-- A JSON decoder on a part: the first value, and whether the second call of `Decode` meets the end.
pub record Decoded : Type 0 where
  pub meta : UploadMeta
  pub at_end : Bool

abbrev pub Decoder : Type 0
Decoder = List ℕ → Option Decoded

-- The required members, where none is missing.
unfoldable pub required : UploadMeta → Option RequiredMeta
required meta = elim meta.name [
  | none ↦ none
  | some name ↦ elim meta.file [
    | none ↦ none
    | some file ↦ elim meta.is_public [
      | none ↦ none
      | some is_public ↦ elim meta.token [
        | none ↦ none
        | some token ↦ some (record {
          name = name;
          file = file;
          is_public = is_public;
          token = token;
          mime = meta.mime;
          grant = meta.grant;
        })
      ]
    ]
  ]
]

unfoldable pub decode_upload_meta : Decoder → List ℕ → Option RequiredMeta
unfolding required
decode_upload_meta decode raw = elim (decode raw) [
  | none ↦ none
  | some decoded ↦ elim (required decoded.meta) [
    | none ↦ none
    | some meta ↦ if decoded.at_end then some meta else none
  ]
]

-- Whether a MIME type is given and not empty, and whether it is not empty if it is given.
abbrev pub has_mime : Option String → Bool
has_mime none = false
has_mime (some mime) = not (mime == "")

abbrev pub may_mime : Option String → Bool
may_mime none = true
may_mime (some mime) = not (mime == "")

unfoldable pub valid_upload_shape : RequiredMeta → Bool → Bool → Bool
valid_upload_shape meta json_present file_present =
    if meta.file
    then file_present && has_mime meta.mime
    else if file_present || not json_present
    then false
    else may_mime meta.mime

abbrev pub is_upload_part : String → Bool
is_upload_part name = name == "meta" || name == "json" || name == "file"

unfoldable pub known_upload_parts : Form → Bool
known_upload_parts form =
    all (λ entry. is_upload_part entry.0) form.value
    && all (λ entry. is_upload_part entry.0) form.file

-- A part of the form: an error, absent, or its content.
pub data Part (A : Type 0) : Type 0 where
  failed : Part A
  absent : Part A
  present : A → Part A

abbrev pub values_of : {A : Type 0} → String → List (String × List A) → List A
values_of name parts = elim (lookup name parts) [ none ↦ [] | some values ↦ values ]

-- `readAtMost`; the limit of the reader is an `int64`, which wraps around.
unfoldable pub read_at_most : Reader → ℤ → Part (List ℕ)
unfolding limit_reader read_limit
read_at_most reader limit =
    let limited = limit_reader (read_limit (to_ℕ limit)) reader in
    elim limited.failure [
      | some e ↦ failed
      | none ↦
          if ltb_ℤ limit (pos (length limited.content)) then failed else present limited.content
    ]

unfoldable read_value : List (List ℕ) → List FileHeader → ℤ → Part (List ℕ)
unfolding read_at_most
read_value [] [] limit = absent
read_value (value ∷ []) [] limit =
    if ltb_ℤ limit (pos (length value)) then failed else present value
read_value [] (file ∷ []) limit = elim file.opened [
  | none ↦ failed
  | some reader ↦ read_at_most reader limit
]
read_value [] (_ ∷ _ ∷ _) limit = failed
read_value (_ ∷ []) (_ ∷ _) limit = failed
read_value (_ ∷ _ ∷ _) files limit = failed

unfoldable pub read_multipart_value : Form → String → ℤ → Part (List ℕ)
unfolding lookup read_value
read_multipart_value form name limit =
    read_value (values_of name form.value) (values_of name form.file) limit

-- A file part with its size.
pub record OpenedFile : Type 0 where
  pub reader : Reader
  pub size : ℤ

unfoldable open_file : List (List ℕ) → List FileHeader → Part OpenedFile
open_file [] [] = absent
open_file (value ∷ []) [] =
    present
      (record { reader = record { content = value; failure = none }; size = pos (length value) })
open_file [] (file ∷ []) = elim file.opened [
  | none ↦ failed
  | some reader ↦ present (record { reader = reader; size = file.size })
]
open_file [] (_ ∷ _ ∷ _) = failed
open_file (_ ∷ []) (_ ∷ _) = failed
open_file (_ ∷ _ ∷ _) files = failed

unfoldable pub open_multipart_file : Form → String → Part OpenedFile
unfolding lookup open_file
open_multipart_file form name = open_file (values_of name form.value) (values_of name form.file)

abbrev pub file_size : Option OpenedFile → ℤ
file_size (some file) = file.size
file_size none = pos 0

-- A part that may be absent, `none` for an error.
abbrev pub optional : {A : Type 0} → Part A → Option (Option A)
optional failed = none
optional absent = some none
optional (present a) = some (some a)

abbrev pub is_multipart : Option String → Bool
is_multipart none = false
is_multipart (some media_type) = media_type == "multipart/form-data"

abbrev pub content_of : {A : Type 0} → Part A → Option A
content_of (present a) = some a
content_of _ = none

-- The document and the file that are given to the service.
unfoldable pub upload_of : RequiredMeta → Option (List ℕ) → Option OpenedFile → Upload
upload_of meta json file = record {
  document = record {
    id = "";
    owner_id = "";
    name = meta.name;
    mime = elim meta.mime [ none ↦ "" | some mime ↦ mime ];
    is_file = meta.file;
    is_public = meta.is_public;
    json = json;
    storage_key = "";
    size_bytes = pos 0;
    created_at = 0;
    updated_at = 0;
    version = 0;
    grants = meta.grant;
  };
  file = elim file [ none ↦ none | some f ↦ some f.reader ];
}
