-- ===== src/Service/Uploading.antt =====
-- `Upload` of internal/document/upload.go.
pub mod Rollback
pub mod Kept
pub mod Grants
use test.Common.{
  ℕ, ◌+◌, ◌%◌, String, Bool, true, false, not, ◌&&◌, ◌||◌, Option, none, some, List, [], ◌∷◌, ◌==◌,
  ltb, leb, eqb, if◌then◌else◌, is_some, any, all, length, take,
}
use test.Common.Base64.{encode}
use test.Common.Int.{ℤ, pos, ltb_ℤ}
use test.Common.Text.{codes, is_blank, has_dot_dot, contains_any, base, same_codes, is_control}
use test.Blob.{Reader}
use test.Domain.{User, Document}
use test.Errors.{
  Error, Result, ok, err, Action, is, wrap, join, blob, BlobError, err_invalid_argument,
}
use test.Service.{Service, Upload, Formats, is_anonymous, map_repository_error}

unfoldable pub valid_name : String → Bool
unfolding is_blank has_dot_dot base same_codes contains_any is_control
valid_name name =
    if is_blank (codes name)
      || name == "."
      || name == ".."
      || has_dot_dot (codes name)
      || not (same_codes (base (codes name)) (codes name))
      || contains_any (codes name) (b'/' ∷ b'\\' ∷ [])
    then false
    else all (λ c. not (is_control c)) (codes name)

-- The loop of `uniqueGrants`, with the logins seen so far.
unfoldable pub unique_from : List String → String → List String → List String
unique_from seen owner [] = []
unique_from seen owner (login ∷ logins) =
    let skip = unique_from seen owner logins in
    let keep = unique_from (login ∷ seen) owner logins in
    if login == owner then skip else if any (λ l. l == login) seen then skip else login ∷ keep

unfoldable pub unique_grants : List String → String → List String
unfolding unique_from
unique_grants input owner = unique_from [] owner input

unfoldable pub same_login_set : List String → List String → Bool
same_login_set want got =
    if not (eqb (length want) (length got))
    then false
    else all (λ login. any (λ l. l == login) got) want

abbrev pub storage_key_bytes : ℕ
storage_key_bytes = 32

-- `io.LimitedReader`
unfoldable pub limit_reader : ℕ → Reader → Reader
unfolding take
limit_reader n r =
    if ltb (length r.content) n then r else record { content = take n r.content; failure = none }

-- `s.maxFile + 1`, an `int64`; `io.LimitedReader` reads nothing where it is negative.
unfoldable pub read_limit : ℕ → ℕ
read_limit max_file =
    let n = (max_file + 1) % 18446744073709551616 in if ltb n 9223372036854775808 then n else 0

module _ (f : Formats) where
  -- `normalizeMIME`
  unfoldable pub normalize_mime : String → Option String
  normalize_mime value = elim (f.parse_media_type value) [
    | none ↦ none
    | some (media_type, parameters) ↦
        if media_type == "" || not (any (λ c. eqb c b'/') (codes media_type))
        then none
        else some (f.format_media_type media_type parameters)
  ]

  -- The MIME type of the document that is stored; an empty one is kept.
  stored_mime : String → Option String
  unfolding normalize_mime
  stored_mime value = if value == "" then some "" else normalize_mime value

  module _ {W : Type 0} (s : Service W) where
    -- The checks before the MIME type is read.
    unfoldable pub is_acceptable : User → Upload → Bool
    unfolding valid_name
    is_acceptable requester input =
        let document = input.document in
        not (is_anonymous requester)
        && valid_name document.name
        && leb (length document.grants) s.max_grants
        && elim document.json [ none ↦ true | some text ↦ f.valid_json text ]
        && (if document.is_file
            then is_some input.file && not (document.mime == "")
            else not (is_some input.file) && is_some document.json)

    -- The clean-up of a blob whose document is not created; `e` is the error to report.
    swept : String → Error → Result (Unit {0}) × W → Result Document × W
    swept operation e (ok done, w) = (err e, w)
    swept operation e (err c, w) =
        if is c (blob BlobError.not_found) then (err e, w) else (err (wrap operation (join e c)), w)

    created : Document → Result Document × W → Result Document × W
    unfolding swept
    created document (ok result, w) = (ok result, w)
    created document (err e, w) =
        if document.is_file
        then swept "create document and clean up blob" (map_repository_error e)
            (s.blobs.delete document.storage_key w)
        else (err (map_repository_error e), w)

    create : Document → Action W Document
    unfolding created
    create document w = created document (s.documents.create document w)

    stored : Document → Result ℤ × W → Result Document × W
    unfolding create swept
    stored document (err e, w) = (err (wrap "store document blob" e), w)
    stored document (ok size, w) =
        if ltb_ℤ (pos s.max_file) size
        then swept "reject oversized blob and clean up" err_invalid_argument
            (s.blobs.delete document.storage_key w)
        else create (record document { size_bytes = size }) w

    keyed : Document → Reader → Result (List ℕ) × W → Result Document × W
    unfolding stored limit_reader read_limit
    keyed document file (err e, w) = (err (wrap "generate document storage key" e), w)
    keyed document file (ok bytes, w) =
        let key = encode bytes in
        stored (record document { storage_key = key })
          (s.blobs.put key (some (limit_reader (read_limit s.max_file) file)) w)

    -- A file document has its file, as was checked.
    store_file : Document → Option Reader → Action W Document
    unfolding keyed create
    store_file document none w = create document w
    store_file document (some file) w =
        if document.is_file
        then keyed document file (s.rand storage_key_bytes w)
        else create document w

    identified : User → Upload → String → List String → Result (List ℕ) × W → Result Document × W
    unfolding store_file
    identified requester input mime grants (err e, w) = (err (wrap "generate document id" e), w)
    identified requester input mime grants (ok bytes, w) =
        store_file
          (record input.document {
            mime = mime;
            id = f.uuid_of_bytes bytes;
            owner_id = requester.id;
            grants = grants;
            storage_key = "";
            size_bytes = pos 0;
          })
          input.file w

    checked : User → Upload → String → List String → Result (List String) × W → Result Document × W
    unfolding identified same_login_set
    checked requester input mime grants (err e, w) = (err (wrap "validate document grants" e), w)
    checked requester input mime grants (ok existing, w) =
        if not (same_login_set grants existing)
        then (err err_invalid_argument, w)
        else identified requester input mime grants (s.rand 16 w)

    unfoldable pub upload : User → Upload → Action W Document
    unfolding is_acceptable stored_mime checked unique_grants
    upload requester input w =
        if not (is_acceptable requester input)
        then (err err_invalid_argument, w)
        else elim (stored_mime input.document.mime) [
          | none ↦ (err err_invalid_argument, w)
          | some mime ↦
              let grants = unique_grants input.document.grants requester.login in
              checked requester input mime grants (s.users.existing_logins grants w)
        ]
