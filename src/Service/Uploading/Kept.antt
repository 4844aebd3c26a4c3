-- ===== src/Service/Uploading/Kept.antt =====
-- `Upload` on the tables and the directory of a server: a success stores the whole file.
use test.Common.{
  ℕ, ◌+◌, ◌≤◌, ◌<◌, ◌≡◌, refl, sym, ap, subst, ◌∙◌, String, true, not, none, some, List, arith, inl,
  inr, ltb, if_cases, Bool-cases, Option-cases, eq_refl, length, length-take,
}
use test.Common.Assoc.{lookup}
use test.Common.Base64.{encode}
use test.Common.Int.{ℤ, pos, ltb_ℤ}
use test.Blob
use test.Blob.{Disk, Reader}
use test.Blob.Files.{lookup-put, put_ok}
use test.Blob.Undo.{put_read}
use test.Domain.{User, Document}
use test.Errors.{Error, Result, ok, err, is, blob, BlobError}
use test.Postgres.{Database}
use test.Postgres.Documents.{create_document}
use test.Postgres.Documents.Creation.{create_document_fields}
use test.Service.{Service, Upload, Formats}
use test.Service.Uploading.{
  upload, created, create, stored, swept, keyed, store_file, identified, checked, stored_mime,
  is_acceptable, limit_reader, read_limit, unique_grants, same_login_set,
}
use test.Service.System.{Server, Settings, document_service, server_documents}

-- The file was read to its end, has at most `max` bytes, and stands under the document's key.
pub record IsKept (max : ℕ) (source : Reader) (document : Document) (w : Server) : Type 0 where
  pub whole : source.failure ≡ none
  pub bounded : length source.content ≤ max
  pub size : document.size_bytes ≡ pos (length source.content)
  pub object : lookup document.storage_key w.disk.files ≡ some source.content

abbrev Kept : ℕ → Reader → Result Document × Server → Type 0
Kept max source (ok document, w) = IsKept max source document w
Kept max source (err e, w) = Unit

-- A reader whose limit is not reached gives all that its source gives.
limit_reader_lem :
    (n : ℕ) (r : Reader) → length (limit_reader n r).content < n → limit_reader n r ≡ r
unfolding limit_reader
limit_reader_lem n r h = elim (Bool-cases (ltb (length r.content) n)) [
  | inl short ↦ rw short refl
  | inr long ↦ absurd (ground (arith, long, length-take n r.content))
]

module _ (f : Formats) (d : Database) (suffix : ℕ → String) (settings : Settings)
    (small : settings.max_file < 9223372036854775807) (source : Reader) where
  abbrev service : Service Server
  service = document_service d suffix settings

  abbrev Holds : Result Document × Server → Type 0
  Holds = Kept settings.max_file source

  swept-Kept :
      (operation : String) (e : Error) (r : Result (Unit {0}) × Server)
      → Holds (swept f service operation e r)
  unfolding swept
  swept-Kept operation e (ok done, w) = tt
  swept-Kept operation e (err c, w) = elim (Bool-cases (is c (blob BlobError.not_found))) [
    | inl missing ↦ rw missing tt
    | inr failed ↦ rw failed tt
  ]

  limit : read_limit settings.max_file ≡ settings.max_file + 1
  unfolding read_limit
  limit = ground (arith, small)

  created-Kept :
      (document : Document) (r : Result Document × Server)
      → ((result : Document) → r.0 ≡ ok result → IsKept settings.max_file source result r.1)
      → Holds (created f service document r)
  unfolding created
  created-Kept document (ok result, w) holds = holds result refl
  created-Kept document (err e, w) holds = elim (Bool-cases document.is_file) [
    | inl has ↦ rw has (swept-Kept _ _ _)
    | inr plain ↦ rw plain tt
  ]

  create-Kept :
      (document : Document) (v : Server)
      → document.is_file ≡ true
      → IsKept settings.max_file source document v
      → Holds (create f service document v)
  unfolding create
  create-Kept document v file held =
      created-Kept document ((server_documents d).create document v) (λ result p.
        let (key, size) =
          create_document_fields d document result v.store (create_document d document v.store).1
            file (ap (λ x. (x, (create_document d document v.store).1)) p) in
        record {
          whole = held.whole;
          bounded = held.bounded;
          size = size ∙ held.size;
          object = ap (λ k. lookup k v.disk.files) key ∙ held.object;
        })

  stored-Kept :
      (document : Document) (old : Disk) (r : Result ℤ × Disk) (v : Server)
      → document.is_file ≡ true
      → Blob.put suffix document.storage_key
          (some (limit_reader (read_limit settings.max_file) source))
          old
        ≡ r
      → Holds (stored f service document (r.0, record v { disk = r.1 }))
  unfolding stored
  stored-Kept document old (err e, disk) v file p = tt
  stored-Kept document old (ok n, disk) v file p =
      elim (Bool-cases (ltb_ℤ (pos settings.max_file) n)) [
        | inl over ↦ rw over (swept-Kept _ _ _)
        | inr fits ↦
            let limited = limit_reader (read_limit settings.max_file) source in
            let (named, size, absent) = put_ok suffix document.storage_key limited old disk n p in
            let whole = put_read suffix document.storage_key limited old disk n p in
            let held : lookup document.storage_key disk.files ≡ some limited.content =
              ap (λ (r : Result ℤ × Disk). lookup document.storage_key r.1.files) (sym p)
              ∙ lookup-put suffix document.storage_key document.storage_key (some limited) old named
              ∙ ground (arith, p, eq_refl document.storage_key) in
            let short : length limited.content < read_limit settings.max_file =
              ground (arith, fits, size, limit) in
            let same : limited ≡ source =
              limit_reader_lem (read_limit settings.max_file) source short in
            rw fits (
              create-Kept (record document { size_bytes = n }) (record v { disk = disk }) file
                (record {
                  whole = ap (λ (r : Reader). r.failure) (sym same) ∙ whole;
                  bounded =
                      ground (arith, short, limit, ap (λ (r : Reader). length r.content) same);
                  size = size ∙ ap (λ (r : Reader). pos (length r.content)) same;
                  object = held ∙ ap (λ (r : Reader). some r.content) same;
                }))
      ]

  keyed-Kept :
      (document : Document) (r : Result (List ℕ) × Server)
      → document.is_file ≡ true
      → Holds (keyed f service document source r)
  unfolding keyed
  keyed-Kept document (err e, v) file = tt
  keyed-Kept document (ok bytes, v) file =
      stored-Kept (record document { storage_key = encode bytes }) v.disk
        (Blob.put suffix (encode bytes) (some (limit_reader (read_limit settings.max_file) source))
          v.disk)
        v file refl

  identified-Kept :
      (requester : User) (input : Upload) (mime : String) (grants : List String)
      (r : Result (List ℕ) × Server)
      → input.document.is_file ≡ true
      → input.file ≡ some source
      → Holds (identified f service requester input mime grants r)
  unfolding identified store_file
  identified-Kept requester input mime grants (err e, v) file given = tt
  identified-Kept requester input mime grants (ok bytes, v) file given =
      let document : Document = record input.document {
        mime = mime;
        id = f.uuid_of_bytes bytes;
        owner_id = requester.id;
        grants = grants;
        storage_key = "";
        size_bytes = pos 0;
      } in
      subst (λ o. Holds (store_file f service document o v)) (sym given)
        (if_cases Holds document.is_file (keyed f service document source (settings.rand 32 v))
          (create f service document v) (λ has. keyed-Kept document (settings.rand 32 v) has)
          (λ plain. absurd (ground (arith, plain, file))))

  checked-Kept :
      (requester : User) (input : Upload) (mime : String) (grants : List String)
      (r : Result (List String) × Server)
      → input.document.is_file ≡ true
      → input.file ≡ some source
      → Holds (checked f service requester input mime grants r)
  unfolding checked
  checked-Kept requester input mime grants (err e, v) file given = tt
  checked-Kept requester input mime grants (ok existing, v) file given =
      elim (Bool-cases (not (same_login_set grants existing))) [
        | inl refused ↦ rw refused tt
        | inr passed ↦
            rw passed (identified-Kept requester input mime grants (settings.rand 16 v) file given)
      ]

  upload-Kept :
      (requester : User) (input : Upload) (w : Server)
      → input.document.is_file ≡ true
      → input.file ≡ some source
      → Holds (upload f service requester input w)
  unfolding upload
  upload-Kept requester input w file given =
      let grants = unique_grants input.document.grants requester.login in
      elim (Bool-cases (is_acceptable f service requester input)) [
        | inl fine ↦ elim (Option-cases (stored_mime f input.document.mime)) [
          | inl bad ↦ rw (fine, bad) tt
          | inr (mime, read) ↦
              rw (fine, read)
                (checked-Kept requester input mime grants (service.users.existing_logins grants w)
                  file given)
        ]
        | inr refused ↦ rw refused tt
      ]

  -- A file that is uploaded was read to its end, is not larger than the limit, and stands under
  -- the storage key of the document that is returned, with its size in the document's metadata, if
  -- the limit leaves room for one more byte in an `int64`.
  pub upload-IsKept :
      (requester : User) (input : Upload) (w w' : Server) (document : Document)
      → input.document.is_file ≡ true
      → input.file ≡ some source
      → upload f service requester input w ≡ (ok document, w')
      → IsKept settings.max_file source document w'
  upload-IsKept requester input w w' document file given p =
      subst Holds p (upload-Kept requester input w file given)
