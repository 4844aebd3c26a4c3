-- ===== src/Service/Uploading/Rollback.antt =====
-- `Upload` on the tables and the directory of a server: no failure leaves an object behind.
use test.Common.{
  ℕ, ◌≡◌, ◌≢◌, refl, sym, ap, subst, ◌∙◌, String, true, false, not, Option, none, some, List, arith,
  inl, inr, if_cases, Bool-cases, Option-cases,
}
use test.Common.Assoc.{lookup}
use test.Common.Base64.{encode}
use test.Common.Int.{ℤ, pos, ltb_ℤ}
use test.Blob
use test.Blob.{Disk, Reader, valid_key}
use test.Blob.Files.{lookup-put}
use test.Blob.Undo.{delete-put}
use test.Domain.{User, Document}
use test.Errors.{Error, Result, ok, err}
use test.Postgres.{Database}
use test.Service.{Service, Upload, Formats}
use test.Service.Uploading.{
  upload, created, create, stored, swept, keyed, store_file, identified, checked, stored_mime,
  is_acceptable, limit_reader, read_limit, unique_grants, same_login_set,
}
use test.Service.System.{Server, Settings, document_service, server_documents, on_disk}

-- After a failure the object of the key `j` is what it was in `old`.
abbrev Unchanged : String → Disk → Result Document × Server → Type 0
Unchanged j old (ok document, w) = Unit
Unchanged j old (err e, w) = lookup j w.disk.files ≡ lookup j old.files

module _ (f : Formats) (d : Database) (suffix : ℕ → String) (settings : Settings) where
  abbrev service : Service Server
  service = document_service d suffix settings

  module _ (j : String) (good : valid_key j ≡ true) where
    swept-Unchanged :
        (operation key : String) (e : Error) (source : Reader) (old : Disk) (n : ℤ) (v : Server)
        → old.remove_error ≡ none
        → Blob.put suffix key (some source) old ≡ (ok n, v.disk)
        → Unchanged j old (swept f service operation e (on_disk (Blob.delete key) v))
    swept-Unchanged operation key e source old n v works p =
        let (deleted, same) = delete-put suffix key j source old v.disk n good works p in
        unfold swept in rw deleted same

    created-Unchanged :
        (document : Document) (source : Reader) (old : Disk) (n : ℤ) (r : Result Document × Server)
        → document.is_file ≡ true
        → old.remove_error ≡ none
        → Blob.put suffix document.storage_key (some source) old ≡ (ok n, r.1.disk)
        → Unchanged j old (created f service document r)
    unfolding created
    created-Unchanged document source old n (ok result, v) file works p = tt
    created-Unchanged document source old n (err e, v) file works p = rw file (
        swept-Unchanged "create document and clean up blob" document.storage_key _ source old n v
          works p)

    stored-Unchanged :
        (document : Document) (source : Reader) (old : Disk) (r : Result ℤ × Disk) (v : Server)
        → document.is_file ≡ true
        → old.remove_error ≡ none
        → Blob.put suffix document.storage_key (some source) old ≡ r
        → Unchanged j old (stored f service document (r.0, record v { disk = r.1 }))
    unfolding stored create
    stored-Unchanged document source old (err e, disk) v file works p =
        ap (λ (r : Result ℤ × Disk). lookup j r.1.files) (sym p)
        ∙ lookup-put suffix document.storage_key j (some source) old good
        ∙ ground (arith, p)
    stored-Unchanged document source old (ok n, disk) v file works p =
        elim (Bool-cases (ltb_ℤ (pos settings.max_file) n)) [
          | inl over ↦ rw over (
              swept-Unchanged "reject oversized blob and clean up" document.storage_key _ source old
                n (record v { disk = disk }) works p)
          | inr fits ↦
              let sized : Document = record document { size_bytes = n } in
              rw fits (
                created-Unchanged sized source old n
                  ((server_documents d).create sized (record v { disk = disk })) file works p)
        ]

    keyed-Unchanged :
        (document : Document) (source : Reader) (old : Disk) (r : Result (List ℕ) × Server)
        → document.is_file ≡ true
        → r.1.disk ≡ old
        → old.remove_error ≡ none
        → Unchanged j old (keyed f service document source r)
    unfolding keyed
    keyed-Unchanged document source old (err e, v) file same works =
        ap (λ (o : Disk). lookup j o.files) same
    keyed-Unchanged document source old (ok bytes, v) file same works =
        let limited = limit_reader (read_limit settings.max_file) source in
        let key = encode bytes in
        subst
          (λ o. Unchanged j o (
            stored f service (record document { storage_key = key })
              (on_disk (Blob.put suffix key (some limited)) v)))
          same
          (stored-Unchanged (record document { storage_key = key }) limited v.disk
            (Blob.put suffix key (some limited) v.disk) v file
            (ap (λ (o : Disk). o.remove_error) same ∙ works) refl)

    -- A document without a file never touches the directory.
    create-Unchanged :
        (document : Document) (old : Disk) (v : Server)
        → document.is_file ≡ false
        → v.disk ≡ old
        → Unchanged j old (create f service document v)
    unfolding create
    create-Unchanged document old v plain same =
        created_plain document old ((server_documents d).create document v) plain same
      where
        created_plain :
            (document : Document) (old : Disk) (r : Result Document × Server)
            → document.is_file ≡ false
            → r.1.disk ≡ old
            → Unchanged j old (created f service document r)
        created_plain document old (ok result, v) plain same = tt
        created_plain document old (err e, v) plain same =
            rw plain (ap (λ (o : Disk). lookup j o.files) same)

    store_file-Unchanged :
        (document : Document) (file : Option Reader) (old : Disk) (v : Server)
        → ((n : ℕ) (w : Server) → (settings.rand n w).1.disk ≡ w.disk)
        → (document.is_file ≡ true → file ≢ none)
        → v.disk ≡ old
        → old.remove_error ≡ none
        → Unchanged j old (store_file f service document file v)
    unfolding store_file
    store_file-Unchanged document none old v draws given same works =
        elim (Bool-cases document.is_file) [
          | inl has ↦ absurd (given has refl)
          | inr plain ↦ create-Unchanged document old v plain same
        ]
    store_file-Unchanged document (some source) old v draws given same works =
        if_cases (Unchanged j old) document.is_file
          (keyed f service document source (settings.rand 32 v)) (create f service document v)
          (λ has.
            keyed-Unchanged document source old (settings.rand 32 v) has (draws 32 v ∙ same) works)
          (λ plain. create-Unchanged document old v plain same)

    identified-Unchanged :
        (requester : User) (input : Upload) (mime : String) (grants : List String) (old : Disk)
        (r : Result (List ℕ) × Server)
        → ((n : ℕ) (w : Server) → (settings.rand n w).1.disk ≡ w.disk)
        → (input.document.is_file ≡ true → input.file ≢ none)
        → r.1.disk ≡ old
        → old.remove_error ≡ none
        → Unchanged j old (identified f service requester input mime grants r)
    unfolding identified
    identified-Unchanged requester input mime grants old (err e, v) draws given same works =
        ap (λ (o : Disk). lookup j o.files) same
    identified-Unchanged requester input mime grants old (ok bytes, v) draws given same works =
        store_file-Unchanged _ input.file old v draws given same works

    checked-Unchanged :
        (requester : User) (input : Upload) (mime : String) (grants : List String) (old : Disk)
        (r : Result (List String) × Server)
        → ((n : ℕ) (w : Server) → (settings.rand n w).1.disk ≡ w.disk)
        → (input.document.is_file ≡ true → input.file ≢ none)
        → r.1.disk ≡ old
        → old.remove_error ≡ none
        → Unchanged j old (checked f service requester input mime grants r)
    unfolding checked
    checked-Unchanged requester input mime grants old (err e, v) draws given same works =
        ap (λ (o : Disk). lookup j o.files) same
    checked-Unchanged requester input mime grants old (ok existing, v) draws given same works =
        elim (Bool-cases (not (same_login_set grants existing))) [
          | inl refused ↦ rw refused (ap (λ (o : Disk). lookup j o.files) same)
          | inr passed ↦ rw passed (
              identified-Unchanged requester input mime grants old (settings.rand 16 v) draws given
                (draws 16 v ∙ same) works)
        ]

    file_given :
        (requester : User) (input : Upload)
        → is_acceptable f service requester input ≡ true
        → input.document.is_file ≡ true
        → input.file ≢ none
    unfolding is_acceptable
    file_given requester input fine file missing = absurd (ground (arith, missing))

    upload-Unchanged :
        (requester : User) (input : Upload) (w : Server)
        → ((n : ℕ) (v : Server) → (settings.rand n v).1.disk ≡ v.disk)
        → w.disk.remove_error ≡ none
        → Unchanged j w.disk (upload f service requester input w)
    unfolding upload
    upload-Unchanged requester input w draws works =
        elim (Bool-cases (is_acceptable f service requester input)) [
          | inl fine ↦ elim (Option-cases (stored_mime f input.document.mime)) [
            | inl bad ↦ rw (fine, bad) refl
            | inr (mime, read) ↦
                let grants = unique_grants input.document.grants requester.login in
                rw (fine, read)
                  (checked-Unchanged requester input mime grants w.disk
                    (service.users.existing_logins grants w) draws (file_given requester input fine)
                    refl works)
          ]
          | inr refused ↦ rw refused refl
        ]

    -- An upload that fails leaves the object of every valid key as it was, whichever step
    -- failed, if `os.Remove` does not fail and reading random bytes does not change the
    -- directory.
    pub lookup-upload :
        (requester : User) (input : Upload) (w w' : Server) (e : Error)
        → ((n : ℕ) (v : Server) → (settings.rand n v).1.disk ≡ v.disk)
        → w.disk.remove_error ≡ none
        → upload f service requester input w ≡ (err e, w')
        → lookup j w'.disk.files ≡ lookup j w.disk.files
    lookup-upload requester input w w' e draws works p =
        subst (Unchanged j w.disk) p (upload-Unchanged requester input w draws works)
