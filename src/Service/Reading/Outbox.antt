-- ===== src/Service/Reading/Outbox.antt =====
-- `Delete` on the tables and the directory of a server: no object is forgotten.
use test.Common.{
  ℕ, ◌≡◌, refl, sym, ap, subst, ◌∙◌, String, true, ◌||◌, Option, none, some, ◌==◌, inl, inr, ◌⊎◌,
  any, first, not, if_cases, Bool-cases,
}
use test.Common.Assoc.{lookup}
use test.Blob
use test.Blob.{Disk}
use test.Blob.Missing.{IsPlain, delete_missing, delete_done}
use test.Domain.{User, Document}
use test.Errors.{Error, Result, ok, err, Action, is, blob, BlobError, wrap}
use test.Postgres.{Store, Database}
use test.Postgres.Documents as Tables
use test.Postgres.Documents.{has_id}
use test.Postgres.Documents.Deletion.{delete-IsDeleted, delete_unchanged}
use test.Postgres.Tasks.{has_key}
use test.Service.{Service, is_anonymous}
use test.Service.Reading.{
  delete, committed, invalidated, delete_blob, blob_deleted, confirm_cleanup, confirmed,
}
use test.Service.System.{Server, Settings, document_service}

-- The object is gone, or a task in the queue names it.
abbrev pub IsAccounted : String → Server → Type 0
IsAccounted key w =
    (lookup key w.disk.files ≡ none) ⊎ (any (has_key key) w.store.blob_cleanup_tasks ≡ true)

module _ (d : Database) (suffix : ℕ → String) (settings : Settings) where
  abbrev service : Service Server
  service = document_service d suffix settings

  confirmed_frame :
      (result : Option Error) (r : Result (Unit {0}) × Server)
      → (confirmed service result r).1 ≡ r.1
  unfolding confirmed
  confirmed_frame result (ok done, w) = refl
  confirmed_frame result (err e, w) = refl

  confirm_cleanup_frame :
      (result : Option Error) (document : Document) (w : Server)
      → (confirm_cleanup service result document w).1.disk ≡ w.disk
  unfolding confirm_cleanup
  confirm_cleanup_frame result document w = ap (λ (v : Server). v.disk) (confirmed_frame result _)

  gone-IsAccounted :
      (result : Option Error) (document : Document) (w : Server)
      → lookup document.storage_key w.disk.files ≡ none
      → IsAccounted document.storage_key (confirm_cleanup service result document w).1
  gone-IsAccounted result document w gone = inl (
      ap (λ (k : Disk). lookup document.storage_key k.files)
        (confirm_cleanup_frame result document w)
      ∙ gone)

  blob_deleted-IsAccounted :
      (result : Option Error) (document : Document) (r : Result (Unit {0}) × Disk) (w : Server)
      → IsPlain w.disk
      → any (has_key document.storage_key) w.store.blob_cleanup_tasks ≡ true
      → Blob.delete document.storage_key w.disk ≡ r
      → IsAccounted document.storage_key
          (blob_deleted service result document (r.0, record w { disk = r.1 })).1
  unfolding blob_deleted
  blob_deleted-IsAccounted result document (ok done, disk) w plain queued p =
      gone-IsAccounted result document (record w { disk = disk })
        (delete_done document.storage_key w.disk disk p)
  blob_deleted-IsAccounted result document (err e, disk) w plain queued p =
      elim (Bool-cases (is e (blob BlobError.not_found))) [
        | inl missing ↦ rw missing (
            gone-IsAccounted result document (record w { disk = disk })
              (delete_missing document.storage_key w.disk disk e plain p missing))
        | inr other ↦ rw other (inr queued)
      ]

  delete_blob-IsAccounted :
      (document : Document) (result : Option Error) (w : Server)
      → IsPlain w.disk
      → any (has_key document.storage_key) w.store.blob_cleanup_tasks ≡ true
      → IsAccounted document.storage_key (delete_blob service document result w).1
  unfolding delete_blob
  delete_blob-IsAccounted document result w plain queued =
      if_cases (λ (r : Result (Unit {0}) × Server). IsAccounted document.storage_key r.1)
        (not document.is_file) _ _ (λ text. inr queued)
        (λ file.
          blob_deleted-IsAccounted result document (Blob.delete document.storage_key w.disk) w plain
            queued refl)

  invalidated-IsAccounted :
      (document : Document) (r : Result (Unit {0}) × Server)
      → IsPlain r.1.disk
      → any (has_key document.storage_key) r.1.store.blob_cleanup_tasks ≡ true
      → IsAccounted document.storage_key (invalidated service document r).1
  unfolding invalidated
  invalidated-IsAccounted document (ok done, w) plain queued =
      delete_blob-IsAccounted document none w plain queued
  invalidated-IsAccounted document (err e, w) plain queued =
      delete_blob-IsAccounted document (some (wrap "invalidate deleted document cache" e)) w plain
        queued

  -- The hook that drops cached responses changes neither the tables nor the directory.
  abbrev pub IsHarmless : Option (String → Action Server (Unit {0})) → Type 0
  IsHarmless none = Unit
  IsHarmless (some hook) = (id : String) (w : Server) → (hook id w).1 ≡ w

  committed-IsAccounted :
      (hook : Option (String → Action Server (Unit {0}))) (id : String) (document : Document)
      (w : Server)
      → IsHarmless hook
      → settings.invalidate_delete ≡ hook
      → IsPlain w.disk
      → any (has_key document.storage_key) w.store.blob_cleanup_tasks ≡ true
      → IsAccounted document.storage_key (committed service id (ok document, w)).1
  unfolding committed
  committed-IsAccounted none id document w harmless same plain queued =
      rw same (delete_blob-IsAccounted document none w plain queued)
  committed-IsAccounted (some hook) id document w harmless same plain queued =
      let kept : (hook id w).1 ≡ w = harmless id w in
      rw same (
        invalidated-IsAccounted document (hook id w)
          (subst (λ (v : Server). IsPlain v.disk) (sym kept) plain)
          (ap (λ (v : Server). any (has_key document.storage_key) v.store.blob_cleanup_tasks) kept
            ∙ queued))

  outcome :
      (id owner key : String) (row : Document) (w : Server) (r : Result Document × Store)
      → IsHarmless settings.invalidate_delete
      → IsPlain w.disk
      → d.parse_uuid id ≡ some key
      → first (has_id key) w.store.documents ≡ some row
      → row.is_file ≡ true
      → Tables.delete d id owner w.store ≡ r
      → (first (has_id key) (committed service id (r.0, record w { store = r.1 })).1.store.documents
          ≡ some row)
        ⊎ IsAccounted row.storage_key (committed service id (r.0, record w { store = r.1 })).1
  outcome id owner key row w (err e, s) harmless plain known found file p = inl (
      unfold committed in
      (ap (λ (t : Store). first (has_id key) t.documents)
          (delete_unchanged d id owner w.store s e p)
        ∙ found))
  outcome id owner key row w (ok document, s) harmless plain known found file p =
      let (key', known', deleted) = delete-IsDeleted d id owner document w.store s p in
      let (row', found', is_file, storage_key) = deleted.there in
      let same_key : key' ≡ key = cc (sym known' ∙ known) in
      let same : row' ≡ row =
        cc (sym found' ∙ ap (λ k. first (has_id k) w.store.documents) same_key ∙ found) in
      let document_file : document.is_file ≡ true =
        is_file ∙ ap (λ (x : Document). x.is_file) same ∙ file in
      let name : document.storage_key ≡ row.storage_key =
        storage_key ∙ ap (λ (x : Document). x.storage_key) same in
      inr (
        subst (λ k. IsAccounted k (committed service id (ok document, record w { store = s })).1)
          name
          (committed-IsAccounted settings.invalidate_delete id document (record w { store = s })
            harmless refl plain (deleted.queued document_file)))

  -- Whatever fails while a file document is deleted, the document is still there, or its object is
  -- gone, or a task in the queue names the object, so that no object is forgotten; the hook must
  -- not change the tables or the directory, and errors of the disk must not say that a file is
  -- missing.
  pub delete-IsAccounted :
      (requester : User) (id key : String) (row : Document) (w : Server)
      → IsHarmless settings.invalidate_delete
      → IsPlain w.disk
      → d.parse_uuid id ≡ some key
      → first (has_id key) w.store.documents ≡ some row
      → row.is_file ≡ true
      → (first (has_id key) (delete service requester id w).1.store.documents ≡ some row)
        ⊎ IsAccounted row.storage_key (delete service requester id w).1
  delete-IsAccounted requester id key row w harmless plain known found file =
      unfold delete in
      if_cases
        (λ (r : Result (Unit {0}) × Server).
          (first (has_id key) r.1.store.documents ≡ some row) ⊎ IsAccounted row.storage_key r.1)
        (is_anonymous requester || id == "") _ _ (λ invalid. inl found)
        (λ fine.
          outcome id requester.id key row w (Tables.delete d id requester.id w.store) harmless plain
            known found file refl)
