-- ===== src/Blob/Missing.antt =====
-- When `Delete` says that an object is gone.
use test.Common.{◌≡◌, String, true, false, none, some, arith, eq_refl, inl, inr, Option-cases}
use test.Common.Assoc.{lookup, lookup-without}
use test.Errors.{Error, ok, err, is, blob, BlobError, not_exist}
use test.Blob.{Disk, delete, os_remove, removed}

-- The errors of the context and of `os.Remove` do not say that a file is missing.
pub record IsPlain (disk : Disk) : Type 0 where
  pub context : (e : Error) → disk.context_error ≡ some e → is e (blob BlobError.not_found) ≡ false
  pub remove :
      (e : Error)
      → disk.remove_error ≡ some e
      → (is e not_exist ≡ false) × (is e (blob BlobError.not_found) ≡ false)

-- Where the storage says that an object is not found, there is none.
pub delete_missing :
    (key : String) (disk disk' : Disk) (e : Error)
    → IsPlain disk
    → delete key disk ≡ (err e, disk')
    → is e (blob BlobError.not_found) ≡ true
    → lookup key disk'.files ≡ none
unfolding delete os_remove removed is
delete_missing key disk disk' e plain p missing = elim (Option-cases disk.context_error) [
  | inr (c, bad) ↦ absurd (ground (arith, bad, plain.context c bad))
  | inl fine ↦ elim (Option-cases disk.remove_error) [
    | inr (r, bad) ↦ absurd (ground (arith, fine, bad, plain.remove r bad))
    | inl works ↦ ground (arith, fine, works)
  ]
]

pub delete_done :
    (key : String) (disk disk' : Disk)
    → delete key disk ≡ (ok tt, disk')
    → lookup key disk'.files ≡ none
unfolding delete os_remove removed
delete_done key disk disk' p = ground (arith, lookup-without key key disk.files, eq_refl key)
