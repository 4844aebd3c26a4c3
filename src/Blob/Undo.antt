-- ===== src/Blob/Undo.antt =====
-- `Put` and then `Delete`: what the clean-up of an upload relies on.
use test.Common.{
  ℕ, ◌≡◌, refl, sym, ap, ◌∙◌, String, true, none, some, ◌==◌, arith, eq_refl, eq_iff, suc, [], inl,
  inr, if◌then◌else◌, Option-cases,
}
use test.Common.Assoc.{lookup, lookup-without}
use test.Common.Int.{ℤ}
use test.Errors.{Result, ok}
use test.Blob.{
  Disk, Reader, valid_key, put, delete, create_blob, write_blob, finish_put, os_remove, os_link,
  linked, removed, temporary_name, set_file,
}
use test.Blob.Files.{lookup-put, put_ok}

module _ (suffix : ℕ → String) where
  write_blob_frame :
      (key temporary : String) (source : Reader) (disk : Disk)
      → ((write_blob suffix key temporary source disk).1.remove_error ≡ disk.remove_error)
        × ((write_blob suffix key temporary source disk).1.context_error ≡ disk.context_error)
  unfolding write_blob linked os_link
  write_blob_frame key temporary source disk = ground arith

  os_remove_frame :
      (name : String) (disk : Disk)
      → ((os_remove name disk).1.remove_error ≡ disk.remove_error)
        × ((os_remove name disk).1.context_error ≡ disk.context_error)
  unfolding os_remove
  os_remove_frame name disk = ground arith

  create_blob_frame :
      (key : String) (source : Reader) (disk : Disk)
      → ((create_blob suffix key source disk).1.remove_error ≡ disk.remove_error)
        × ((create_blob suffix key source disk).1.context_error ≡ disk.context_error)
  unfolding create_blob finish_put
  create_blob_frame key source disk = elim (Option-cases disk.create_error) [
    | inl fine ↦
        let temporary = temporary_name suffix disk.drawn in
        let made = set_file temporary [] (record disk { drawn = suc disk.drawn }) in
        let wrote = write_blob_frame key temporary source made in
        let swept = os_remove_frame temporary (write_blob suffix key temporary source made).1 in
        ground (arith, fine, wrote, swept)
    | inr (e, bad) ↦ ground (arith, bad)
  ]

  put_frame :
      (key : String) (source : Reader) (disk disk' : Disk) (n : ℤ)
      → put suffix key (some source) disk ≡ (ok n, disk')
      → (disk'.remove_error ≡ disk.remove_error) × (disk'.context_error ≡ none)
  unfolding put
  put_frame key source disk disk' n p = ground (arith, create_blob_frame key source disk)

  -- A successful `Put` read its source to the end.
  pub put_read :
      (key : String) (source : Reader) (disk disk' : Disk) (n : ℤ)
      → put suffix key (some source) disk ≡ (ok n, disk')
      → source.failure ≡ none
  unfolding put create_blob finish_put
  put_read key source disk disk' n p =
      let read =
        write_blob_read key (temporary_name suffix disk.drawn) source (
          set_file (temporary_name suffix disk.drawn) []
            (record disk { drawn = suc disk.drawn })) in
      ground (arith, read)
    where
      write_blob_read :
          (key temporary : String) (source : Reader) (disk : Disk) (n : ℤ)
          → (write_blob suffix key temporary source disk).0 ≡ ok n
          → source.failure ≡ none
      write_blob_read key temporary source disk n p = unfold write_blob in ground arith

  -- What was put can be deleted again, and then every object is what it was before.
  pub delete-put :
      (key j : String) (source : Reader) (disk disk' : Disk) (n : ℤ)
      → valid_key j ≡ true
      → disk.remove_error ≡ none
      → put suffix key (some source) disk ≡ (ok n, disk')
      → ((delete key disk').0 ≡ ok tt) × (lookup j (delete key disk').1.files ≡ lookup j disk.files)
  delete-put key j source disk disk' n good works p =
      let (named, size, absent) = put_ok suffix key source disk disk' n p in
      let (removes, running) = put_frame key source disk disk' n p in
      let there : lookup key disk'.files ≡ some source.content =
        after_put key key source disk disk' n named p ∙ rw (eq_refl key) refl in
      let other = after_put key j source disk disk' n good p in
      unfold delete os_remove removed in
      ground (
        arith,
        named,
        absent,
        works,
        removes,
        running,
        there,
        other,
        lookup-without key j disk'.files,
        eq_iff key j,
      )
    where
      after_put :
          (key j : String) (source : Reader) (disk disk' : Disk) (n : ℤ)
          → valid_key j ≡ true
          → put suffix key (some source) disk ≡ (ok n, disk')
          → lookup j disk'.files ≡ (if key == j then some source.content else lookup j disk.files)
      after_put key j source disk disk' n good p =
          ap (λ (r : Result ℤ × Disk). lookup j r.1.files) (sym p)
          ∙ lookup-put suffix key j (some source) disk good
          ∙ ground (arith, p)
