-- ===== src/Blob/Files.antt =====
-- `Put`, `Open` and `Delete`: objects appear whole or not at all, and are never replaced.
use test.Common.{
  ℕ, suc, ◌≡◌, refl, sym, ap, ◌∙◌, String, true, false, Option, none, some, List, [], ◌==◌, arith,
  eq_iff, eq_refl, inl, inr, if◌then◌else◌, all, length, Bool-cases, Option-cases,
}
use test.Common.Assoc.{lookup, lookup-without}
use test.Common.Int.{ℤ, pos}
use test.Common.Text.{codes}
use test.Errors.{Result, ok, err, is}
use test.Blob.{
  Disk, Reader, valid_key, is_key_char, temporary_name, os_remove, set_file, finish_put, write_blob,
  create_blob, put, open_object, delete, err_not_found,
}

-- A key consists of the characters that are allowed in one.
all_key_chars : (key : String) → valid_key key ≡ true → all is_key_char (codes key) ≡ true
unfolding valid_key
all_key_chars key h = ground arith

lookup-remove :
    (name j : String) (disk : Disk)
    → (name == j) ≡ false
    → lookup j (os_remove name disk).1.files ≡ lookup j disk.files
unfolding os_remove
lookup-remove name j disk ne = ground (arith, ne, lookup-without name j disk.files)

lookup-set_file :
    (name j : String) (content : List ℕ) (disk : Disk)
    → (name == j) ≡ false
    → lookup j (set_file name content disk).files ≡ lookup j disk.files
unfolding lookup
lookup-set_file name j content disk ne = rw ne (rw (lookup-without name j disk.files, ne))

module _ (suffix : ℕ → String) where
  -- No temporary file has the name of an object.
  temporary-ne :
      (n : ℕ) (key : String) → valid_key key ≡ true → (temporary_name suffix n == key) ≡ false
  temporary-ne n key h = elim (Bool-cases (temporary_name suffix n == key)) [
    | inl e ↦
        absurd (clash (all_key_chars key h) (sym ((eq_iff (temporary_name suffix n) key).0 e)))
    | inr ne ↦ ne
  ]
    where
      clash : all is_key_char (codes key) ≡ true → key ≡ temporary_name suffix n → ⊥
      clash p e = unfold is_key_char in cc (rw e at p)

  -- What the copy, the link and the clean-up do to the file of a key `j`.
  abbrev after : Option (List ℕ) → String → String → Reader → Result ℤ → Option (List ℕ)
  after old key j source (ok _) = if key == j then some source.content else old
  after old key j source (err _) = old

  lookup-write_blob :
      (key j temporary : String) (source : Reader) (disk : Disk)
      → (temporary == j) ≡ false
      → lookup j (write_blob suffix key temporary source disk).1.files
        ≡ after (lookup j disk.files) key j source (write_blob suffix key temporary source disk).0
  unfolding write_blob lookup
  lookup-write_blob key j temporary source disk ne = ground (
    arith,
    ne,
    lookup-set_file temporary j source.content disk ne,
    lookup-without temporary j disk.files,
    eq_iff key j,
  )

  lookup-create_blob :
      (key j : String) (source : Reader) (disk : Disk)
      → valid_key j ≡ true
      → lookup j (create_blob suffix key source disk).1.files
        ≡ after (lookup j disk.files) key j source (create_blob suffix key source disk).0
  unfolding create_blob finish_put
  lookup-create_blob key j source disk good = elim (Option-cases disk.create_error) [
    | inl fine ↦
        let temporary = temporary_name suffix disk.drawn in
        let ne = temporary-ne disk.drawn j good in
        let made = set_file temporary [] (record disk { drawn = suc disk.drawn }) in
        let wrote = lookup-write_blob key j temporary source made ne in
        let swept = lookup-remove temporary j (write_blob suffix key temporary source made).1 ne in
        let placed = lookup-set_file temporary j [] (record disk { drawn = suc disk.drawn }) ne in
        ground (arith, fine, wrote, swept, placed)
    | inr (e, bad) ↦ ground (arith, bad)
  ]

  -- `Put` publishes the whole content under its key where it succeeds, and changes no object
  -- where it fails; the object of no other valid key is ever touched.
  pub lookup-put :
      (key j : String) (source : Option Reader) (disk : Disk)
      → valid_key j ≡ true
      → lookup j (put suffix key source disk).1.files ≡ elim ((put suffix key source disk).0) [
        | ok _ ↦
            if key == j
            then elim source [ none ↦ none | some r ↦ some r.content ]
            else lookup j disk.files
        | err _ ↦ lookup j disk.files
      ]
  lookup-put key j none disk good = unfold put in refl
  lookup-put key j (some source) disk good = elim (Bool-cases (valid_key key)) [
    | inl named ↦ elim (Option-cases disk.context_error) [
      | inl fine ↦ put_runs key j source disk good named fine
      | inr (e, bad) ↦ unfold put in rw (named, bad) refl
    ]
    | inr unnamed ↦ unfold put in rw unnamed refl
  ]
    where
      put_runs :
          (key j : String) (source : Reader) (disk : Disk)
          → valid_key j ≡ true
          → valid_key key ≡ true
          → disk.context_error ≡ none
          → lookup j (put suffix key (some source) disk).1.files
            ≡ elim ((put suffix key (some source) disk).0) [
              | ok _ ↦ if key == j then some source.content else lookup j disk.files
              | err _ ↦ lookup j disk.files
            ]
      put_runs key j source disk good named fine =
          unfold put in rw (named, fine) (lookup-create_blob key j source disk good)

  write_blob_ok :
      (key temporary : String) (source : Reader) (disk disk' : Disk) (n : ℤ)
      → (temporary == key) ≡ false
      → write_blob suffix key temporary source disk ≡ (ok n, disk')
      → (n ≡ pos (length source.content)) × (lookup key disk.files ≡ none)
  unfolding write_blob
  write_blob_ok key temporary source disk disk' n ne p =
      ground (arith, lookup-set_file temporary key source.content disk ne)

  -- A successful `Put` had a valid key that no object had.
  pub put_ok :
      (key : String) (source : Reader) (disk disk' : Disk) (n : ℤ)
      → put suffix key (some source) disk ≡ (ok n, disk')
      → (valid_key key ≡ true) × (n ≡ pos (length source.content)) × (lookup key disk.files ≡ none)
  put_ok key source disk disk' n p = elim (Bool-cases (valid_key key)) [
    | inl named ↦
        let (wrote, temporary) = created key source disk disk' n named p in
        (named, wrote, temporary)
    | inr unnamed ↦ absurd (refused key source disk disk' n unnamed p)
  ]
    where
      refused :
          (key : String) (source : Reader) (disk disk' : Disk) (n : ℤ)
          → valid_key key ≡ false
          → put suffix key (some source) disk ≡ (ok n, disk')
          → ⊥
      refused key source disk disk' n unnamed p = unfold put in ground (arith, unnamed)

      created :
          (key : String) (source : Reader) (disk disk' : Disk) (n : ℤ)
          → valid_key key ≡ true
          → put suffix key (some source) disk ≡ (ok n, disk')
          → (n ≡ pos (length source.content)) × (lookup key disk.files ≡ none)
      created key source disk disk' n named p =
          let temporary = temporary_name suffix disk.drawn in
          let ne = temporary-ne disk.drawn key named in
          let made = set_file temporary [] (record disk { drawn = suc disk.drawn }) in
          let placed =
            lookup-set_file temporary key [] (record disk { drawn = suc disk.drawn }) ne in
          let inner : write_blob suffix key temporary source made
              ≡ (ok n, (write_blob suffix key temporary source made).1) =
            unfold put create_blob finish_put in ground (arith, named) in
          let (size, absent) = write_blob_ok key temporary source made _ n ne inner in
          (size, sym placed ∙ absent)

  -- An object that was put is opened with the whole content and its size, while the files are
  -- those that `Put` left and no call of `os` fails, and its key had named no object before.
  pub open-put :
      (key : String) (source : Reader) (disk disk' t : Disk) (n : ℤ)
      → put suffix key (some source) disk ≡ (ok n, disk')
      → t.files ≡ disk'.files
      → t.context_error ≡ none
      → t.open_error ≡ none
      → t.stat_error ≡ none
      → (lookup key disk.files ≡ none)
        × (open_object key t ≡ (
          ok (record {
            body = some (record { content = source.content; failure = none });
            size = n;
          }),
          t,
        ))
  open-put key source disk disk' t n p files running opens stats =
      let (named, size, absent) = put_ok key source disk disk' n p in
      let kept = lookup-put key key (some source) disk named in
      let held : lookup key t.files ≡ some source.content =
        ap (lookup key) (files ∙ ap (λ (r : Result ℤ × Disk). r.1.files) (sym p))
        ∙ kept
        ∙ ground (arith, p, eq_refl key) in
      (absent, unfold open_object in ground (arith, named, held, size))

-- After a successful `Delete` the key names no object, so that a second `Delete` reports that the
-- object is not found, and all other objects stay.
pub delete_lem :
    (key j : String) (disk disk' : Disk)
    → delete key disk ≡ (ok tt, disk')
    → (lookup j disk'.files ≡ (if key == j then none else lookup j disk.files))
      × ((delete key disk').0 ≡ err err_not_found)
unfolding delete is
delete_lem key j disk disk' p =
    ground (arith, lookup-without key j disk.files, lookup-without key key disk.files, eq_refl key)
