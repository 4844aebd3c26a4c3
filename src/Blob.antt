-- ===== src/Blob.antt =====
-- internal/blob: the boundary of the object storage and the storage on a file system. The
-- directory of the storage is an association list of file names and contents. A call of `os` fails
-- where the disk says so; the name of a temporary file ends in a text that the disk chooses.
pub mod Files
pub mod Keys
pub mod Undo
pub mod Missing
use test.Common.{
  ℕ, suc, String, Bool, true, false, not, ◌&&◌, ◌||◌, Option, none, some, List, [], ◌∷◌, ◌==◌, eqb,
  leb, if◌then◌else◌, all, any, is_some, length,
}
use Prim.Native.String
use test.Common.Assoc.{lookup, without}
use test.Common.Int.{ℤ, pos}
use test.Common.Text.{codes, in_range, base, same_codes}
use test.Errors.{Error, Result, ok, err, Action, sentinel, blob, BlobError, wrap, is, not_exist}

-- An `io.Reader`: the bytes that it gives, and then its end or an error.
pub record Reader : Type 0 where
  pub content : List ℕ
  pub failure : Option Error

-- An opened object.
pub record Object : Type 0 where
  pub body : Option Reader
  pub size : ℤ

pub record Storage (W : Type 0) : Type 0 where
  pub put : String → Option Reader → Action W ℤ
  pub open_object : String → Action W Object
  pub delete : String → Action W (Unit {0})

-- The directory, the error of the context, and the errors of the calls of `os`. The error of a write
-- is met by the first write of a file, if there is something to write.
pub record Disk : Type 0 where
  pub files : List (String × List ℕ)
  pub drawn : ℕ
  pub context_error : Option Error
  pub create_error : Option Error
  pub write_error : Option Error
  pub sync_error : Option Error
  pub close_error : Option Error
  pub link_error : Option Error
  pub open_error : Option Error
  pub stat_error : Option Error
  pub remove_error : Option Error

is_key_char : ℕ → Bool
is_key_char c =
    in_range b'a' b'z' c || in_range b'A' b'Z' c || in_range b'0' b'9' c || eqb c b'-' || eqb c b'_'

unfoldable pub valid_key : String → Bool
unfolding is_key_char same_codes base
valid_key key =
    if key == "" || not (same_codes (base (codes key)) (codes key))
    then false
    else all is_key_char (codes key)

abbrev pub err_invalid_key : Error
err_invalid_key = sentinel (blob BlobError.invalid_key)

abbrev pub err_not_found : Error
err_not_found = sentinel (blob BlobError.not_found)

-- The error that `os` gives for a file that is not there, and for one that is there already.
abbrev file_missing : Error
file_missing = sentinel not_exist

abbrev file_exists : Error
file_exists = Error.plain "file exists"

-- `os.Remove`
unfoldable pub os_remove : String → Disk → Option Error × Disk
os_remove name disk = elim disk.remove_error [
  | some e ↦ (some e, disk)
  | none ↦ elim (lookup name disk.files) [
    | none ↦ (some file_missing, disk)
    | some _ ↦ (none, record disk { files = without name disk.files })
  ]
]

-- `os.Link`: an existing file is never replaced.
unfoldable pub os_link : String → List ℕ → Disk → Option Error × Disk
os_link name content disk = elim disk.link_error [
  | some e ↦ (some e, disk)
  | none ↦ elim (lookup name disk.files) [
    | some _ ↦ (some file_exists, disk)
    | none ↦ (none, record disk { files = (name, content) ∷ disk.files })
  ]
]

abbrev set_file : String → List ℕ → Disk → Disk
set_file name content disk = record disk { files = (name, content) ∷ without name disk.files }

module _ (temporary_suffix : ℕ → String) where
  -- `os.CreateTemp(root, ".upload-*")`
  abbrev pub temporary_name : ℕ → String
  temporary_name n = String.◌∷◌ "." (String.◌++◌ "upload-" (temporary_suffix n))

  -- The deferred `Close` and `Remove` of the temporary file.
  finish_put : String → Result ℤ × Disk → Result ℤ × Disk
  unfolding os_remove
  finish_put temporary (result, disk) = (result, (os_remove temporary disk).1)

  linked : ℕ → Option Error × Disk → Result ℤ × Disk
  linked size (none, disk) = (ok (pos size), disk)
  linked size (some e, disk) = (err (wrap "commit blob" e), disk)

  -- The error of the writes of `io.Copy`: without bytes nothing is written.
  abbrev failed_write : Reader → Disk → Option Error
  failed_write source disk = if eqb (length source.content) 0 then none else disk.write_error

  -- `Put` from the copy on; the file is closed again without an effect at the end.
  write_blob : String → String → Reader → Disk → Result ℤ × Disk
  unfolding os_link linked
  write_blob key temporary source disk =
      let written = set_file temporary source.content disk in
      elim (failed_write source disk) [
        | some e ↦ (err (wrap "write blob" e), disk)
        | none ↦ elim source.failure [
          | some e ↦ (err (wrap "write blob" e), written)
          | none ↦ elim disk.sync_error [
            | some e ↦ (err (wrap "sync blob" e), written)
            | none ↦ elim disk.close_error [
              | some e ↦ (err (wrap "close blob" e), written)
              | none ↦ linked (length source.content) (os_link key source.content written)
            ]
          ]
        ]
      ]

  create_blob : String → Reader → Disk → Result ℤ × Disk
  unfolding write_blob finish_put
  create_blob key source disk = elim disk.create_error [
    | some e ↦ (err (wrap "create temporary blob" e), disk)
    | none ↦
        let temporary = temporary_name disk.drawn in
        finish_put temporary (
          write_blob key temporary source
            (set_file temporary [] (record disk { drawn = suc disk.drawn })))
  ]

  unfoldable pub put : String → Option Reader → Action Disk ℤ
  unfolding valid_key create_blob
  put key none disk = (err err_invalid_key, disk)
  put key (some source) disk =
      if not (valid_key key)
      then (err err_invalid_key, disk)
      else elim disk.context_error [ some e ↦ (err e, disk) | none ↦ create_blob key source disk ]

-- `Open`, with the size of the opened file.
opened : Disk → Option (List ℕ) → Result Object × Disk
opened disk none = (err err_not_found, disk)
opened disk (some content) = elim disk.stat_error [
  | some e ↦ (err (wrap "stat blob" e), disk)
  | none ↦ (
    ok (record {
      body = some (record { content = content; failure = disk.context_error });
      size = pos (length content);
    }),
    disk,
  )
]

unfoldable pub open_object : String → Action Disk Object
unfolding valid_key opened
open_object key disk =
    if not (valid_key key) then (err err_invalid_key, disk) else elim disk.context_error [
      | some e ↦ (err e, disk)
      | none ↦ elim disk.open_error [
        | some e ↦
            if is e not_exist then (err err_not_found, disk) else (err (wrap "open blob" e), disk)
        | none ↦ opened disk (lookup key disk.files)
      ]
    ]

removed : Option Error × Disk → Result (Unit {0}) × Disk
removed (none, disk) = (ok tt, disk)
removed (some e, disk) =
    if is e not_exist then (err err_not_found, disk) else (err (wrap "delete blob" e), disk)

unfoldable pub delete : String → Action Disk (Unit {0})
unfolding valid_key os_remove removed
delete key disk =
    if not (valid_key key)
    then (err err_invalid_key, disk)
    else elim disk.context_error [ some e ↦ (err e, disk) | none ↦ removed (os_remove key disk) ]

abbrev pub file_storage : (ℕ → String) → Storage Disk
file_storage temporary_suffix = record {
  put = put temporary_suffix;
  open_object = open_object;
  delete = delete;
}
