-- ===== src/Tests/BlobTests.antt =====
-- The file storage on an empty disk.
use test.Common.{
  ℕ, ◌≡◌, refl, String, true, false, ◌||◌, none, some, [], ◌∷◌, ◌==◌, arith, eqb, if◌then◌else◌,
  any,
}
use test.Common.Assoc.{lookup, without}
use test.Common.Base64.{encode}
use test.Common.Int.{pos}
use test.Common.Text.{codes, base, same_codes, strip_slashes, last_segment}
use test.Errors.{ok, err}
use test.Blob
use test.Blob.{Disk, Reader, put, open_object, valid_key}
use test.Blob.Files.{lookup-put, open-put, delete_lem}
use test.Blob.Keys.{valid_key_lem, valid_key-encode}

program : Unit {0}
unfolding put open_object Blob.delete valid_key Blob.os_remove Blob.os_link lookup without base
    same_codes encode strip_slashes last_segment
program = tt

abbrev pub suffix : ℕ → String
suffix n = "7"

abbrev pub empty_disk : Disk
empty_disk = record {
  files = [];
  drawn = 0;
  context_error = none;
  create_error = none;
  write_error = none;
  sync_error = none;
  close_error = none;
  link_error = none;
  open_error = none;
  stat_error = none;
  remove_error = none;
}

abbrev pub source : Reader
source = record { content = 1 ∷ 2 ∷ []; failure = none }

abbrev stored : Disk
stored = (put suffix "key" (some source) empty_disk).1

stored_files : stored.files ≡ ("key", 1 ∷ 2 ∷ []) ∷ []
unfolding program
stored_files = refl

was_put : put suffix "key" (some source) empty_disk ≡ (ok (pos 2), stored)
unfolding program
was_put = refl

never_replaced :
    (put suffix "key" (some (record source { content = [] })) stored).1.files ≡ stored.files
unfolding program
never_replaced = refl

named : valid_key "key" ≡ true
unfolding program
named = refl

lookup-put_example :
    lookup "key" (put suffix "key" (some source) empty_disk).1.files
    ≡ elim ((put suffix "key" (some source) empty_disk).0) [
      | ok _ ↦ if "key" == "key" then some (1 ∷ 2 ∷ []) else none
      | err _ ↦ none
    ]
unfolding program
lookup-put_example = lookup-put suffix "key" "key" (some source) empty_disk named

open-put_example :
    (lookup "key" empty_disk.files ≡ none)
    × (open_object "key" stored ≡ (
      ok (record { body = some (record { content = 1 ∷ 2 ∷ []; failure = none }); size = pos 2 }),
      stored,
    ))
unfolding program
open-put_example =
    open-put suffix "key" source empty_disk stored stored (pos 2) was_put refl refl refl refl

was_deleted : Blob.delete "key" stored ≡ (ok tt, (Blob.delete "key" stored).1)
unfolding program
was_deleted = refl

delete_lem_example :
    (lookup "key" (Blob.delete "key" stored).1.files
      ≡ (if "key" == "key" then none else lookup "key" stored.files))
    × ((Blob.delete "key" (Blob.delete "key" stored).1).0 ≡ err Blob.err_not_found)
delete_lem_example = delete_lem "key" "key" stored (Blob.delete "key" stored).1 was_deleted

valid_key_lem_example : any (λ c. eqb c b'/' || eqb c b'.') (codes "key") ≡ false
valid_key_lem_example = valid_key_lem "key" named

valid_key-encode_example : valid_key (encode (251 ∷ 255 ∷ [])) ≡ true
valid_key-encode_example =
    valid_key-encode (251 ∷ 255 ∷ []) (omega arith, (omega arith, tt)) (omega arith)
