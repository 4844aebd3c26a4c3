-- ===== src/Postgres/Migrations.antt =====
-- internal/repository/postgres/migrate.go. `S` is what the statements of the migrations act on; the
-- embedded directory is a list of file names and contents, `none` where a file cannot be read.
pub mod Steps
pub mod Runs
pub mod Repeated
use test.Common.{
  ℕ, suc, String, Bool, true, false, not, ◌&&◌, ◌||◌, Option, none, some, List, [], ◌∷◌, ◌++◌, ◌==◌,
  eqb, if◌then◌else◌, any, is_some,
}
use Prim.Native.Char.{code}
use Prim.Native.String
use test.Common.Int.{ℤ, pos, negsuc, ltb_ℤ}
use test.Errors.{Error, Result, ok, err, wrap, sentinel, repository, RepositoryError, no_rows}
use test.Postgres.Errors.{classify}

-- A version is an `int64`.
pub record Migration : Type 0 where
  pub version : ℤ
  pub up : String
  pub down : String

abbrev pub eqb_ℤ : ℤ → ℤ → Bool
eqb_ℤ (pos a) (pos b) = eqb a b
eqb_ℤ (negsuc a) (negsuc b) = eqb a b
eqb_ℤ _ _ = false

-- The parts of a text between the characters with the code `separator`.
split_from : ℕ → String → String → List String
split_from separator part String.[] = part ∷ []
split_from separator part (String.◌∷◌ c s) =
    let closed = split_from separator "" s in
    let longer = split_from separator (String.◌++◌ part (String.◌∷◌ c String.[])) s in
    if eqb (code c) separator then part ∷ closed else longer

unfoldable pub split : ℕ → String → List String
unfolding split_from
split separator s = split_from separator "" s

-- The part before the first separator.
abbrev head_part : List String → String
head_part [] = ""
head_part (part ∷ _) = part

abbrev internal_error : String → Error
internal_error operation = wrap operation (sentinel (repository RepositoryError.internal))

abbrev is_version : ℤ → Migration → Bool
is_version version item = eqb_ℤ item.version version

abbrev with_contents : Bool → String → Migration → Migration
with_contents is_up contents item =
    if is_up then record item { up = contents } else record item { down = contents }

-- The entry of the map `items` for the version, made where it is missing.
unfoldable pub put_contents : ℤ → Bool → String → List Migration → List Migration
put_contents version is_up contents [] =
    with_contents is_up contents (record { version = version; up = ""; down = "" }) ∷ []
put_contents version is_up contents (item ∷ items) =
    let rest = put_contents version is_up contents items in
    if is_version version item then with_contents is_up contents item ∷ items else item ∷ rest

unfoldable pub insert_migration : Migration → List Migration → List Migration
insert_migration a [] = a ∷ []
insert_migration a (b ∷ l) =
    let rest = insert_migration a l in if ltb_ℤ b.version a.version then b ∷ rest else a ∷ b ∷ l

-- `sort.Slice` by the version; the versions of the map differ.
unfoldable pub sort_migrations : List Migration → List Migration
unfolding insert_migration
sort_migrations [] = []
sort_migrations (a ∷ l) = insert_migration a (sort_migrations l)

-- `parse_int` is `strconv.ParseInt` in base 10 with 64 bits.
module _ (parse_int : String → Option ℤ) where
  -- One file of the directory.
  unfoldable pub add_file : String → Option String → List Migration → Result (List Migration)
  unfolding split put_contents
  add_file name contents items = elim (split b'.' name) [
    | base ∷ kind ∷ extension ∷ [] ↦
        if not (kind == "up" || kind == "down") || not (extension == "sql")
        then ok items
        else elim (parse_int (head_part (split b'_' base))) [
          | none ↦ err (internal_error "load migrations")
          | some version ↦ elim contents [
            | none ↦ err (internal_error "load migrations")
            | some text ↦ ok (put_contents version (kind == "up") text items)
          ]
        ]
    | _ ↦ ok items
  ]

  unfoldable pub add_files :
      List (String × Option String) → List Migration → Result (List Migration)
  unfolding add_file
  add_files [] items = ok items
  add_files ((name, contents) ∷ files) items = elim (add_file name contents items) [
    | err e ↦ err e
    | ok items' ↦ add_files files items'
  ]

  -- `none` stands for a directory that cannot be read.
  unfoldable pub load_migrations : Option (List (String × Option String)) → Result (List Migration)
  unfolding add_files sort_migrations
  load_migrations none = err (internal_error "load migrations")
  load_migrations (some files) = elim (add_files files []) [
    | err e ↦ err e
    | ok items ↦
        if any (λ item. item.up == "" || item.down == "") items
        then err (internal_error "load migrations")
        else ok (sort_migrations items)
  ]

-- A connection: what the migrations act on, the versions of the ledger `schema_migrations`, newest
-- first and `none` where there is no such table, and the number of statements sent so far.
pub record Connection (S : Type 0) : Type 0 where
  pub schema : S
  pub ledger : Option (List ℤ)
  pub statements : ℕ

abbrev pub applied_versions : Option (List ℤ) → List ℤ
applied_versions none = []
applied_versions (some versions) = versions

abbrev pub has_version : ℤ → List ℤ → Bool
has_version version versions = any (eqb_ℤ version) versions

-- The greatest version of the ledger.
unfoldable pub greatest : List ℤ → Option ℤ
greatest [] = none
greatest (v ∷ versions) = elim (greatest versions) [
  | none ↦ some v
  | some w ↦ some (if ltb_ℤ v w then w else v)
]

-- `INSERT INTO schema_migrations(version)`, or the deletion of the version.
abbrev pub record_up : ℤ → Option (List ℤ) → Option (List ℤ)
record_up version ledger = some (version ∷ applied_versions ledger)

unfoldable pub without_version : ℤ → List ℤ → List ℤ
without_version version [] = []
without_version version (v ∷ versions) =
    let rest = without_version version versions in if eqb_ℤ version v then rest else v ∷ rest

unfoldable pub find_version : ℤ → List Migration → Option Migration
find_version version [] = none
find_version version (item ∷ items) =
    let rest = find_version version items in if is_version version item then some item else rest

module _ {S : Type 0} where
  -- The statements that follow, where there was no error.
  unfoldable pub after :
      (Connection S → Result (Unit {0}) × Connection S)
      → Result (Unit {0}) × Connection S
      → Result (Unit {0}) × Connection S
  after rest (err e, c) = (err e, c)
  after rest (ok done, c) = rest c

-- `exec` is the effect of the text of a migration, and `fault n` the error that the `n`-th call of the
-- driver meets, if it meets one.
module _ {S : Type 0} (exec : String → S → Result S) (fault : ℕ → Option Error) where
  -- One call of the driver, whose error is classified.
  unfoldable pub call :
      String
      → (Connection S → Result (Unit {0}) × Connection S)
      → Connection S
      → Result (Unit {0}) × Connection S
  call operation body c =
      let sent : Connection S = record c { statements = suc c.statements } in
      elim (fault c.statements) [ some e ↦ (err (classify operation e), sent) | none ↦ body sent ]

  -- A transaction that runs the text of a migration and updates the ledger: begin, run, update and
  -- commit are four calls, and the changes are seen only after the last.
  unfoldable pub transact :
      String
      → String
      → String
      → String
      → String
      → (Option (List ℤ) → Option (List ℤ))
      → Connection S
      → Result (Unit {0}) × Connection S
  unfolding call
  transact begin run update commit text change c =
      call begin
        (λ c1.
          call run
            (λ c2. elim (exec text c2.schema) [
              | err e ↦ (err (classify run e), c2)
              | ok schema ↦
                  call update
                    (λ c3.
                      call commit
                        (λ c4. (ok tt, record c4 { schema = schema; ledger = change c4.ledger }))
                        c3)
                    c2
            ])
            c1)
        c

  -- `operation` names the version, as `fmt.Sprintf("apply migration %d")` does.
  unfoldable pub apply_migration :
      (ℤ → String) → Migration → Connection S → Result (Unit {0}) × Connection S
  unfolding transact
  apply_migration operation item c =
      transact "begin migration" (operation item.version) "record migration" "commit migration"
        item.up (record_up item.version) c

  unfoldable pub apply_unapplied :
      (ℤ → String) → Migration → Connection S → Result (Unit {0}) × Connection S
  unfolding apply_migration
  apply_unapplied operation item c =
      if has_version item.version (applied_versions c.ledger)
      then (ok tt, c)
      else apply_migration operation item c

  -- The loop of `MigrateUp`.
  unfoldable pub apply_all :
      (ℤ → String) → List Migration → Connection S → Result (Unit {0}) × Connection S
  unfolding call after apply_unapplied
  apply_all operation [] c = (ok tt, c)
  apply_all operation (item ∷ items) c =
      after (apply_all operation items)
        (call "read migration ledger" (apply_unapplied operation item) c)

  -- `CREATE TABLE IF NOT EXISTS schema_migrations`
  abbrev with_ledger : Connection S → Connection S
  with_ledger c = record c { ledger = some (applied_versions c.ledger) }

  -- The lock is released at the end without a look at the error.
  abbrev unlocked :
      (Connection S → Result (Unit {0}) × Connection S)
      → Connection S
      → Result (Unit {0}) × Connection S
  unlocked body c = let r = body c in (r.0, record r.1 { statements = suc r.1.statements })

  abbrev granted : Connection S → Result (Unit {0}) × Connection S
  granted c = (ok tt, c)

  abbrev holding_lock :
      (Connection S → Result (Unit {0}) × Connection S)
      → Connection S
      → Result (Unit {0}) × Connection S
  holding_lock body c = after (unlocked body) (call "lock migrations" granted c)

  unfoldable pub locked :
      (Connection S → Result (Unit {0}) × Connection S)
      → Connection S
      → Result (Unit {0}) × Connection S
  unfolding call after
  locked body c = after (holding_lock body) (call "acquire migration connection" granted c)

  abbrev with_table :
      (ℤ → String) → List Migration → Connection S → Result (Unit {0}) × Connection S
  with_table operation items c =
      after (apply_all operation items)
        (call "create migration ledger" (λ c1. (ok tt, with_ledger c1)) c)

  unfoldable pub migrate_up :
      (ℤ → String) → Result (List Migration) → Connection S → Result (Unit {0}) × Connection S
  unfolding locked apply_all
  migrate_up operation (err e) c = (err e, c)
  migrate_up operation (ok items) c = locked (with_table operation items) c

  -- The transaction of `MigrateDown`, with the version that the ledger names.
  unfoldable pub revert :
      List Migration → Option ℤ → Connection S → Result (Unit {0}) × Connection S
  unfolding transact find_version without_version
  revert items none c = (err (classify "find migration to revert" (sentinel no_rows)), c)
  revert items (some version) c = elim (find_version version items) [
    | none ↦ (err (internal_error "revert migration"), c)
    | some item ↦
        transact "begin migration rollback" "revert migration" "update migration ledger"
          "commit migration rollback" item.down
          (λ ledger. some (without_version version (applied_versions ledger))) c
  ]

  -- A query of a ledger that does not exist fails; `missing_table` is the error of the server.
  unfoldable pub migrate_down :
      Error → Result (List Migration) → Connection S → Result (Unit {0}) × Connection S
  unfolding locked revert greatest
  migrate_down missing_table (err e) c = (err e, c)
  migrate_down missing_table (ok items) c =
      locked
        (call "find migration to revert" (λ c1. elim c1.ledger [
          | none ↦ (err (classify "find migration to revert" missing_table), c1)
          | some versions ↦ revert items (greatest versions) c1
        ]))
        c
