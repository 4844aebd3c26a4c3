-- ===== src/Tests/MigrationTests.antt =====
-- Runs of the migrations.
use test.Common.{
  ℕ, ◌≡◌, refl, String, true, Option, none, some, List, [], ◌∷◌, ◌==◌, eqb, if◌then◌else◌, all,
}
use test.Common.Int.{ℤ, pos}
use test.Errors.{Error, Result, ok, err, plain, is_ok}
use test.Postgres.Migrations
use test.Postgres.Migrations.{Migration, Connection, applied_versions, has_version, migrate_up}
use test.Postgres.Migrations.Repeated.{migrate_up_again}
use test.Postgres.Migrations.Runs.{migrate_up-Run}
use test.Postgres.Migrations.Steps.{Run, IsSame}

-- A schema is the list of the statements that made it.
abbrev exec : String → List String → Result (List String)
exec sql schema = if sql == "bad" then err (plain "syntax error") else ok (sql ∷ schema)

abbrev first_item : Migration
first_item = record { version = pos 1; up = "create users"; down = "drop users" }

abbrev second_item : Migration
second_item = record { version = pos 2; up = "create documents"; down = "drop documents" }

abbrev items : List Migration
items = first_item ∷ second_item ∷ []

abbrev blank : Connection (List String)
blank = record { schema = []; ledger = none; statements = 0 }

abbrev healthy : ℕ → Option Error
healthy n = none

abbrev broken : ℕ → Option Error
broken n = if eqb n 7 then some (plain "connection lost") else none

abbrev name : ℤ → String
name version = "migrate"

program : Unit {0}
unfolding migrate_up Migrations.locked Migrations.apply_all Migrations.call Migrations.transact
    Migrations.apply_unapplied Migrations.apply_migration
program = tt

abbrev migrated : Connection (List String)
migrated = (migrate_up exec healthy name (ok items) blank).1

both : migrated.schema ≡ "create documents" ∷ "create users" ∷ []
unfolding program
both = refl

was_migrated : migrate_up exec healthy name (ok items) blank ≡ (ok tt, migrated)
unfolding program
was_migrated = refl

migrate_up-Run_example :
    Run exec
      (is_ok (migrate_up exec broken name (ok items) blank).0)
      items
      blank
      (migrate_up exec broken name (ok items) blank).1
migrate_up-Run_example = migrate_up-Run exec broken name first_item (second_item ∷ []) blank

migrate_up_again_example :
    (all (λ item. has_version item.version (applied_versions migrated.ledger)) items ≡ true)
    × IsSame migrated (migrate_up exec broken name (ok items) migrated).1
migrate_up_again_example =
    migrate_up_again exec healthy broken name items blank migrated was_migrated
