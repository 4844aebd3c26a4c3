-- ===== src/Postgres/Migrations/Steps.antt =====
-- The runs of `MigrateUp` as a relation: whole migrations, each once.
use test.Common.{◌≡◌, refl, sym, ap, ◌∙◌, String, Bool, true, false, List, [], ◌∷◌, arith}
use test.Common.Int.{ℤ, pos, negsuc}
use test.Errors.{Result, ok}
use test.Postgres.Migrations.{Migration, Connection, applied_versions, has_version, eqb_ℤ}

pub eqb_ℤ_refl : (v : ℤ) → eqb_ℤ v v ≡ true
eqb_ℤ_refl (pos n) = ground arith
eqb_ℤ_refl (negsuc n) = ground arith

-- Both connections see the same schema and the same versions.
pub record IsSame {S : Type 0} (c c' : Connection S) : Type 0 where
  pub schema : c'.schema ≡ c.schema
  pub versions : applied_versions c'.ledger ≡ applied_versions c.ledger

-- One migration was applied whole, and recorded.
pub record IsApplied {S : Type 0} (exec : String → S → Result S) (item : Migration)
    (c c' : Connection S) : Type 0 where
  pub fresh : has_version item.version (applied_versions c.ledger) ≡ false
  pub schema : exec item.up c.schema ≡ ok c'.schema
  pub versions : applied_versions c'.ledger ≡ item.version ∷ applied_versions c.ledger

-- The migrations of a list are gone through in order: one whose version is recorded is skipped, any
-- other is applied; the run is complete, or it stops before a migration that is left.
pub data Run {S : Type 0} (exec : String → S → Result S)
    : Bool → List Migration → Connection S → Connection S → Type 0 where
  done : {c c' : Connection S} → IsSame c c' → Run exec true [] c c'
  stopped :
      {item : Migration} {items : List Migration} {c c' : Connection S}
      → IsSame c c'
      → Run exec false (item ∷ items) c c'
  skip :
      {b : Bool} {item : Migration} {items : List Migration} {c c1 c' : Connection S}
      → has_version item.version (applied_versions c.ledger) ≡ true
      → IsSame c c1
      → Run exec b items c1 c'
      → Run exec b (item ∷ items) c c'
  apply :
      {b : Bool} {item : Migration} {items : List Migration} {c c1 c' : Connection S}
      → IsApplied exec item c c1
      → Run exec b items c1 c'
      → Run exec b (item ∷ items) c c'

pub IsSame-refl : {S : Type 0} (c : Connection S) → IsSame c c
IsSame-refl c = record { schema = refl; versions = refl }

pub IsSame-trans : {S : Type 0} (c c1 c2 : Connection S) → IsSame c c1 → IsSame c1 c2 → IsSame c c2
IsSame-trans c c1 c2 p q = record {
  schema = q.schema ∙ p.schema;
  versions = q.versions ∙ p.versions;
}

module _ {S : Type 0} (exec : String → S → Result S) where
  pub IsApplied-before :
      (item : Migration) (c c1 c' : Connection S)
      → IsSame c c1
      → IsApplied exec item c1 c'
      → IsApplied exec item c c'
  IsApplied-before item c c1 c' same new = record {
    fresh = ap (has_version item.version) (sym same.versions) ∙ new.fresh;
    schema = ap (exec item.up) (sym same.schema) ∙ new.schema;
    versions = new.versions ∙ ap (λ l. item.version ∷ l) same.versions;
  }

  -- What happens before and after a run, and changes nothing, belongs to it.
  pub Run-before :
      {b : Bool} {items : List Migration} {c c1 c' : Connection S}
      → IsSame c c1
      → Run exec b items c1 c'
      → Run exec b items c c'
  Run-before same (done q) = done (IsSame-trans _ _ _ same q)
  Run-before same (stopped q) = stopped (IsSame-trans _ _ _ same q)
  Run-before same (skip known q rest) =
      skip (ap (has_version _) (sym same.versions) ∙ known) (IsSame-trans _ _ _ same q) rest
  Run-before same (apply {item = item} new rest) =
      apply {item = item} (IsApplied-before item _ _ _ same new) rest

  pub Run-later :
      {b : Bool} {items : List Migration} {c c1 c' : Connection S}
      → Run exec b items c c1
      → IsSame c1 c'
      → Run exec b items c c'
  Run-later (done q) same = done (IsSame-trans _ _ _ q same)
  Run-later (stopped q) same = stopped (IsSame-trans _ _ _ q same)
  Run-later (skip known q rest) same = skip known q (Run-later rest same)
  Run-later (apply new rest) same = apply new (Run-later rest same)
