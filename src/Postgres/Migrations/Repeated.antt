-- ===== src/Postgres/Migrations/Repeated.antt =====
-- A second run of `MigrateUp`.
use test.Common.{
  ℕ, ◌≡◌, refl, ap, subst, ◌∙◌, String, Bool, true, Option, List, [], arith, all, ◌⊎◌, inl, inr,
}
use test.Common.Int.{ℤ}
use test.Errors.{Error, Result, ok, is_ok}
use test.Postgres.Migrations.{Migration, Connection, applied_versions, has_version, migrate_up}
use test.Postgres.Migrations.Steps.{
  IsSame, Run, done, stopped, skip, apply, eqb_ℤ_refl, IsSame-trans,
}
use test.Postgres.Migrations.Runs.{migrate_up-Done}

module _ {S : Type 0} (exec : String → S → Result S) where
  -- A version that is recorded stays recorded.
  Run-recorded :
      (version : ℤ) {b : Bool} {items : List Migration} {c c' : Connection S}
      → Run exec b items c c'
      → has_version version (applied_versions c.ledger) ≡ true
      → has_version version (applied_versions c'.ledger) ≡ true
  Run-recorded version (done same) h = ap (has_version version) same.versions ∙ h
  Run-recorded version (stopped same) h = ap (has_version version) same.versions ∙ h
  Run-recorded version (skip known same rest) h =
      Run-recorded version rest (ap (has_version version) same.versions ∙ h)
  Run-recorded version (apply {item = item} new rest) h =
      Run-recorded version rest (ap (has_version version) new.versions ∙ ground (arith, h))

  abbrev is_recorded : Connection S → Migration → Bool
  is_recorded c item = has_version item.version (applied_versions c.ledger)

  -- After a complete run all migrations are recorded.
  Run-all :
      {b : Bool} {items : List Migration} {c c' : Connection S}
      → b ≡ true
      → Run exec b items c c'
      → all (is_recorded c') items ≡ true
  Run-all complete (done same) = refl
  Run-all complete (stopped same) = absurd (cc)
  Run-all complete (skip {item = item} known same rest) = ground (
    arith,
    Run-recorded item.version rest (ap (has_version item.version) same.versions ∙ known),
    Run-all complete rest,
  )
  Run-all complete (apply {item = item} new rest) = ground (
    arith,
    Run-recorded item.version rest
        (ap (has_version item.version) new.versions ∙ ground (arith, eqb_ℤ_refl item.version)),
    Run-all complete rest,
  )

  -- Where all migrations are recorded a run changes nothing.
  Run-IsSame :
      {b : Bool} {items : List Migration} {c c' : Connection S}
      → all (is_recorded c) items ≡ true
      → Run exec b items c c'
      → IsSame c c'
  Run-IsSame h (done same) = same
  Run-IsSame h (stopped same) = same
  Run-IsSame h (skip {item = item} {items = items} {c = c} {c1 = c1} known same rest) =
      IsSame-trans _ _ _ same (
        Run-IsSame
          (ap (λ l. all (λ (i : Migration). has_version i.version l) items) same.versions
            ∙ ground (arith, h))
          rest)
  Run-IsSame h (apply new rest) = absurd (ground (arith, h, new.fresh))

all_recorded :
    {S : Type 0} (exec : String → S → Result S) (items : List Migration) (c c' : Connection S)
    → Run exec true items c c' ⊎ ((items ≡ []) × IsSame c c')
    → all (λ item. has_version item.version (applied_versions c'.ledger)) items ≡ true
all_recorded exec items c c' (inl run) = Run-all exec refl run
all_recorded exec items c c' (inr (empty, same)) = rw (empty) refl

-- After a `MigrateUp` that succeeded a further one leaves the schema and the ledger as they are,
-- whatever statements of either run fail.
pub migrate_up_again :
    {S : Type 0} (exec : String → S → Result S) (fault fault' : ℕ → Option Error)
    (operation : ℤ → String) (items : List Migration) (c c' : Connection S)
    → migrate_up exec fault operation (ok items) c ≡ (ok tt, c')
    → (all (λ item. has_version item.version (applied_versions c'.ledger)) items ≡ true)
      × IsSame c' (migrate_up exec fault' operation (ok items) c').1
migrate_up_again {S = S} exec fault fault' operation items c c' p =
    let recorded = all_recorded exec items c c' (
      subst
        (λ (r : Result (Unit {0}) × Connection S).
          Run exec (is_ok r.0) items c r.1 ⊎ ((items ≡ []) × IsSame c r.1))
        p (migrate_up-Done exec fault operation items c)) in
    (
      recorded,
      elim (migrate_up-Done exec fault' operation items c') [
        | inl run ↦ Run-IsSame exec recorded run
        | inr (empty, same) ↦ same
      ],
    )
