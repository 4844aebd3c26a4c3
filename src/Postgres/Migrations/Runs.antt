-- ===== src/Postgres/Migrations/Runs.antt =====
-- What runs of `MigrateUp` do: whole migrations, each once.
use test.Common.{
  ℕ, suc, ◌≡◌, refl, ap, ◌⊎◌, inl, inr, String, true, false, Option, none, some, List, [], ◌∷◌,
  arith, if_cases,
}
use test.Common.Int.{ℤ}
use test.Errors.{Error, Result, ok, err, is_ok}
use test.Postgres.Errors.{classify}
use test.Postgres.Migrations.{
  Migration, Connection, applied_versions, has_version, call, transact, apply_migration, after,
  apply_unapplied, apply_all, with_ledger, locked, migrate_up, record_up, unlocked, granted,
  holding_lock, with_table,
}
use test.Postgres.Migrations.Steps.{
  IsSame, IsApplied, Run, done, stopped, skip, apply, IsSame-refl, IsSame-trans, Run-before,
  Run-later,
}

module _ {S : Type 0} (exec : String → S → Result S) (fault : ℕ → Option Error) where
  -- A transaction changes nothing, or everything that it is to change.
  transact_cases :
      (begin run update commit text : String) (change : Option (List ℤ) → Option (List ℤ))
      (c : Connection S) (r : Result (Unit {0}) × Connection S)
      → transact exec fault begin run update commit text change c ≡ r
      → ((r.1.schema ≡ c.schema) × (r.1.ledger ≡ c.ledger) × ((e : Error) × (r.0 ≡ err e)))
        ⊎ ((exec text c.schema ≡ ok r.1.schema) × (r.1.ledger ≡ change c.ledger) × (r.0 ≡ ok tt))
  unfolding transact call
  transact_cases begin run update commit text change c (ok _, c') p =
      inr (ground arith, ground arith, refl)
  transact_cases begin run update commit text change c (err e, c') p =
      inl (ground arith, ground arith, (e, refl))

  -- A call fails, or does what it is to do.
  call_elim {κ} :
      (P : Result (Unit {0}) × Connection S → Type κ) (operation : String)
      (body : Connection S → Result (Unit {0}) × Connection S) (c : Connection S)
      → P (body (record c { statements = suc c.statements }))
      → ((e : Error) → P (err (classify operation e), record c { statements = suc c.statements }))
      → P (call exec fault operation body c)
  unfolding call
  call_elim P operation body c p q = outcome (fault c.statements)
    where
      outcome :
          (o : Option Error)
          → P (elim o [
            | some e ↦ (err (classify operation e), record c { statements = suc c.statements })
            | none ↦ body (record c { statements = suc c.statements })
          ])
      outcome none = p
      outcome (some e) = q e

  -- What one turn of the loop may have done.
  abbrev Outcome : Migration → Connection S → Result (Unit {0}) × Connection S → Type 0
  Outcome item c (err e, c') = IsSame c c'
  Outcome item c (ok _, c') =
      ((has_version item.version (applied_versions c.ledger) ≡ true) × IsSame c c')
      ⊎ IsApplied exec item c c'

  apply_migration-Outcome :
      (operation : ℤ → String) (item : Migration) (c : Connection S)
      (r : Result (Unit {0}) × Connection S)
      → has_version item.version (applied_versions c.ledger) ≡ false
      → apply_migration exec fault operation item c ≡ r
      → Outcome item c r
  unfolding apply_migration
  apply_migration-Outcome operation item c (err e, c') fresh p =
      elim (transact_cases _ _ _ _ _ (record_up item.version) c (err e, c') p) [
        | inl (schema, ledger, failed) ↦ record {
          schema = schema;
          versions = ap applied_versions ledger;
        }
        | inr (run, ledger, fine) ↦ absurd (cc)
      ]
  apply_migration-Outcome operation item c (ok _, c') fresh p =
      elim (transact_cases _ _ _ _ _ (record_up item.version) c (ok tt, c') p) [
        | inl (schema, ledger, (e, failed)) ↦ absurd (cc)
        | inr (run, ledger, fine) ↦
            inr (record { fresh = fresh; schema = run; versions = ap applied_versions ledger })
      ]

  apply_unapplied-Outcome :
      (operation : ℤ → String) (item : Migration) (c : Connection S)
      → Outcome item c (apply_unapplied exec fault operation item c)
  unfolding apply_unapplied
  apply_unapplied-Outcome operation item c =
      if_cases (Outcome item c) (has_version item.version (applied_versions c.ledger)) _ _
        (λ known. inl (known, IsSame-refl c))
        (λ fresh.
          apply_migration-Outcome operation item c (apply_migration exec fault operation item c)
            fresh refl)

  -- The count of statements does not matter.
  sent-Outcome :
      (item : Migration) (c : Connection S) (n : ℕ) (r : Result (Unit {0}) × Connection S)
      → Outcome item (record c { statements = n }) r
      → Outcome item c r
  sent-Outcome item c n (err e, c') h = record { schema = h.schema; versions = h.versions }
  sent-Outcome item c n (ok _, c') (inl (known, h)) =
      inl (known, record { schema = h.schema; versions = h.versions })
  sent-Outcome item c n (ok _, c') (inr h) =
      inr (record { fresh = h.fresh; schema = h.schema; versions = h.versions })

  turn-Outcome :
      (operation : ℤ → String) (item : Migration) (c : Connection S)
      → Outcome item c
          (call exec fault "read migration ledger" (apply_unapplied exec fault operation item) c)
  turn-Outcome operation item c =
      call_elim (Outcome item c) "read migration ledger" (apply_unapplied exec fault operation item)
        c
        (sent-Outcome item c (suc c.statements) _
          (apply_unapplied-Outcome operation item (record c { statements = suc c.statements })))
        (λ e. record { schema = refl; versions = refl })

  after-Run :
      (operation : ℤ → String) (item : Migration) (items : List Migration) (c : Connection S)
      (r : Result (Unit {0}) × Connection S)
      → Outcome item c r
      → ((c1 : Connection S)
          → Run exec
              (is_ok (apply_all exec fault operation items c1).0)
              items
              c1
              (apply_all exec fault operation items c1).1)
      → Run exec
          (is_ok (after (apply_all exec fault operation items) r).0)
          (item ∷ items)
          c
          (after (apply_all exec fault operation items) r).1
  unfolding after
  after-Run operation item items c (err e, c') h rest = stopped h
  after-Run operation item items c (ok _, c') (inl (known, same)) rest = skip known same (rest c')
  after-Run operation item items c (ok _, c') (inr new) rest = apply new (rest c')

  apply_all-Run :
      (operation : ℤ → String) (items : List Migration) (c : Connection S)
      → Run exec
          (is_ok (apply_all exec fault operation items c).0)
          items
          c
          (apply_all exec fault operation items c).1
  unfolding apply_all
  apply_all-Run operation [] c = done (IsSame-refl c)
  apply_all-Run operation (item ∷ items) c =
      after-Run operation item items c _ (turn-Outcome operation item c)
        (apply_all-Run operation items)

  -- The run, or that nothing happens to an empty list.
  abbrev Done : List Migration → Connection S → Result (Unit {0}) × Connection S → Type 0
  Done items c r = Run exec (is_ok r.0) items c r.1 ⊎ ((items ≡ []) × IsSame c r.1)

  failed-Done :
      (items : List Migration) (c c' : Connection S) (e : Error)
      → IsSame c c'
      → Done items c (err e, c')
  failed-Done [] c c' e same = inr (refl, same)
  failed-Done (item ∷ items) c c' e same = inl (stopped same)

  Done-before :
      (items : List Migration) (c c1 : Connection S) (r : Result (Unit {0}) × Connection S)
      → IsSame c c1
      → Done items c1 r
      → Done items c r
  Done-before items c c1 r same (inl run) = inl (Run-before exec same run)
  Done-before items c c1 r same (inr (empty, kept)) = inr (empty, IsSame-trans c c1 r.1 same kept)

  Done-later :
      (items : List Migration) (c c' : Connection S) (r : Result (Unit {0}) × Connection S)
      → Done items c r
      → IsSame r.1 c'
      → Done items c (r.0, c')
  Done-later items c c' r (inl run) same = inl (Run-later exec run same)
  Done-later items c c' r (inr (empty, kept)) same = inr (empty, IsSame-trans c r.1 c' kept same)

  after-Done :
      (rest : Connection S → Result (Unit {0}) × Connection S) (items : List Migration)
      (c : Connection S) (r : Result (Unit {0}) × Connection S)
      → IsSame c r.1
      → ((c1 : Connection S) → Done items c1 (rest c1))
      → Done items c (after rest r)
  unfolding after
  after-Done rest items c (err e, c') same next = failed-Done items c c' e same
  after-Done rest items c (ok _, c') same next = Done-before items c c' (rest c') same (next c')

  call-IsSame :
      (operation : String) (body : Connection S → Result (Unit {0}) × Connection S)
      (c : Connection S)
      → ((c1 : Connection S) → IsSame c1 (body c1).1)
      → IsSame c (call exec fault operation body c).1
  call-IsSame operation body c same =
      call_elim (λ r. IsSame c r.1) operation body c
        (record {
          schema = (same (record c { statements = suc c.statements })).schema;
          versions = (same (record c { statements = suc c.statements })).versions;
        })
        (λ e. record { schema = refl; versions = refl })

  locked-Done :
      (body : Connection S → Result (Unit {0}) × Connection S) (items : List Migration)
      (c : Connection S)
      → ((c1 : Connection S) → Done items c1 (body c1))
      → Done items c (locked exec fault body c)
  unfolding locked
  locked-Done body items c run =
      after-Done (holding_lock exec fault body) items c
        (call exec fault "acquire migration connection" (granted exec fault) c)
        (call-IsSame "acquire migration connection" (granted exec fault) c IsSame-refl)
        (λ c1.
          after-Done (unlocked exec fault body) items c1
            (call exec fault "lock migrations" (granted exec fault) c1)
            (call-IsSame "lock migrations" (granted exec fault) c1 IsSame-refl)
            (λ c2.
              Done-later items c2 (unlocked exec fault body c2).1 (body c2) (run c2)
                (record { schema = refl; versions = refl })))

  pub migrate_up-Done :
      (operation : ℤ → String) (items : List Migration) (c : Connection S)
      → Done items c (migrate_up exec fault operation (ok items) c)
  unfolding migrate_up
  migrate_up-Done operation items c =
      locked-Done (with_table exec fault operation items) items c (λ c1.
        after-Done (apply_all exec fault operation items) items c1
          (call exec fault "create migration ledger" (λ c2. (ok tt, with_ledger exec fault c2)) c1)
          (call-IsSame "create migration ledger" (λ c2. (ok tt, with_ledger exec fault c2)) c1
            (λ c2. record { schema = refl; versions = refl }))
          (λ c2. inl (apply_all-Run operation items c2)))

  -- Whatever fails, `MigrateUp` with some migrations applies whole ones, each one that is not
  -- recorded once and in order, and records each. Where it succeeds it has gone through all of
  -- them, and where it fails it has stopped before one that is left.
  pub migrate_up-Run :
      (operation : ℤ → String) (item : Migration) (items : List Migration) (c : Connection S)
      → Run exec
          (is_ok (migrate_up exec fault operation (ok (item ∷ items)) c).0)
          (item ∷ items)
          c
          (migrate_up exec fault operation (ok (item ∷ items)) c).1
  migrate_up-Run operation item items c = elim (migrate_up-Done operation (item ∷ items) c) [
    | inl run ↦ run
    | inr (empty, _) ↦ absurd (cc)
  ]
