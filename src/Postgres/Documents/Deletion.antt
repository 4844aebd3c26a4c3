-- ===== src/Postgres/Documents/Deletion.antt =====
-- `Delete` of documents.go: only the owner's call deletes, and a file leaves a task in the queue.
use test.Common.{
  ◌≡◌, ◌≢◌, refl, subst, String, true, false, not, none, some, List, [], ◌∷◌, ◌==◌, arith, eq_iff,
  eq_refl, inl, inr, if◌then◌else◌, any, select, first, Bool-cases, Option-cases,
}
use test.Domain.{Document}
use test.Errors.{Error, Result, ok, err}
use test.Postgres.{Store, Database}
use test.Postgres.Sessions.{statement}
use test.Postgres.Tasks.{has_key}
use test.Postgres.Documents.{delete, delete_in_transaction, delete_row, enqueue, scanned, has_id}

first-select :
    (key j : String) (rows : List Document)
    → first (has_id j) (select (λ row. not (has_id key row)) rows)
      ≡ (if key == j then none else first (has_id j) rows)
unfolding first
first-select key j [] = ground arith
first-select key j (row ∷ rows) =
    ground (arith, first-select key j rows, eq_iff row.id key, eq_iff row.id j, eq_iff key j)

-- What a deletion by the owner did to the tables; `id` is the canonical identifier.
pub record IsDeleted (id owner : String) (document : Document) (s s' : Store) : Type 0 where
  pub owned : document.owner_id ≡ owner
  pub there :
      (row : Document) × (first (has_id id) s.documents ≡ some row)
      × (document.is_file ≡ row.is_file)
      × (document.storage_key ≡ row.storage_key)
  pub rows :
      (j : String)
      → first (has_id j) s'.documents ≡ (if id == j then none else first (has_id j) s.documents)
  pub grants : any (λ g. g.0 == id) s'.document_grants ≡ false
  pub queued :
      document.is_file ≡ true → any (has_key document.storage_key) s'.blob_cleanup_tasks ≡ true

any-select :
    (id : String) (l : List (String × String))
    → any (λ g. g.0 == id) (select (λ g. not (g.0 == id)) l) ≡ false
any-select id [] = refl
any-select id (g ∷ l) = ground (arith, any-select id l)

any-enqueue :
    (key : String) (s : Store) → any (has_key key) (enqueue key s).blob_cleanup_tasks ≡ true
unfolding enqueue
any-enqueue key s = ground (arith, eq_refl key)

enqueue_frame :
    (key : String) (s : Store)
    → ((enqueue key s).documents ≡ s.documents)
      × ((enqueue key s).document_grants ≡ s.document_grants)
unfolding enqueue
enqueue_frame key s = ground arith

queue_keeps :
    (row : Document) (s : Store)
    → (if row.is_file then enqueue row.storage_key s else s).documents ≡ s.documents
queue_keeps row s = ground (arith, enqueue_frame row.storage_key s)

abbrev Deleted : String → String → Store → Result Document × Store → Type 0
Deleted id owner s (ok document, s') = IsDeleted id owner document s s'
Deleted id owner s (err e, s') = Unit

module _ (d : Database) where
  -- The row of the owner is deleted from the tables, and the file enqueued before.
  delete_owned :
      (id owner : String) (row : Document) (s : Store)
      → first (has_id id) s.documents ≡ some row
      → (row.owner_id == owner) ≡ true
      → IsDeleted id owner
          (scanned d s row)
          s
          (delete_row id (if row.is_file then enqueue row.storage_key s else s))
  unfolding delete_row scanned
  delete_owned id owner row s found mine = record {
    owned = (eq_iff row.owner_id owner).0 mine;
    there = (row, found, refl, refl);
    rows = λ j. rw (queue_keeps row s) (first-select id j s.documents);
    grants = any-select id _;
    queued = λ file. rw file (any-enqueue row.storage_key s);
  }

  delete_in_transaction-IsDeleted :
      (id owner : String) (document : Document) (s s' : Store)
      → delete_in_transaction d id owner s ≡ (ok document, s')
      → IsDeleted id owner document s s'
  unfolding delete_in_transaction
  delete_in_transaction-IsDeleted id owner document s s' p =
      elim (Option-cases (first (has_id id) s.documents)) [
        | inl missing ↦ absurd (ground (arith, missing))
        | inr (row, found) ↦ elim (Bool-cases (row.owner_id == owner)) [
          | inl mine ↦
              let out : (
                ok (scanned d s row),
                delete_row id (if row.is_file then enqueue row.storage_key s else s),
              )
                  ≡ (ok document, s') =
                ground (arith, found, mine, p) in
              subst (Deleted id owner s) out (delete_owned id owner row s found mine)
          | inr other ↦ absurd (ground (arith, found, other))
        ]
      ]

  -- A deletion that succeeds was the owner's: the row and its grants are gone, every other row
  -- stays, and the object of a file is in the queue of objects to delete.
  pub delete-IsDeleted :
      (id owner : String) (document : Document) (s s' : Store)
      → delete d id owner s ≡ (ok document, s')
      → (key : String) × (d.parse_uuid id ≡ some key) × IsDeleted key owner document s s'
  unfolding delete statement
  delete-IsDeleted id owner document s s' p = elim (Option-cases (d.parse_uuid id)) [
    | inl bad ↦ absurd (ground (arith, bad))
    | inr (key, good) ↦ elim (Option-cases (d.parse_uuid owner)) [
      | inl bad ↦ absurd (ground (arith, good, bad))
      | inr (user, known) ↦ (
        key,
        good,
        delete_in_transaction-IsDeleted key owner document s s' (ground (arith, good, known)),
      )
    ]
  ]

  -- A deletion of another user's document fails and changes nothing.
  pub delete_failed :
      (id owner key : String) (row : Document) (s s' : Store) (r : Result Document)
      → d.parse_uuid id ≡ some key
      → first (has_id key) s.documents ≡ some row
      → row.owner_id ≢ owner
      → delete d id owner s ≡ (r, s')
      → (s' ≡ s) × ((e : Error) × (r ≡ err e))
  unfolding delete statement delete_in_transaction
  delete_failed id owner key row s s' (ok document) good found other p =
      absurd (ground (arith, good, found, eq_iff row.owner_id owner))
  delete_failed id owner key row s s' (err e) good found other p =
      (ground (arith, good, found, eq_iff row.owner_id owner), (e, refl))

  pub delete_unchanged :
      (id owner : String) (s s' : Store) (e : Error) → delete d id owner s ≡ (err e, s') → s' ≡ s
  unfolding delete statement delete_in_transaction
  delete_unchanged id owner s s' e p = ground arith
