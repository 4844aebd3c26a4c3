-- ===== src/Postgres/Documents/Listing.antt =====
-- `List` of documents.go: what is listed may be seen by the requester, and no more than the limit.
use test.Common.{
  ℕ, zero, suc, ◌≡◌, refl, ap, ◌∙◌, String, Bool, true, ◌&&◌, Option, some, List, [], ◌∷◌, arith,
  eq_iff, inl, inr, all, select, map, take, Bool-cases,
}
use test.Common.Int.{ℤ, pos, negsuc}
use test.Domain.{Document, DocumentFilter}
use test.Errors.{Result, ok, err, Result-cases}
use test.Postgres.{Store, Database}
use test.Postgres.Sessions.{statement}
use test.Postgres.Documents.{
  list, owner_found, list_rows, list_owner, limited, sort_documents, insert_document, is_listed,
  is_accessible, scanned, build_document_filter,
}

module _ (p : Document → Bool) where
  all-take : (n : ℕ) (rows : List Document) → all p rows ≡ true → all p (take n rows) ≡ true
  unfolding take
  all-take zero rows h = refl
  all-take (suc n) [] h = refl
  all-take (suc n) (row ∷ rows) h = ground (arith, h, all-take n rows)

  all-select :
      (q : Document → Bool) (rows : List Document)
      → ((row : Document) → q row ≡ true → p row ≡ true)
      → all p (select q rows) ≡ true
  all-select q [] h = refl
  all-select q (row ∷ rows) h = elim (Bool-cases (q row)) [
    | inl passes ↦ ground (arith, passes, h row passes, all-select q rows h)
    | inr fails ↦ ground (arith, fails, all-select q rows h)
  ]

  module _ (d : Database) where
    all-insert_document :
        (row : Document) (rows : List Document)
        → all p (insert_document d row rows) ≡ (p row && all p rows)
    unfolding insert_document
    all-insert_document row [] = refl
    all-insert_document row (b ∷ rows) = ground (arith, all-insert_document row rows)

    all-sort_documents : (rows : List Document) → all p (sort_documents d rows) ≡ all p rows
    unfolding sort_documents
    all-sort_documents [] = refl
    all-sort_documents (row ∷ rows) =
        all-insert_document row (sort_documents d rows)
        ∙ ap (λ b. p row && b) (all-sort_documents rows)

    all-limited :
        (limit : ℤ) (rows : List Document) → all p rows ≡ true → all p (limited d limit rows) ≡ true
    unfolding limited
    all-limited (pos n) rows h = ground (arith, h, all-take n rows h)
    all-limited (negsuc n) rows h = h

    all-scanned :
        (s : Store) (rows : List Document)
        → ((row : Document) → p (scanned d s row) ≡ p row)
        → all p (map (scanned d s) rows) ≡ all p rows
    all-scanned s [] h = refl
    all-scanned s (row ∷ rows) h = rw (h row, all-scanned s rows h) refl

module _ (d : Database) where
  is_accessible-is_listed :
      (owner requester : String) (filter : Option (Document → Bool)) (s : Store) (row : Document)
      → is_listed d owner requester filter s row ≡ true
      → is_accessible requester s row ≡ true
  unfolding is_listed is_accessible
  is_accessible-is_listed owner requester filter s row h =
      ground
        (arith, eq_iff row.owner_id owner, eq_iff owner requester, eq_iff row.owner_id requester)

  all-list_rows :
      (owner requester : String) (filter : Option (Document → Bool)) (limit : ℤ) (s : Store)
      → all (is_accessible requester s) (list_rows d owner requester filter limit s) ≡ true
  unfolding list_rows
  all-list_rows owner requester filter limit s =
      let chosen = select (is_listed d owner requester filter s) s.documents in
      all-scanned (is_accessible requester s) d s (limited d limit (sort_documents d chosen))
        (λ row. unfold is_accessible scanned in refl)
      ∙ all-limited (is_accessible requester s) d limit (sort_documents d chosen) (
          all-sort_documents (is_accessible requester s) d chosen
          ∙ all-select (is_accessible requester s) (is_listed d owner requester filter s)
              s.documents (is_accessible-is_listed owner requester filter s))

  list_owner_frame : (login requester : String) (s : Store) → (list_owner d login requester s).1 ≡ s
  unfolding list_owner statement
  list_owner_frame login requester s = ground arith

  owner_found_rows :
      (requester : String) (filter : DocumentFilter) (r : Result String × Store) (s' : Store)
      (documents : List Document)
      → owner_found d requester filter r ≡ (ok documents, s')
      → (owner : String) × (test : Option (Document → Bool)) × (s' ≡ r.1)
        × (documents ≡ list_rows d owner requester test filter.limit r.1)
  unfolding owner_found statement
  owner_found_rows requester filter (err e, s) s' documents p = absurd (ground arith)
  owner_found_rows requester filter (ok owner, s) s' documents p =
      elim (Result-cases (build_document_filter d filter.key filter.value)) [
        | inr (e, bad) ↦ absurd (ground (arith, bad))
        | inl (test, good) ↦ (owner, test, ground (arith, good), ground (arith, good))
      ]

  -- Every document that is listed may be read by the requester, whose identifier parses: it is
  -- their own, public, or granted to them; and listing changes nothing.
  pub all-list :
      (requester_id requester : String) (filter : DocumentFilter) (s s' : Store)
      (documents : List Document)
      → d.parse_uuid requester_id ≡ some requester
      → list d requester_id filter s ≡ (ok documents, s')
      → (all (is_accessible requester s) documents ≡ true) × (s' ≡ s)
  unfolding list statement
  all-list requester_id requester filter s s' documents known p =
      let asked = list_owner d filter.owner_login requester s in
      let frame = list_owner_frame filter.owner_login requester s in
      let run : owner_found d requester filter asked ≡ (ok documents, s') = ground (arith, known) in
      let (owner, test, same, rows) = owner_found_rows requester filter asked s' documents run in
      (
        ap (all (is_accessible requester s))
              (rows ∙ ap (list_rows d owner requester test filter.limit) frame)
            ∙ all-list_rows owner requester test filter.limit s,
        same ∙ frame,
      )
