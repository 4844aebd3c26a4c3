-- ===== src/Postgres/Documents/Creation.antt =====
-- `CreateDocument`: what a created document is, and that a failure creates nothing.
use test.Common.{
  ℕ, suc, ◌≡◌, refl, ap, ◌∙◌, String, true, false, Option, none, some, ◌∷◌, ◌==◌, arith, eq_refl,
  inl, inr, first, any, Bool-cases, Option-cases,
}
use test.Domain.{Document}
use test.Errors.{Error, ok, err}
use test.Postgres.{Store, Database}
use test.Postgres.Sessions.{statement}
use test.Postgres.Documents.{
  create_document, create_with_ids, create_in_transaction, is_valid_input, new_row, by_id, scanned,
  has_id,
}

module _ (d : Database) where
  -- What a successful transaction did: the row is the first of the table.
  pub record IsCreated (id owner : String) (input document : Document) (s s' : Store) : Type 0 where
    pub fresh : any (has_id id) s.documents ≡ false
    pub document_row : document ≡ record (new_row d s id owner input) { grants = document.grants }
    pub rows : s'.documents ≡ new_row d s id owner input ∷ s.documents

  create_in_transaction-IsCreated :
      (id owner : String) (input document : Document) (s s' : Store)
      → create_in_transaction d id owner input s ≡ (ok document, s')
      → IsCreated id owner input document s s'
  unfolding create_in_transaction
  create_in_transaction-IsCreated id owner input document s s' p = record {
    fresh = ground arith;
    document_row = ground arith;
    rows = ground arith;
  }

  create_with_ids-IsCreated :
      (id : Option String) (owner : String) (input document : Document) (s s' : Store)
      → create_with_ids d id owner input s ≡ (ok document, s')
      → (key : String) × (id ≡ some key)
        × (is_valid_input d input ≡ true)
        × IsCreated key owner input document s s'
  unfolding create_with_ids statement
  create_with_ids-IsCreated none owner input document s s' p = absurd (ground arith)
  create_with_ids-IsCreated (some id) owner input document s s' p =
      let valid : is_valid_input d input ≡ true = ground arith in
      let run : create_in_transaction d id owner input s ≡ (ok document, s') =
        ground (arith, valid) in
      (id, refl, valid, create_in_transaction-IsCreated id owner input document s s' run)

  -- The document that is returned is found again by its identifier, with the grants that the
  -- tables of users and grants hold by then, while its row stands and the server answers, if
  -- parsing leaves canonical and drawn identifiers as they are.
  pub by_id-create_document :
      (input document : Document) (s s' t : Store)
      → ((x key : String) → d.parse_uuid x ≡ some key → d.parse_uuid key ≡ some key)
      → ((n : ℕ) → d.parse_uuid (d.new_uuid n) ≡ some (d.new_uuid n))
      → create_document d input s ≡ (ok document, s')
      → t.documents ≡ s'.documents
      → t.failure ≡ none
      → by_id d document.id t ≡ (ok (scanned d t document), t)
  unfolding create_document
  by_id-create_document input document s s' t canonical drawn p rows up =
      elim (Option-cases (d.parse_uuid input.owner_id)) [
        | inl bad ↦ absurd (ground (arith, bad))
        | inr (owner, good) ↦ elim (Bool-cases (input.id == "")) [
          | inl unnamed ↦
              found_again (some (d.new_uuid s.drawn)) owner input document
                (record s { drawn = suc s.drawn }) s' t (λ key q. ground (arith, q, drawn s.drawn))
                (ground (arith, good, unnamed)) rows up
          | inr named ↦
              found_again (d.parse_uuid input.id) owner input document s s' t
                (λ key q. canonical input.id key q) (ground (arith, good, named)) rows up
        ]
      ]
    where
      found_again :
          (id : Option String) (owner : String) (input document : Document) (s s' t : Store)
          → ((key : String) → id ≡ some key → d.parse_uuid key ≡ some key)
          → create_with_ids d id owner input s ≡ (ok document, s')
          → t.documents ≡ s'.documents
          → t.failure ≡ none
          → by_id d document.id t ≡ (ok (scanned d t document), t)
      found_again id owner input document s s' t known p rows up =
          let (key, same, valid, c) = create_with_ids-IsCreated id owner input document s s' p in
          let at : document.id ≡ key = ap (λ (x : Document). x.id) c.document_row in
          let held : first (has_id key) t.documents ≡ some (new_row d s key owner input) =
            ap (first (has_id key)) (rows ∙ c.rows)
            ∙ unfold first new_row in rw (eq_refl key) refl in
          let read : scanned d t document ≡ scanned d t (new_row d s key owner input) =
            ap (scanned d t) c.document_row ∙ unfold scanned in refl in
          unfold by_id statement in ground (arith, at, known key same, up, held, read)

  -- A failure leaves all tables as they were.
  pub create_failed :
      (input : Document) (s s' : Store) (e : Error)
      → create_document d input s ≡ (err e, s')
      → (s'.documents ≡ s.documents) × (s'.document_grants ≡ s.document_grants)
  unfolding create_document create_with_ids create_in_transaction statement
  create_failed input s s' e p = ground arith

  pub create_document_fields :
      (input document : Document) (s s' : Store)
      → input.is_file ≡ true
      → create_document d input s ≡ (ok document, s')
      → (document.storage_key ≡ input.storage_key) × (document.size_bytes ≡ input.size_bytes)
  unfolding create_document create_with_ids create_in_transaction statement new_row
  create_document_fields input document s s' file p = ground (arith, file)
