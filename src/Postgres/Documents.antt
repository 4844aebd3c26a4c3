-- ===== src/Postgres/Documents.antt =====
-- documents.go of internal/repository/postgres.
pub mod Creation
pub mod Deletion
pub mod Listing
use test.Common.{
  suc, String, Bool, true, false, not, ◌&&◌, ◌||◌, Option, none, some, List, [], ◌∷◌, ◌==◌, ltb,
  eqb, if◌then◌else◌, any, select, map, take, first, length, ◌++◌,
}
use test.Common.Int.{ℤ, pos, negsuc, is_negative}
use test.Common.Text.{codes, is_blank}
use test.Domain.{Document, DocumentFilter}
use test.Errors.{
  Error, Result, ok, err, Action, wrap, sentinel, repository, RepositoryError, no_rows, pg_error,
}
use test.Postgres.{Store, Database, UserRow}
use test.Postgres.Errors.{classify}
use test.Postgres.Sessions.{statement, invalid}
use test.Postgres.Tasks.{has_key}
use test.Repository.{DocumentRepository, BlobCleanupTask}

-- The loop of `uniqueNonOwnerLogins`, with the logins seen so far.
unfoldable pub unique_from : List String → String → List String → List String
unique_from seen owner [] = []
unique_from seen owner (login ∷ logins) =
    let skip = unique_from seen owner logins in
    let keep = unique_from (login ∷ seen) owner logins in
    if login == "" || login == owner
    then skip
    else if any (λ l. l == login) seen
    then skip
    else login ∷ keep

unfoldable pub unique_non_owner_logins : List String → String → List String
unfolding unique_from
unique_non_owner_logins logins owner = unique_from [] owner logins

abbrev pub forbidden_error : String → Error
forbidden_error operation = wrap operation (sentinel (repository RepositoryError.forbidden))

abbrev not_found_error : String → Error
not_found_error operation = wrap operation (sentinel (repository RepositoryError.not_found))

abbrev pub has_id : String → Document → Bool
has_id id row = row.id == id

-- `EXISTS (SELECT 1 FROM document_grants …)`
unfoldable pub is_granted : String → String → Store → Bool
is_granted document_id user_id s = any (λ g. g.0 == document_id && g.1 == user_id) s.document_grants

-- The access rule of `ByIDAccessible`.
unfoldable pub is_accessible : String → Store → Document → Bool
unfolding is_granted
is_accessible user_id s row =
    row.owner_id == user_id || row.is_public || is_granted row.id user_id s

-- `INSERT INTO blob_cleanup_tasks … ON CONFLICT (storage_key) DO NOTHING`
unfoldable pub enqueue : String → Store → Store
enqueue key s =
    if any (has_key key) s.blob_cleanup_tasks
    then s
    else (let task : BlobCleanupTask = record {
      id = suc s.task_sequence;
      storage_key = key;
      attempts = pos 0;
      next_attempt_at = s.clock;
    } in
        record s {
          blob_cleanup_tasks = task ∷ s.blob_cleanup_tasks;
          task_sequence = suc s.task_sequence;
        })

-- `DELETE FROM documents`, with the grants that it cascades to.
unfoldable pub delete_row : String → Store → Store
delete_row id s = record s {
  documents = select (λ row. not (has_id id row)) s.documents;
  document_grants = select (λ g. not (g.0 == id)) s.document_grants;
}

module _ (d : Database) where
  -- The logins of the left joins, in the order of `array_agg`.
  grant_logins : String → Store → List String
  unfolding is_granted
  grant_logins document_id s =
      d.sort_texts
        (map (λ (u : UserRow). u.login) (select (λ u. is_granted document_id u.id s) s.users))

  -- The row with its grants, as the scan fills it.
  unfoldable pub scanned : Store → Document → Document
  unfolding grant_logins
  scanned s row = record row { grants = grant_logins row.id s }

  unfoldable pub by_id : String → Action Store Document
  unfolding statement scanned first
  by_id id s = elim (d.parse_uuid id) [
    | none ↦ (invalid "find document", s)
    | some key ↦
        statement "find document"
          (λ s. elim (first (has_id key) s.documents) [
            | none ↦ (err (classify "find document" (sentinel no_rows)), s)
            | some row ↦ (ok (scanned s row), s)
          ])
          s
  ]

  -- The row that was read, if the requester may see it.
  unfoldable pub read_accessible : String → String → Action Store Document
  unfolding scanned first is_accessible
  read_accessible key user s = elim (first (has_id key) s.documents) [
    | none ↦ (err (classify "find accessible document" (sentinel no_rows)), s)
    | some row ↦
        if is_accessible user s row
        then (ok (scanned s row), s)
        else (err (forbidden_error "find accessible document"), s)
  ]

  unfoldable pub by_id_accessible : String → String → Action Store Document
  unfolding statement read_accessible
  by_id_accessible id requester_id s = elim (d.parse_uuid id) [
    | none ↦ (invalid "find accessible document", s)
    | some key ↦ elim (d.parse_uuid requester_id) [
      | none ↦ (invalid "find accessible document", s)
      | some user ↦ statement "find accessible document" (read_accessible key user) s
    ]
  ]

  -- The checks of `CreateDocument`, the identifier apart.
  unfoldable pub is_valid_input : Document → Bool
  unfolding is_blank
  is_valid_input input =
      not (is_blank (codes input.name))
      && not (
          input.is_file
          && (input.mime == "" || input.storage_key == "" || is_negative input.size_bytes))
      && not (not input.is_file && not (input.storage_key == ""))
      && elim input.json [ none ↦ true | some text ↦ d.valid_json text ]

  -- `INSERT INTO documents … RETURNING`
  unfoldable pub new_row : Store → String → String → Document → Document
  new_row s id owner input = record {
    id = id;
    owner_id = owner;
    name = input.name;
    mime = input.mime;
    is_file = input.is_file;
    is_public = input.is_public;
    json = elim input.json [ none ↦ none | some text ↦ some (d.stored_json text) ];
    storage_key = if input.is_file then input.storage_key else "";
    size_bytes = if input.is_file then input.size_bytes else pos 0;
    created_at = d.round_second s.clock;
    updated_at = 0;
    version = 1;
    grants = [];
  }

  -- The transaction of `CreateDocument`: an error leaves the store as it was.
  unfoldable pub create_in_transaction : String → String → Document → Action Store Document
  unfolding first new_row unique_non_owner_logins
  create_in_transaction id owner input s = elim (first (λ (u : UserRow). u.id == owner) s.users) [
    | none ↦ (err (classify "find document owner" (sentinel no_rows)), s)
    | some user ↦
        let grants = unique_non_owner_logins input.grants user.login in
        let grantees = select (λ (u : UserRow). any (λ l. l == u.login) grants) s.users in
        let row = new_row s id owner input in
        if any (has_id id) s.documents
        then (err (classify "create document" (pg_error "23505")), s)
        else if eqb (length grantees) (length grants)
        then (
          ok (record row { grants = grants }),
          record s {
            documents = row ∷ s.documents;
            document_grants = map (λ (u : UserRow). (id, u.id)) grantees ++ s.document_grants;
          },
        )
        else (err (not_found_error "create document grants"), s)
  ]

  -- With the canonical identifiers of the document and its owner.
  create_with_ids : Option String → String → Document → Action Store Document
  unfolding statement create_in_transaction
  create_with_ids none owner input s = (invalid "create document", s)
  create_with_ids (some id) owner input s =
      if is_valid_input input
      then statement "begin transaction" (create_in_transaction id owner input) s
      else (invalid "create document", s)

  unfoldable pub create_document : Document → Action Store Document
  unfolding create_with_ids is_valid_input
  create_document input s = elim (d.parse_uuid input.owner_id) [
    | none ↦ (invalid "create document", s)
    | some owner ↦
        if input.id == ""
        then create_with_ids (some (d.new_uuid s.drawn)) owner input
            (record s { drawn = suc s.drawn })
        else create_with_ids (d.parse_uuid input.id) owner input s
  ]

  -- What `buildDocumentFilter` adds to the query: nothing, or a comparison of one column.
  unfoldable pub build_document_filter : String → String → Result (Option (Document → Bool))
  build_document_filter key raw =
      if not (key == "") && raw == ""
      then invalid "document filter"
      else if key == ""
      then (if raw == "" then ok none else invalid "document filter")
      else if key == "id"
      then elim (d.parse_uuid raw) [
        | none ↦ invalid "document filter"
        | some id ↦ ok (some (λ row. row.id == id))
      ]
      else if key == "name"
      then ok (some (λ row. row.name == raw))
      else if key == "mime"
      then ok (some (λ row. row.mime == raw && not (row.mime == "")))
      else if key == "file" || key == "public"
      then if raw == "true" || raw == "false"
        then ok (
            some (λ row.
              let column = if key == "public" then row.is_public else row.is_file in
              if raw == "true" then column else not column))
        else invalid "document filter"
      else if key == "created"
      then elim (d.parse_utc raw) [
        | some t ↦ ok (some (λ row. eqb (d.truncate_second row.created_at) (d.truncate_second t)))
        | none ↦ elim (d.parse_rfc3339 raw) [
          | some t ↦ ok (some (λ row. eqb (d.truncate_second row.created_at) (d.truncate_second t)))
          | none ↦ invalid "document filter"
        ]
      ]
      else invalid "document filter"

  -- `ORDER BY d.name ASC, d.created_at DESC, d.id ASC`
  unfoldable pub is_before : Document → Document → Bool
  is_before a b =
      if d.text_lt a.name b.name
      then true
      else if d.text_lt b.name a.name
      then false
      else if ltb b.created_at a.created_at
      then true
      else if ltb a.created_at b.created_at
      then false
      else not (d.uuid_lt b.id a.id)

  unfoldable pub insert_document : Document → List Document → List Document
  insert_document a [] = a ∷ []
  insert_document a (b ∷ l) =
      let rest = insert_document a l in if is_before a b then a ∷ b ∷ l else b ∷ rest

  unfoldable pub sort_documents : List Document → List Document
  unfolding insert_document
  sort_documents [] = []
  sort_documents (a ∷ l) = insert_document a (sort_documents l)

  -- The `WHERE` clause of `List`.
  unfoldable pub is_listed : String → String → Option (Document → Bool) → Store → Document → Bool
  unfolding is_granted
  is_listed owner requester filter s row =
      row.owner_id == owner
      && (owner == requester || row.is_public || is_granted row.id requester s)
      && elim filter [ none ↦ true | some p ↦ p row ]

  -- `LIMIT`, where the limit is positive.
  limited : ℤ → List Document → List Document
  unfolding take
  limited (pos n) rows = if eqb n 0 then rows else take n rows
  limited (negsuc _) rows = rows

  unfoldable pub list_rows : String → String → Option (Document → Bool) → ℤ → Store → List Document
  unfolding is_listed sort_documents limited scanned
  list_rows owner requester filter limit s =
      map (scanned s)
        (limited limit (sort_documents (select (is_listed owner requester filter s) s.documents)))

  -- The identifier of the user whose documents are listed.
  list_owner : String → String → Action Store String
  unfolding first statement
  list_owner login requester s =
      if login == ""
      then (ok requester, s)
      else statement "find list owner"
          (λ s. elim (first (λ (u : UserRow). u.login == login) s.users) [
            | none ↦ (err (classify "find list owner" (sentinel no_rows)), s)
            | some user ↦ (ok user.id, s)
          ])
          s

  owner_found : String → DocumentFilter → Result String × Store → Result (List Document) × Store
  unfolding build_document_filter list_rows statement
  owner_found requester filter (err e, s) = (err e, s)
  owner_found requester filter (ok owner, s) =
      elim (build_document_filter filter.key filter.value) [
        | err e ↦ (err e, s)
        | ok p ↦
            statement "list documents" (λ s. (ok (list_rows owner requester p filter.limit s), s)) s
      ]

  unfoldable pub list : String → DocumentFilter → Action Store (List Document)
  unfolding owner_found list_owner
  list requester_id filter s = elim (d.parse_uuid requester_id) [
    | none ↦ (invalid "list documents", s)
    | some requester ↦
        if is_negative filter.limit
        then (invalid "list documents", s)
        else owner_found requester filter (list_owner filter.owner_login requester s)
  ]

  unfoldable pub delete_in_transaction : String → String → Action Store Document
  unfolding first enqueue delete_row scanned
  delete_in_transaction id owner_id s = elim (first (has_id id) s.documents) [
    | none ↦ (err (classify "find document to delete" (sentinel no_rows)), s)
    | some row ↦
        if not (row.owner_id == owner_id) then (err (forbidden_error "delete document"), s) else (
          ok (scanned s row),
          delete_row id (if row.is_file then enqueue row.storage_key s else s),
        )
  ]

  -- The owner is compared as the text that was given.
  unfoldable pub delete : String → String → Action Store Document
  unfolding statement delete_in_transaction
  delete id owner_id s = elim (d.parse_uuid id) [
    | none ↦ (invalid "delete document", s)
    | some key ↦ elim (d.parse_uuid owner_id) [
      | none ↦ (invalid "delete document", s)
      | some _ ↦ statement "begin transaction" (delete_in_transaction key owner_id) s
    ]
  ]

  abbrev pub documents : DocumentRepository Store
  documents = record {
    create = create_document;
    by_id = by_id;
    by_id_accessible = by_id_accessible;
    list = list;
    delete = delete;
  }
