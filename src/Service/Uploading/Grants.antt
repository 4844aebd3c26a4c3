-- ===== src/Service/Uploading/Grants.antt =====
-- The logins that a document is shared with: `uniqueGrants` of internal/document/upload.go and
-- `uniqueNonOwnerLogins` of internal/repository/postgres/documents.go.
use test.Common.{
  ◌≡◌, refl, String, Bool, false, not, ◌&&◌, ◌||◌, List, [], ◌∷◌, ◌==◌, arith, eq_iff, eq_refl, any,
  select,
}
use test.Postgres.Documents as Tables
use test.Postgres.Documents.{unique_non_owner_logins}
use test.Service.Uploading.{unique_grants, unique_from}

-- Whether the list has the text.
abbrev pub has : String → List String → Bool
has login l = any (λ x. x == login) l

abbrev pub has_duplicate : List String → Bool
has_duplicate [] = false
has_duplicate (login ∷ l) = has login l || has_duplicate l

has-unique_from :
    (seen : List String) (owner login : String) (input : List String)
    → has login (unique_from seen owner input)
      ≡ (has login input && not (login == owner) && not (has login seen))
unfolding unique_from
has-unique_from seen owner login [] = refl
has-unique_from seen owner login (x ∷ input) = ground (
  arith,
  has-unique_from seen owner login input,
  has-unique_from (x ∷ seen) owner login input,
  eq_iff x owner,
  eq_iff login owner,
  eq_iff x login,
)

has_duplicate-unique_from :
    (seen : List String) (owner : String) (input : List String)
    → has_duplicate (unique_from seen owner input) ≡ false
unfolding unique_from
has_duplicate-unique_from seen owner [] = refl
has_duplicate-unique_from seen owner (x ∷ input) = ground (
  arith,
  has_duplicate-unique_from seen owner input,
  has_duplicate-unique_from (x ∷ seen) owner input,
  has-unique_from (x ∷ seen) owner x input,
  eq_refl x,
)

-- The grants of an upload are the logins of the request, each once, without the owner's.
pub unique_grants_lem :
    (input : List String) (owner login : String)
    → (has login (unique_grants input owner) ≡ (has login input && not (login == owner)))
      × (has_duplicate (unique_grants input owner) ≡ false)
unfolding unique_grants
unique_grants_lem input owner login =
    (ground (arith, has-unique_from [] owner login input), has_duplicate-unique_from [] owner input)

unique_from-select :
    (seen : List String) (owner : String) (input : List String)
    → Tables.unique_from seen owner input
      ≡ unique_from seen owner (select (λ login. not (login == "")) input)
unfolding unique_from Tables.unique_from
unique_from-select seen owner [] = refl
unique_from-select seen owner (x ∷ input) =
    ground (arith, unique_from-select seen owner input, unique_from-select (x ∷ seen) owner input)

-- The repository grants the same logins as the service, but for empty ones.
pub unique_non_owner_logins-select :
    (input : List String) (owner : String)
    → unique_non_owner_logins input owner
      ≡ unique_grants (select (λ login. not (login == "")) input) owner
unfolding unique_grants unique_non_owner_logins
unique_non_owner_logins-select input owner = unique_from-select [] owner input
