-- ===== src/Transport/Filter.antt =====
-- The query of a listing, of internal/httptransport/list_handler.go. The values of a query are an
-- association list of names, as `url.ParseQuery` reads them.
use test.Common.{
  ◌≡◌, refl, String, Bool, true, false, not, ◌&&◌, ◌||◌, Option, none, some, List, [], ◌∷◌, ◌==◌,
  arith, eqb, if◌then◌else◌, is_some, all, length, inl, inr, Bool-cases, Option-cases,
}
use test.Common.Assoc.{lookup}
use test.Common.Int.{ℤ, pos, is_nonpositive, is_negative, ltb_ℤ}
use test.Domain.{DocumentFilter}
use test.Service.{Formats}
use test.Service.Reading.{validate_document_filter}

abbrev pub Query : Type 0
Query = List (String × List String)

-- The value, where it is given once.
unfoldable pub single_query_value : Query → String → Option String
unfolding lookup
single_query_value query name = elim (lookup name query) [
  | none ↦ none
  | some values ↦ elim values [ [] ↦ none | v ∷ rest ↦ elim rest [ [] ↦ some v | _ ∷ _ ↦ none ] ]
]

unfoldable pub query_value : Query → String → Option String
unfolding lookup
query_value query name = elim (lookup name query) [
  | none ↦ none
  | some values ↦ elim values [ [] ↦ none | v ∷ _ ↦ some v ]
]

abbrev is_known : String → Bool
is_known name =
    name == "token" || name == "login" || name == "key" || name == "value" || name == "limit"

-- The text of a value that may be missing.
abbrev pub or_empty : Option String → String
or_empty none = ""
or_empty (some s) = s

module _ (f : Formats) where
  unfoldable pub valid_document_list_filter_value : String → String → Bool
  valid_document_list_filter_value key value =
      if key == "id"
      then is_some (f.parse_uuid value)
      else if key == "name" || key == "mime"
      then true
      else if key == "file" || key == "public"
      then value == "true" || value == "false"
      else if key == "created"
      then is_some (f.parse_utc value) || is_some (f.parse_rfc3339 value)
      else false

  validate_none : validate_document_filter f "" "" ≡ true
  unfolding validate_document_filter
  validate_none = refl

  validate_value :
      (key value : String)
      → (key == "") ≡ false
      → (value == "") ≡ false
      → valid_document_list_filter_value key value ≡ true
      → validate_document_filter f key value ≡ true
  unfolding validate_document_filter valid_document_list_filter_value
  validate_value key value k v p = rw (k, v) p

  -- `atoi` is `strconv.Atoi`.
  module _ (atoi : String → Option ℤ) (max_list_limit : ℤ) where
    with_limit : Option String → DocumentFilter → Option DocumentFilter
    with_limit none filter = some filter
    with_limit (some raw) filter = elim (atoi raw) [
      | none ↦ none
      | some limit ↦
          if is_nonpositive limit || ltb_ℤ max_list_limit limit
          then none
          else some (record filter { limit = limit })
    ]

    -- The checks after the values are read.
    unfoldable pub filter_of :
        Option String → Option String → Option String → Option String → Option DocumentFilter
    unfolding with_limit valid_document_list_filter_value
    filter_of login key value limit =
        if is_some key && (not (is_some value) || or_empty key == "" || or_empty value == "")
          || not (is_some key) && is_some value
        then none
        else if is_some login && or_empty login == ""
        then none
        else if is_some key
            && not (valid_document_list_filter_value (or_empty key) (or_empty value))
        then none
        else with_limit limit (record {
          owner_login = or_empty login;
          key = or_empty key;
          value = or_empty value;
          limit = pos 0;
        })

    unfoldable pub parse_document_list_filter : Query → Option DocumentFilter
    unfolding filter_of query_value
    parse_document_list_filter query =
        if not (all (λ entry. is_known entry.0 && eqb (length entry.1) 1) query)
        then none
        else filter_of (query_value query "login") (query_value query "key")
            (query_value query "value") (query_value query "limit")

    with_limit_lem :
        (limit : Option String) (filter result : DocumentFilter)
        → is_negative max_list_limit ≡ false
        → is_negative filter.limit ≡ false
        → ltb_ℤ max_list_limit filter.limit ≡ false
        → with_limit limit filter ≡ some result
        → (result.key ≡ filter.key)
          × (result.value ≡ filter.value)
          × (is_negative result.limit ≡ false)
          × (ltb_ℤ max_list_limit result.limit ≡ false)
    unfolding with_limit
    with_limit_lem none filter result positive fine below p = ground arith
    with_limit_lem (some raw) filter result positive fine below p = elim (Option-cases (atoi raw)) [
      | inl bad ↦ absurd (ground (arith, bad))
      | inr (limit, good) ↦ ground (arith, good)
    ]

    -- A key and a value that are accepted.
    filter_of_given :
        (login : Option String) (k v : String) (limit : Option String) (result : DocumentFilter)
        → filter_of login (some k) (some v) limit ≡ some result
        → ((k == "") ≡ false)
          × ((v == "") ≡ false)
          × (valid_document_list_filter_value k v ≡ true)
          × (with_limit limit
                (record { owner_login = or_empty login; key = k; value = v; limit = pos 0 })
              ≡ some result)
    unfolding filter_of
    filter_of_given login k v limit result p = elim (Bool-cases (k == "")) [
      | inl bad ↦ absurd (none_some result (rw bad at p))
      | inr keyed ↦ elim (Bool-cases (v == "")) [
        | inl bad ↦ absurd (none_some result (rw (keyed, bad) at p))
        | inr valued ↦ elim (Bool-cases (is_some login && or_empty login == "")) [
          | inl bad ↦ absurd (none_some result (rw (keyed, valued, bad) at p))
          | inr named ↦ elim (Bool-cases (valid_document_list_filter_value k v)) [
            | inl valid ↦ (keyed, valued, valid, rw (keyed, valued, named, valid) at p)
            | inr bad ↦ absurd (none_some result (rw (keyed, valued, named, bad) at p))
          ]
        ]
      ]
    ]
      where
        none_some : (r : DocumentFilter) → ◌≡◌ {A = Option DocumentFilter} none (some r) → ⊥
        none_some r q = cc

    filter_of_lem :
        (login key value limit : Option String) (result : DocumentFilter)
        → is_negative max_list_limit ≡ false
        → filter_of login key value limit ≡ some result
        → (validate_document_filter f result.key result.value ≡ true)
          × (is_negative result.limit ≡ false)
          × (ltb_ℤ max_list_limit result.limit ≡ false)
    unfolding filter_of
    filter_of_lem login key value limit result positive p =
        let filter : DocumentFilter = record {
          owner_login = or_empty login;
          key = or_empty key;
          value = or_empty value;
          limit = pos 0;
        } in
        let kept = with_limit_lem limit filter result positive refl (ground (arith, positive)) in
        split login key value kept p
      where
        split :
            (login key value : Option String)
            → (with_limit limit (record {
              owner_login = or_empty login;
              key = or_empty key;
              value = or_empty value;
              limit = pos 0;
            })
                  ≡ some result
                → (result.key ≡ or_empty key)
                  × (result.value ≡ or_empty value)
                  × (is_negative result.limit ≡ false)
                  × (ltb_ℤ max_list_limit result.limit ≡ false))
            → filter_of login key value limit ≡ some result
            → (validate_document_filter f result.key result.value ≡ true)
              × (is_negative result.limit ≡ false)
              × (ltb_ℤ max_list_limit result.limit ≡ false)
        split login none none kept p =
            let (same_key, same_value, fine, below) = kept (ground arith) in
            (rw (same_key, same_value) validate_none, fine, below)
        split login none (some v) kept p = absurd (ground arith)
        split login (some k) none kept p = absurd (ground arith)
        split login (some k) (some v) kept p =
            let (keyed, valued, valid, run) = filter_of_given login k v limit result p in
            let (same_key, same_value, fine, below) = kept run in
            (rw (same_key, same_value) (validate_value k v keyed valued valid), fine, below)

    -- Every query that the transport accepts under a limit that is not negative is one that the
    -- document service accepts: its filter is valid, and its limit is neither negative nor above
    -- that limit.
    pub validate-parse :
        (query : Query) (filter : DocumentFilter)
        → is_negative max_list_limit ≡ false
        → parse_document_list_filter query ≡ some filter
        → (validate_document_filter f filter.key filter.value ≡ true)
          × (is_negative filter.limit ≡ false)
          × (ltb_ℤ max_list_limit filter.limit ≡ false)
    unfolding parse_document_list_filter
    validate-parse query filter positive p =
        filter_of_lem (query_value query "login") (query_value query "key")
          (query_value query "value") (query_value query "limit") filter positive (ground arith)
