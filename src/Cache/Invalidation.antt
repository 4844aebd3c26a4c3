-- ===== src/Cache/Invalidation.antt =====
-- `Invalidate`, `Delete` and `EntryFits` of cache.go.
use test.Common.{
  ℕ, ◌≡◌, refl, sym, ap, subst, ◌∙◌, String, Bool, true, false, not, none, some, List, [], ◌∷◌,
  ◌++◌, inl, inr, arith, ◌==◌, if◌then◌else◌, any, select, select_keep, select_skip, Option-cases,
  Bool-cases,
}
use test.Cache.{Memory, Element, get, delete, remove, invalidate, invalidate_loop, has_tag}
use test.Cache.Chain.{
  find_key, drop_key, key-find_key, find_key-drop_key, AllDistinct, drop_key_absent,
  unlink-drop_key, find_key-middle, find_key-select, drop_key-middle,
}
use test.Cache.Invariant.{IsValid, lru-remove}
use mathlib.Core.List.{append_assoc}
use test.Cache.Operations.{get_lem, remove-IsValid, delete-IsValid}

-- An element that none of the tags concerns.
abbrev pub is_untagged : List String → Element → Bool
is_untagged wanted e = not (has_tag e.value.entry.tags wanted)

pub limits-remove :
    (x : Element) (c : Memory)
    → ((remove x c).max_bytes ≡ c.max_bytes) × ((remove x c).max_items ≡ c.max_items)
unfolding remove
limits-remove x c = (refl, refl)

module _ (wanted : List String) (x : Element) (l : List Element) (c : Memory) where
  invalidate_tagged :
      has_tag x.value.entry.tags wanted ≡ true
      → invalidate_loop wanted (x ∷ l) c ≡ remove x (invalidate_loop wanted l c)
  unfolding invalidate_loop
  invalidate_tagged t = rw t

  invalidate_untagged :
      has_tag x.value.entry.tags wanted ≡ false
      → invalidate_loop wanted (x ∷ l) c ≡ invalidate_loop wanted l c
  unfolding invalidate_loop
  invalidate_untagged t = rw t

-- The loop over the last part of the list takes out its tagged elements, and nothing else.
invalidate_loop_lem :
    (wanted : List String) (front l : List Element) (c : Memory)
    → IsValid c
    → c.lru ≡ front ++ l
    → IsValid (invalidate_loop wanted l c)
      × ((invalidate_loop wanted l c).lru ≡ front ++ select (is_untagged wanted) l)
      × ((invalidate_loop wanted l c).max_bytes ≡ c.max_bytes)
      × ((invalidate_loop wanted l c).max_items ≡ c.max_items)
invalidate_loop_lem wanted front [] c v e = unfold invalidate_loop in (v, e, refl, refl)
invalidate_loop_lem wanted front (x ∷ l) c v e =
    let (valid, chain, max_bytes, max_items) =
      invalidate_loop_lem wanted (front ++ x ∷ []) l c v
        (e ∙ sym (append_assoc front (x ∷ []) l)) in
    let later = invalidate_loop wanted l c in
    let rest = select (is_untagged wanted) l in
    let split : later.lru ≡ front ++ x ∷ rest = chain ∙ append_assoc front (x ∷ []) rest in
    let d : AllDistinct (front ++ x ∷ rest) = subst AllDistinct split valid.linked.distinct in
    let found : find_key x.value.key later.lru ≡ some x =
      ap (find_key x.value.key) split ∙ find_key-middle front x rest d in
    elim (Bool-cases (has_tag x.value.entry.tags wanted)) [
      | inl tagged ↦ rw (invalidate_tagged wanted x l c tagged) (
        remove-IsValid later x valid found,
        lru-remove later valid.linked x found
            ∙ ap (drop_key x.value.key) split
            ∙ drop_key-middle front x rest d
            ∙ ap (λ r. front ++ r) (sym (select_skip (is_untagged wanted) x l (ap not tagged))),
        (limits-remove x later).0 ∙ max_bytes,
        (limits-remove x later).1 ∙ max_items,
      )
      | inr untagged ↦ rw (invalidate_untagged wanted x l c untagged) (
        valid,
        split ∙ ap (λ r. front ++ r) (sym (select_keep (is_untagged wanted) x l (ap not untagged))),
        max_bytes,
        max_items,
      )
    ]

no_tags : (l : List Element) → select (is_untagged []) l ≡ l
no_tags [] = refl
no_tags (e ∷ l) = rw (no_wanted e.value.entry.tags) (ap (◌∷◌ e) (no_tags l))
  where
    no_wanted : (tags : List String) → has_tag tags [] ≡ false
    no_wanted tags = unfold has_tag in nothing tags
      where
        nothing : (tags : List String) → any (λ tag. any (λ w. w == tag) []) tags ≡ false
        nothing [] = refl
        nothing (t ∷ ts) = nothing ts

module _ (wanted : List String) (c : Memory) (v : IsValid c) where
  -- What `Invalidate` does to the list of elements and to the limits.
  pub invalidate_lem :
      IsValid (invalidate false wanted c)
      × ((invalidate false wanted c).lru ≡ select (is_untagged wanted) c.lru)
      × ((invalidate false wanted c).max_bytes ≡ c.max_bytes)
      × ((invalidate false wanted c).max_items ≡ c.max_items)
  invalidate_lem = split wanted
    where
      split :
          (tags : List String)
          → IsValid (invalidate false tags c)
            × ((invalidate false tags c).lru ≡ select (is_untagged tags) c.lru)
            × ((invalidate false tags c).max_bytes ≡ c.max_bytes)
            × ((invalidate false tags c).max_items ≡ c.max_items)
      split [] = unfold invalidate in (v, sym (no_tags c.lru), refl, refl)
      split (t ∷ ts) = unfold invalidate in invalidate_loop_lem (t ∷ ts) [] c.lru c v refl

  -- In a valid cache, after `Invalidate` a `Get` of any key returns what it returned before, but
  -- for the entries that carry one of the tags, which are gone.
  pub get-invalidate :
      (later : ℕ) (key : String)
      → (get false later key (invalidate false wanted c)).1 ≡ elim ((get false later key c).1) [
        | none ↦ none
        | some e ↦ if has_tag e.tags wanted then none else some e
      ]
  get-invalidate later key =
      let (valid, chain, _, _) = invalidate_lem in
      let after = (get_lem later key (invalidate false wanted c) valid).0 in
      let before = (get_lem later key c v).0 in
      let found =
        ap (find_key key) chain
        ∙ find_key-select (is_untagged wanted) key c.lru v.linked.distinct in
      elim (Option-cases (find_key key c.lru)) [
        | inl miss ↦ ground (arith, after, before, found)
        | inr (e, hit) ↦ ground (arith, after, before, found)
      ]

module _ (c : Memory) (v : IsValid c) where
  -- In a valid cache, after `Delete` of a key a `Get` finds nothing under it, and every other
  -- key as before.
  pub get-delete :
      (later : ℕ) (key other : String)
      → (get false later other (delete false key c)).1
        ≡ (if key == other then none else (get false later other c).1)
  get-delete later key other =
      let after = (get_lem later other (delete false key c) (delete-IsValid false key c v)).0 in
      let before = (get_lem later other c v).0 in
      let found = ap (find_key other) (lru-delete key) ∙ find_key-drop_key key other c.lru in
      ground (arith, after, before, found)
    where
      lru-delete : (key : String) → (delete false key c).lru ≡ drop_key key c.lru
      lru-delete key = elim (Option-cases (find_key key c.lru)) [
        | inl miss ↦
            let looked = v.linked.index key ∙ miss in
            unfold delete in rw looked (sym (drop_key_absent key c.lru miss))
        | inr (e, hit) ↦
            let looked = v.linked.index key ∙ hit in
            unfold delete remove in
            rw looked (
              let named = key-find_key key c.lru e hit in
              unlink-drop_key key c.lru e v.linked.distinct hit)
      ]

pub invalidate-IsValid :
    (cancelled : Bool) (wanted : List String) (c : Memory)
    → IsValid c
    → IsValid (invalidate cancelled wanted c)
invalidate-IsValid false wanted c v = (invalidate_lem wanted c v).0
invalidate-IsValid true [] c v = unfold invalidate in v
invalidate-IsValid true (t ∷ ts) c v = unfold invalidate in v
