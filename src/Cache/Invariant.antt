-- ===== src/Cache/Invariant.antt =====
-- The invariant of cache.go, and its preservation by `remove`, `PushFront` and the eviction loop.
use test.Common.{
  take, ℕ, suc, ◌+◌, ◌-◌, ◌≤◌, ◌<◌, ◌≡◌, refl, ap, subst, ◌∙◌, String, Option, none, some, List, [],
  ◌∷◌, arith, ◌==◌, eq_iff, eq_refl, if◌then◌else◌, length, sum_by, All, Option-cases, sym, inl,
  inr,
}
use test.Common.Assoc.{lookup, without, lookup-without}
use test.Cache.{Memory, Element, Item, remove, remove_back, push_front, back, entry_size}
use test.Cache.Chain.{
  find_key, drop_key, size_of, IsNew, AllDistinct, key-find_key, find_key-drop_key,
  AllDistinct-drop_key, All-drop_key, unlink-drop_key, size-drop_key, length-drop_key-le,
  find_key-back, drop_key-back, back_of_cons, drop_key_absent,
}

-- What holds of each element: it was allocated, and its size is that of its key and entry.
abbrev pub IsSound : ℕ → Element → Type 0
IsSound next_id e = (e.id < next_id) × (e.value.size ≡ entry_size e.value.key e.value.entry)

-- The map holds exactly the elements of the list, each under its key, no key or element occurs
-- twice, and `bytes` is the sum of the sizes.
pub record IsLinked (c : Memory) : Type 0 where
  pub index : (k : String) → lookup k c.items ≡ find_key k c.lru
  pub distinct : AllDistinct c.lru
  pub sound : All (IsSound c.next_id) c.lru
  pub accounted : c.bytes ≡ sum_by size_of c.lru

pub record IsBounded (c : Memory) : Type 0 where
  pub item_bound : length c.lru ≤ c.max_items
  pub byte_bound : c.bytes ≤ c.max_bytes

pub record IsValid (c : Memory) : Type 0 where
  pub linked : IsLinked c
  pub bounded : IsBounded c

module _ (c : Memory) (h : IsLinked c) (e : Element) where
  pub lru-remove :
      find_key e.value.key c.lru ≡ some e → (remove e c).lru ≡ drop_key e.value.key c.lru
  unfolding remove
  lru-remove p = unlink-drop_key e.value.key c.lru e h.distinct p

  pub bytes-remove :
      find_key e.value.key c.lru ≡ some e
      → (remove e c).bytes ≡ sum_by size_of (drop_key e.value.key c.lru)
  unfolding remove
  bytes-remove p = omega (arith, size-drop_key e.value.key c.lru e h.distinct p, h.accounted)

  -- `remove` of an element that the map holds keeps the cache well linked.
  pub remove-IsLinked : find_key e.value.key c.lru ≡ some e → IsLinked (remove e c)
  unfolding remove
  remove-IsLinked p =
      let cut = unlink-drop_key e.value.key c.lru e h.distinct p in
      record {
        index = λ j.
            rw (lookup-without e.value.key j c.items, cut, find_key-drop_key e.value.key j c.lru)
              (ap (λ (o : Option Element). if e.value.key == j then none else o) (h.index j));
        distinct = rw cut (AllDistinct-drop_key e.value.key c.lru h.distinct);
        sound = rw cut (All-drop_key (IsSound c.next_id) e.value.key c.lru h.sound);
        accounted =
            rw cut (omega (arith, size-drop_key e.value.key c.lru e h.distinct p, h.accounted));
      }

  -- `remove` makes the cache no larger.
  pub remove-IsBounded : find_key e.value.key c.lru ≡ some e → IsBounded c → IsBounded (remove e c)
  unfolding remove
  remove-IsBounded p b =
      let cut = unlink-drop_key e.value.key c.lru e h.distinct p in
      record {
        item_bound = rw cut (omega (arith, length-drop_key-le e.value.key c.lru, b.item_bound));
        byte_bound = omega (arith, b.byte_bound);
      }

All-weaken : (n : ℕ) (l : List Element) → All (IsSound n) l → All (IsSound (suc n)) l
All-weaken n [] h = tt
All-weaken n (e ∷ l) h = ((omega arith, h.0.1), All-weaken n l h.1)

-- An element with the next identity and an absent key is new to the list.
IsNew-of_absent :
    (e : Element) (l : List Element)
    → All (IsSound e.id) l
    → find_key e.value.key l ≡ none
    → IsNew e l
unfolding find_key
IsNew-of_absent e [] h p = tt
IsNew-of_absent e (f ∷ l) h p = ground (arith, IsNew-of_absent e l, eq_iff f.value.key e.value.key)

-- A new element in front, under a key that the map does not hold.
abbrev pub link_front : String → Item → Memory → Memory
link_front key value c =
    let element : Element = record { id = c.next_id; value = value } in
    record c {
      items = (key, element) ∷ without key c.items;
      lru = element ∷ c.lru;
      bytes = c.bytes + value.size;
      next_id = suc c.next_id;
    }

link_front-IsLinked :
    (c : Memory) (key : String) (value : Item)
    → IsLinked c
    → find_key key c.lru ≡ none
    → value.key ≡ key
    → value.size ≡ entry_size value.key value.entry
    → IsLinked (link_front key value c)
unfolding lookup find_key
link_front-IsLinked c key value h absent named sized = record {
  index = λ j.
      ground (arith, lookup-without key j c.items, h.index j, eq_iff key j, eq_iff value.key j);
  distinct = (
    IsNew-of_absent (record { id = c.next_id; value = value }) c.lru h.sound (rw named absent),
    h.distinct,
  );
  sound = ((omega arith, sized), All-weaken c.next_id c.lru h.sound);
  accounted = omega (arith, h.accounted);
}

-- The cache without the old element of a key: `if old, ok := c.items[key]; ok { c.remove(old) }`.
abbrev pub clear : String → Memory → Memory
clear key c = elim (lookup key c.items) [ none ↦ c | some old ↦ remove old c ]

pub clear_lem :
    (c : Memory) (key : String)
    → IsLinked c
    → IsLinked (clear key c)
      × ((clear key c).lru ≡ drop_key key c.lru)
      × ((clear key c).max_bytes ≡ c.max_bytes)
      × ((clear key c).max_items ≡ c.max_items)
      × ((clear key c).next_id ≡ c.next_id)
unfolding remove
clear_lem c key h = elim (Option-cases (find_key key c.lru)) [
  | inl miss ↦
      rw (h.index key, miss, clear) (h, sym (drop_key_absent key c.lru miss), refl, refl, refl)
  | inr (old, hit) ↦
      let named = key-find_key key c.lru old hit in
      let here = subst (λ k. find_key k c.lru ≡ some old) (sym named) hit in
      rw (h.index key, hit, clear)
        (
          remove-IsLinked c h old here,
          subst (λ k. (remove old c).lru ≡ drop_key k c.lru) named (lru-remove c h old here),
          refl,
          refl,
          refl,
        )
]

-- `Set` before its loop: the new element in front of the others, the old one of its key gone.
pub push_front_lem :
    (c : Memory) (value : Item)
    → IsLinked c
    → value.size ≡ entry_size value.key value.entry
    → IsLinked (push_front value.key value c)
      × ((push_front value.key value c).lru
          ≡ record { id = c.next_id; value = value } ∷ drop_key value.key c.lru)
      × ((push_front value.key value c).max_bytes ≡ c.max_bytes)
      × ((push_front value.key value c).max_items ≡ c.max_items)
unfolding push_front
push_front_lem c value h sized =
    let (linked, chain, max_bytes, max_items, next_id) = clear_lem c value.key h in
    let absent : find_key value.key (clear value.key c).lru ≡ none =
      rw (chain, find_key-drop_key value.key value.key c.lru, eq_refl value.key) refl in
    (
      link_front-IsLinked (clear value.key c) value.key value linked absent refl sized,
      cc,
      max_bytes,
      max_items,
    )

take_of_back-none : (l : List Element) → back l ≡ none → take (length l - 1) l ≡ l
unfolding take
take_of_back-none [] p = refl
take_of_back-none (e ∷ l) p = let (f, q) = back_of_cons e l in cc (p, q)

-- A round of the eviction loop drops the last element.
pub remove_back_lem :
    (c : Memory)
    → IsLinked c
    → IsLinked (remove_back c)
      × ((remove_back c).lru ≡ take (length c.lru - 1) c.lru)
      × ((remove_back c).max_bytes ≡ c.max_bytes)
      × ((remove_back c).max_items ≡ c.max_items)
unfolding remove_back
remove_back_lem c h = elim (Option-cases (back c.lru)) [
  | inl empty ↦ rw (empty, remove_back) (h, sym (take_of_back-none c.lru empty), refl, refl)
  | inr (e, last) ↦
      let found = find_key-back c.lru e h.distinct last in
      rw (last, remove_back)
        (
          remove-IsLinked c h e found,
          lru-remove c h e found ∙ drop_key-back c.lru e h.distinct last,
          refl,
          refl,
        )
]
