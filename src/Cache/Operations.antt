-- ===== src/Cache/Operations.antt =====
-- The operations of cache.go keep the invariant, and what they do to the list of elements.
use test.Common.{
  ℕ, ◌≡◌, refl, sym, subst, ◌∙◌, String, Bool, true, false, Option, none, some, List, ◌∷◌, inl, inr,
  arith, eq_iff, leb, if◌then◌else◌, Option-cases, Bool-cases,
}
use test.Common.Assoc.{lookup}
use test.Cache.{Memory, Element, Entry, new_memory, get, delete, close, remove, move_to_front}
use test.Cache.Chain.{
  find_key, drop_key, find_key-drop_key, AllDistinct-drop_key, All-drop_key, All_of_found,
  IsNew-of_dropped, size-drop_key, length-drop_key, key-find_key, linked-find_key, unlink-drop_key,
}
use test.Cache.Invariant.{IsLinked, IsValid, IsSound, remove-IsLinked, remove-IsBounded}

-- What the map holds is found in the list, under the element's own key.
pub found_of_lookup :
    (c : Memory) (key : String) (e : Element)
    → IsLinked c
    → lookup key c.items ≡ some e
    → (e.value.key ≡ key) × (find_key e.value.key c.lru ≡ some e)
found_of_lookup c key e h p =
    let hit : find_key key c.lru ≡ some e = sym (h.index key) ∙ p in
    let named = key-find_key key c.lru e hit in
    (named, subst (λ k. find_key k c.lru ≡ some e) (sym named) hit)

-- The new cache is well formed, whatever its limits.
pub new_memory-IsValid : (max_bytes max_items : ℕ) → IsValid (new_memory max_bytes max_items)
unfolding new_memory lookup find_key
new_memory-IsValid max_bytes max_items = record {
  linked = record { index = λ k. refl; distinct = tt; sound = tt; accounted = refl };
  bounded = omega arith;
}

pub close-IsValid : (c : Memory) → IsValid c → IsValid (close c)
unfolding close lookup find_key
close-IsValid c v = record {
  linked = record { index = λ k. refl; distinct = tt; sound = tt; accounted = refl };
  bounded = omega arith;
}

pub remove-IsValid :
    (c : Memory) (e : Element)
    → IsValid c
    → find_key e.value.key c.lru ≡ some e
    → IsValid (remove e c)
remove-IsValid c e v p = record {
  linked = remove-IsLinked c v.linked e p;
  bounded = remove-IsBounded c v.linked e p v.bounded;
}

-- `get` as a function of the list of elements: what it returns, and the list that it leaves.
abbrev pub live : ℕ → Option Element → Option Entry
live now none = none
live now (some e) = if leb e.value.expires_at now then none else some e.value.entry

abbrev pub touched : ℕ → String → List Element → Option Element → List Element
touched now key l none = l
touched now key l (some e) =
    if leb e.value.expires_at now then drop_key key l else e ∷ drop_key key l

pub get_lem :
    (now : ℕ) (key : String) (c : Memory)
    → IsValid c
    → ((get false now key c).1 ≡ live now (find_key key c.lru))
      × ((get false now key c).0.lru ≡ touched now key c.lru (find_key key c.lru))
unfolding get
get_lem now key c v = elim (Option-cases (find_key key c.lru)) [
  | inl miss ↦ let looked = v.linked.index key ∙ miss in ground (arith, looked)
  | inr (e, hit) ↦
      let looked : lookup key c.items ≡ some e = v.linked.index key ∙ hit in
      let cut = unlink-drop_key key c.lru e v.linked.distinct hit in
      let held = linked-find_key key c.lru e hit in ground (arith, looked, cut, held)
]

-- `MoveToFront` of an element that is found by its key.
front-IsLinked :
    (c : Memory) (e : Element)
    → IsLinked c
    → find_key e.value.key c.lru ≡ some e
    → IsLinked (record c { lru = e ∷ drop_key e.value.key c.lru })
unfolding find_key
front-IsLinked c e h p =
    let k = e.value.key in
    record {
      index = λ j. ground (arith, h.index j, find_key-drop_key k j c.lru, eq_iff k j, h.index k);
      distinct = (IsNew-of_dropped e c.lru h.distinct p, AllDistinct-drop_key k c.lru h.distinct);
      sound = (
        All_of_found (IsSound c.next_id) k c.lru h.sound p,
        All-drop_key (IsSound c.next_id) k c.lru h.sound,
      );
      accounted = omega (arith, size-drop_key k c.lru e h.distinct p, h.accounted);
    }

pub get-IsValid :
    (cancelled : Bool) (now : ℕ) (key : String) (c : Memory)
    → IsValid c
    → IsValid (get cancelled now key c).0
get-IsValid true now key c v = unfold get in v
get-IsValid false now key c v = elim (Option-cases (lookup key c.items)) [
  | inl miss ↦ unfold get in rw miss v
  | inr (e, hit) ↦
      let (named, found) = found_of_lookup c key e v.linked hit in
      elim (Bool-cases (leb e.value.expires_at now)) [
        | inl old ↦ unfold get in rw (hit, old) (remove-IsValid c e v found)
        | inr new ↦
            unfold get move_to_front in
            rw
              (
                hit,
                new,
                linked-find_key e.value.key c.lru e found,
                unlink-drop_key e.value.key c.lru e v.linked.distinct found,
              )
              (record {
                linked = front-IsLinked c e v.linked found;
                bounded = omega (
                  arith,
                  length-drop_key e.value.key c.lru e v.linked.distinct found,
                  v.bounded.item_bound,
                  v.bounded.byte_bound,
                );
              })
      ]
]

pub delete-IsValid :
    (cancelled : Bool) (key : String) (c : Memory) → IsValid c → IsValid (delete cancelled key c)
delete-IsValid true key c v = unfold delete in v
delete-IsValid false key c v = elim (Option-cases (lookup key c.items)) [
  | inl miss ↦ unfold delete in rw miss v
  | inr (e, hit) ↦
      unfold delete in rw hit (remove-IsValid c e v (found_of_lookup c key e v.linked hit).1)
]
