-- ===== src/Cache.antt =====
-- internal/cache/cache.go: the process-local response cache. A `*list.Element` is an `Element`
-- with an identity, since list operations compare pointers; an element's `Value` never changes.
-- The clock, which the source calls under the lock, is an argument, and so is `ctx.Err() != nil`.
pub mod Chain
pub mod Eviction
pub mod Operations
pub mod Store
pub mod Invalidation
pub mod Run
pub mod Invariant
use test.Common.{
  ℕ, zero, suc, ◌+◌, ◌-◌, String, len, Bool, true, false, not, ◌&&◌, ◌||◌, Option, none, some, List,
  [], ◌∷◌, ◌==◌, ltb, leb, eqb, if◌then◌else◌, length, sum_by, any,
}
use test.Common.Assoc.{lookup, without}
use test.Common.Int.{ℤ, pos, negsuc}

-- `Header` is the map of header names to values.
pub record Entry : Type 0 where
  pub status : ℕ
  pub header : List (String × List String)
  pub body : List ℕ
  pub body_omitted : Bool
  pub stored_at : ℕ
  pub tags : List String

pub record Item : Type 0 where
  pub key : String
  pub entry : Entry
  pub expires_at : ℕ
  pub size : ℕ

pub record Element : Type 0 where
  pub id : ℕ
  pub value : Item

-- `lru` lists the elements from the front to the back; `next_id` is the identity of the next
-- element that is allocated.
pub record Memory : Type 0 where
  pub items : List (String × Element)
  pub lru : List Element
  pub max_bytes : ℕ
  pub max_items : ℕ
  pub bytes : ℕ
  pub next_id : ℕ

unfoldable pub new_memory : ℕ → ℕ → Memory
new_memory max_bytes max_items = record {
  items = [];
  lru = [];
  max_bytes = max_bytes;
  max_items = max_items;
  bytes = 0;
  next_id = 0;
}

-- A deep copy, which is the value itself where values are not shared.
abbrev pub clone_entry : Entry → Entry
clone_entry entry = entry

abbrev header_size : String × List String → ℕ
header_size (name, values) = len name + sum_by len values

unfoldable pub entry_size : String → Entry → ℕ
entry_size key entry =
    len key + length entry.body + sum_by header_size entry.header + sum_by len entry.tags

-- `wanted` is a set of tags.
unfoldable pub has_tag : List String → List String → Bool
has_tag tags wanted = any (λ tag. any (λ w. w == tag) wanted) tags

-- `lru.Remove(element)` and the first step of `lru.MoveToFront(element)`: only an element of the
-- list is taken out.
unfoldable pub unlink : ℕ → List Element → List Element
unlink id [] = []
unlink id (e ∷ l) = let rest = unlink id l in if eqb e.id id then l else e ∷ rest

unfoldable pub linked : ℕ → List Element → Bool
linked id l = any (λ e. eqb e.id id) l

unfoldable pub move_to_front : Element → List Element → List Element
unfolding linked unlink
move_to_front element l = if linked element.id l then element ∷ unlink element.id l else l

-- `lru.Back()`
unfoldable pub back : List Element → Option Element
back [] = none
back (e ∷ []) = some e
back (e ∷ f ∷ l) = back (f ∷ l)

-- `(*Memory).remove`
unfoldable pub remove : Element → Memory → Memory
unfolding unlink
remove element c = record c {
  items = without element.value.key c.items;
  bytes = c.bytes - element.value.size;
  lru = unlink element.id c.lru;
}

unfoldable pub remove_back : Memory → Memory
unfolding remove back
remove_back c = elim (back c.lru) [ none ↦ c | some element ↦ remove element c ]

unfoldable pub get : Bool → ℕ → String → Memory → Memory × Option Entry
unfolding remove move_to_front
get cancelled now key c = if cancelled then (c, none) else elim (lookup key c.items) [
  | none ↦ (c, none)
  | some element ↦
      if leb element.value.expires_at now
      then (remove element c, none)
      else (record c { lru = move_to_front element c.lru }, some (clone_entry element.value.entry))
]

unfoldable pub over_limit : Memory → Bool
over_limit c = ltb c.max_items (length c.lru) || ltb c.max_bytes c.bytes

-- The eviction loop of `Set`, on fuel.
unfoldable pub evict : ℕ → Memory → Memory
unfolding over_limit remove_back
evict zero c = c
evict (suc fuel) c = elim (over_limit c) [ true ↦ evict fuel (remove_back c) | false ↦ c ]

-- The entry that `Set` keeps: without its body where the whole is too large.
unfoldable pub stored_entry : ℕ → String → Entry → ℕ → Entry
unfolding entry_size
stored_entry now key entry max_bytes =
    let stored : Entry = record (clone_entry entry) { stored_at = now } in
    if ltb max_bytes (entry_size key stored) && not (eqb (length stored.body) 0)
    then record stored { body = []; body_omitted = true }
    else stored

-- `Set` before the eviction loop: the old element of the key goes, the new one stands in front.
unfoldable pub push_front : String → Item → Memory → Memory
unfolding remove
push_front key value c =
    let cleared : Memory = elim (lookup key c.items) [ none ↦ c | some old ↦ remove old c ] in
    let element : Element = record { id = cleared.next_id; value = value } in
    record cleared {
      items = (key, element) ∷ without key cleared.items;
      lru = element ∷ cleared.lru;
      bytes = cleared.bytes + value.size;
      next_id = suc cleared.next_id;
    }

unfoldable pub set : Bool → ℕ → String → Entry → ℕ → Memory → Memory
unfolding stored_entry entry_size push_front evict
set cancelled now key entry ttl c =
    if cancelled || key == "" || eqb ttl 0 || eqb c.max_bytes 0 || eqb c.max_items 0
    then c
    else (let kept = stored_entry now key entry c.max_bytes in
        let size = entry_size key kept in
        if ltb c.max_bytes size
        then c
        else (let value : Item = record {
          key = key;
          entry = kept;
          expires_at = now + ttl;
          size = size;
        } in
            let pushed = push_front key value c in evict (length pushed.lru) pushed))

unfoldable pub delete : Bool → String → Memory → Memory
unfolding remove
delete cancelled key c =
    if cancelled
    then c
    else elim (lookup key c.items) [ none ↦ c | some element ↦ remove element c ]

-- The loop of `Invalidate`, over the elements from the back to the front.
unfoldable pub invalidate_loop : List String → List Element → Memory → Memory
invalidate_loop wanted [] c = c
invalidate_loop wanted (e ∷ rest) c =
    let later = invalidate_loop wanted rest c in
    if has_tag e.value.entry.tags wanted then remove e later else later

unfoldable pub invalidate : Bool → List String → Memory → Memory
unfolding invalidate_loop
invalidate cancelled [] c = c
invalidate cancelled (tag ∷ tags) c = if cancelled then c else invalidate_loop (tag ∷ tags) c.lru c

unfoldable pub stats : Memory → ℕ × ℕ
stats c = (c.bytes, length c.lru)

unfoldable pub entry_fits : String → Entry → ℤ → Memory → Bool
unfolding entry_size
entry_fits key entry (negsuc _) c = false
entry_fits key entry (pos body_bytes) c =
    let metadata_bytes = entry_size key (record entry { body = []; body_omitted = false }) in
    leb metadata_bytes c.max_bytes && leb body_bytes (c.max_bytes - metadata_bytes)

unfoldable pub close : Memory → Memory
close c = record c { items = []; lru = []; bytes = 0 }
