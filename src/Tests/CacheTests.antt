-- ===== src/Tests/CacheTests.antt =====
-- internal/cache/cache.go on small caches.
use test.Common.{
  take, ℕ, ◌+◌, ◌≤◌, ◌≡◌, ◌≢◌, ◌⊎◌, refl, String, true, false, none, some, [], ◌∷◌, arith, leb,
  length, sum_by, if◌then◌else◌, eq_iff, ◌==◌,
}
use test.Common.Assoc.{lookup, without}
use test.Cache
use test.Cache.{
  Memory, Entry, Element, Item, new_memory, entry_size, stored_entry, has_tag, entry_fits,
  over_limit,
}
use test.Cache.Chain.{drop_key, size_of}
use test.Cache.Eviction.{IsLongestFit, evict_terminates}
use test.Cache.Invalidation.{get-invalidate, get-delete}
use test.Cache.Invariant.{IsValid}
use test.Cache.Operations.{new_memory-IsValid}
use test.Cache.Run.{Call, run, run-IsValid}
use test.Cache.Store.{Accepts, get-set, get-set_ne, lru-set, set-IsValid, item_of}

program : Unit {0}
unfolding new_memory Cache.get Cache.set Cache.delete Cache.invalidate run lookup without entry_size
    Cache.evict has_tag stored_entry entry_fits Cache.back Cache.remove Cache.remove_back
    Cache.push_front Cache.unlink Cache.over_limit Cache.move_to_front Cache.linked
    Cache.invalidate_loop
program = tt

abbrev small : Memory
small = new_memory 40 2

abbrev page : Entry
page = record {
  status = 200;
  header = [];
  body = 1 ∷ 2 ∷ 3 ∷ [];
  body_omitted = false;
  stored_at = 0;
  tags = "odd" ∷ [];
}

small-IsValid : IsValid small
small-IsValid = new_memory-IsValid 40 2

accepted : Accepts false "one" 10 small
unfolding program
accepted = record {
  running = refl;
  keyed = refl;
  lasting = omega arith;
  byte_room = omega arith;
  item_room = omega arith;
}

one_fits : (item_of 5 "one" page 10 small).size ≤ small.max_bytes
unfolding program
one_fits = omega arith

abbrev with_one : Memory
with_one = Cache.set false 5 "one" page 10 small

with_one-IsValid : IsValid with_one
with_one-IsValid = set-IsValid 5 "one" page 10 small false small-IsValid

-- The last use of "one" saves it: "two" is evicted by "three".
lru_order :
    ((Cache.get false 8 "two" (
        run
          (Call.set false 5 "one" page 10
            ∷ Call.set false 5 "two" page 10
            ∷ Call.get false 6 "one"
            ∷ Call.set false 7 "three" page 10
            ∷ [])
          small)).1
      ≡ none)
    × ((Cache.get false 8 "one" (
          run
            (Call.set false 5 "one" page 10
              ∷ Call.set false 5 "two" page 10
              ∷ Call.get false 6 "one"
              ∷ Call.set false 7 "three" page 10
              ∷ [])
            small)).1
        ≡ some (record page { stored_at = 5 }))
unfolding program
lru_order = (refl, refl)

-- A body that is too large for the cache is left out.
body_left_out :
    (Cache.get false 1 "key" (Cache.set false 0 "key" page 5 (new_memory 8 10))).1
    ≡ some (record page { body = []; body_omitted = true })
unfolding program
body_left_out = refl

run-IsValid_example :
    IsValid (run (Call.set false 5 "one" page 10 ∷ Call.get false 6 "one" ∷ []) (new_memory 40 2))
    × (length
          (run (Call.set false 5 "one" page 10 ∷ Call.get false 6 "one" ∷ []) (new_memory 40 2)).lru
        ≤ 2)
    × (sum_by size_of
          (run (Call.set false 5 "one" page 10 ∷ Call.get false 6 "one" ∷ []) (new_memory 40 2)).lru
        ≤ 40)
run-IsValid_example =
    run-IsValid 40 2 (Call.set false 5 "one" page 10 ∷ Call.get false 6 "one" ∷ [])

get-set_example :
    (Cache.get false 14 "one" (Cache.set false 5 "one" page 10 small)).1
    ≡ (if leb (5 + 10) 14 then none else some (stored_entry 5 "one" page 40))
unfolding new_memory
get-set_example = get-set 5 "one" page 10 small 14 small-IsValid accepted one_fits

lru-set_example :
    (n : ℕ) × ((Cache.set false 5 "one" page 10 small).lru
      ≡ take n (record { id = 0; value = item_of 5 "one" page 10 small } ∷ drop_key "one" []))
    × IsLongestFit 2 40 n
        (record { id = 0; value = item_of 5 "one" page 10 small } ∷ drop_key "one" [])
unfolding new_memory
lru-set_example = lru-set 5 "one" page 10 small small-IsValid accepted one_fits

keys_differ : ◌≢◌ {A = String} "two" "one"
keys_differ p = cc ((eq_iff "two" "one").1 p)

get-set_ne_example :
    ((Cache.get false 9 "one" (Cache.set false 6 "two" page 10 with_one)).1 ≡ none)
    ⊎ ((Cache.get false 9 "one" (Cache.set false 6 "two" page 10 with_one)).1
        ≡ (Cache.get false 9 "one" with_one).1)
get-set_ne_example = get-set_ne 6 "two" page 10 with_one 9 "one" false with_one-IsValid keys_differ

get-invalidate_example :
    (Cache.get false 9 "one" (Cache.invalidate false ("odd" ∷ []) with_one)).1
    ≡ elim ((Cache.get false 9 "one" with_one).1) [
      | none ↦ none
      | some e ↦ if has_tag e.tags ("odd" ∷ []) then none else some e
    ]
get-invalidate_example = get-invalidate ("odd" ∷ []) with_one with_one-IsValid 9 "one"

get-delete_example :
    (Cache.get false 9 "one" (Cache.delete false "one" with_one)).1
    ≡ (if "one" == "one" then none else (Cache.get false 9 "one" with_one).1)
get-delete_example = get-delete with_one with_one-IsValid 9 "one" "one"

evict_terminates_example :
    (over_limit (Cache.evict 1 with_one) ≡ false)
    × (Cache.evict 5 with_one ≡ Cache.evict 1 with_one)
unfolding program
evict_terminates_example = evict_terminates with_one 5 with_one-IsValid.linked (omega arith)
