-- ===== src/Cache/Run.antt =====
-- Any sequence of calls of the cache's methods, each with the clock and the context that it met.
use test.Common.{
  ℕ, ◌≤◌, ◌≡◌, refl, ◌∙◌, String, Bool, true, false, List, [], ◌∷◌, inl, inr, arith, length, sum_by,
  Option-cases,
}
use test.Common.Assoc.{lookup}
use test.Cache
use test.Cache.{Memory, Entry, new_memory, remove}
use test.Cache.Chain.{size_of}
use test.Cache.Invariant.{IsValid}
use test.Cache.Operations.{new_memory-IsValid, get-IsValid, delete-IsValid, close-IsValid}
use test.Cache.Store.{set-IsValid, set_limits}
use test.Cache.Invalidation.{invalidate-IsValid, invalidate_lem, limits-remove}

pub data Call : Type 0 where
  get : Bool → ℕ → String → Call
  set : Bool → ℕ → String → Entry → ℕ → Call
  delete : Bool → String → Call
  invalidate : Bool → List String → Call
  close : Call

unfoldable pub step : Call → Memory → Memory
step (Call.get cancelled now key) c = (Cache.get cancelled now key c).0
step (Call.set cancelled now key entry ttl) c = Cache.set cancelled now key entry ttl c
step (Call.delete cancelled key) c = Cache.delete cancelled key c
step (Call.invalidate cancelled tags) c = Cache.invalidate cancelled tags c
step Call.close c = Cache.close c

unfoldable pub run : List Call → Memory → Memory
unfolding step
run [] c = c
run (call ∷ calls) c = run calls (step call c)

-- A well-formed cache with these limits.
pub record IsValidWith (max_bytes max_items : ℕ) (c : Memory) : Type 0 where
  pub valid : IsValid c
  pub bytes_limit : c.max_bytes ≡ max_bytes
  pub items_limit : c.max_items ≡ max_items

get_limits :
    (cancelled : Bool) (now : ℕ) (key : String) (c : Memory)
    → ((Cache.get cancelled now key c).0.max_bytes ≡ c.max_bytes)
      × ((Cache.get cancelled now key c).0.max_items ≡ c.max_items)
unfolding Cache.get
get_limits true now key c = (refl, refl)
get_limits false now key c = elim (Option-cases (lookup key c.items)) [
  | inl miss ↦ rw miss (refl, refl)
  | inr (e, hit) ↦ ground (arith, hit)
]

delete_limits :
    (cancelled : Bool) (key : String) (c : Memory)
    → ((Cache.delete cancelled key c).max_bytes ≡ c.max_bytes)
      × ((Cache.delete cancelled key c).max_items ≡ c.max_items)
unfolding Cache.delete
delete_limits true key c = (refl, refl)
delete_limits false key c = elim (Option-cases (lookup key c.items)) [
  | inl miss ↦ rw miss (refl, refl)
  | inr (e, hit) ↦ rw hit (limits-remove e c)
]

invalidate_limits :
    (cancelled : Bool) (tags : List String) (c : Memory)
    → IsValid c
    → ((Cache.invalidate cancelled tags c).max_bytes ≡ c.max_bytes)
      × ((Cache.invalidate cancelled tags c).max_items ≡ c.max_items)
invalidate_limits false tags c v = let (_, _, b, i) = invalidate_lem tags c v in (b, i)
invalidate_limits true [] c v = unfold Cache.invalidate in (refl, refl)
invalidate_limits true (t ∷ ts) c v = unfold Cache.invalidate in (refl, refl)

module _ (max_bytes max_items : ℕ) where
  step-IsValidWith :
      (call : Call) (c : Memory)
      → IsValidWith max_bytes max_items c
      → IsValidWith max_bytes max_items (step call c)
  unfolding step
  step-IsValidWith (get cancelled now key) c v = record {
    valid = get-IsValid cancelled now key c v.valid;
    bytes_limit = (get_limits cancelled now key c).0 ∙ v.bytes_limit;
    items_limit = (get_limits cancelled now key c).1 ∙ v.items_limit;
  }
  step-IsValidWith (set cancelled now key entry ttl) c v =
      let (bytes, items) = set_limits now key entry ttl c cancelled v.valid in
      record {
        valid = set-IsValid now key entry ttl c cancelled v.valid;
        bytes_limit = bytes ∙ v.bytes_limit;
        items_limit = items ∙ v.items_limit;
      }
  step-IsValidWith (delete cancelled key) c v = record {
    valid = delete-IsValid cancelled key c v.valid;
    bytes_limit = (delete_limits cancelled key c).0 ∙ v.bytes_limit;
    items_limit = (delete_limits cancelled key c).1 ∙ v.items_limit;
  }
  step-IsValidWith (invalidate cancelled tags) c v =
      let (bytes, items) = invalidate_limits cancelled tags c v.valid in
      record {
        valid = invalidate-IsValid cancelled tags c v.valid;
        bytes_limit = bytes ∙ v.bytes_limit;
        items_limit = items ∙ v.items_limit;
      }
  step-IsValidWith close c v = record {
    valid = close-IsValid c v.valid;
    bytes_limit = unfold Cache.close in v.bytes_limit;
    items_limit = unfold Cache.close in v.items_limit;
  }

  run-IsValidWith :
      (calls : List Call) (c : Memory)
      → IsValidWith max_bytes max_items c
      → IsValidWith max_bytes max_items (run calls c)
  unfolding run
  run-IsValidWith [] c v = v
  run-IsValidWith (call ∷ calls) c v =
      run-IsValidWith calls (step call c) (step-IsValidWith call c v)

-- After any calls on a new cache it holds at most `max_items` elements of at most `max_bytes`
-- bytes together, `bytes` is their sum, and the map and the list agree.
pub run-IsValid :
    (max_bytes max_items : ℕ) (calls : List Call)
    → IsValid (run calls (new_memory max_bytes max_items))
      × (length (run calls (new_memory max_bytes max_items)).lru ≤ max_items)
      × (sum_by size_of (run calls (new_memory max_bytes max_items)).lru ≤ max_bytes)
run-IsValid max_bytes max_items calls =
    let w = run-IsValidWith max_bytes max_items calls (new_memory max_bytes max_items) (record {
      valid = new_memory-IsValid max_bytes max_items;
      bytes_limit = unfold new_memory in refl;
      items_limit = unfold new_memory in refl;
    }) in
    (
      w.valid,
      omega (arith, w.items_limit, w.valid.bounded.item_bound),
      omega (arith, w.bytes_limit, w.valid.bounded.byte_bound, w.valid.linked.accounted),
    )
