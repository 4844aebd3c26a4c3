-- ===== src/Cache/Store.antt =====
-- `Set` of cache.go: which entries it stores, what a later `Get` returns, and what it evicts.
use test.Common.{
  take, ℕ, zero, suc, ◌+◌, ◌≤◌, ◌<◌, ◌≡◌, ◌≢◌, ◌⊎◌, refl, sym, ap, subst, ◌∙◌, String, Bool, true,
  false, ◌||◌, none, some, List, ◌∷◌, inl, inr, arith, ◌==◌, eq_iff, eq_refl, ltb, leb, eqb,
  if◌then◌else◌, length, Bool-cases,
}
use mathlib.Core.Path.{subst₂}
use test.Cache.{Memory, Element, Item, Entry, get, set, push_front, evict, entry_size, stored_entry}
use test.Cache.Chain.{find_key, drop_key, find_key-take, find_key-drop_key}
use test.Cache.Eviction.{IsLongestFit, evict_lem}
use test.Cache.Invariant.{IsLinked, IsValid, push_front_lem}
use test.Cache.Operations.{get_lem, live}

-- The early return of `Set` is not taken.
pub record Accepts (cancelled : Bool) (key : String) (ttl : ℕ) (c : Memory) : Type 0 where
  pub running : cancelled ≡ false
  pub keyed : (key == "") ≡ false
  pub lasting : 0 < ttl
  pub byte_room : 0 < c.max_bytes
  pub item_room : 0 < c.max_items

module _ (now : ℕ) (key : String) (entry : Entry) (ttl : ℕ) (c : Memory) where
  -- The item that `Set` builds.
  abbrev pub item_of : Item
  item_of =
      let kept = stored_entry now key entry c.max_bytes in
      record { key = key; entry = kept; expires_at = now + ttl; size = entry_size key kept }

  abbrev pub pushed : Memory
  pushed = push_front key item_of c

  set_skipped :
      (cancelled : Bool)
      → (cancelled || key == "" || eqb ttl 0 || eqb c.max_bytes 0 || eqb c.max_items 0) ≡ true
      → set cancelled now key entry ttl c ≡ c
  unfolding set
  set_skipped cancelled t = rw t

  set_too_large :
      (cancelled : Bool)
      → ltb c.max_bytes item_of.size ≡ true
      → set cancelled now key entry ttl c ≡ c
  set_too_large cancelled t =
      elim (Bool-cases
        (cancelled || key == "" || eqb ttl 0 || eqb c.max_bytes 0 || eqb c.max_items 0)) [
          | inl skip ↦ set_skipped cancelled skip
          | inr go ↦ unfold set in rw (go, t)
        ]

  pub set_stored :
      (cancelled : Bool)
      → Accepts cancelled key ttl c
      → item_of.size ≤ c.max_bytes
      → set cancelled now key entry ttl c ≡ evict (length pushed.lru) pushed
  set_stored cancelled a fits =
      let go : (cancelled || key == "" || eqb ttl 0 || eqb c.max_bytes 0 || eqb c.max_items 0)
          ≡ false =
        ground arith in
      let small : ltb c.max_bytes item_of.size ≡ false = ground arith in
      unfold set in rw (go, small)

  -- Either `Set` changes nothing, or it links the new item in front and evicts.
  pub set_cases :
      (cancelled : Bool)
      → (set cancelled now key entry ttl c ≡ c)
        ⊎ (Accepts cancelled key ttl c
            × (item_of.size ≤ c.max_bytes)
            × (set cancelled now key entry ttl c ≡ evict (length pushed.lru) pushed))
  set_cases cancelled =
      elim (Bool-cases
        (cancelled || key == "" || eqb ttl 0 || eqb c.max_bytes 0 || eqb c.max_items 0)) [
          | inl skip ↦ inl (set_skipped cancelled skip)
          | inr go ↦ elim (Bool-cases (ltb c.max_bytes item_of.size)) [
            | inl large ↦ inl (set_too_large cancelled large)
            | inr small ↦
                let a : Accepts cancelled key ttl c = ground arith in
                let fits : item_of.size ≤ c.max_bytes = ground arith in
                inr (a, fits, set_stored cancelled a fits)
          ]
        ]

  -- What `Set` leaves where it stores: the longest fitting front part of the new item before the
  -- others.
  set_lem :
      (cancelled : Bool)
      → IsValid c
      → Accepts cancelled key ttl c
      → item_of.size ≤ c.max_bytes
      → (n : ℕ) × ((set cancelled now key entry ttl c).lru
          ≡ take n (record { id = c.next_id; value = item_of } ∷ drop_key key c.lru))
        × IsLongestFit c.max_items c.max_bytes n
            (record { id = c.next_id; value = item_of } ∷ drop_key key c.lru)
        × IsLinked (set cancelled now key entry ttl c)
        × ((set cancelled now key entry ttl c).max_bytes ≡ c.max_bytes)
        × ((set cancelled now key entry ttl c).max_items ≡ c.max_items)
  set_lem cancelled v a fits =
      let (linked, chain, max_bytes, max_items) = push_front_lem c item_of v.linked refl in
      let (n, kept, fit, linked', max_bytes', max_items') =
        evict_lem (length pushed.lru) pushed linked (omega arith) in
      rw (set_stored cancelled a fits) (
        n,
        kept ∙ ap (take n) chain,
        subst (λ l. IsLongestFit c.max_items c.max_bytes n l) chain
            (subst₂ (λ x y. IsLongestFit x y n pushed.lru) max_items max_bytes fit),
        linked',
        max_bytes' ∙ max_bytes,
        max_items' ∙ max_items,
      )

  -- `Set` keeps the limits.
  pub set_limits :
      (cancelled : Bool)
      → IsValid c
      → ((set cancelled now key entry ttl c).max_bytes ≡ c.max_bytes)
        × ((set cancelled now key entry ttl c).max_items ≡ c.max_items)
  set_limits cancelled v = elim (set_cases cancelled) [
    | inl same ↦ rw same (refl, refl)
    | inr (a, fits, _) ↦
        let (n, kept, fit, linked, max_bytes, max_items) = set_lem cancelled v a fits in
        (max_bytes, max_items)
  ]

  -- `Set` keeps the cache well formed and within its limits, whatever it is given.
  pub set-IsValid : (cancelled : Bool) → IsValid c → IsValid (set cancelled now key entry ttl c)
  set-IsValid cancelled v = elim (set_cases cancelled) [
    | inl same ↦ rw same v
    | inr (a, fits, _) ↦
        let (n, kept, fit, linked, max_bytes, max_items) = set_lem cancelled v a fits in
        record {
          linked = linked;
          bounded = record {
            item_bound = rw (kept, max_items) fit.fits.items_fit;
            byte_bound = rw (linked.accounted, kept, max_bytes) fit.fits.bytes_fit;
          };
        }
  ]

  -- The new item alone fits, so the loop keeps it.
  kept_front :
      (n : ℕ) (l : List Element) (e : Element)
      → 0 < c.max_items
      → e.value.size ≤ c.max_bytes
      → IsLongestFit c.max_items c.max_bytes n (e ∷ l)
      → 0 < n
  unfolding take
  kept_front zero l e p q fit = absurd (
      fit.longest 1 (omega arith) (omega arith)
        (record { items_fit = omega arith; bytes_fit = omega arith }))
  kept_front (suc n) l e p q fit = omega arith

  -- In a valid cache, an entry that `Set` accepts and that fits, without its body if need be, is
  -- returned by `Get` until its time to live is over, and not from then on.
  pub get-set :
      (later : ℕ)
      → IsValid c
      → Accepts false key ttl c
      → item_of.size ≤ c.max_bytes
      → (get false later key (set false now key entry ttl c)).1
        ≡ (if leb (now + ttl) later then none else some (stored_entry now key entry c.max_bytes))
  get-set later v a fits =
      let (n, kept, fit, _, _, _) = set_lem false v a fits in
      let front =
        kept_front n (drop_key key c.lru) (record { id = c.next_id; value = item_of }) a.item_room
          fits fit in
      (get_lem later key (set false now key entry ttl c) (set-IsValid false v)).0
      ∙ ap (live later) (ap (find_key key) kept ∙ found n front)
    where
      found :
          (n : ℕ)
          → 0 < n
          → find_key key (take n (record { id = c.next_id; value = item_of } ∷ drop_key key c.lru))
            ≡ some (record { id = c.next_id; value = item_of })
      found zero p = absurd (omega arith)
      found (suc n) p = unfold find_key take in rw (eq_refl key)

  -- In a valid cache, `Get` of any other key returns after `Set` what it returned before, or
  -- nothing: the entry was evicted.
  pub get-set_ne :
      (later : ℕ) (other : String) (cancelled : Bool)
      → IsValid c
      → key ≢ other
      → ((get false later other (set cancelled now key entry ttl c)).1 ≡ none)
        ⊎ ((get false later other (set cancelled now key entry ttl c)).1
            ≡ (get false later other c).1)
  get-set_ne later other cancelled v h = elim (set_cases cancelled) [
    | inl same ↦ inr (rw same)
    | inr (a, fits, _) ↦
        let (n, kept, fit, _, _, _) = set_lem cancelled v a fits in
        let read =
          (get_lem later other (set cancelled now key entry ttl c) (set-IsValid cancelled v)).0
          ∙ ap (λ l. live later (find_key other l)) kept in
        let old = (get_lem later other c v).0 in
        let miss : (key == other) ≡ false = ground (arith, eq_iff key other) in
        let past : find_key other (record { id = c.next_id; value = item_of } ∷ drop_key key c.lru)
            ≡ find_key other c.lru =
          unfold find_key in rw (miss, find_key-drop_key key other c.lru, miss) refl in
        elim (find_key-take n other
          (record { id = c.next_id; value = item_of } ∷ drop_key key c.lru)) [
            | inl gone ↦ inl (read ∙ ap (live later) gone)
            | inr stays ↦ inr (read ∙ ap (live later) (stays ∙ past) ∙ sym old)
          ]
  ]

  -- In a valid cache, `Set` of an accepted entry that fits evicts from the back, and no more
  -- than it must: it leaves the longest front part of the new item before the old ones that is
  -- within the limits.
  pub lru-set :
      IsValid c
      → Accepts false key ttl c
      → item_of.size ≤ c.max_bytes
      → (n : ℕ) × ((set false now key entry ttl c).lru
          ≡ take n (record { id = c.next_id; value = item_of } ∷ drop_key key c.lru))
        × IsLongestFit c.max_items c.max_bytes n
            (record { id = c.next_id; value = item_of } ∷ drop_key key c.lru)
  lru-set v a fits = let (n, kept, fit, _, _, _) = set_lem false v a fits in (n, kept, fit)
