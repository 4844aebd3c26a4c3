-- ===== src/Cache/Eviction.antt =====
-- The eviction loop of `Set`: what it keeps is the longest front part of the list that is within
-- the limits, so that the least recently used entries go first and no more than needed.
use test.Common.{
  take, take-take, take_all, length-take, ℕ, zero, suc, ◌-◌, ◌≤◌, ◌<◌, ◌≡◌, refl, sym, ap, subst,
  ◌∙◌, true, false, inl, inr, List, [], ◌∷◌, arith, ltb, length, sum_by, Bool-cases,
}
use mathlib.Core.Path.{subst₂}
use test.Cache.{Memory, Element, evict, over_limit, remove_back}
use test.Cache.Chain.{size_of}
use test.Cache.Invariant.{IsLinked, remove_back_lem}

-- A list of elements that a cache of these limits may hold.
pub record Fits (max_items max_bytes : ℕ) (l : List Element) : Type 0 where
  pub items_fit : length l ≤ max_items
  pub bytes_fit : sum_by size_of l ≤ max_bytes

-- The first `n` elements fit, and no longer front part does.
pub record IsLongestFit (max_items max_bytes n : ℕ) (l : List Element) : Type 0 where
  pub within : n ≤ length l
  pub fits : Fits max_items max_bytes (take n l)
  pub longest : (m : ℕ) → n < m → m ≤ length l → ¬ Fits max_items max_bytes (take m l)

within_of_test :
    (c : Memory) → IsLinked c → over_limit c ≡ false → Fits c.max_items c.max_bytes c.lru
unfolding over_limit
within_of_test c h t = let e = h.accounted in ground arith

over_of_test :
    (c : Memory) → IsLinked c → over_limit c ≡ true → ¬ Fits c.max_items c.max_bytes c.lru
unfolding over_limit
over_of_test c h t f =
    let e = h.accounted in let p = f.items_fit in let q = f.bytes_fit in ground arith

-- A list that fits is its own longest fit.
whole_fit :
    (max_items max_bytes : ℕ) (l : List Element)
    → Fits max_items max_bytes l
    → IsLongestFit max_items max_bytes (length l) l
whole_fit max_items max_bytes l f = record {
  within = omega arith;
  fits = rw (take_all (length l) l (omega arith)) f;
  longest = λ m p q. absurd (omega arith);
}

-- The longest fit of a list without its last element, where the list itself does not fit.
shorter_fit :
    (max_items max_bytes n : ℕ) (l : List Element)
    → ¬ Fits max_items max_bytes l
    → IsLongestFit max_items max_bytes n (take (length l - 1) l)
    → IsLongestFit max_items max_bytes n l
shorter_fit max_items max_bytes n l over fit =
    let cut : length (take (length l - 1) l) ≡ length l - 1 =
      length-take (length l - 1) l (omega arith) in
    let below : n ≤ length l - 1 = omega (arith, cut, fit.within) in
    record {
      within = omega arith;
      fits = rw (← take-take n (length l - 1) l below) fit.fits;
      longest = λ m p q f. elim (Bool-cases (ltb m (length l))) [
        | inl lt ↦
            fit.longest m p (ground arith) (rw (take-take m (length l - 1) l (ground arith)) f)
        | inr ge ↦ over (subst (Fits max_items max_bytes) (take_all m l (ground arith)) f)
      ];
    }

nil-Fits : (max_items max_bytes : ℕ) (l : List Element) → length l ≤ 0 → Fits max_items max_bytes l
nil-Fits max_items max_bytes [] h = record { items_fit = omega arith; bytes_fit = omega arith }
nil-Fits max_items max_bytes (e ∷ l) h = absurd (omega arith)

evict_done : (fuel : ℕ) (c : Memory) → over_limit c ≡ false → evict fuel c ≡ c
unfolding evict
evict_done zero c fine = refl
evict_done (suc fuel) c fine = rw (fine, evict)

evict_round :
    (fuel : ℕ) (c : Memory) → over_limit c ≡ true → evict (suc fuel) c ≡ evict fuel (remove_back c)
unfolding evict
evict_round fuel c over = rw (over, evict)

evict-zero : (c : Memory) → evict zero c ≡ c
unfolding evict
evict-zero c = refl

-- With a round for each element the loop ends by its test, and keeps the longest fit.
pub evict_lem :
    (fuel : ℕ) (c : Memory)
    → IsLinked c
    → length c.lru ≤ fuel
    → (n : ℕ) × ((evict fuel c).lru ≡ take n c.lru)
      × IsLongestFit c.max_items c.max_bytes n c.lru
      × IsLinked (evict fuel c)
      × ((evict fuel c).max_bytes ≡ c.max_bytes)
      × ((evict fuel c).max_items ≡ c.max_items)
evict_lem zero c h p = rw (evict-zero c) (
  length c.lru,
  sym (take_all (length c.lru) c.lru (omega arith)),
  whole_fit c.max_items c.max_bytes c.lru (nil-Fits c.max_items c.max_bytes c.lru p),
  h,
  refl,
  refl,
)
evict_lem (suc fuel) c h p = elim (Bool-cases (over_limit c)) [
  | inl over ↦
      let (linked, chain, max_bytes, max_items) = remove_back_lem c h in
      let (n, kept, fit, linked', max_bytes', max_items') =
        evict_lem fuel (remove_back c) linked
          (rw chain (omega (arith, length-take (length c.lru - 1) c.lru))) in
      let fit' : IsLongestFit c.max_items c.max_bytes n (take (length c.lru - 1) c.lru) =
        subst (λ l. IsLongestFit c.max_items c.max_bytes n l) chain
          (subst₂ (λ x y. IsLongestFit x y n (remove_back c).lru) max_items max_bytes fit) in
      rw (evict_round fuel c over) (
        n,
        kept
            ∙ ap (take n) chain
            ∙ take-take n (length c.lru - 1) c.lru
                (omega (arith, fit'.within, length-take (length c.lru - 1) c.lru)),
        shorter_fit c.max_items c.max_bytes n c.lru (over_of_test c h over) fit',
        linked',
        max_bytes' ∙ max_bytes,
        max_items' ∙ max_items,
      )
  | inr fine ↦ rw (evict_done (suc fuel) c fine) (
    length c.lru,
    sym (take_all (length c.lru) c.lru (omega arith)),
    whole_fit c.max_items c.max_bytes c.lru (within_of_test c h fine),
    h,
    refl,
    refl,
  )
]

-- More rounds than the loop needs change nothing.
evict_more :
    (fuel more : ℕ) (c : Memory)
    → fuel ≤ more
    → over_limit (evict fuel c) ≡ false
    → evict more c ≡ evict fuel c
evict_more zero more c h fine =
    let unchanged = evict-zero c in
    evict_done more c (subst (λ d. over_limit d ≡ false) unchanged fine) ∙ sym unchanged
evict_more (suc fuel) zero c h fine = absurd (omega arith)
evict_more (suc fuel) (suc more) c h fine = elim (Bool-cases (over_limit c)) [
  | inl over ↦
      let round = evict_round fuel c over in
      let rest = subst (λ d. over_limit d ≡ false) round fine in
      evict_round more c over ∙ evict_more fuel more (remove_back c) (omega arith) rest ∙ sym round
  | inr under ↦ evict_done (suc more) c under ∙ sym (evict_done (suc fuel) c under)
]

-- In a well linked cache the eviction loop of `Set` ends by its own test within a round for each
-- element of the list, which is the fuel that `Set` gives it: any more rounds change nothing.
pub evict_terminates :
    (c : Memory) (more : ℕ)
    → IsLinked c
    → length c.lru ≤ more
    → (over_limit (evict (length c.lru) c) ≡ false) × (evict more c ≡ evict (length c.lru) c)
evict_terminates c more h enough =
    let (n, kept, fit, linked, max_bytes, max_items) = evict_lem (length c.lru) c h (omega arith) in
    let fine = under_limit (evict (length c.lru) c) linked (
      subst₂ (λ x y. Fits x y (evict (length c.lru) c).lru) (sym max_items) (sym max_bytes)
        (subst (Fits c.max_items c.max_bytes) (sym kept) fit.fits)) in
    (fine, evict_more (length c.lru) more c enough fine)
  where
    under_limit :
        (d : Memory) → IsLinked d → Fits d.max_items d.max_bytes d.lru → over_limit d ≡ false
    under_limit d linked fit =
        unfold over_limit in ground (arith, linked.accounted, fit.items_fit, fit.bytes_fit)
