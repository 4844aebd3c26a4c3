-- ===== src/Cache/Chain.antt =====
-- The list of elements: finding and dropping by key, with identities and keys that never repeat.
use test.Common.{
  ℕ, zero, suc, ◌+◌, ◌-◌, ◌≤◌, ◌≡◌, ◌≢◌, ◌⊎◌, refl, subst, inl, inr, Bool-cases, String, true,
  false, Option, none, some, List, [], ◌∷◌, ◌++◌, arith, ◌==◌, eq_iff, eq_refl, if◌then◌else◌,
  length, take, sum_by, select, Bool, All,
}
use test.Cache.{Element, unlink, linked, back}

unfoldable pub find_key : String → List Element → Option Element
find_key k [] = none
find_key k (e ∷ l) = if e.value.key == k then some e else find_key k l

unfoldable pub drop_key : String → List Element → List Element
drop_key k [] = []
drop_key k (e ∷ l) = let rest = drop_key k l in if e.value.key == k then rest else e ∷ rest

abbrev pub size_of : Element → ℕ
size_of e = e.value.size

-- Neither the identity nor the key of `e` occurs in the list.
abbrev pub IsNew : Element → List Element → Type 0
IsNew e [] = Unit
IsNew e (f ∷ l) = (f.id ≢ e.id) × (f.value.key ≢ e.value.key) × IsNew e l

abbrev pub AllDistinct : List Element → Type 0
AllDistinct [] = Unit
AllDistinct (e ∷ l) = IsNew e l × AllDistinct l

pub key-find_key :
    (k : String) (l : List Element) (e : Element) → find_key k l ≡ some e → e.value.key ≡ k
unfolding find_key
key-find_key k [] e h = cc
key-find_key k (f ∷ l) e h = ground (arith, eq_iff f.value.key k, key-find_key k l e)

pub find_key-drop_key :
    (k j : String) (l : List Element)
    → find_key j (drop_key k l) ≡ (if k == j then none else find_key j l)
unfolding find_key drop_key
find_key-drop_key k j [] = ground arith
find_key-drop_key k j (f ∷ l) =
    ground (arith, find_key-drop_key k j l, eq_iff f.value.key k, eq_iff f.value.key j, eq_iff k j)

pub drop_key_absent : (k : String) (l : List Element) → find_key k l ≡ none → drop_key k l ≡ l
unfolding find_key drop_key
drop_key_absent k [] h = refl
drop_key_absent k (f ∷ l) h = ground (arith, drop_key_absent k l)

IsNew-find_key : (e : Element) (l : List Element) → IsNew e l → find_key e.value.key l ≡ none
unfolding find_key
IsNew-find_key e [] h = refl
IsNew-find_key e (f ∷ l) h = ground (arith, IsNew-find_key e l, eq_iff f.value.key e.value.key)

IsNew-id :
    (e : Element) (k : String) (l : List Element) (f : Element)
    → IsNew e l
    → find_key k l ≡ some f
    → f.id ≢ e.id
unfolding find_key
IsNew-id e k [] f h p = cc
IsNew-id e k (g ∷ l) f h p = ground (arith, IsNew-id e k l f)

pub IsNew-drop_key :
    (e : Element) (k : String) (l : List Element) → IsNew e l → IsNew e (drop_key k l)
unfolding drop_key
IsNew-drop_key e k [] h = tt
IsNew-drop_key e k (f ∷ l) h = ground (arith, IsNew-drop_key e k l)

pub AllDistinct-drop_key :
    (k : String) (l : List Element) → AllDistinct l → AllDistinct (drop_key k l)
unfolding drop_key
AllDistinct-drop_key k [] h = tt
AllDistinct-drop_key k (f ∷ l) h = ground (arith, AllDistinct-drop_key k l, IsNew-drop_key f k l)

pub All-drop_key {κ} :
    (P : Element → Type κ) (k : String) (l : List Element) → All P l → All P (drop_key k l)
unfolding drop_key
All-drop_key P k [] h = tt
All-drop_key P k (f ∷ l) h =
    elim (f.value.key == k) as (λ b. All P (if b then drop_key k l else f ∷ drop_key k l)) [
      | true ↦ All-drop_key P k l h.1
      | false ↦ (h.0, All-drop_key P k l h.1)
    ]

module _ (k : String) where
  -- To unlink the element that is found by a key is to drop the key.
  pub unlink-drop_key :
      (l : List Element) (e : Element)
      → AllDistinct l
      → find_key k l ≡ some e
      → unlink e.id l ≡ drop_key k l
  unfolding find_key drop_key unlink
  unlink-drop_key [] e d p = cc
  unlink-drop_key (f ∷ l) e d p = ground (
    arith,
    unlink-drop_key l e,
    IsNew-find_key f l,
    IsNew-id f k l e,
    drop_key_absent k l,
    eq_iff f.value.key k,
  )

  pub linked-find_key :
      (l : List Element) (e : Element) → find_key k l ≡ some e → linked e.id l ≡ true
  unfolding find_key linked
  linked-find_key [] e p = cc
  linked-find_key (f ∷ l) e p = ground (arith, linked-find_key l e)

  pub size-drop_key :
      (l : List Element) (e : Element)
      → AllDistinct l
      → find_key k l ≡ some e
      → sum_by size_of l ≡ size_of e + sum_by size_of (drop_key k l)
  unfolding find_key drop_key
  size-drop_key [] e d p = cc
  size-drop_key (f ∷ l) e d p =
      ground
        (arith, size-drop_key l e, IsNew-find_key f l, drop_key_absent k l, eq_iff f.value.key k)

  pub length-drop_key :
      (l : List Element) (e : Element)
      → AllDistinct l
      → find_key k l ≡ some e
      → length l ≡ suc (length (drop_key k l))
  unfolding find_key drop_key
  length-drop_key [] e d p = cc
  length-drop_key (f ∷ l) e d p =
      ground
        (arith, length-drop_key l e, IsNew-find_key f l, drop_key_absent k l, eq_iff f.value.key k)

  pub length-drop_key-le : (l : List Element) → length (drop_key k l) ≤ length l
  unfolding drop_key
  length-drop_key-le [] = omega arith
  length-drop_key-le (f ∷ l) = ground (arith, length-drop_key-le l)

-- An element that is new to a list is not the one that stands at its back.
IsNew-back :
    (f : Element) (l : List Element) (e : Element)
    → IsNew f l
    → back l ≡ some e
    → f.value.key ≢ e.value.key
unfolding back
IsNew-back f [] e h p = cc
IsNew-back f (g ∷ []) e h p = λ q. ground arith
IsNew-back f (g ∷ x ∷ l) e h p = IsNew-back f (x ∷ l) e h.2 p

-- The back element is the one found by its key.
pub find_key-back :
    (l : List Element) (e : Element)
    → AllDistinct l
    → back l ≡ some e
    → find_key e.value.key l ≡ some e
unfolding find_key back
find_key-back [] e d p = cc
find_key-back (f ∷ []) e d p = ground (arith, eq_refl f.value.key)
find_key-back (f ∷ g ∷ l) e d p =
    ground (
      arith,
      find_key-back (g ∷ l) e d.1,
      IsNew-back f (g ∷ l) e d.0,
      eq_iff f.value.key e.value.key,
    )

-- To drop the key of the back element is to keep all elements but the last.
pub drop_key-back :
    (l : List Element) (e : Element)
    → AllDistinct l
    → back l ≡ some e
    → drop_key e.value.key l ≡ take (length l - 1) l
unfolding drop_key back take
drop_key-back [] e d p = cc
drop_key-back (f ∷ []) e d p = ground (arith, eq_refl f.value.key)
drop_key-back (f ∷ g ∷ l) e d p =
    ground (
      arith,
      drop_key-back (g ∷ l) e d.1,
      IsNew-back f (g ∷ l) e d.0,
      eq_iff f.value.key e.value.key,
    )

pub back_of_cons : (e : Element) (l : List Element) → (f : Element) × (back (e ∷ l) ≡ some f)
unfolding back
back_of_cons e [] = (e, refl)
back_of_cons e (g ∷ l) = back_of_cons g l

-- A property of all elements holds of the one that is found.
pub All_of_found {κ} :
    (P : Element → Type κ) (k : String) (l : List Element) {e : Element}
    → All P l
    → find_key k l ≡ some e
    → P e
unfolding find_key
All_of_found P k [] h p = absurd (cc)
All_of_found P k (f ∷ l) {e} h p = elim (Bool-cases (f.value.key == k)) [
  | inl here ↦ subst P (found_head k f l e here p) h.0
  | inr there ↦ All_of_found P k l h.1 (rw (there, find_key) at p)
]
  where
    found_head :
        (k : String) (f : Element) (l : List Element) (e : Element)
        → (f.value.key == k) ≡ true
        → find_key k (f ∷ l) ≡ some e
        → f ≡ e
    found_head k f l e t q = ground arith

-- The element that is found by its key is new to the rest.
pub IsNew-of_dropped :
    (e : Element) (l : List Element)
    → AllDistinct l
    → find_key e.value.key l ≡ some e
    → IsNew e (drop_key e.value.key l)
unfolding find_key drop_key
IsNew-of_dropped e [] d p = tt
IsNew-of_dropped e (f ∷ l) d p = ground (
  arith,
  IsNew-of_dropped e l,
  IsNew-find_key f l,
  IsNew-id f e.value.key l e,
  drop_key_absent e.value.key l,
  eq_iff f.value.key e.value.key,
)

-- A front part holds an element of the list under its key, or none.
pub find_key-take :
    (n : ℕ) (k : String) (l : List Element)
    → (find_key k (take n l) ≡ none) ⊎ (find_key k (take n l) ≡ find_key k l)
unfolding find_key take
find_key-take zero k l = inl refl
find_key-take (suc n) k [] = inl refl
find_key-take (suc n) k (e ∷ l) = ground (arith, find_key-take n k l)

IsNew-middle :
    (g : Element) (front : List Element) (e : Element) (rest : List Element)
    → IsNew g (front ++ e ∷ rest)
    → e.value.key ≢ g.value.key
IsNew-middle g [] e rest h = h.1
IsNew-middle g (f ∷ front) e rest h = IsNew-middle g front e rest h.2

pub find_key-middle :
    (front : List Element) (e : Element) (rest : List Element)
    → AllDistinct (front ++ e ∷ rest)
    → find_key e.value.key (front ++ e ∷ rest) ≡ some e
unfolding find_key
find_key-middle [] e rest d = rw (eq_refl e.value.key)
find_key-middle (g ∷ front) e rest d = ground (
  arith,
  find_key-middle front e rest d.1,
  IsNew-middle g front e rest d.0,
  eq_iff g.value.key e.value.key,
)

pub drop_key-middle :
    (front : List Element) (e : Element) (rest : List Element)
    → AllDistinct (front ++ e ∷ rest)
    → drop_key e.value.key (front ++ e ∷ rest) ≡ front ++ rest
unfolding drop_key
drop_key-middle [] e rest d =
    rw (eq_refl e.value.key) (drop_key_absent e.value.key rest (IsNew-find_key e rest d.0))
drop_key-middle (g ∷ front) e rest d = ground (
  arith,
  drop_key-middle front e rest d.1,
  IsNew-middle g front e rest d.0,
  eq_iff g.value.key e.value.key,
)

-- To find a key among the selected elements is to find it among all and to test what is found.
pub find_key-select :
    (p : Element → Bool) (k : String) (l : List Element)
    → AllDistinct l
    → find_key k (select p l)
      ≡ elim (find_key k l) [ none ↦ none | some e ↦ if p e then some e else none ]
unfolding find_key
find_key-select p k [] d = refl
find_key-select p k (f ∷ l) d =
    ground (arith, find_key-select p k l d.1, IsNew-find_key f l d.0, eq_iff f.value.key k)
