-- ===== src/Common/Bytes.antt =====
-- Equality of byte strings: `bytes.Equal`, `subtle.ConstantTimeCompare`, and `=` on `bytea`.
use Prim.Native.Nat.{ℕ}
use mathlib.Core.Bool.{Bool, true, false, ◌&&◌}
use mathlib.Core.List.{List, [], ◌∷◌}
use mathlib.Core.Logic.{◌↔◌}
use mathlib.Core.Path.{◌≡◌, refl}
use native.Mathlib.Omega.{arith}
use test.Common.Tests.{eqb}

unfoldable pub same_bytes : List ℕ → List ℕ → Bool
same_bytes [] [] = true
same_bytes (a ∷ x) (b ∷ y) = eqb a b && same_bytes x y
same_bytes _ _ = false

pub same_bytes_refl : (x : List ℕ) → same_bytes x x ≡ true
unfolding same_bytes
same_bytes_refl [] = refl
same_bytes_refl (a ∷ x) = ground (arith, same_bytes_refl x)

pub eq_of_same_bytes : (x y : List ℕ) → same_bytes x y ≡ true → x ≡ y
unfolding same_bytes
eq_of_same_bytes [] [] h = refl
eq_of_same_bytes (a ∷ x) (b ∷ y) h = ground (arith, eq_of_same_bytes x y)
eq_of_same_bytes [] (b ∷ y) h = cc
eq_of_same_bytes (a ∷ x) [] h = cc

pub same_bytes_iff : (x y : List ℕ) → (same_bytes x y ≡ true) ↔ (x ≡ y)
same_bytes_iff x y = (eq_of_same_bytes x y, λ e. rw e (same_bytes_refl y))
