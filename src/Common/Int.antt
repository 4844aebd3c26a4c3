-- ===== src/Common/Int.antt =====
-- The signed integers of the source, `int` and `int64`, over the native numbers.
use mathlib.Core.Bool.{Bool, true, false}
use Prim.Native.Nat.{ℕ}
use test.Common.Tests.{ltb, leb}

-- `negsuc n` is -(n + 1).
pub data ℤ : Type 0 where
  pos : ℕ → ℤ
  negsuc : ℕ → ℤ

-- `x < y`
abbrev pub ltb_ℤ : ℤ → ℤ → Bool
ltb_ℤ (pos a) (pos b) = ltb a b
ltb_ℤ (pos a) (negsuc b) = false
ltb_ℤ (negsuc a) (pos b) = true
ltb_ℤ (negsuc a) (negsuc b) = ltb b a

-- `x <= 0`
abbrev pub is_nonpositive : ℤ → Bool
is_nonpositive (pos n) = leb n 0
is_nonpositive (negsuc n) = true

-- `x < 0`
abbrev pub is_negative : ℤ → Bool
is_negative (pos n) = false
is_negative (negsuc n) = true

-- The value, where it is not negative.
abbrev pub to_ℕ : ℤ → ℕ
to_ℕ (pos n) = n
to_ℕ (negsuc n) = 0
