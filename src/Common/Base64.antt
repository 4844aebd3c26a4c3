-- ===== src/Common/Base64.antt =====
-- `base64.RawURLEncoding.EncodeToString` of the Go library: three bytes give four characters of the
-- URL-safe alphabet, and nothing is padded.
use Prim.Native.Char.{Char}
use Prim.Native.Nat.{ℕ, zero, suc, ◌+◌, ◌*◌, ◌/◌, ◌%◌, ◌<◌}
use Prim.Native.String.{String}
use mathlib.Core.Bool.{false}
use mathlib.Core.List.{List, [], ◌∷◌}
use mathlib.Core.Path.{◌≡◌, refl}
use native.Mathlib.Omega.{arith}
use mathlib.Core.Logic.{inl, inr}
use text.Mathlib.Text.{◌==◌}
use text.Mathlib.TextEquality.{eq_iff}
use text.Mathlib.TextLemmas.{cons-ne-nil}
use test.Common.Lists.{length}
use test.Common.Tests.{Bool-cases}

abbrev alphabet : String
alphabet = "ABCDEFGHIJKLMNOPQRSTUVWXYZabcdefghijklmnopqrstuvwxyz0123456789-_"

char_at : ℕ → String → Char
char_at n String.[] = "_"
char_at zero (String.◌∷◌ c s) = c
char_at (suc n) (String.◌∷◌ c s) = char_at n s

-- The character of a group of six bits.
unfoldable pub sextet : ℕ → Char
unfolding char_at
sextet n = char_at n alphabet

unfoldable pub encode : List ℕ → String
unfolding sextet
encode [] = ""
encode (a ∷ []) = String.◌∷◌ (sextet (a / 4)) (String.◌∷◌ (sextet (a % 4 * 16)) "")
encode (a ∷ b ∷ []) =
    String.◌∷◌ (sextet (a / 4))
      (String.◌∷◌ (sextet (a % 4 * 16 + b / 16)) (String.◌∷◌ (sextet (b % 16 * 4)) ""))
encode (a ∷ b ∷ c ∷ rest) = String.◌∷◌ (sextet (a / 4)) (
    String.◌∷◌ (sextet (a % 4 * 16 + b / 16))
      (String.◌∷◌ (sextet (b % 16 * 4 + c / 64)) (String.◌∷◌ (sextet (c % 64)) (encode rest))))

encode_runs : encode (0xfb ∷ 0xff ∷ 0 ∷ 1 ∷ []) ≡ "-_8AAQ"
unfolding encode
encode_runs = refl

-- The text of some bytes is not empty.
pub encode-ne : (bytes : List ℕ) → 0 < length bytes → (encode bytes == "") ≡ false
encode-ne bytes h = elim (Bool-cases (encode bytes == "")) [
  | inl e ↦ absurd (not_empty bytes h ((eq_iff (encode bytes) "").0 e))
  | inr n ↦ n
]
  where
    not_empty : (bytes : List ℕ) → 0 < length bytes → encode bytes ≡ "" → ⊥
    not_empty [] p q = absurd (omega arith)
    not_empty (a ∷ []) p q = unfold encode in cons-ne-nil _ _ q
    not_empty (a ∷ b ∷ []) p q = unfold encode in cons-ne-nil _ _ q
    not_empty (a ∷ b ∷ c ∷ rest) p q = unfold encode in cons-ne-nil _ _ q
