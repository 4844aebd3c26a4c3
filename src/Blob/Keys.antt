-- ===== src/Blob/Keys.antt =====
-- Keys of objects: a valid key is one plain file name, and every generated key is valid.
use test.Common.{
  ℕ, zero, suc, ◌+◌, ◌*◌, ◌/◌, ◌%◌, ◌<◌, ◌≡◌, refl, sym, ◌∙◌, String, Bool, true, false, ◌&&◌, ◌||◌,
  List, [], ◌∷◌, ◌++◌, arith, eqb, all, any, All, length,
}
use test.Common.Base64.{encode, sextet, encode-ne}
use test.Common.Text.{codes, base, last_segment, strip_slashes, same_codes}
use mathlib.Core.List.{append-nil, append_assoc}
use test.Blob.{valid_key, is_key_char}
use Prim.Native.Char.{code}

plain_chars :
    (s : List ℕ) → all is_key_char s ≡ true → any (λ c. eqb c b'/' || eqb c b'.') s ≡ false
unfolding is_key_char
plain_chars [] p = refl
plain_chars (c ∷ s) p = ground (arith, plain_chars s)

-- A valid key has no slash and no dot, so that it names a file in the storage's own directory.
pub valid_key_lem :
    (key : String) → valid_key key ≡ true → any (λ c. eqb c b'/' || eqb c b'.') (codes key) ≡ false
unfolding valid_key
valid_key_lem key h = plain_chars (codes key) (ground arith)

all_below : ℕ → (ℕ → Bool) → Bool
all_below zero p = true
all_below (suc n) p = p n && all_below n p

all_below_lem : (n : ℕ) (p : ℕ → Bool) (i : ℕ) → all_below n p ≡ true → i < n → p i ≡ true
unfolding all_below
all_below_lem zero p i h lt = absurd (omega arith)
all_below_lem (suc n) p i h lt = ground (arith, all_below_lem n p i)

sextet_table : all_below 64 (λ i. is_key_char (code (sextet i))) ≡ true
unfolding all_below is_key_char sextet
sextet_table = refl

sextet_key_char : (i : ℕ) → i < 64 → is_key_char (code (sextet i)) ≡ true
sextet_key_char i h = all_below_lem 64 _ i sextet_table h

abbrev AreBytes : List ℕ → Type 0
AreBytes = All (λ b. b < 256)

encode_key_chars : (bytes : List ℕ) → AreBytes bytes → all is_key_char (codes (encode bytes)) ≡ true
unfolding encode
encode_key_chars [] h = refl
encode_key_chars (a ∷ []) h =
    rw (sextet_key_char (a / 4) (omega arith), sextet_key_char (a % 4 * 16) (omega arith))
encode_key_chars (a ∷ b ∷ []) h = rw (
  sextet_key_char (a / 4) (omega arith),
  sextet_key_char (a % 4 * 16 + b / 16) (omega arith),
  sextet_key_char (b % 16 * 4) (omega arith),
)
encode_key_chars (a ∷ b ∷ c ∷ rest) h =
    rw
      (
        sextet_key_char (a / 4) (omega arith),
        sextet_key_char (a % 4 * 16 + b / 16) (omega arith),
        sextet_key_char (b % 16 * 4 + c / 64) (omega arith),
        sextet_key_char (c % 64) (omega arith),
      )
      (encode_key_chars rest h.1.1.1)

same_codes_refl : (s : List ℕ) → same_codes s s ≡ true
unfolding same_codes
same_codes_refl [] = refl
same_codes_refl (c ∷ s) = ground (arith, same_codes_refl s)

strip_key : (s : List ℕ) → all is_key_char s ≡ true → strip_slashes s ≡ s
unfolding strip_slashes is_key_char
strip_key [] h = refl
strip_key (c ∷ []) h = ground arith
strip_key (c ∷ d ∷ s) h = ground (arith, strip_key (d ∷ s))

last_key : (last s : List ℕ) → all is_key_char s ≡ true → last_segment last s ≡ last ++ s
unfolding last_segment is_key_char
last_key last [] h = sym (append-nil last)
last_key last (c ∷ s) h =
    let other : eqb c b'/' ≡ false = ground arith in
    rw other (last_key (last ++ c ∷ []) s (ground arith) ∙ append_assoc last (c ∷ []) s)

base_key : (s : List ℕ) → all is_key_char s ≡ true → 0 < length s → base s ≡ s
unfolding base
base_key [] h p = absurd (omega arith)
base_key (c ∷ s) h p = rw (strip_key (c ∷ s) h) (last_key [] (c ∷ s) h)

codes_pos : (bytes : List ℕ) → 0 < length bytes → 0 < length (codes (encode bytes))
unfolding encode
codes_pos [] p = absurd (omega arith)
codes_pos (a ∷ []) p = omega arith
codes_pos (a ∷ b ∷ []) p = omega arith
codes_pos (a ∷ b ∷ c ∷ rest) p = omega arith

-- The text of at least one random byte is a valid key: the storage never refuses the keys of
-- uploads.
pub valid_key-encode :
    (bytes : List ℕ) → AreBytes bytes → 0 < length bytes → valid_key (encode bytes) ≡ true
unfolding valid_key
valid_key-encode bytes h p =
    let chars = encode_key_chars bytes h in
    rw
      (
        encode-ne bytes p,
        base_key (codes (encode bytes)) chars (codes_pos bytes p),
        same_codes_refl (codes (encode bytes)),
      )
      chars
