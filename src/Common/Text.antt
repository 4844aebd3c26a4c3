-- ===== src/Common/Text.antt =====
-- Texts as the lists of their code points, which is what `range` over a Go string visits, and the
-- functions of `strings` and `unicode` that the code calls.
use Prim.Native.Char.{code}
use Prim.Native.String.{String}
use mathlib.Core.Bool.{Bool, true, false, ◌&&◌, ◌||◌}
use mathlib.Core.List.{List, [], ◌∷◌, ◌++◌}
use mathlib.Core.Path.{◌≡◌, refl}
use Prim.Native.Nat.{ℕ}
use test.Common.Lists.{any, all}
use test.Common.Tests.{leb, eqb, if◌then◌else◌}

abbrev pub codes : String → List ℕ
codes String.[] = []
codes (String.◌∷◌ c s) = code c ∷ codes s

abbrev pub in_range : ℕ → ℕ → ℕ → Bool
in_range lo hi c = leb lo c && leb c hi

-- `unicode.IsSpace`
unfoldable pub is_space : ℕ → Bool
is_space c =
    in_range 9 13 c
    || eqb c 0x20
    || eqb c 0x85
    || eqb c 0xa0
    || eqb c 0x1680
    || in_range 0x2000 0x200a c
    || eqb c 0x2028
    || eqb c 0x2029
    || eqb c 0x202f
    || eqb c 0x205f
    || eqb c 0x3000

-- `unicode.IsControl`
unfoldable pub is_control : ℕ → Bool
is_control c = in_range 0 0x1f c || in_range 0x7f 0x9f c

-- `strings.TrimSpace(s) == ""`
unfoldable pub is_blank : List ℕ → Bool
unfolding is_space
is_blank s = all is_space s

-- Whether the text begins with two dots, at some place: `strings.Contains(s, "..")`.
unfoldable pub has_dot_dot : List ℕ → Bool
has_dot_dot [] = false
has_dot_dot (c ∷ []) = false
has_dot_dot (c ∷ d ∷ s) = (eqb c b'.' && eqb d b'.') || has_dot_dot (d ∷ s)

-- `strings.ContainsAny`
unfoldable pub contains_any : List ℕ → List ℕ → Bool
contains_any s chars = any (λ c. any (λ d. eqb c d) chars) s

unfoldable pub same_codes : List ℕ → List ℕ → Bool
same_codes [] [] = true
same_codes (a ∷ s) (b ∷ t) = eqb a b && same_codes s t
same_codes _ _ = false

-- The part of a path behind its last slash: `last` is what was read since the last slash.
unfoldable pub last_segment : List ℕ → List ℕ → List ℕ
last_segment last [] = last
last_segment last (c ∷ s) = last_segment (if eqb c b'/' then [] else last ++ c ∷ []) s

-- A text without the slashes at its end.
unfoldable pub strip_slashes : List ℕ → List ℕ
strip_slashes [] = []
strip_slashes (c ∷ s) =
    let rest = strip_slashes s in
    elim rest [ [] ↦ if eqb c b'/' then [] else c ∷ [] | d ∷ r ↦ c ∷ d ∷ r ]

base_of : List ℕ → List ℕ
base_of [] = b'/' ∷ []
base_of (c ∷ s) = last_segment [] (c ∷ s)

-- `filepath.Base`
unfoldable pub base : List ℕ → List ℕ
unfolding strip_slashes base_of last_segment
base [] = b'.' ∷ []
base (c ∷ s) = base_of (strip_slashes (c ∷ s))

base_runs :
    (base (codes "a/b//") ≡ codes "b")
    × (base (codes "//") ≡ codes "/")
    × (base (codes "") ≡ codes ".")
    × (base (codes "key_1") ≡ codes "key_1")
unfolding base
base_runs = (refl, refl, refl, refl)
