-- ===== src/Common/Strings.antt =====
-- Go strings as lists of code points, and the functions of the package `strings` that the code calls.
use Prim.Native.Nat.{ℕ, ◌+◌}
use Prim.Native.Char.{code}
use Prim.Native.String.{String}
use mathlib.Core.Path.{◌≡◌, refl}
use native.Mathlib.Omega.{arith}
use mathlib.Core.Bool.{Bool, true, false, ◌&&◌, ◌||◌}
use mathlib.Core.List.{List, [], ◌∷◌, map, reverse}
use pod_backend.Common.Tests.{ltb, leb, ◌==◌, if◌then◌else◌}

abbrev pub Text : Type 0
Text = List ℕ

-- The code points of a literal.
abbrev pub codes : String → Text
codes String.[] = []
codes (String.◌∷◌ c s) = code c ∷ codes s

-- `unicode.IsSpace`.
unfoldable pub is_space : ℕ → Bool
is_space c =
    (leb 9 c && leb c 13)
    || c == 32
    || c == 0x85
    || c == 0xa0
    || c == 0x1680
    || (leb 0x2000 c && leb c 0x200a)
    || c == 0x2028
    || c == 0x2029
    || c == 0x202f
    || c == 0x205f
    || c == 0x3000

unfoldable pub trim_left : Text → Text
trim_left [] = []
trim_left (c ∷ s) = let rest = trim_left s in if is_space c then rest else c ∷ s

-- `strings.TrimSpace`.
unfoldable pub trim_space : Text → Text
unfolding trim_left
trim_space s = reverse (trim_left (reverse (trim_left s)))

-- `unicode.ToLower`, given its table beyond ASCII.
unfoldable pub lower_rune : (ℕ → ℕ) → ℕ → ℕ
lower_rune beyond c =
    if ltb c 128 then (if leb b'A' c && leb c b'Z' then c + 32 else c) else beyond c

-- `strings.ToLower`.
unfoldable pub to_lower : (ℕ → ℕ) → Text → Text
unfolding lower_rune
to_lower beyond s = map (lower_rune beyond) s

-- `s == ""`
abbrev pub is_empty : Text → Bool
is_empty [] = true
is_empty (_ ∷ _) = false

abbrev pub is_prefix : Text → Text → Bool
is_prefix [] s = true
is_prefix (c ∷ p) [] = false
is_prefix (c ∷ p) (d ∷ s) = c == d && is_prefix p s

-- `strings.Contains`.
unfoldable pub contains_text : Text → Text → Bool
contains_text [] p = is_prefix p []
contains_text (c ∷ s) p = is_prefix p (c ∷ s) || contains_text s p

-- Go's `<` on strings.
unfoldable pub ltb_text : Text → Text → Bool
ltb_text _ [] = false
ltb_text [] (_ ∷ _) = true
ltb_text (a ∷ s) (b ∷ t) = ltb a b || (a == b && ltb_text s t)

pub ltb_text_asym : (s t : Text) → ltb_text s t ≡ true → ltb_text t s ≡ false
unfolding ltb_text
ltb_text_asym [] [] h = refl
ltb_text_asym [] (b ∷ t) h = refl
ltb_text_asym (a ∷ s) [] h = cc
ltb_text_asym (a ∷ s) (b ∷ t) h = ground (arith, ltb_text_asym s t)
