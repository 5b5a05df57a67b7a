-- ===== src/Prelude/Texts.antt =====
-- Texts as lists of code points, the order of Python's `str`, its white space, and sets of names.
use Prim.Native.Char.{code}
use Prim.Native.Nat.{ℕ}
use Prim.Native.String.{String}
use mathlib.Core.Path.{◌≡◌, refl}
use mathlib.Core.Bool.{Bool, true, false, ◌&&◌, ◌||◌}
use mathlib.Core.Logic.{◌⊎◌, inl, inr}
use mathlib.Core.List.{List, [], ◌∷◌}
use native.Mathlib.Omega.{arith}
use zhiyan_personal_academic.Prelude.Tests.{leb, ltb, ◌==◌, ◌=ᵗ◌, if◌then◌else◌}
use zhiyan_personal_academic.Prelude.Lists.{any, all}

abbrev pub codes : String → List ℕ
codes String.[] = []
codes (String.◌∷◌ c s) = code c ∷ codes s

abbrev pub contains : List String → String → Bool
contains names name = any (λ other. other =ᵗ name) names

-- `len(names) != len(set(names))`.
unfoldable pub has_duplicates : List String → Bool
has_duplicates [] = false
has_duplicates (name ∷ names) = contains names name || has_duplicates names

-- `a < b`, by code points.
unfoldable pub codes_before : List ℕ → List ℕ → Bool
codes_before a [] = false
codes_before [] (d ∷ ds) = true
codes_before (c ∷ cs) (d ∷ ds) = ltb c d || (c == d && codes_before cs ds)

unfoldable pub text_before : String → String → Bool
text_before s t = codes_before (codes s) (codes t)

-- `str.isspace` of one character.
unfoldable pub is_space : ℕ → Bool
is_space c =
    (leb 9 c && leb c 13)
    || (leb 28 c && leb c 32)
    || c == 133
    || c == 160
    || c == 5760
    || (leb 8192 c && leb c 8202)
    || c == 8232
    || c == 8233
    || c == 8239
    || c == 8287
    || c == 12288

-- `not s.strip()`.
unfoldable pub is_blank : List ℕ → Bool
is_blank s = all is_space s

-- `str.lstrip`.
unfoldable pub strip_left : List ℕ → List ℕ
strip_left [] = []
strip_left (c ∷ cs) = let rest = strip_left cs in if is_space c then rest else c ∷ cs

-- `rstrip`: what is left after the last character that is no space.
unfoldable pub strip_right : List ℕ → List ℕ
strip_right [] = []
strip_right (c ∷ cs) = let rest = strip_right cs in if is_blank (c ∷ cs) then [] else c ∷ rest

abbrev pub strip : List ℕ → List ℕ
strip s = strip_right (strip_left s)

unfoldable pub starts_with : List ℕ → List ℕ → Bool
starts_with [] s = true
starts_with (c ∷ cs) [] = false
starts_with (c ∷ cs) (d ∷ ds) = c == d && starts_with cs ds

-- `part in s`.
unfoldable pub is_part_of : List ℕ → List ℕ → Bool
is_part_of part [] = starts_with part []
is_part_of part (c ∷ cs) = starts_with part (c ∷ cs) || is_part_of part cs

codes_before_asymm : (a b : List ℕ) → codes_before a b ≡ true → codes_before b a ≡ false
unfolding codes_before
codes_before_asymm a [] h = ground arith
codes_before_asymm [] (d ∷ ds) h = refl
codes_before_asymm (c ∷ cs) (d ∷ ds) h = ground (arith, codes_before_asymm cs ds)

codes_before_cotrans :
    (a b c : List ℕ)
    → codes_before a c ≡ true
    → (codes_before a b ≡ true) ⊎ (codes_before b c ≡ true)
unfolding codes_before
codes_before_cotrans a b [] h = absurd (ground arith)
codes_before_cotrans a [] (z ∷ zs) h = inr refl
codes_before_cotrans [] (y ∷ ys) (z ∷ zs) h = inl refl
codes_before_cotrans (x ∷ xs) (y ∷ ys) (z ∷ zs) h = ground (arith, codes_before_cotrans xs ys zs)

pub text_before_asymm : (s t : String) → text_before s t ≡ true → text_before t s ≡ false
unfolding text_before
text_before_asymm s t h = codes_before_asymm (codes s) (codes t) h

pub text_before_cotrans :
    (s t u : String) → text_before s u ≡ true → (text_before s t ≡ true) ⊎ (text_before t u ≡ true)
unfolding text_before
text_before_cotrans s t u h = codes_before_cotrans (codes s) (codes t) (codes u) h
