-- ===== src/CString.antt =====
-- Text as the program reads it from the environment: a `const char*` is none when it is null, and
-- otherwise the bytes before its NUL.
use Prim.Native.Char.{code}
use Prim.Native.String.{String}
use centroid_x.Common.{
  ℕ, ◌+◌, ◌≡◌, refl, ◌↔◌, Bool, true, false, ◌&&◌, List, [], ◌∷◌, leb, ◌==◌, if◌then◌else◌, arith,
}
use mathlib.Core.List.{map}

-- The bytes of an ASCII literal.
abbrev pub codes : String → List ℕ
codes String.[] = []
codes (String.◌∷◌ c s) = code c ∷ codes s

-- The two conversions inside EqualsIgnoreCase.
unfoldable pub to_lower : ℕ → ℕ
to_lower c = if leb b'A' c && leb c b'Z' then c + 32 else c

unfoldable pub equals_ignore_case : List ℕ → List ℕ → Bool
equals_ignore_case [] [] = true
equals_ignore_case [] (y ∷ ys) = false
equals_ignore_case (x ∷ xs) [] = false
equals_ignore_case (x ∷ xs) (y ∷ ys) = to_lower x == to_lower y && equals_ignore_case xs ys

equals_ignore_case_sound :
    (xs ys : List ℕ) → equals_ignore_case xs ys ≡ true → map to_lower xs ≡ map to_lower ys
unfolding equals_ignore_case
equals_ignore_case_sound [] [] h = refl
equals_ignore_case_sound [] (y ∷ ys) h = cc
equals_ignore_case_sound (x ∷ xs) [] h = cc
equals_ignore_case_sound (x ∷ xs) (y ∷ ys) h = ground (arith, equals_ignore_case_sound xs ys)

equals_ignore_case_complete :
    (xs ys : List ℕ) → map to_lower xs ≡ map to_lower ys → equals_ignore_case xs ys ≡ true
unfolding equals_ignore_case
equals_ignore_case_complete [] [] h = refl
equals_ignore_case_complete [] (y ∷ ys) h = cc
equals_ignore_case_complete (x ∷ xs) [] h = cc
equals_ignore_case_complete (x ∷ xs) (y ∷ ys) h = ground (arith, equals_ignore_case_complete xs ys)

-- The loop decides equality of the lower-case forms.
pub equals_ignore_case_iff :
    (xs ys : List ℕ) → (equals_ignore_case xs ys ≡ true) ↔ (map to_lower xs ≡ map to_lower ys)
equals_ignore_case_iff xs ys = (equals_ignore_case_sound xs ys, equals_ignore_case_complete xs ys)

-- So it is unchanged when a side is put into another case.
pub equals_ignore_case_congr :
    (xs ys zs : List ℕ)
    → map to_lower xs ≡ map to_lower ys
    → equals_ignore_case xs zs ≡ equals_ignore_case ys zs
equals_ignore_case_congr xs ys zs e =
    ground (arith, equals_ignore_case_iff xs zs, equals_ignore_case_iff ys zs)
