-- ===== src/LogRotation/Tests.antt =====
-- A rotation of a log with two archives.
use centroid_x.Common.{ℕ, suc, zero, ◌≡◌, refl, ap, List, Option, some, replicate, length, arith}

-- Numbers in unary.
abbrev strokes : ℕ → List ℕ
strokes n = replicate n b'1'

length-strokes : (n : ℕ) → length (strokes n) ≡ n
length-strokes zero = refl
length-strokes (suc n) = omega (arith, length-strokes n)

strokes_inj : (m n : ℕ) → strokes m ≡ strokes n → m ≡ n
strokes_inj m n e = omega (arith, ap length e, length-strokes m, length-strokes n)

-- Every path has a file that holds its own name.
abbrev full : List ℕ → Option (List ℕ)
full path = some path
