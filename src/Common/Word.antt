-- ===== src/Common/Word.antt =====
-- Unsigned machine words as numbers: the wrap of `unsigned int` and `unsigned long long`.
use Prim.Native.Nat.{ℕ, ◌+◌, ◌-◌, ◌%◌, ◌^◌, ◌≤◌, ◌<◌}
use mathlib.Core.Path.{◌≡◌}
use native.Mathlib.Omega.{arith}
use centroid_x.Common.Tests.{ltb, if◌then◌else◌}

-- `unsigned int` and `unsigned long long` arithmetic wraps.
abbrev pub u32 : ℕ → ℕ
u32 n = n % 2 ^ 32

abbrev pub u64 : ℕ → ℕ
u64 n = n % 2 ^ 64

-- `a - b` on `unsigned long long`, with no guard.
abbrev pub sub64 : ℕ → ℕ → ℕ
sub64 a b = (a + 2 ^ 64 - b) % 2 ^ 64

-- `now > since ? now - since : 0`, the form in which the program measures an interval.
abbrev pub elapsed : ℕ → ℕ → ℕ
elapsed now since = if ltb since now then now - since else 0

pub sub64-eq-sub : (a b : ℕ) → a < 2 ^ 64 → b ≤ a → sub64 a b ≡ a - b
sub64-eq-sub a b h k = omega arith

pub elapsed-eq-sub : (now since : ℕ) → elapsed now since ≡ now - since
elapsed-eq-sub now since = ground arith
