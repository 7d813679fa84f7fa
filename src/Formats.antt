-- ===== src/Formats.antt =====
-- Text that the C and C++ libraries format, taken as a parameter: `std::to_string` of a number,
-- unsigned or signed, and `snprintf` with "%.1f" of a number of milliseconds divided by 1000.0 (the function
-- Seconds of engine_rebuild_gate.cpp, session_rebuild_policy.cpp and dart_liveness.cpp), the stream form of that quotient,
-- and `snprintf` with "%08x" and "%04x".
use Prim.Native.Nat.{ℕ}
use centroid_x.Common.Int.{ℤ}
use Prim.Native.String.{String, ◌++◌}
use text.Mathlib.TextLemmas.{append-eq-nil_iff}
use mathlib.Core.Logic.{◌≢◌}

pub record Formats : Type 0 where
  pub to_string : ℕ → String
  pub to_string_signed : ℤ → String
  pub seconds : ℕ → String
  pub seconds_plain : ℕ → String
  pub hex8 : ℕ → String
  pub hex4 : ℕ → String

-- A line with a non-empty beginning is not empty.
pub append-ne-empty : (s t : String) → s ≢ "" → s ++ t ≢ ""
append-ne-empty s t h e = h ((append-eq-nil_iff {p = s} {q = t}).0 e).0
