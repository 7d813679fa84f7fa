-- ===== src/Host/Arguments.antt =====
-- The arguments of a call on the runner channel, which are read without being trusted. The kinds of
-- EncodableValue that the runner looks for are constructors, and all the others are one.
use Prim.Native.String.{String}
use text.Mathlib.Text.{◌==◌}
use centroid_x.Common.{ℕ, Bool, false, List, [], ◌∷◌, Option, none, some, if◌then◌else◌}
use centroid_x.Common.Int.{ℤ, pos, negsuc}
use centroid_x.DartLiveness.{Stamp}

-- `wide` is an int64_t and `narrow` an int32_t.
pub data Value : Type 0 where
  wide narrow : ℤ → Value
  flag : Bool → Value
  phrase : String → Value
  other : Value

-- ArgumentsOf: none when the call's arguments are no map. A key that is no string is never looked for.
abbrev pub Arguments : Type 0
Arguments = Option (List (String × Value))

-- `args->find(name)`.
unfoldable pub find : List (String × Value) → String → Option Value
find [] name = none
find ((key, value) ∷ entries) name = if key == name then some value else find entries name

abbrev as_int : Value → ℤ → ℤ
as_int (wide value) fallback = value
as_int (narrow value) fallback = value
as_int _ fallback = fallback

abbrev as_flag : Value → Bool
as_flag (flag value) = value
as_flag _ = false

unfoldable pub int_arg : Arguments → String → ℤ → ℤ
unfolding find
int_arg none name fallback = fallback
int_arg (some entries) name fallback = elim (find entries name) [
  | none ↦ fallback
  | some value ↦ as_int value fallback
]

-- A negative number is read as 0.
abbrev clamp : ℤ → ℕ
clamp (pos n) = n
clamp (negsuc n) = 0

unfoldable pub unsigned_arg : Arguments → String → ℕ
unfolding int_arg
unsigned_arg args name = clamp (int_arg args name (pos 0))

unfoldable pub bool_arg : Arguments → String → Bool
unfolding find
bool_arg none name = false
bool_arg (some entries) name = elim (find entries name) [
  | none ↦ false
  | some value ↦ as_flag value
]

-- The stamp that a call of "liveness" carries.
unfoldable pub stamp_of : Arguments → Stamp
stamp_of args = record {
  epoch = int_arg args "epoch" (negsuc 0);
  uptime_ms = unsigned_arg args "uptimeMs";
  ticks = unsigned_arg args "ticks";
  frames = unsigned_arg args "frames";
  lag_ms = unsigned_arg args "lagMs";
  startup_complete = bool_arg args "startupComplete";
  raster_probed = bool_arg args "rasterProbed";
  raster_ok = bool_arg args "rasterOk";
}
