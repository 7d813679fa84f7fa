-- ===== src/MediaVideo/Values.antt =====
-- The arguments of a call of the video plugin: Lookup, StringAt and IntAt of
-- packages/media_kit_video_elinux/elinux/media_kit_video_elinux_plugin.cc.
use Prim.Native.String.{String}
use text.Mathlib.Text
use centroid_x.Common.{ℕ, List, [], Option, none, some, if◌then◌else◌}
use centroid_x.Common.Int.{pos}
use centroid_x.VideoGeometry.{Size, no_size}
use centroid_x.VideoGeometry.Numbers.{parse_nullable_int}

-- flutter::EncodableValue, with the kinds that the plugin looks for; a text is its bytes. A key that is
-- no string is never looked for.
mutual
  pub data Value : Type 0 where
    phrase : List ℕ → Value
    map : Entries → Value
    other : Value

  pub data Entries : Type 0 where
    empty : Entries
    entry : String → Value → Entries → Entries

-- Lookup.
unfoldable pub lookup : Entries → String → Option Value
lookup empty name = none
lookup (entry key value entries) name =
    if Text.◌==◌ key name then some value else lookup entries name

unfoldable pub string_at : Entries → String → List ℕ
unfolding lookup
string_at entries name = elim (lookup entries name) [
  | none ↦ []
  | some (phrase text) ↦ text
  | some (map m) ↦ []
  | some other ↦ []
]

unfoldable pub int_at : Entries → String → Option ℕ
unfolding string_at
int_at entries name = parse_nullable_int (string_at entries name)

abbrev pub or_zero : Option ℕ → ℕ
or_zero none = 0
or_zero (some n) = n

-- Size{IntAt(width).value_or(0), IntAt(height).value_or(0)}.
unfoldable pub size_at : Entries → Size
unfolding int_at
size_at entries = record {
  width = pos (or_zero (int_at entries "width"));
  height = pos (or_zero (int_at entries "height"));
}

unfoldable pub requested_size : Entries → Size
unfolding lookup
requested_size arguments = elim (lookup arguments "configuration") [
  | none ↦ no_size
  | some (phrase text) ↦ no_size
  | some (map configuration) ↦ size_at configuration
  | some other ↦ no_size
]
