-- ===== src/VideoGeometry/Tests.antt =====
-- Sizes of videos.
use centroid_x.Common.{some, ◌<◌, ◌^◌, ◌≤◌, ◌≡◌, refl, ◌↔◌, Bool, true, false, ◌&&◌, leb, arith}
use centroid_x.Common.Int.{ℤ, pos}
use centroid_x.VideoGeometry.{
  Size, no_size, magnitude, has_no_area, fit_within_render_budget, resolve_render_size, clamp_to,
}
use centroid_x.CString.{codes}
use centroid_x.VideoGeometry.Numbers.{Numeral, parse_nullable_int, parse_nullable_int_iff}

-- The comparison that the scale amounts to, and the dimensions of ultra, halved.
abbrev exact : Size → Bool
exact size = leb (magnitude size.width) 1920 && leb (magnitude size.height) 1080

abbrev halved : Size → ℤ × ℤ
halved size = (pos 1920, pos 1080)

exact_iff :
    (size : Size)
    → has_no_area size ≡ false
    → (exact size ≡ true) ↔ ((magnitude size.width ≤ 1920) × (magnitude size.height ≤ 1080))
exact_iff size a = ground arith

abbrev ultra : Size
ultra = record { width = pos 3840; height = pos 2160 }

ultra-fits :
    resolve_render_size exact halved no_size ultra ≡ record { width = pos 1920; height = pos 1080 }
unfolding resolve_render_size fit_within_render_budget has_no_area clamp_to
ultra-fits = refl

parse_nullable_int_iff_example :
    (parse_nullable_int (codes "0720") ≡ some 720)
    ↔ (Numeral (codes "0720") 720 × (0 < 720) × (720 < 2 ^ 63))
parse_nullable_int_iff_example = parse_nullable_int_iff (codes "0720") 720
