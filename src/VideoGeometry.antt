-- ===== src/VideoGeometry.antt =====
-- packages/media_kit_video_elinux/elinux/video_geometry.h and video_geometry.cc: the size at which a
-- video is rendered, and the bytes of its frame. The arithmetic on doubles is two parameters: whether
-- the scale that fits a size into the budget is at least 1.0, and the two scaled and rounded
-- dimensions.
pub mod Budget
pub mod Numbers
mod Tests
use centroid_x.Common.{ℕ, ◌+◌, ◌-◌, ◌*◌, ◌%◌, ◌^◌, Bool, true, false, not, ◌||◌, ltb, if◌then◌else◌}
use centroid_x.Common.Int.{ℤ, pos, negsuc}

abbrev pub max_render_width : ℕ
max_render_width = 1920

abbrev pub max_render_height : ℕ
max_render_height = 1080

pub record Size : Type 0 where
  pub width : ℤ
  pub height : ℤ

abbrev pub is_positive : ℤ → Bool
is_positive (pos n) = ltb 0 n
is_positive (negsuc n) = false

unfoldable pub has_no_area : Size → Bool
has_no_area size = not (is_positive size.width) || not (is_positive size.height)

abbrev pub no_size : Size
no_size = record { width = pos 0; height = pos 0 }

-- `std::clamp` from 1 to a limit.
unfoldable pub clamp_to : ℕ → ℤ → ℤ
clamp_to limit (pos n) = if ltb n 1 then pos 1 else if ltb limit n then pos limit else pos n
clamp_to limit (negsuc n) = pos 1

unfoldable pub notifiable_size : Size → Size
notifiable_size size = if has_no_area size then record { width = pos 1; height = pos 1 } else size

-- The conversion to an `int32_t`.
abbrev pub int32 : ℕ → ℤ
int32 n = if ltb (n % 2 ^ 32) (2 ^ 31) then pos (n % 2 ^ 32) else negsuc (2 ^ 32 - (n % 2 ^ 32) - 1)

-- The value of a dimension that is positive.
abbrev pub magnitude : ℤ → ℕ
magnitude (pos n) = n
magnitude (negsuc n) = 0

unfoldable pub stride_bytes : Size → ℤ
stride_bytes size = if has_no_area size then pos 0 else int32 (magnitude size.width * 4)

unfoldable pub pixel_buffer_bytes : Size → ℕ
pixel_buffer_bytes size =
    if has_no_area size then 0 else (magnitude size.width * magnitude size.height * 4) % 2 ^ 64

module _ (scale_is_at_least_one : Size → Bool) (rounded : Size → ℤ × ℤ) where
  unfoldable pub fit_within_render_budget : Size → Size
  fit_within_render_budget size =
      if has_no_area size then no_size else if scale_is_at_least_one size then size else record {
        width = clamp_to max_render_width (rounded size).0;
        height = clamp_to max_render_height (rounded size).1;
      }

  -- A requested size with no area falls back to that of the video.
  unfoldable pub resolve_render_size : Size → Size → Size
  resolve_render_size requested video =
      fit_within_render_budget (if has_no_area requested then video else requested)
