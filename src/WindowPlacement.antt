-- ===== src/WindowPlacement.antt =====
-- centroid-hmi/windows/runner/window_placement.h and window_placement.cpp: where the window opens on
-- the monitor. The arithmetic on the scale factor, a double, is a parameter; the coordinates are those
-- of a desktop, so that no sum of them wraps.
pub mod Within
mod Tests
use centroid_x.Common.{ℕ, ◌+◌, ◌-◌, ◌/◌, Bool, ltb, if◌then◌else◌}
use centroid_x.Common.Int.{ℤ, pos, pos_part, neg_part, ◌+ℤ◌}

-- What is done with a double: `x <= 0`, `1.0`, and `static_cast<int>(n * x)`.
pub record Doubles (D : Type 0) : Type 0 where
  pub at_most_zero : D → Bool
  pub one : D
  pub scaled : ℕ → D → ℤ

-- Right and bottom are exclusive.
pub record PixelRect : Type 0 where
  pub left : ℤ
  pub top : ℤ
  pub right : ℤ
  pub bottom : ℤ

-- `std::max(high - low, 0)`.
abbrev pub extent : ℤ → ℤ → ℕ
extent low high = pos_part high + neg_part low - (neg_part high + pos_part low)

-- `std::min(a, b)` of two ints.
abbrev pub min : ℤ → ℤ → ℤ
min a b = if ltb (pos_part b + neg_part a) (pos_part a + neg_part b) then b else a

-- `low + (available - size) / 2`, where the size is at most what is available.
unfoldable pub centered : ℤ → ℕ → ℤ → ℤ
centered low available size = low +ℤ pos (extent size (pos available) / 2)

module _ {D : Type 0} (on : Doubles D) where
  unfoldable pub restored_window_bounds : PixelRect → ℕ → ℕ → D → PixelRect
  unfolding centered ◌+ℤ◌
  restored_window_bounds work_area logical_width logical_height scale_factor =
      let scale = if on.at_most_zero scale_factor then on.one else scale_factor in
      let available_width = extent work_area.left work_area.right in
      let available_height = extent work_area.top work_area.bottom in
      let width = min (on.scaled logical_width scale) (pos available_width) in
      let height = min (on.scaled logical_height scale) (pos available_height) in
      let left = centered work_area.left available_width width in
      let top = centered work_area.top available_height height in
      record { left = left; top = top; right = left +ℤ width; bottom = top +ℤ height }
