-- ===== src/WindowPlacement/Within.antt =====
-- The window opens inside the work area, and in its middle.
use centroid_x.Common.{
  ℕ, ◌+◌, ◌-◌, ◌/◌, ◌≤◌, ◌≡◌, false, ltb, if◌then◌else◌, Bool-cases, inl, inr, arith,
}
use centroid_x.Common.Int.{ℤ, pos, ◌+ℤ◌, ◌≤ℤ◌, +ℤ_parts}
use centroid_x.WindowPlacement.{Doubles, PixelRect, extent, min, centered, restored_window_bounds}

-- The shorter of two lengths.
abbrev pub shorter : ℕ → ℕ → ℕ
shorter a b = if ltb b a then b else a

-- From one place to another, within a span in one direction: as long as is wanted or as the span, if
-- that is shorter, and with the two margins equal but for one pixel.
pub record IsCentered (low high : ℤ) (wanted : ℕ) (from to : ℤ) : Type 0 where
  pub after : low ≤ℤ from
  pub before : to ≤ℤ high
  pub size : extent from to ≡ shorter wanted (extent low high)
  pub even : extent low from ≤ extent to high
  pub near : extent to high ≤ extent low from + 1

min-pos : (a b : ℕ) → min (pos a) (pos b) ≡ pos (shorter a b)
min-pos a b = ground arith

module _ (low high : ℤ) (wanted : ℕ) (span : low ≤ℤ high) where
  shorter-IsCentered :
      let size = shorter wanted (extent low high) in
      let from = centered low (extent low high) (pos size) in
      IsCentered low high wanted from (from +ℤ pos size)
  unfolding centered
  shorter-IsCentered =
      let size = shorter wanted (extent low high) in
      let half = pos ((extent low high - size) / 2) in
      let first = +ℤ_parts low half in
      let second = +ℤ_parts (low +ℤ half) (pos size) in
      record {
        after = ground (arith, first, second);
        before = ground (arith, first, second);
        size = ground (arith, first, second);
        even = ground (arith, first, second);
        near = ground (arith, first, second);
      }

  -- The size as the source computes it.
  min-IsCentered :
      (scaled : ℤ)
      → scaled ≡ pos wanted
      → let size = min scaled (pos (extent low high)) in
        let from = centered low (extent low high) size in
        IsCentered low high wanted from (from +ℤ size)
  min-IsCentered scaled e = rw (e, min-pos wanted (extent low high)) shorter-IsCentered

-- On a work area that is not inside out, with a width and a height that 1.0 leaves as they are: in each
-- direction the window is inside the work area, as large as it is asked to be where that fits and as the
-- work area otherwise, and in the middle, the margins equal but for one pixel. What is asked for is the
-- logical size where the scale factor is not positive, and otherwise its product with the scale factor,
-- provided that each product, cut to an int, is in range and not negative.
pub restored_window_bounds-IsCentered :
    {D : Type 0} (on : Doubles D) (work_area : PixelRect) (width height w h : ℕ) (scale : D)
    → work_area.left ≤ℤ work_area.right
    → work_area.top ≤ℤ work_area.bottom
    → on.scaled width on.one ≡ pos width
    → on.scaled height on.one ≡ pos height
    → (on.at_most_zero scale ≡ false → on.scaled width scale ≡ pos w)
    → (on.at_most_zero scale ≡ false → on.scaled height scale ≡ pos h)
    → let bounds = restored_window_bounds on work_area width height scale in
      let unscaled = on.at_most_zero scale in
      IsCentered work_area.left work_area.right
        (if unscaled then width else w)
        bounds.left
        bounds.right
      × IsCentered work_area.top work_area.bottom
          (if unscaled then height else h)
          bounds.top
          bounds.bottom
unfolding restored_window_bounds
restored_window_bounds-IsCentered on area width height w h scale hor ver ow oh sw sh =
    elim (Bool-cases (on.at_most_zero scale)) [
      | inl e ↦ rw e (
        min-IsCentered area.left area.right width hor _ ow,
        min-IsCentered area.top area.bottom height ver _ oh,
      )
      | inr e ↦ rw e (
        min-IsCentered area.left area.right w hor _ (sw e),
        min-IsCentered area.top area.bottom h ver _ (sh e),
      )
    ]
