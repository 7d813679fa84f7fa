-- ===== src/MediaVideo/Frames.antt =====
-- The buffer that a frame is rendered into.
use mathlib.Core.Path.{subst}
use centroid_x.Common.{
  ℕ, ◌*◌, ◌≤◌, ◌≡◌, ◌≢◌, refl, sym, ap, ◌∙◌, ◌⊎◌, inl, inr, ◌↔◌, true, false, ◌||◌, not, none, some,
  ltb, if◌then◌else◌, arith, Bool-cases,
}
use centroid_x.Common.Int.{pos}
use centroid_x.VideoGeometry.{
  Size, has_no_area, no_size, magnitude, stride_bytes, pixel_buffer_bytes, resolve_render_size,
}
use centroid_x.VideoGeometry.Budget.{IsWithin, resolve_render_size-IsWithin}
use centroid_x.MediaVideo.{World, Video}
use centroid_x.MediaVideo.Output.{
  Render, current_size, video_size_from_mpv, copy_pixel_buffer, is_ok,
}

-- The scale is at least 1.0 exactly for the sizes within the budget.
abbrev pub IsExact : World → Type 0
IsExact w =
    (size : Size)
    → has_no_area size ≡ false
    → (w.scale_is_at_least_one size ≡ true)
      ↔ ((magnitude size.width ≤ 1920) × (magnitude size.height ≤ 1080))

-- A call of mpv writes rows of four bytes a pixel, and all of them within the buffer.
pub record IsBounded (r : Render) : Type 0 where
  pub within : IsWithin r.size
  pub stride : r.stride ≡ pos (magnitude r.size.width * 4)
  pub room : magnitude r.size.width * 4 * magnitude r.size.height ≤ r.capacity

no_size-empty : has_no_area no_size ≡ true
unfolding has_no_area
no_size-empty = refl

true-ne-false : true ≢ false
true-ne-false e = cc

current_size-bounds :
    (w : World) (video : Video)
    → IsExact w
    → has_no_area (current_size w video) ≡ false
    → let size = current_size w video in
      IsWithin size
      × (stride_bytes size ≡ pos (magnitude size.width * 4))
      × (pixel_buffer_bytes size ≡ magnitude size.width * 4 * magnitude size.height)
unfolding current_size
current_size-bounds w video exact area =
    elim (resolve_render_size-IsWithin w.scale_is_at_least_one w.rounded exact video.requested
      (video_size_from_mpv w.params)) [
        | inl (e, size, s, p) ↦ absurd (no_area (ap has_no_area size) area)
        | inr (e, within, stride, bytes, most) ↦ (within, stride, bytes)
      ]
  where
    no_area :
        has_no_area (
            resolve_render_size w.scale_is_at_least_one w.rounded video.requested
              (video_size_from_mpv w.params))
          ≡ has_no_area no_size
        → has_no_area (
            resolve_render_size w.scale_is_at_least_one w.rounded video.requested
              (video_size_from_mpv w.params))
          ≢ false
    no_area p q = true-ne-false (sym no_size-empty ∙ (sym p ∙ q))

-- The three outcomes of CopyPixelBuffer.
copied_cases :
    (w : World) (video : Video)
    → let copied = copy_pixel_buffer w video in
      let size = current_size w video in
      ((copied.render ≡ none) × (copied.frame ≡ none))
      ⊎ ((video.shut_down ≡ false)
          × (video.context ≡ true)
          × (has_no_area size ≡ false)
          × ((capacity : ℕ) × (pixel_buffer_bytes size ≤ capacity)
              × (copied.render
                  ≡ some (record { size = size; stride = stride_bytes size; capacity = capacity }))
              × (copied.frame ≡ (if is_ok w.render_status then some size else none))))
unfolding copy_pixel_buffer
copied_cases w video = elim (Bool-cases (video.shut_down || not video.context)) [
  | inl q ↦ inl (ground (arith, q), ground (arith, q))
  | inr q ↦ elim (Bool-cases (has_no_area (current_size w video))) [
    | inl a ↦ inl (ground (arith, q, a), ground (arith, q, a))
    | inr a ↦ inr (
      ground (arith, q),
      ground (arith, q),
      a,
      (
        if ltb video.pixels (pixel_buffer_bytes (current_size w video))
            then pixel_buffer_bytes (current_size w video)
            else video.pixels,
        ground arith,
        ground (arith, q, a),
        ground (arith, q, a),
      ),
    )
  ]
]

-- When the scale is at least 1.0 exactly for the sizes within the budget, for every output and every
-- answer of mpv: either mpv is not called and no frame is returned, or the output is not shut down and
-- has a context, mpv is called with a size within the budget, rows of four bytes a pixel and a buffer
-- that holds them all, and a frame of that size is returned exactly when mpv answers with 0.
pub copy_pixel_buffer-IsBounded :
    (w : World) (video : Video)
    → IsExact w
    → let copied = copy_pixel_buffer w video in
      ((copied.render ≡ none) × (copied.frame ≡ none))
      ⊎ ((video.shut_down ≡ false)
          × (video.context ≡ true)
          × ((r : Render) × (copied.render ≡ some r)
              × IsBounded r
              × (copied.frame ≡ (if is_ok w.render_status then some r.size else none))))
copy_pixel_buffer-IsBounded w video exact = elim (copied_cases w video) [
  | inl none_called ↦ inl none_called
  | inr (running, context, area, (capacity, room, render, frame)) ↦
      let (within, stride, bytes) = current_size-bounds w video exact area in
      inr (
        running,
        context,
        (
          _,
          render,
          record {
            within = within;
            stride = stride;
            room = subst (λ (n : ℕ). n ≤ capacity) bytes room;
          },
          frame,
        ),
      )
]
