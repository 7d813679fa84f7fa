-- ===== src/VideoGeometry/Budget.antt =====
-- The rendered size stays within the budget.
use native.Mathlib.Nat.{mul-le-mul_right}
use centroid_x.Common.{
  ℕ, ◌*◌, ◌≤◌, ◌≡◌, refl, sym, ap, ◌∙◌, ◌↔◌, ◌⊎◌, inl, inr, Bool, true, false, ◌&&◌, arith,
  if◌then◌else◌, Bool-cases,
}
use centroid_x.Common.Int.{ℤ, pos, negsuc}
use centroid_x.VideoGeometry.{
  Size, is_positive, has_no_area, no_size, clamp_to, magnitude, stride_bytes, pixel_buffer_bytes,
  fit_within_render_budget, resolve_render_size,
}

-- Not larger than the budget in either dimension, and with an area.
pub record IsWithin (size : Size) : Type 0 where
  pub wide : magnitude size.width ≤ 1920
  pub high : magnitude size.height ≤ 1080
  pub area : has_no_area size ≡ false

clamp_to-le : (limit : ℕ) (n : ℤ) → 1 ≤ limit → magnitude (clamp_to limit n) ≤ limit
unfolding clamp_to
clamp_to-le limit (pos n) l = ground arith
clamp_to-le limit (negsuc n) l = l

clamp_to-is_positive : (limit : ℕ) (n : ℤ) → 1 ≤ limit → is_positive (clamp_to limit n) ≡ true
unfolding clamp_to
clamp_to-is_positive limit (pos n) l = ground arith
clamp_to-is_positive limit (negsuc n) l = refl

has_area :
    (size : Size)
    → is_positive size.width ≡ true
    → is_positive size.height ≡ true
    → has_no_area size ≡ false
unfolding has_no_area
has_area size w h = ground arith

if-Size :
    (P : Size → Type 0) (b : Bool) (x y : Size)
    → (b ≡ true → P x)
    → (b ≡ false → P y)
    → P (if b then x else y)
if-Size P true x y f g = f refl
if-Size P false x y f g = g refl

stride-eq : (size : Size) → IsWithin size → stride_bytes size ≡ pos (magnitude size.width * 4)
unfolding stride_bytes
stride-eq size w = ground (arith, w.wide, w.area)

four : (w h : ℕ) → w * 4 * h ≡ w * h * 4
four w h = omega arith

area-le : (w h : ℕ) → w ≤ 1920 → h ≤ 1080 → w * h ≤ 2073600
area-le w h a b = omega (arith, mul-le-mul_right {m = w} {n = 1920} h a)

bytes-bound :
    (size : Size)
    → IsWithin size
    → (pixel_buffer_bytes size ≡ magnitude size.width * 4 * magnitude size.height)
      × (pixel_buffer_bytes size ≤ 8294400)
unfolding pixel_buffer_bytes
bytes-bound size w = ground (
  arith,
  w.area,
  area-le (magnitude size.width) (magnitude size.height) w.wide w.high,
  four (magnitude size.width) (magnitude size.height),
)

no_size-stride : stride_bytes no_size ≡ pos 0
unfolding stride_bytes has_no_area
no_size-stride = refl

no_size-bytes : pixel_buffer_bytes no_size ≡ 0
unfolding pixel_buffer_bytes has_no_area
no_size-bytes = refl

module _ (scale_is_at_least_one : Size → Bool) (rounded : Size → ℤ × ℤ)
    (scale_exact : (size : Size)
      → has_no_area size ≡ false
      → (scale_is_at_least_one size ≡ true)
        ↔ ((magnitude size.width ≤ 1920) × (magnitude size.height ≤ 1080))) where
  fit_within_render_budget-IsWithin :
      (size : Size)
      → has_no_area size ≡ false
      → IsWithin (fit_within_render_budget scale_is_at_least_one rounded size)
  unfolding fit_within_render_budget
  fit_within_render_budget-IsWithin size a =
      if-Size IsWithin (has_no_area size) no_size _ (λ e. cc)
        (λ _.
          if-Size IsWithin (scale_is_at_least_one size) size _
            (λ e.
              let (wide, high) = (scale_exact size a).0 e in
              record { wide = wide; high = high; area = a })
            (λ _. record {
              wide = clamp_to-le 1920 (rounded size).0 (omega arith);
              high = clamp_to-le 1080 (rounded size).1 (omega arith);
              area =
                  has_area _ (clamp_to-is_positive 1920 (rounded size).0 (omega arith))
                    (clamp_to-is_positive 1080 (rounded size).1 (omega arith));
            }))

  fit_within_render_budget-fixed :
      (size : Size)
      → IsWithin size
      → fit_within_render_budget scale_is_at_least_one rounded size ≡ size
  unfolding fit_within_render_budget
  fit_within_render_budget-fixed size w =
      ground (arith, w.area, (scale_exact size w.area).1 (w.wide, w.high))

  empty-fixed :
      (size : Size)
      → has_no_area size ≡ true
      → fit_within_render_budget scale_is_at_least_one rounded size ≡ no_size
  unfolding fit_within_render_budget
  empty-fixed size e = ground (arith, e)

  -- When the scale is at least 1.0 exactly for the sizes within the budget, fitting a size that has
  -- been fitted changes nothing.
  fit_within_render_budget_idem :
      (size : Size)
      → fit_within_render_budget scale_is_at_least_one rounded
          (fit_within_render_budget scale_is_at_least_one rounded size)
        ≡ fit_within_render_budget scale_is_at_least_one rounded size
  unfolding has_no_area
  fit_within_render_budget_idem size = elim (Bool-cases (has_no_area size)) [
    | inl e ↦ rw (empty-fixed size e) (empty-fixed no_size refl)
    | inr e ↦ fit_within_render_budget-fixed _ (fit_within_render_budget-IsWithin size e)
  ]

  resolve_cases :
      (requested video : Size)
      → has_no_area (if has_no_area requested then video else requested)
        ≡ (has_no_area requested && has_no_area video)
  resolve_cases requested video = ground arith

  -- When the scale is at least 1.0 exactly for the sizes within the budget: the size that is rendered
  -- has an area exactly when the requested one or the video's has, and then it is within 1920 x 1080,
  -- its stride is four times its width, and its buffer is the stride times the height, without a wrap
  -- of either and at most 8294400 bytes; and otherwise stride and buffer are 0.
  pub resolve_render_size-IsWithin :
      (requested video : Size)
      → let size = resolve_render_size scale_is_at_least_one rounded requested video in
        (((has_no_area requested && has_no_area video) ≡ true)
          × (size ≡ no_size)
          × (stride_bytes size ≡ pos 0)
          × (pixel_buffer_bytes size ≡ 0))
        ⊎ (((has_no_area requested && has_no_area video) ≡ false)
            × IsWithin size
            × (stride_bytes size ≡ pos (magnitude size.width * 4))
            × (pixel_buffer_bytes size ≡ magnitude size.width * 4 * magnitude size.height)
            × (pixel_buffer_bytes size ≤ 8294400))
  unfolding resolve_render_size
  resolve_render_size-IsWithin requested video =
      let wanted = if has_no_area requested then video else requested in
      let size = fit_within_render_budget scale_is_at_least_one rounded wanted in
      elim (Bool-cases (has_no_area wanted)) [
        | inl e ↦
            let fixed = empty-fixed wanted e in
            inl (
              sym (resolve_cases requested video) ∙ e,
              fixed,
              ap stride_bytes fixed ∙ no_size-stride,
              ap pixel_buffer_bytes fixed ∙ no_size-bytes,
            )
        | inr e ↦
            let w = fit_within_render_budget-IsWithin wanted e in
            let (bytes, bound) = bytes-bound size w in
            inr (sym (resolve_cases requested video) ∙ e, w, stride-eq size w, bytes, bound)
      ]
