-- ===== src/WindowPlacement/Tests.antt =====
-- A monitor to the left of the primary one, at 50 percent, at 200 percent, and at no scale at all.
use centroid_x.Common.{ℕ, ◌*◌, ◌/◌, ◌==◌, ◌≡◌, refl, arith}
use centroid_x.Common.Int.{pos, negsuc, ◌+ℤ◌}
use centroid_x.WindowPlacement.{Doubles, PixelRect, centered, restored_window_bounds}
use centroid_x.WindowPlacement.Within.{IsCentered, restored_window_bounds-IsCentered}

-- A scale factor as its percentage.
abbrev percent : Doubles ℕ
percent = record { at_most_zero = λ x. x == 0; one = 100; scaled = λ n x. pos (n * x / 100) }

abbrev beside : PixelRect
beside = record { left = negsuc 2559; top = pos 0; right = pos 0; bottom = pos 1040 }

-- The height leaves no room for the size that is asked for.
nonsense-bounds :
    restored_window_bounds percent beside 1920 1080 0
    ≡ record { left = negsuc 2239; top = pos 0; right = negsuc 319; bottom = pos 1040 }
unfolding restored_window_bounds centered ◌+ℤ◌
nonsense-bounds = refl

half-bounds :
    restored_window_bounds percent beside 1920 1080 50
    ≡ record { left = negsuc 1759; top = pos 250; right = negsuc 799; bottom = pos 790 }
unfolding restored_window_bounds centered ◌+ℤ◌
half-bounds = refl

restored_window_bounds-IsCentered_example :
    let bounds = restored_window_bounds percent beside 1920 1080 50 in
    IsCentered beside.left beside.right 960 bounds.left bounds.right
    × IsCentered beside.top beside.bottom 540 bounds.top bounds.bottom
restored_window_bounds-IsCentered_example =
    restored_window_bounds-IsCentered percent beside 1920 1080 960 540 50 (omega arith)
      (omega arith) refl refl (λ e. refl) (λ e. refl)
