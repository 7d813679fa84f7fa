-- ===== src/DragDrop/Tests.antt =====
-- Rebuilds of the window, a few of them.
use centroid_x.Common.{◌≡◌, true, false, none, length}
use centroid_x.DragDrop.{Lifetime, new, create_controller, live_targets}
use centroid_x.DragDrop.Rebuilds.{cycles, cycles-revoking}

cycles-revoking_example :
    let m = cycles 3 (new true) in
    (m.use_after_free ≡ false)
    × (m.registration_collision ≡ false)
    × (m.leaked_registrations ≡ 0)
    × (m.registered_index ≡ none)
    × (length m.targets ≡ 3)
    × (live_targets m ≡ 0)
    × (live_targets (create_controller m) ≡ 1)
cycles-revoking_example = cycles-revoking 3

abbrev second : Lifetime
second = create_controller (create_controller (new true))
