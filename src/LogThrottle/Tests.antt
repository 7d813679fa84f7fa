-- ===== src/LogThrottle/Tests.antt =====
-- Runs of the throttle on concrete clock readings.
use centroid_x.Common.{ℕ, List, [], ◌∷◌}

abbrev times : List ℕ
times = 10 ∷ 20 ∷ 30 ∷ 40 ∷ 50 ∷ 60 ∷ 70 ∷ []
