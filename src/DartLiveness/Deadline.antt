-- ===== src/DartLiveness/Deadline.antt =====
-- When the detector first speaks of a silence: at the first evaluation past the limit.
use centroid_x.Common.{ℕ, ◌≤◌, ◌≡◌, List, [], ◌∷◌}
use centroid_x.DartLiveness.{Verdict, Liveness}

abbrev pub AllUpTo : ℕ → List ℕ → Type 0
AllUpTo limit [] = Unit {0}
AllUpTo limit (t ∷ ts) = (t ≤ limit) × AllUpTo limit ts

abbrev pub is_spoken : Verdict → ℕ
is_spoken Verdict.nothing_to_say = 0
is_spoken _ = 1

-- What no stamp and no evaluation changes.
record Kept (l r : Liveness) : Type 0 where
  same_config : r.config ≡ l.config
  same_epoch : r.epoch ≡ l.epoch
  same_watching : r.watching ≡ l.watching
