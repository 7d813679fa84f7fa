-- ===== src/DartLiveness/Raster.antt =====
-- The raster verdict over a row of stamps.
use centroid_x.Common.{
  ℕ, ◌+◌, ◌<◌, ◌≡◌, refl, sym, ap, ◌∙◌, Bool, true, false, ◌&&◌, List, [], ◌∷◌, arith, leb,
}
use centroid_x.DartLiveness.{
  Stamp, Config, Decision, Liveness, is_stale, on_stamp, judge_raster, accept, snapshot,
}
use centroid_x.DartLiveness.Trace.{Event, stamped, evaluated, step, run}

abbrev pub one_if : Bool → ℕ
one_if true = 1
one_if false = 0

-- Stamps of the live generation, none of which reports an image: the probe failed or was not run.
abbrev pub Failing : Liveness → List Event → Type 0
Failing l [] = Unit {0}
Failing l (stamped stamp now ∷ es) =
    (is_stale stamp.epoch l.epoch ≡ false)
    × (stamp.raster_probed && stamp.raster_ok ≡ false)
    × Failing (on_stamp l stamp now).0 es
Failing l (_ ∷ es) = ⊥

abbrev pub failures : List Event → ℕ
failures [] = 0
failures (stamped stamp now ∷ es) = one_if stamp.raster_probed + failures es
failures (_ ∷ es) = failures es

abbrev pub losses : List Decision → ℕ
losses [] = 0
losses (d ∷ decisions) = one_if d.raster_lost + losses decisions

record Counted (l : Liveness) (n : ℕ) (r : Liveness × Decision) : Type 0 where
  same_config : r.0.config ≡ l.config
  counted : r.0.raster_failures ≡ n + l.raster_failures
  latched : r.0.raster_lost ≡ leb l.config.raster_failures_before_loss (n + l.raster_failures)
  told : one_if r.1.raster_lost + one_if l.raster_lost ≡ one_if r.0.raster_lost

on_stamp-Counted :
    (l : Liveness) (stamp : Stamp) (now : ℕ)
    → is_stale stamp.epoch l.epoch ≡ false
    → stamp.raster_probed && stamp.raster_ok ≡ false
    → 0 < l.config.raster_failures_before_loss
    → l.raster_lost ≡ leb l.config.raster_failures_before_loss l.raster_failures
    → Counted l (one_if stamp.raster_probed) (on_stamp l stamp now)
unfolding on_stamp judge_raster accept snapshot
on_stamp-Counted l stamp now live bad k agrees = ground arith

run-Counted :
    (threshold : ℕ) (l : Liveness) (es : List Event)
    → Failing l es
    → threshold ≡ l.config.raster_failures_before_loss
    → 0 < threshold
    → l.raster_lost ≡ leb threshold l.raster_failures
    → ((run l es).0.raster_failures ≡ failures es + l.raster_failures)
      × ((run l es).0.raster_lost ≡ leb threshold (failures es + l.raster_failures))
      × (losses (run l es).1 + one_if l.raster_lost ≡ one_if (run l es).0.raster_lost)
unfolding run step
run-Counted threshold l [] bad t k agrees = (omega arith, ground arith, omega arith)
run-Counted threshold l (evaluated now ∷ es) bad t k agrees = absurd bad
run-Counted threshold l (stamped stamp now ∷ es) bad t k agrees =
    let c = on_stamp-Counted l stamp now bad.0 bad.1 (rw (← t) k) (rw (← t) agrees) in
    let rest =
      run-Counted threshold (on_stamp l stamp now).0 es bad.2
        (t ∙ ap (λ (j : Config). j.raster_failures_before_loss) (sym c.same_config)) k
        (ground (arith, c)) in
    ground (arith, c, rest)

-- Failed probes are counted, and the loss is declared once, by the failure that reaches the
-- configured number: after a row of stamps of the live generation with n failed probes and no image
-- between, from a detector that has seen none, the count is n whatever number of stamps could not
-- probe, the raster is lost exactly when n has reached the number, and that was told once or never.
pub run-raster :
    (l : Liveness) (es : List Event)
    → Failing l es
    → 0 < l.config.raster_failures_before_loss
    → l.raster_failures ≡ 0
    → l.raster_lost ≡ false
    → ((run l es).0.raster_failures ≡ failures es)
      × ((run l es).0.raster_lost ≡ leb l.config.raster_failures_before_loss (failures es))
      × (losses (run l es).1 ≡ one_if (leb l.config.raster_failures_before_loss (failures es)))
run-raster l es bad k none_yet fine =
    ground (arith, run-Counted l.config.raster_failures_before_loss l es bad refl k (ground arith))
