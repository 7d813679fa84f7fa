-- ===== src/GpuWatchdog/Hold.antt =====
-- The judgement hold: it silences the count of missed probes, and no caller can extend it.
use centroid_x.Common.{ℕ, ◌+◌, ◌≤◌, ◌<◌, ◌≡◌, refl, true, false, List, [], ◌∷◌, arith}
use centroid_x.GpuDiagnosis.{LossCause}
use centroid_x.GpuWatchdog.{
  Watchdog, Action, on_tick, on_device_loss_hint, set_judgeable, judgement_held, judge,
  latch_expiry, declare_loss, note_episode, respond, is_thrashing, recovery_is_exhausted,
}
use centroid_x.GpuWatchdog.Trace.{
  Event, started, ticked, framed, hinted, lost, judged, consumed, disarmed, step, run, reports,
  restarts, exits,
}

-- What the host does while it waits for an engine: it ticks before the deadline, passes hints on,
-- and asks for the hold again, at any time.
abbrev pub WaitsFor : ℕ → Event → Type 0
WaitsFor deadline (ticked t) = t < deadline
WaitsFor deadline (hinted t) = Unit {0}
WaitsFor deadline (judged judgeable t) = judgeable ≡ false
WaitsFor deadline _ = ⊥

abbrev pub Waits : ℕ → List Event → Type 0
Waits deadline [] = Unit {0}
Waits deadline (e ∷ es) = WaitsFor deadline e × Waits deadline es

pub record Held (w : Watchdog) : Type 0 where
  pub enabled : w.disabled ≡ false
  pub holding : w.judgement_holding ≡ true
  pub capped : 0 < w.config.max_judgement_hold_ms

-- The calls above at most set the flag of an outstanding probe.
record Quiet (w : Watchdog) (r : Watchdog × Action) : Type 0 where
  unchanged : r.0 ≡ record w { probe_outstanding = r.0.probe_outstanding }
  kept : w.probe_outstanding ≡ true → r.0.probe_outstanding ≡ true
  no_report : r.1.report_loss ≡ false
  no_restart : r.1.restart_engine ≡ false
  no_exit : r.1.exit_process ≡ false

tick-Quiet :
    (w : Watchdog) (t : ℕ)
    → t < w.judgement_hold_since_ms + w.config.max_judgement_hold_ms
    → Held w
    → Quiet w (on_tick w t)
unfolding on_tick judgement_held
tick-Quiet w t early h = ground arith

step-Quiet :
    (w : Watchdog) (e : Event)
    → WaitsFor (w.judgement_hold_since_ms + w.config.max_judgement_hold_ms) e
    → Held w
    → Quiet w (step w e)
unfolding step
step-Quiet w (started t) early h = absurd early
step-Quiet w (ticked t) early h = tick-Quiet w t early h
step-Quiet w (framed t) early h = absurd early
step-Quiet w (hinted t) early h = unfold on_device_loss_hint in ground arith
step-Quiet w (lost cause t) early h = absurd early
step-Quiet w (judged judgeable t) early h = unfold set_judgeable in ground arith
step-Quiet w consumed early h = absurd early
step-Quiet w disarmed early h = absurd early

-- A whole history of such calls, with its deadline fixed by the first request.
pub run-Held :
    (w : Watchdog) (es : List Event)
    → Waits (w.judgement_hold_since_ms + w.config.max_judgement_hold_ms) es
    → Held w
    → ((run w es).0 ≡ record w { probe_outstanding = (run w es).0.probe_outstanding })
      × (w.probe_outstanding ≡ true → (run w es).0.probe_outstanding ≡ true)
      × (reports (run w es).1 ≡ 0)
      × (restarts (run w es).1 ≡ 0)
      × (exits (run w es).1 ≡ 0)
unfolding run
run-Held w [] early h = (refl, λ p. p, refl, refl, refl)
run-Held w (e ∷ es) early h =
    let q = step-Quiet w e early.0 h in ground (arith, run-Held (step w e).0 es)

-- The first judging tick after the hold's cap.
late_tick :
    (w : Watchdog) (t : ℕ)
    → Held w
    → w.judgement_hold_since_ms + w.config.max_judgement_hold_ms ≤ t
    → w.probe_outstanding ≡ true
    → w.reported_loss ≡ false
    → w.config.missed_probes_before_recovery ≤ w.missed_probes + 1
    → ((on_tick w t).1.report_loss ≡ true) × ((on_tick w t).1.cause ≡ LossCause.no_frames_presented)
unfolding on_tick judge latch_expiry judgement_held declare_loss note_episode respond is_thrashing
    recovery_is_exhausted
late_tick w t h late out fresh due = ground arith

-- A hold silences judgement, and is bounded. It begins at an enabled watchdog that holds, with a cap
-- above 0, a probe outstanding, no loss reported since the last frame, and enough probes missed for the
-- next one to declare a loss. While it lasts, ticks before the deadline, hints and any number of
-- requests to hold again report nothing, restart nothing, exit nothing and count no missed probe; and
-- the first tick at or after the deadline that the first request set reports the loss, for want of
-- frames, however often the hold was asked for again.
pub run-hold_bounded :
    (w : Watchdog) (es : List Event) (t : ℕ)
    → Held w
    → Waits (w.judgement_hold_since_ms + w.config.max_judgement_hold_ms) es
    → w.judgement_hold_since_ms + w.config.max_judgement_hold_ms ≤ t
    → w.probe_outstanding ≡ true
    → w.reported_loss ≡ false
    → w.config.missed_probes_before_recovery ≤ w.missed_probes + 1
    → (reports (run w es).1 ≡ 0)
      × (restarts (run w es).1 ≡ 0)
      × (exits (run w es).1 ≡ 0)
      × ((run w es).0.missed_probes ≡ w.missed_probes)
      × ((on_tick (run w es).0 t).1.report_loss ≡ true)
      × ((on_tick (run w es).0 t).1.cause ≡ LossCause.no_frames_presented)
run-hold_bounded w es t h early late out fresh due =
    let q = run-Held w es early h in ground (arith, late_tick (run w es).0 t)
