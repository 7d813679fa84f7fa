-- ===== src/GpuWatchdog/LoopGuard.antt =====
-- The loop guard: loss episodes against the window that counts them.
use centroid_x.Common.{ℕ, ◌+◌, ◌-◌, ◌^◌, ◌≤◌, ◌<◌, ◌≡◌, refl, ap, true, false, List, [], ◌∷◌, arith}
use centroid_x.GpuDiagnosis.{LossCause, LossAction}
use centroid_x.GpuWatchdog.{
  Config, Watchdog, Action, on_started, on_tick, on_frame_presented, on_device_loss_hint,
  on_renderer_lost, set_judgeable, consume_judgement_hold_expired, disable, note_episode, respond,
  declare_loss, is_thrashing, recovery_is_exhausted, judge, latch_expiry,
}
use centroid_x.GpuWatchdog.Trace.{
  Event, started, ticked, framed, hinted, lost, judged, consumed, disarmed, step, run, to_nat,
  reports, exits, to_nat-le-one,
}

-- The clock reading that a call is given, or the last one where it is given none.
abbrev pub time : ℕ → Event → ℕ
time last (started now) = now
time last (ticked now) = now
time last (framed now) = now
time last (hinted now) = now
time last (lost cause now) = now
time last (judged judgeable now) = now
time last consumed = last
time last disarmed = last

-- The clock never runs back, and stays between the two readings.
abbrev pub Ordered : ℕ → ℕ → List Event → Type 0
Ordered from to [] = Unit {0}
Ordered from to (e ∷ es) = (from ≤ time from e) × (time from e ≤ to) × Ordered (time from e) to es

-- What holds of the window while the clock stays within one window length of `origin`.
record Within (origin now : ℕ) (w : Watchdog) : Type 0 where
  recovers : w.config.on_loss ≡ LossAction.restart_engine
  guarded : 0 < w.config.max_losses_in_window
  in_window : now ≤ origin + w.config.loss_window_ms
  in_range : now < 2 ^ 64
  begun : origin ≤ now
  closed : w.window_open ≡ false → w.losses_in_window ≡ 0
  opened : w.window_open ≡ true → (origin ≤ w.loss_window_start_ms) × (w.loss_window_start_ms ≤ now)
  limited : w.losses_in_window ≤ w.config.max_losses_in_window + to_nat w.disabled

-- A call's report is counted, the bound is kept, and a loss above it ends the process.
record Kept (origin now : ℕ) (w : Watchdog) (r : Watchdog × Action) : Type 0 where
  same_config : r.0.config ≡ w.config
  still : Within origin now r.0
  counted : to_nat r.1.report_loss + w.losses_in_window ≤ r.0.losses_in_window
  paid :
      r.0.losses_in_window
      ≤ w.config.max_losses_in_window
        + to_nat r.1.exit_process
        + (w.losses_in_window - w.config.max_losses_in_window)

module _ (origin now : ℕ) where
  declare_loss-Kept :
      (w : Watchdog) (cause : LossCause)
      → w.disabled ≡ false
      → Within origin now w
      → Kept origin now w (declare_loss w cause now)
  unfolding declare_loss note_episode respond is_thrashing recovery_is_exhausted
  declare_loss-Kept w cause on h = ground arith

  judge-Kept :
      (w : Watchdog) → w.disabled ≡ false → Within origin now w → Kept origin now w (judge w now)
  unfolding judge
  judge-Kept w on h = ground (
    arith,
    declare_loss-Kept (record w { missed_probes = w.missed_probes + 1 })
        LossCause.no_frames_presented,
  )

  judge_latched-Kept :
      (w : Watchdog)
      → w.disabled ≡ false
      → Within origin now w
      → Kept origin now w (judge (latch_expiry w) now)
  unfolding latch_expiry
  judge_latched-Kept w on h =
      ground (arith, judge-Kept w on h, judge-Kept (record w { judgement_hold_expired = true }) on)

  on_tick-Kept : (w : Watchdog) → Within origin now w → Kept origin now w (on_tick w now)
  unfolding on_tick
  on_tick-Kept w h = ground (arith, judge_latched-Kept w)

  -- One call at the clock reading `now`.
  step-Kept :
      (w : Watchdog) (e : Event)
      → time now e ≡ now
      → Within origin now w
      → Kept origin now w (step w e)
  unfolding step
  step-Kept w (started t) at h = unfold on_started in ground arith
  step-Kept w (ticked t) at h = rw at (on_tick-Kept w h)
  step-Kept w (framed t) at h = unfold on_frame_presented in ground arith
  step-Kept w (hinted t) at h = unfold on_device_loss_hint in ground arith
  step-Kept w (lost cause t) at h =
      rw at (unfold on_renderer_lost in ground (arith, declare_loss-Kept w cause))
  step-Kept w (judged judgeable t) at h = unfold set_judgeable in ground arith
  step-Kept w consumed at h = unfold consume_judgement_hold_expired in ground arith
  step-Kept w disarmed at h = unfold disable in ground arith

Within-later :
    (origin now later : ℕ) (w : Watchdog)
    → now ≤ later
    → later ≤ origin + w.config.loss_window_ms
    → later < 2 ^ 64
    → Within origin now w
    → Within origin later w
Within-later origin now later w h k r v = ground arith

time_idem : (now : ℕ) (e : Event) → time (time now e) e ≡ time now e
time_idem now (started t) = refl
time_idem now _ = refl

reports-run-Within :
    (origin to now : ℕ) (w : Watchdog) (es : List Event)
    → Ordered now to es
    → to ≤ origin + w.config.loss_window_ms
    → to < 2 ^ 64
    → Within origin now w
    → (reports (run w es).1 + w.losses_in_window ≤ w.config.max_losses_in_window + 1)
      × (reports (run w es).1 + w.losses_in_window
          ≤ w.config.max_losses_in_window
            + exits (run w es).1
            + (w.losses_in_window - w.config.max_losses_in_window))
unfolding run
reports-run-Within origin to now w [] o h r v =
    (omega (arith, v.limited, to_nat-le-one w.disabled), omega arith)
reports-run-Within origin to now w (e ∷ es) o h r v =
    let later = Within-later origin now (time now e) w o.0 (omega arith) (omega arith) v in
    let k = step-Kept origin (time now e) w e (time_idem now e) later in
    let rest =
      reports-run-Within origin to (time now e) (step w e).0 es o.2 (rw k.same_config h) r
        k.still in
    let same = ap (λ (c : Config). c.max_losses_in_window) k.same_config in
    (omega (arith, k.counted, rest.0, same), omega (arith, k.counted, k.paid, rest.1, same))

-- In every window, a watchdog that recovers in place reports at most as many losses as the guard
-- allows, and one more only with an exit of the process. The history may begin at any watchdog that has
-- counted no more losses than the guard allows, with its window opened at the reading `from`, or not open
-- and nothing counted; its clock does not run back and stays within one window length of `from`. The
-- losses already counted are included. The guard is above 0, and the 64-bit clock does not wrap.
pub reports-le-max_losses :
    (w : Watchdog) (es : List Event) (from : ℕ)
    → w.config.on_loss ≡ LossAction.restart_engine
    → 0 < w.config.max_losses_in_window
    → from + w.config.loss_window_ms < 2 ^ 64
    → w.losses_in_window ≤ w.config.max_losses_in_window
    → (w.window_open ≡ false → w.losses_in_window ≡ 0)
    → (w.window_open ≡ true → w.loss_window_start_ms ≡ from)
    → Ordered from (from + w.config.loss_window_ms) es
    → (reports (run w es).1 + w.losses_in_window
        ≤ w.config.max_losses_in_window + exits (run w es).1)
      × (reports (run w es).1 + w.losses_in_window ≤ w.config.max_losses_in_window + 1)
reports-le-max_losses w es from recovers guarded range few closed opened o =
    let begun : Within from from w = record {
      recovers = recovers;
      guarded = guarded;
      in_window = omega arith;
      in_range = omega arith;
      begun = omega arith;
      closed = closed;
      opened = λ e. let at = opened e in (omega (arith, at), omega (arith, at));
      limited = omega (arith, few);
    } in
    let bound =
      reports-run-Within from (from + w.config.loss_window_ms) from w es o (omega arith) range
        begun in
    (omega (arith, few, bound.1), bound.0)
