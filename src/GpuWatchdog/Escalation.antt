-- ===== src/GpuWatchdog/Escalation.antt =====
-- What a history of events can ask for at most: reports, exits and restarts.
use centroid_x.Common.{
  ℕ, ◌+◌, ◌*◌, ◌≤◌, ◌<◌, ◌≡◌, refl, sym, ap, ◌∙◌, true, false, List, [], ◌∷◌, arith,
}
use centroid_x.GpuDiagnosis.{LossCause}
use centroid_x.GpuWatchdog.{
  Config, Watchdog, Action, is_thrashing, recovery_is_exhausted, new, note_episode, respond,
  declare_loss, latch_expiry, judge, on_tick, on_renderer_lost, set_judgeable,
  consume_judgement_hold_expired, disable, on_started, on_frame_presented, on_device_loss_hint,
}
use centroid_x.GpuWatchdog.Trace.{
  Event, started, ticked, framed, hinted, lost, judged, consumed, disarmed, step, run, to_nat,
  is_framed, to_nat-le-one, frames, reports, restarts, exits,
}

-- What one call adds to the three counts, against the state that remembers it. `framed` is 1 when
-- the call is that of a presented frame.
record Counted (cap framed : ℕ) (w : Watchdog) (r : Watchdog × Action) : Type 0 where
  same_config : r.0.config ≡ w.config
  report_latched :
      to_nat r.1.report_loss + to_nat w.reported_loss ≤ framed + to_nat r.0.reported_loss
  exit_latched : to_nat r.1.exit_process + to_nat w.disabled ≤ to_nat r.0.disabled
  restart_counted :
      w.recovery_attempts ≤ cap
      → to_nat r.1.restart_engine + w.recovery_attempts ≤ cap * framed + r.0.recovery_attempts
  restart_capped :
      0 < cap
      → cap ≡ w.config.max_recovery_attempts
      → w.recovery_attempts ≤ cap
      → r.0.recovery_attempts ≤ cap

declare_loss-Counted :
    (cap : ℕ) (w : Watchdog) (cause : LossCause) (now : ℕ)
    → w.disabled ≡ false
    → Counted cap 0 w (declare_loss w cause now)
unfolding declare_loss note_episode respond is_thrashing recovery_is_exhausted
declare_loss-Counted cap w cause now h = ground arith

judge-Counted :
    (cap : ℕ) (w : Watchdog) (now : ℕ) → w.disabled ≡ false → Counted cap 0 w (judge w now)
unfolding judge
judge-Counted cap w now h = ground (
  arith,
  declare_loss-Counted cap (record w { missed_probes = w.missed_probes + 1 })
      LossCause.no_frames_presented now,
)

judge_latched-Counted :
    (cap : ℕ) (w : Watchdog) (now : ℕ)
    → w.disabled ≡ false
    → Counted cap 0 w (judge (latch_expiry w) now)
unfolding latch_expiry
judge_latched-Counted cap w now h = ground (
  arith,
  judge-Counted cap w now h,
  judge-Counted cap (record w { judgement_hold_expired = true }) now h,
)

on_tick-Counted : (cap : ℕ) (w : Watchdog) (now : ℕ) → Counted cap 0 w (on_tick w now)
unfolding on_tick
on_tick-Counted cap w now = ground (arith, judge_latched-Counted cap w now)

step-Counted :
    (cap : ℕ) (w : Watchdog) (e : Event) → Counted cap (to_nat (is_framed e)) w (step w e)
unfolding step
step-Counted cap w (started now) = unfold on_started in ground arith
step-Counted cap w (ticked now) = on_tick-Counted cap w now
step-Counted cap w (framed now) = unfold on_frame_presented in ground arith
step-Counted cap w (hinted now) = unfold on_device_loss_hint in ground arith
step-Counted cap w (lost cause now) =
    unfold on_renderer_lost in ground (arith, declare_loss-Counted cap w cause now)
step-Counted cap w (judged judgeable now) = unfold set_judgeable in ground arith
step-Counted cap w consumed = unfold consume_judgement_hold_expired in ground arith
step-Counted cap w disarmed = unfold disable in ground arith

-- The process is asked to exit at most once, whatever is called and from whatever state.
pub exits-run :
    (w : Watchdog) (es : List Event)
    → exits (run w es).1 + to_nat w.disabled ≤ to_nat (run w es).0.disabled
unfolding run
exits-run w [] = omega arith
exits-run w (e ∷ es) = omega (arith, (step-Counted 0 w e).exit_latched, exits-run (step w e).0 es)

reports-run :
    (w : Watchdog) (es : List Event)
    → reports (run w es).1 + to_nat w.reported_loss ≤ frames es + to_nat (run w es).0.reported_loss
unfolding run
reports-run w [] = omega arith
reports-run w (e ∷ es) =
    omega (arith, (step-Counted 0 w e).report_latched, reports-run (step w e).0 es)

-- A loss is reported once per episode: there is at most one report more than presented frames.
pub reports-le-frames : (w : Watchdog) (es : List Event) → reports (run w es).1 ≤ frames es + 1
reports-le-frames w es = omega (arith, reports-run w es, to_nat-le-one (run w es).0.reported_loss)

restarts-run :
    (cap : ℕ) (w : Watchdog) (es : List Event)
    → 0 < cap
    → cap ≡ w.config.max_recovery_attempts
    → w.recovery_attempts ≤ cap
    → (restarts (run w es).1 + w.recovery_attempts
        ≤ cap * frames es + (run w es).0.recovery_attempts)
      × ((run w es).0.recovery_attempts ≤ cap)
unfolding run
restarts-run cap w [] some_cap same h = (omega arith, h)
restarts-run cap w (e ∷ es) some_cap same h =
    let s = step-Counted cap w e in
    let kept = s.restart_capped some_cap same h in
    let counted = s.restart_counted h in
    let rest =
      restarts-run cap (step w e).0 es some_cap
        (same ∙ ap (λ (c : Config). c.max_recovery_attempts) (sym s.same_config)) kept in
    (omega (arith, counted, rest.0), rest.1)

-- In place recovery is bounded: with a cap configured, no history restarts the engine more than
-- that many times for each presented frame, and once more that many before any frame.
pub restarts-le-cap :
    (c : Config) (es : List Event)
    → 0 < c.max_recovery_attempts
    → restarts (run (new c) es).1 ≤ c.max_recovery_attempts * (frames es + 1)
unfolding new
restarts-le-cap c es h =
    omega (arith, restarts-run c.max_recovery_attempts (new c) es h refl (omega arith))
