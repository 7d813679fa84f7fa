-- ===== src/GpuWatchdog/Detection.antt =====
-- A renderer that presents nothing is found out after the configured number of ticks.
use centroid_x.Common.{
  ℕ, ◌+◌, ◌<◌, ◌≡◌, refl, ap, ◌∙◌, true, false, List, [], ◌∷◌, ◌++◌, length, replicate, arith,
}
use centroid_x.GpuDiagnosis.{LossCause, LossEscalation, LossAction}
use centroid_x.GpuWatchdog.{
  Config, Watchdog, Action, no_action, new, on_started, on_tick, judge, latch_expiry,
  judgement_held, declare_loss, note_episode, respond, is_thrashing, recovery_is_exhausted,
}
use centroid_x.GpuWatchdog.Trace.{Event, started, ticked, step, run}

-- What a tick under the threshold asks for: one more probe.
abbrev pub probing : Action
probing = record no_action { start_probe = true }

abbrev pub ticks : List ℕ → List Event
ticks [] = []
ticks (t ∷ ts) = ticked t ∷ ticks ts

record Waiting (w : Watchdog) : Type 0 where
  enabled : w.disabled ≡ false
  judged : w.judgement_holding ≡ false
  outstanding : w.probe_outstanding ≡ true

missed : Watchdog → ℕ → Watchdog
missed w n = record w { missed_probes = w.missed_probes + n }

on_tick-missed :
    (w : Watchdog) (t : ℕ)
    → Waiting w
    → w.missed_probes + 1 < w.config.missed_probes_before_recovery
    → on_tick w t ≡ (missed w 1, probing)
unfolding on_tick judge latch_expiry judgement_held missed
on_tick-missed w t h under = ground arith

-- Ticks under the threshold are counted, and each asks for one more probe.
run-ticks :
    (w : Watchdog) (ts : List ℕ)
    → Waiting w
    → w.missed_probes + length ts < w.config.missed_probes_before_recovery
    → run w (ticks ts) ≡ (missed w (length ts), replicate (length ts) probing)
unfolding run missed step
run-ticks w [] h under = ground arith
run-ticks w (t ∷ ts) h under =
    rw (on_tick-missed w t h (omega arith))
      (ground (arith, run-ticks (missed w 1) ts (ground arith)))

-- The run of two histories, one after the other.
run-append :
    (w : Watchdog) (es fs : List Event)
    → (run w (es ++ fs)).1 ≡ (run w es).1 ++ (run (run w es).0 fs).1
unfolding run
run-append w [] fs = refl
run-append w (e ∷ es) fs = ap (◌∷◌ (step w e).1) (run-append (step w e).0 es fs)

-- What the host is asked for when the first loss is declared, by the configured policy.
abbrev pub Answers : LossAction → Action → Type 0
Answers LossAction.log_only a =
    (a.start_probe ≡ true) × (a.restart_engine ≡ false) × (a.exit_process ≡ false)
Answers LossAction.exit_process a = (a.exit_process ≡ true) × (a.restart_engine ≡ false)
Answers LossAction.restart_engine a =
    (a.restart_engine ≡ true)
    × (a.exit_process ≡ false)
    × (a.escalation ≡ LossEscalation.not_escalated)

declare_loss-Answers :
    (c : Config) (w : Watchdog) (t : ℕ)
    → w.config ≡ c
    → w.losses_in_window ≡ 0
    → w.recovery_attempts ≡ 0
    → w.reported_loss ≡ false
    → let a = (declare_loss w LossCause.no_frames_presented t).1 in
      (a.report_loss ≡ true) × (a.cause ≡ LossCause.no_frames_presented) × Answers c.on_loss a
unfolding declare_loss note_episode respond is_thrashing recovery_is_exhausted
declare_loss-Answers c w t same l r h = ground arith

on_tick-last :
    (w : Watchdog) (t : ℕ)
    → Waiting w
    → w.missed_probes + 1 ≡ w.config.missed_probes_before_recovery
    → on_tick w t ≡ declare_loss (missed w 1) LossCause.no_frames_presented t
unfolding on_tick judge latch_expiry judgement_held missed
on_tick-last w t h at = ground arith

abbrev pub first_probe : Config → Action
first_probe c = record probing { set_timer_ms = c.probe_interval_ms }

-- A renderer that never presents a frame is declared lost. From the start of the watchdog on, with
-- no other call between, every tick below the configured number of missed probes only probes again,
-- and the tick that reaches it reports a loss for want of frames and asks for what the policy says:
-- a probe, an exit, or a restart of the engine that neither guard has turned into an exit, whatever
-- the caps of the two guards are, 0 included.
pub run-declares :
    (c : Config) (begin t : ℕ) (ts : List ℕ)
    → length ts + 1 ≡ c.missed_probes_before_recovery
    → (a : Action) × ((run (new c) (started begin ∷ (ticks ts ++ ticked t ∷ []))).1
        ≡ first_probe c ∷ (replicate (length ts) probing ++ a ∷ []))
      × (a.report_loss ≡ true)
      × (a.cause ≡ LossCause.no_frames_presented)
      × Answers c.on_loss a
unfolding run step on_started new missed
run-declares c begin t ts last =
    let w = (on_started (new c) begin).0 in
    let w' = missed w (length ts) in
    let found = declare_loss-Answers c (missed w' 1) t refl refl refl refl in
    let waits : Waiting w = ground arith in
    (
      (declare_loss (missed w' 1) LossCause.no_frames_presented t).1,
      ap (◌∷◌ (first_probe c)) (
          run-append w (ticks ts) (ticked t ∷ [])
          ∙ rw (run-ticks w ts waits (omega arith), on_tick-last w' t (ground arith) (omega arith))
              refl),
      found.0,
      found.1,
      found.2,
    )
