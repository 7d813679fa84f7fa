-- ===== src/GpuWatchdog/Tests.antt =====
-- Runs of the watchdog on concrete histories.
use centroid_x.Common.{
  ℕ, ◌+◌, ◌*◌, ◌^◌, ◌≤◌, ◌<◌, ◌≡◌, refl, true, false, List, [], ◌∷◌, ◌++◌, length, replicate, arith,
}
use centroid_x.Common.Int.{pos}
use centroid_x.GpuDiagnosis.{LossCause, LossAction}
use centroid_x.GpuWatchdog.{
  default_config, Watchdog, Action, new, on_started, judgement_held, note_episode, is_thrashing,
  recovery_is_exhausted, respond, declare_loss, judge, latch_expiry, on_tick,
}
use centroid_x.GpuWatchdog.Trace.{
  Event, started, ticked, framed, lost, judged, hinted, step, run, frames, reports, restarts, exits,
}
use centroid_x.GpuWatchdog.Environment.{Strtol}
use centroid_x.GpuWatchdog.Escalation.{restarts-le-cap}
use centroid_x.GpuWatchdog.Detection.{ticks, probing, first_probe, Answers, run-declares}
use centroid_x.GpuWatchdog.Hold.{Held, run-hold_bounded}
use centroid_x.GpuWatchdog.LoopGuard.{reports-le-max_losses}

fresh : Watchdog
unfolding new
fresh = new default_config

-- A start, a missed probe, and the loss that the next tick declares.
abbrev dying : List Event
dying = started 0 ∷ ticked 5000 ∷ ticked 10000 ∷ []

dying-restarts : restarts (run fresh dying).1 ≡ 1
unfolding run step on_started on_tick judgement_held judge latch_expiry declare_loss note_episode
    respond is_thrashing recovery_is_exhausted fresh
dying-restarts = refl

run-declares_example :
    (a : Action) × ((run
        (new default_config)
        (started 0 ∷ (ticks (5000 ∷ []) ++ ticked 10000 ∷ []))).1
      ≡ first_probe default_config ∷ (replicate 1 probing ++ a ∷ []))
    × (a.report_loss ≡ true)
    × (a.cause ≡ LossCause.no_frames_presented)
    × Answers LossAction.restart_engine a
run-declares_example = run-declares default_config 0 10000 (5000 ∷ []) refl

restarts-le-cap_example : restarts (run (new default_config) dying).1 ≤ 5 * (frames dying + 1)
restarts-le-cap_example = restarts-le-cap default_config dying (omega arith)

abbrev losing : List Event
losing = lost LossCause.context_lost 7 ∷ framed 8 ∷ lost LossCause.raster_failed 9 ∷ []

reports-le-max_losses_example :
    (reports (run fresh losing).1 + 0 ≤ 3 + exits (run fresh losing).1)
    × (reports (run fresh losing).1 + 0 ≤ 3 + 1)
unfolding fresh
reports-le-max_losses_example =
    reports-le-max_losses fresh losing 0 refl (omega arith) (omega arith) (omega arith) (λ e. refl)
      (λ e. cc)
      (omega arith, omega arith, (omega arith, omega arith, (omega arith, omega arith, tt)))

-- A startup began at 10 s, after one missed probe.
abbrev held : Watchdog
held = record fresh {
  judgement_holding = true;
  judgement_hold_since_ms = 10000;
  missed_probes = 1;
  probe_outstanding = true;
}

abbrev waiting : List Event
waiting = ticked 15000 ∷ judged false 100000 ∷ hinted 240000 ∷ []

held-Held : Held held
unfolding fresh
held-Held = record { enabled = refl; holding = refl; capped = omega arith }

run-hold_bounded_example :
    (reports (run held waiting).1 ≡ 0)
    × (restarts (run held waiting).1 ≡ 0)
    × (exits (run held waiting).1 ≡ 0)
    × ((run held waiting).0.missed_probes ≡ 1)
    × ((on_tick (run held waiting).0 250000).1.report_loss ≡ true)
    × ((on_tick (run held waiting).0 250000).1.cause ≡ LossCause.no_frames_presented)
unfolding fresh
run-hold_bounded_example =
    run-hold_bounded held waiting 250000 held-Held (omega arith, (refl, (tt, tt))) (omega arith)
      refl refl (omega arith)

abbrev gone : Watchdog
gone = record fresh { disabled = true }

abbrev third_attempt : Watchdog
third_attempt = record fresh { recovery_attempts = 3 }

-- A conversion for the tests: every text is read as 2000, to its end.
abbrev always_2000 : Strtol
always_2000 text = (pos 2000, length text)

always_2000-bounded : (text : List ℕ) (n : ℕ) → (always_2000 text).0 ≡ pos n → n < 2 ^ 31
always_2000-bounded text n h = grind arith
