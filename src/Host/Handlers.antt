-- ===== src/Host/Handlers.antt =====
-- The handlers of FlutterWindow keep the books: the timer and the Actions, the Dart side's calls, the
-- window messages.
use centroid_x.Common.{ℕ, ◌≡◌, refl, Bool, true, false, not, ◌||◌, ◌∷◌, arith, ap, ◌==◌}
use centroid_x.Common.Int.{ℤ}
use centroid_x.GpuDiagnosis.{LossCause, LossEscalation}
use centroid_x.RebuildGate
use centroid_x.GpuWatchdog
use centroid_x.Host.{World, Reason, Effect, Host, when, emit}
use centroid_x.Host.Engine.{update_judgeable}
use centroid_x.Host.Actions.{
  set_watchdog_period, start_watchdog_timer, stop_watchdog_timer, disable_watchdog,
  report_device_loss, exit_after_device_loss, arm_probe, start_probe, apply_timer, carry_out,
  apply_action, Notice, notify, dispatch,
}
use centroid_x.Host.Channel.{on_main_starting, is_current, on_startup_complete}
use centroid_x.Host.Kept.{
  to_nat, built_one, torn_one, Spares, Descending, Kept, same, followed, when-Kept, if-Kept,
}
use centroid_x.Host.Lives.{destroy_controller-Kept}
use centroid_x.Host.Requests.{request_engine_rebuild-Kept}

-- An effect that is neither a build nor a teardown.
pub emit-Kept :
    (e : Effect) (h : Host)
    → built_one e ≡ 0
    → torn_one e ≡ 0
    → Spares e
    → ((b : ℕ) → Descending b h.trace → Descending b (e ∷ h.trace))
    → Kept h (emit e h)
unfolding emit
emit-Kept e h b t s d = record {
  valid = λ v. record {
    pending = v.pending;
    owned = v.owned;
    agrees = v.agrees;
    listens = v.listens;
    balanced = omega (arith, v.balanced, b, t);
    spared = (s, v.spared);
    falling = d _ v.falling;
  };
  idle = λ c. record { none_left = c; none_built = omega (arith, b) };
}

set_watchdog_period-Kept :
    (w : World) (period : ℕ) (h : Host) → Kept h (set_watchdog_period w period h)
unfolding set_watchdog_period
set_watchdog_period-Kept w period h = same (ground arith)

start_watchdog_timer-Kept :
    (w : World) (period : ℕ) (h : Host) → Kept h (start_watchdog_timer w period h).0
unfolding start_watchdog_timer set_watchdog_period
start_watchdog_timer-Kept w period h = same (ground arith)

pub stop_watchdog_timer-Kept : (h : Host) → Kept h (stop_watchdog_timer h)
unfolding stop_watchdog_timer
stop_watchdog_timer-Kept h = same (ground arith)

disable_watchdog-Kept : (h : Host) → Kept h (disable_watchdog h)
unfolding disable_watchdog
disable_watchdog-Kept h =
    followed _ (same refl) (
      followed _ (emit-Kept Effect.disarmed _ refl refl tt (λ b d. d)) (stop_watchdog_timer-Kept _))

report_device_loss-Kept :
    (w : World) (cause : LossCause) (escalation : LossEscalation) (h : Host)
    → Kept h (report_device_loss w cause escalation h)
unfolding report_device_loss
report_device_loss-Kept w cause escalation h = emit-Kept _ h refl refl tt (λ b d. d)

exit_after_device_loss-Kept : (w : World) (h : Host) → Kept h (exit_after_device_loss w h)
unfolding exit_after_device_loss
exit_after_device_loss-Kept w h = followed _ (stop_watchdog_timer-Kept h) (
    followed _ (destroy_controller-Kept w Reason.exiting _ (λ _. tt))
      (emit-Kept _ _ refl refl tt (λ b d. d)))

arm_probe-Kept : (h : Host) → h.controller ≡ true → h.probe_armed ≡ false → Kept h (arm_probe h)
unfolding arm_probe
arm_probe-Kept h c a = record {
  valid = λ v. record {
    pending = omega (arith, v.pending, ap to_nat a);
    owned = λ e. cc;
    agrees = v.agrees;
    listens = v.listens;
    balanced = v.balanced;
    spared = v.spared;
    falling = v.falling;
  };
  idle = λ e. cc;
}

armed-Kept :
    (b : Bool) (h : Host)
    → h.controller ≡ true
    → h.probe_armed ≡ b
    → Kept h (when (not b) arm_probe h)
armed-Kept true h c a = same refl
armed-Kept false h c a = arm_probe-Kept h c a

start_probe-Kept : (h : Host) → Kept h (start_probe h)
unfolding start_probe
start_probe-Kept h =
    if-Kept (not h.controller) h _ _ (λ _. same refl)
      (λ c.
        followed _ (armed-Kept h.probe_armed h (ground arith) refl)
          (emit-Kept Effect.redraw _ refl refl tt (λ b d. d)))

apply_timer-Kept : (w : World) (period : ℕ) (h : Host) → Kept h (apply_timer w period h)
unfolding apply_timer
apply_timer-Kept w period h =
    if-Kept h.timer h _ _ (λ _. set_watchdog_period-Kept w period h)
      (λ _. followed _ (start_watchdog_timer-Kept w period h) (
        if-Kept (start_watchdog_timer w period h).1 _ _ _ (λ _. same refl)
          (λ _. disable_watchdog-Kept _)))

carry_out-Kept :
    (w : World) (action : GpuWatchdog.Action) (h : Host) → Kept h (carry_out w action h)
unfolding carry_out
carry_out-Kept w action h =
    followed _ (when-Kept action.restart_engine _ h (request_engine_rebuild-Kept w _)) (
      followed _ (when-Kept action.start_probe start_probe _ start_probe-Kept)
        (when-Kept (not (action.set_timer_ms == 0)) _ _ (apply_timer-Kept w action.set_timer_ms)))

pub apply_action-Kept :
    (w : World) (action : GpuWatchdog.Action) (h : Host) → Kept h (apply_action w action h)
unfolding apply_action
apply_action-Kept w action h =
    followed _
      (when-Kept action.report_loss _ h (report_device_loss-Kept w action.cause action.escalation))
      (if-Kept action.exit_process _ _ _ (λ _. exit_after_device_loss-Kept w _)
        (λ _. carry_out-Kept w action _))

pub dispatch-Kept : (w : World) (notice : Notice) (h : Host) → Kept h (dispatch w notice h)
unfolding dispatch
dispatch-Kept w notice h =
    if-Kept (not h.enabled || h.watchdog.disabled) h _ _ (λ _. same refl)
      (λ _.
        followed (record h { watchdog = (notify h.watchdog notice w.now).0 }) (same refl)
          (apply_action-Kept w _ _))

pub on_main_starting-Kept : (w : World) (h : Host) → Kept h (on_main_starting w h)
unfolding on_main_starting update_judgeable
on_main_starting-Kept w h = same refl

completed-Kept :
    (w : World) (h : Host)
    → Kept h (record h {
      dart_startup_complete = true;
      gate = RebuildGate.startup_complete h.gate w.now;
    })
unfolding RebuildGate.startup_complete
completed-Kept w h = record {
  valid = λ v. record {
    pending = v.pending;
    owned = v.owned;
    agrees = record { in_flight = refl; since = v.agrees.since; config = v.agrees.config };
    listens = v.listens;
    balanced = v.balanced;
    spared = v.spared;
    falling = v.falling;
  };
  idle = λ e. record { none_left = e; none_built = refl };
}

pub on_startup_complete-Kept :
    (w : World) (epoch : ℤ) (h : Host) → Kept h (on_startup_complete w epoch h)
unfolding on_startup_complete
on_startup_complete-Kept w epoch h =
    if-Kept (is_current epoch h.engine_epoch) h _ _
      (λ _. followed _ (completed-Kept w h) (
        when-Kept (RebuildGate.startup_complete h.gate w.now).queued _ _
          (λ k. emit-Kept Effect.rebuild_due k refl refl tt (λ b d. d))))
      (λ _. same refl)
