-- ===== src/Host/Actions.antt =====
-- The timer of FlutterWindow, and what it does with an Action of the watchdog.
use centroid_x.Common.{ℕ, ◌+◌, Bool, true, false, not, ◌&&◌, ◌||◌, if◌then◌else◌, ◌==◌, sub64}
use centroid_x.GpuDiagnosis.{LossCause, LossEscalation, dxgi_ok}
use centroid_x.GpuDiagnosis.Report.{LossEvidence}
use centroid_x.GpuWatchdog
use centroid_x.Host.{World, Reason, Effect, Host, when, emit}
use centroid_x.Host.Engine.{destroy_controller, request_engine_rebuild}

abbrev pub gpu_loss_exit_code : ℕ
gpu_loss_exit_code = 109

unfoldable pub set_watchdog_period : World → ℕ → Host → Host
set_watchdog_period w period h =
    if not h.timer || (period == 0 || period == h.period_ms)
    then h
    else if w.timer_changed
    then record h { period_ms = period }
    else h

-- StartWatchdogTimer, with whether the watchdog can tick. The stop latch is cleared first.
unfoldable pub start_watchdog_timer : World → ℕ → Host → Host × Bool
unfolding set_watchdog_period
start_watchdog_timer w period h =
    let h' = record h { stopping = false } in
    if not h.timer_queue && not w.queue_created
    then (h', false)
    else let queued = record h' { timer_queue = true } in
      if h.timer
      then (set_watchdog_period w period queued, true)
      else if not w.timer_created
      then (queued, false)
      else (record queued { timer = true; period_ms = period }, true)

-- Nothing armed means nothing to stop.
unfoldable pub stop_watchdog_timer : Host → Host
stop_watchdog_timer h =
    if not h.timer && not h.timer_queue
    then h
    else record h { stopping = true; timer = false; timer_queue = false }

unfoldable pub disable_watchdog : Host → Host
disable_watchdog h =
    stop_watchdog_timer
      (emit Effect.disarmed (record h { watchdog = GpuWatchdog.disable h.watchdog }))

unfoldable pub evidence : World → LossCause → LossEscalation → Host → LossEvidence
evidence w cause escalation h = record {
  cause = cause;
  escalation = escalation;
  sentinel_available = h.sentinel_available;
  device_removed_reason = if h.sentinel_available then w.removed_reason else dxgi_ok;
  losses_in_window = h.watchdog.losses_in_window;
  max_losses_in_window = h.watchdog.config.max_losses_in_window;
  recovery_attempts = h.watchdog.recovery_attempts;
  last_hint = h.last_hint;
  ms_since_last_hint = if h.last_hint_tick == 0 then 0 else sub64 w.now h.last_hint_tick;
  session_change_code = h.session_change_code;
  ms_since_start = sub64 w.now h.start_tick;
  ms_since_last_frame = sub64 w.now h.last_frame_tick;
  missed_probes = h.watchdog.missed_probes;
  remote_session = w.remote_session;
  adapter_description = w.adapter_description;
  adapter_vendor_id = w.adapter_vendor_id;
  adapter_device_id = w.adapter_device_id;
}

unfoldable pub report_device_loss : World → LossCause → LossEscalation → Host → Host
report_device_loss w cause escalation h = emit (Effect.reported (evidence w cause escalation h)) h

-- `quit` is PostQuitMessage.
unfoldable pub exit_after_device_loss : World → Host → Host
exit_after_device_loss w h =
    emit (Effect.quit gpu_loss_exit_code)
      (destroy_controller w Reason.exiting (stop_watchdog_timer h))

-- SetNextFrameCallback registers one callback more with the engine.
unfoldable pub arm_probe : Host → Host
arm_probe h = record h { probe_armed = true; callbacks = h.callbacks + 1 }

-- Armed only when the callback before was answered; a frame is asked for in any case.
unfoldable pub start_probe : Host → Host
start_probe h =
    if not h.controller then h else emit Effect.redraw (when (not h.probe_armed) arm_probe h)

unfoldable pub apply_timer : World → ℕ → Host → Host
apply_timer w period h =
    if h.timer
    then set_watchdog_period w period h
    else let (h', ticking) = start_watchdog_timer w period h in
      if ticking then h' else disable_watchdog h'

-- The part of ApplyAction after the report and the exit.
unfoldable pub carry_out : World → GpuWatchdog.Action → Host → Host
carry_out w action h = when (not (action.set_timer_ms == 0)) (apply_timer w action.set_timer_ms) (
    when action.start_probe start_probe
      (when action.restart_engine (request_engine_rebuild w "gpu loss recovery") h))

unfoldable pub apply_action : World → GpuWatchdog.Action → Host → Host
apply_action w action h =
    let reported =
      when action.report_loss (report_device_loss w action.cause action.escalation) h in
    if action.exit_process then exit_after_device_loss w reported else carry_out w action reported

-- WatchdogEvent.
pub data Notice : Type 0 where
  started tick frame_presented device_loss_hint : Notice
  renderer_lost : LossCause → Notice

unfoldable pub notify :
    GpuWatchdog.Watchdog → Notice → ℕ → GpuWatchdog.Watchdog × GpuWatchdog.Action
notify watchdog started now = GpuWatchdog.on_started watchdog now
notify watchdog tick now = GpuWatchdog.on_tick watchdog now
notify watchdog frame_presented now = GpuWatchdog.on_frame_presented watchdog now
notify watchdog device_loss_hint now = GpuWatchdog.on_device_loss_hint watchdog now
notify watchdog (renderer_lost cause) now = GpuWatchdog.on_renderer_lost watchdog cause now

unfoldable pub dispatch : World → Notice → Host → Host
dispatch w notice h =
    if not h.enabled || h.watchdog.disabled
    then h
    else let (watchdog, action) = notify h.watchdog notice w.now in
      apply_action w action (record h { watchdog = watchdog })
