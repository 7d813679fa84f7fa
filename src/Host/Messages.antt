-- ===== src/Host/Messages.antt =====
-- OnCreate, OnDestroy, the frame callback and the window messages of FlutterWindow.
use centroid_x.Common.{ℕ, ◌-◌, Bool, true, false, not, ◌&&◌, ◌||◌, if◌then◌else◌, ◌==◌}
use centroid_x.Formats.{Formats}
use centroid_x.GpuDiagnosis.{LossCause, LossHint, dxgi_ok}
use centroid_x.GpuWatchdog
use centroid_x.RebuildGate
use centroid_x.SessionPolicy
use centroid_x.DartLiveness
use centroid_x.LogThrottle
use centroid_x.Shutdown
use centroid_x.Host.{World, Reason, Effect, Host, counted, when, emit}
use centroid_x.Host.Engine.{
  check_render_adapter, create_controller, destroy_controller, perform_engine_rebuild, is_released,
  request_engine_rebuild, wants_rebuild, handle_session_decision,
}
use centroid_x.Host.Actions.{
  started, tick, frame_presented, device_loss_hint, renderer_lost, stop_watchdog_timer, dispatch,
}

-- OnCreate after the base class and the first controller.
unfoldable pub arm_watchdog : World → Host → Host
arm_watchdog w h =
    let h' = record h { start_tick = w.now; last_frame_tick = w.now } in
    if not h.enabled
    then h'
    else dispatch w started (record h' {
      sentinel_available = w.sentinel_created;
      window = true;
      notifications = w.session_notices;
      policy = SessionPolicy.set_storm_detector_available h'.policy w.storm_detector;
    })

unfoldable pub on_create : World → Host → Host
on_create w h =
    if not w.window_created
    then h
    else let h' = create_controller w Reason.initial_start h in
      if h'.controller then arm_watchdog w h' else h'

unfoldable pub on_destroy : World → Host → Host
on_destroy w h =
    let h' = stop_watchdog_timer h in
    destroy_controller w Reason.closing
      (record h' { window = false; notifications = h'.notifications && not h'.window })

-- WM_DESTROY: crash-restart is withdrawn, and then the base class calls OnDestroy.
unfoldable pub close : World → Host → Host
close w h =
    let (policy, step) = Shutdown.window_destroyed h.shutdown true in
    on_destroy w (
      when step.withdraw_restart (emit Effect.crash_restart_withdrawn)
        (record h { shutdown = policy }))

-- The end of an episode is told, and its throttles start again.
unfoldable pub end_episode : Host → Host
end_episode h = record h {
  frame_log = LogThrottle.reset h.frame_log;
  tick_log = LogThrottle.reset h.tick_log;
}

unfoldable pub show_first_frame : Host → Host
show_first_frame h = emit Effect.show_window (record h { first_frame_shown = true })

-- OnFramePresented: the engine spends a callback to get here.
unfoldable pub on_frame_presented : World → Host → Host
on_frame_presented w h =
    let answered = record h {
      probe_armed = false;
      callbacks = h.callbacks - 1;
      last_frame_tick = w.now;
      frame_log = counted h.frame_log w.now;
    } in
    let h' = dispatch w frame_presented answered in
    let (policy, decision) = SessionPolicy.on_frame_presented h'.policy w.now in
    let h'' = handle_session_decision w decision (record h' { policy = policy }) in
    when (not h''.first_frame_shown) show_first_frame
      (when h.watchdog.reported_loss end_episode h'')

-- RenderDeviceIsLost.
unfoldable pub render_device_is_lost : World → Host → Bool
render_device_is_lost w h = h.sentinel_available && not (w.removed_reason == dxgi_ok)

-- The end of the tick: the liveness first, then the device or the probe.
unfoldable pub judge_tick : World → Host → Host
judge_tick w h =
    let h' = record h { liveness = (DartLiveness.evaluate h.liveness w.now).0 } in
    if render_device_is_lost w h'
    then dispatch w (renderer_lost LossCause.context_lost)
        (record h' { sentinel_loss_logged = true })
    else dispatch w tick h'

-- The start of the tick: it is counted, and an expired hold is told.
unfoldable pub open_tick : World → Host → Host
open_tick w h = record h {
  tick_log = counted h.tick_log w.now;
  watchdog = (GpuWatchdog.consume_judgement_hold_expired h.watchdog).0;
}

-- The message kEngineRebuildDueMessage, and a step of the tick: what the gate held back is done.
unfoldable pub poll_gate : World → Host → Host × RebuildGate.Decision
poll_gate w h =
    let (gate, decision) = RebuildGate.poll h.gate w.now in (record h { gate = gate }, decision)

unfoldable pub on_rebuild_due : World → Host → Host
on_rebuild_due w h =
    let (h', released) = poll_gate w h in
    when (is_released released.verdict) (perform_engine_rebuild w released.reason) h'

-- The message kRasterLossMessage or kEglStormMessage.
unfoldable pub on_observed_loss : World → LossCause → Host → Host
on_observed_loss w cause h = when (h.enabled && h.controller) (dispatch w (renderer_lost cause)) h

unfoldable pub note_loss_hint : World → LossHint → ℕ → Host → Host
note_loss_hint w hint code h = record h {
  last_hint = hint;
  last_hint_tick = w.now;
  session_change_code = code;
}

-- What the three hints begin with.
unfoldable pub hint : World → LossHint → ℕ → Host → Host
hint w what code h =
    dispatch w device_loss_hint
      (note_loss_hint w what code (record h { hint_log = counted h.hint_log w.now }))

-- WM_POWERBROADCAST for a resume.
unfoldable pub on_power_resume : World → Host → Host
on_power_resume w h =
    if h.enabled && h.controller
    then request_engine_rebuild w "power resume" (hint w LossHint.power_resume 0 h)
    else h

-- WM_DISPLAYCHANGE.
unfoldable pub on_display_change : World → Host → Host
on_display_change w h = when (h.enabled && h.controller) (hint w LossHint.display_change 0) h

-- The codes of wtsapi32.h, by the names that DescribeSessionChange gives them.
abbrev pub remote_connect : ℕ
remote_connect = 3

abbrev pub remote_disconnect : ℕ
remote_disconnect = 4

abbrev pub is_watched : ℕ → Bool
is_watched code = code == 1 || (code == 2 || (code == 3 || (code == 4 || code == 8)))

unfoldable pub on_remote_connect : World → Host → Host
on_remote_connect w h =
    let (h', adapter) = check_render_adapter w h in
    let (policy, decision) = SessionPolicy.on_remote_connect h'.policy w.now adapter in
    handle_session_decision w decision (record h' { policy = policy })

unfoldable pub on_remote_disconnect : World → Host → Host
on_remote_disconnect w h =
    let (policy, decision) = SessionPolicy.on_remote_disconnect h.policy w.now in
    handle_session_decision w decision (record h { policy = policy })

-- WM_WTSSESSION_CHANGE.
unfoldable pub on_session_change : World → ℕ → Host → Host
on_session_change w code h =
    if is_watched code && (h.enabled && h.controller)
    then (let h' = hint w LossHint.session_change code h in
        if code == remote_connect
        then on_remote_connect w h'
        else if code == remote_disconnect
        then on_remote_disconnect w h'
        else h')
    else h

module _ (f : Formats) where
  -- The message kWatchdogTickMessage.
  unfoldable pub on_tick : World → Host → Host
  on_tick w h =
      let (polled, released) = poll_gate w (open_tick w h) in
      if is_released released.verdict
      then perform_engine_rebuild w released.reason polled
      else let (policy, session) = SessionPolicy.on_tick f polled.policy w.now in
        let h' = record polled { policy = policy } in
        if wants_rebuild session.verdict
        then handle_session_decision w session h'
        else judge_tick w h'
