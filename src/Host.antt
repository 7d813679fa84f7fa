-- ===== src/Host.antt =====
-- centroid-hmi/windows/runner/flutter_window.h and flutter_window.cpp: the class FlutterWindow, which
-- owns the parts of this library and drives them from window messages. What Win32, Direct3D and the
-- Flutter engine answer while one event is handled is a World; what they are asked for is a trace of
-- Effects, the newest first. Every clock reading of one event is the same. The log lines are left
-- out, with the throttles that count them kept; so is the handler for an exception.
pub mod Engine
pub mod Actions
pub mod Messages
pub mod Environment
pub mod Arguments
pub mod Channel
pub mod TimerThread
pub mod Kept
pub mod Lives
pub mod Requests
pub mod Handlers
pub mod Replies
pub mod Ticks
pub mod Histories
pub mod Blame
pub mod Wedged
pub mod Startup
mod Tests
use Prim.Native.String.{String}
use centroid_x.Common.{ℕ, ◌+◌, Bool, true, false, List, [], ◌∷◌, Option, none, if◌then◌else◌}
use centroid_x.Common.Int.{pos}
use centroid_x.GpuDiagnosis.{LossHint}
use centroid_x.GpuDiagnosis.Report.{LossEvidence}
use centroid_x.GpuWatchdog
use centroid_x.RebuildGate
use centroid_x.SessionPolicy
use centroid_x.DartLiveness
use centroid_x.LogThrottle
use centroid_x.Shutdown

-- The answers from outside: GetTickCount64; whether a FlutterViewController comes back with an engine
-- and a view; the LUIDs of the adapter the engine reports and of the session's; whether a Direct3D
-- device can be made, its GetDeviceRemovedReason and adapter; whether the timer queue, its timer and
-- a new period are granted; whether session notices and the stderr detector can be installed, the
-- base class made its window, and the session is remote.
pub record World : Type 0 where
  pub now : ℕ
  pub engine_starts : Bool
  pub engine_adapter : Option ℕ
  pub session_adapter : Option ℕ
  pub sentinel_created : Bool
  pub removed_reason : ℕ
  pub adapter_description : String
  pub adapter_vendor_id : ℕ
  pub adapter_device_id : ℕ
  pub queue_created : Bool
  pub timer_created : Bool
  pub timer_changed : Bool
  pub session_notices : Bool
  pub storm_detector : Bool
  pub window_created : Bool
  pub remote_session : Bool

-- Why a controller is built or torn down.
pub data Reason : Type 0 where
  initial_start exiting closing : Reason
  rebuilding : String → Reason

-- `torn_down` tells whether the app's startup had completed and how old the engine was.
pub data Effect : Type 0 where
  built : ℕ → Reason → Effect
  torn_down : Bool → ℕ → Reason → Effect
  redraw show_window disarmed rebuild_due crash_restart_withdrawn : Effect
  raster_loss : ℕ → Effect
  reported : LossEvidence → Effect
  quit exit_process : ℕ → Effect

-- `callbacks` counts the next-frame callbacks that the live engine still holds.
pub record Host : Type 0 where
  pub enabled : Bool
  pub watchdog : GpuWatchdog.Watchdog
  pub gate : RebuildGate.Gate
  pub policy : SessionPolicy.Policy
  pub liveness : DartLiveness.Liveness
  pub shutdown : Shutdown.Policy
  pub controller : Bool
  pub callbacks : ℕ
  pub probe_armed : Bool
  pub engine_epoch : ℕ
  pub epoch_started_tick : ℕ
  pub dart_startup_complete : Bool
  pub dart_main_seen : Bool
  pub first_frame_shown : Bool
  pub adapter_known : Bool
  pub adapter_luid : ℕ
  pub sentinel_available : Bool
  pub sentinel_loss_logged : Bool
  pub window : Bool
  pub notifications : Bool
  pub timer_queue : Bool
  pub timer : Bool
  pub period_ms : ℕ
  pub stopping : Bool
  pub unanswered_sends : ℕ
  pub last_hint : LossHint
  pub last_hint_tick : ℕ
  pub session_change_code : ℕ
  pub start_tick : ℕ
  pub last_frame_tick : ℕ
  pub tick_log : LogThrottle.Throttle
  pub frame_log : LogThrottle.Throttle
  pub hint_log : LogThrottle.Throttle
  pub liveness_log : LogThrottle.Throttle
  pub send_failure_log : LogThrottle.Throttle
  pub timer_thread_log : LogThrottle.Throttle
  pub trace : List Effect

abbrev throttle : ℕ → ℕ → ℕ → LogThrottle.Throttle
throttle burst every interval =
    LogThrottle.new
      (record { burst = pos burst; every_nth = pos every; summary_interval_ms = interval })

-- The constructor, on what the environment gave for the watchdog.
unfoldable pub new : GpuWatchdog.Config → Bool → Host
unfolding GpuWatchdog.new RebuildGate.new SessionPolicy.new DartLiveness.new LogThrottle.new
new config enabled = record {
  enabled = enabled;
  watchdog = GpuWatchdog.new config;
  gate = RebuildGate.new RebuildGate.default_config;
  policy = SessionPolicy.new SessionPolicy.default_config;
  liveness = DartLiveness.new DartLiveness.default_config;
  shutdown = Shutdown.new;
  controller = false;
  callbacks = 0;
  probe_armed = false;
  engine_epoch = 0;
  epoch_started_tick = 0;
  dart_startup_complete = false;
  dart_main_seen = false;
  first_frame_shown = false;
  adapter_known = false;
  adapter_luid = 0;
  sentinel_available = false;
  sentinel_loss_logged = false;
  window = false;
  notifications = false;
  timer_queue = false;
  timer = false;
  period_ms = 0;
  stopping = false;
  unanswered_sends = 0;
  last_hint = LossHint.no_hint;
  last_hint_tick = 0;
  session_change_code = 0;
  start_tick = 0;
  last_frame_tick = 0;
  tick_log = throttle 8 12 60000;
  frame_log = throttle 3 600 300000;
  hint_log = throttle 10 20 30000;
  liveness_log = throttle 3 60 600000;
  send_failure_log = throttle 5 10 30000;
  timer_thread_log = throttle 3 60 300000;
  trace = [];
}

-- A line that is logged or not: only the throttle sees it.
abbrev pub counted : LogThrottle.Throttle → ℕ → LogThrottle.Throttle
counted t now = (LogThrottle.log_record t now).0

abbrev pub when : Bool → (Host → Host) → Host → Host
when true f h = f h
when false f h = h

unfoldable pub emit : Effect → Host → Host
emit e h = record h { trace = e ∷ h.trace }
