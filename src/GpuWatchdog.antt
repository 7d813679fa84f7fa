-- ===== src/GpuWatchdog.antt =====
-- centroid-hmi/windows/runner/gpu_watchdog.h and gpu_watchdog.cpp: the class GpuWatchdog. A method
-- returns the new watchdog and its Action. An `int` of the configuration is a number, since every
-- test of it treats a negative value as 0; an `int` counter grows by one per event and is unbounded.
pub mod Trace
pub mod Backoff
pub mod Environment
pub mod Escalation
pub mod Detection
pub mod Hold
pub mod LoopGuard
mod Tests
use centroid_x.Common.{
  ℕ, zero, suc, ◌+◌, ◌-◌, ◌*◌, Bool, true, false, not, ◌&&◌, ◌||◌, ltb, leb, ◌==◌, if◌then◌else◌,
  u32, sub64, elapsed,
}
use centroid_x.GpuDiagnosis.{LossCause, LossEscalation, LossAction}

pub record Config : Type 0 where
  pub probe_interval_ms : ℕ
  pub missed_probes_before_recovery : ℕ
  pub max_probe_interval_ms : ℕ
  pub on_loss : LossAction
  pub max_recovery_attempts : ℕ
  pub loss_window_ms : ℕ
  pub max_losses_in_window : ℕ
  pub max_judgement_hold_ms : ℕ

-- The member initialisers.
abbrev pub default_config : Config
default_config = record {
  probe_interval_ms = 5000;
  missed_probes_before_recovery = 2;
  max_probe_interval_ms = 60000;
  on_loss = LossAction.restart_engine;
  max_recovery_attempts = 5;
  loss_window_ms = 600000;
  max_losses_in_window = 3;
  max_judgement_hold_ms = 240000;
}

pub record Action : Type 0 where
  pub start_probe : Bool
  pub report_loss : Bool
  pub exit_process : Bool
  pub restart_engine : Bool
  pub set_timer_ms : ℕ
  pub cause : LossCause
  pub escalation : LossEscalation

abbrev pub no_action : Action
no_action = record {
  start_probe = false;
  report_loss = false;
  exit_process = false;
  restart_engine = false;
  set_timer_ms = 0;
  cause = LossCause.no_frames_presented;
  escalation = LossEscalation.not_escalated;
}

pub record Watchdog : Type 0 where
  pub config : Config
  pub disabled : Bool
  pub probe_outstanding : Bool
  pub reported_loss : Bool
  pub missed_probes : ℕ
  pub recovery_attempts : ℕ
  pub loss_window_start_ms : ℕ
  pub losses_in_window : ℕ
  pub window_open : Bool
  pub judgement_holding : Bool
  pub judgement_hold_since_ms : ℕ
  pub judgement_hold_expired : Bool

unfoldable pub new : Config → Watchdog
new c = record {
  config = c;
  disabled = false;
  probe_outstanding = false;
  reported_loss = false;
  missed_probes = 0;
  recovery_attempts = 0;
  loss_window_start_ms = 0;
  losses_in_window = 0;
  window_open = false;
  judgement_holding = false;
  judgement_hold_since_ms = 0;
  judgement_hold_expired = false;
}

unfoldable pub on_started : Watchdog → ℕ → Watchdog × Action
on_started w now = if w.disabled then (w, no_action) else (
  record w { probe_outstanding = true },
  record no_action { start_probe = true; set_timer_ms = w.config.probe_interval_ms },
)

unfoldable pub set_judgeable : Watchdog → Bool → ℕ → Watchdog
set_judgeable w judgeable now =
    if judgeable
    then record w {
      judgement_holding = false;
      judgement_hold_since_ms = 0;
      judgement_hold_expired = false;
    }
    else if w.judgement_holding
    then w
    else record w {
      judgement_holding = true;
      judgement_hold_since_ms = now;
      judgement_hold_expired = false;
    }

unfoldable pub judgement_held : Watchdog → ℕ → Bool
judgement_held w now =
    if not w.judgement_holding
    then false
    else if w.config.max_judgement_hold_ms == 0
    then true
    else ltb (elapsed now w.judgement_hold_since_ms) w.config.max_judgement_hold_ms

unfoldable pub consume_judgement_hold_expired : Watchdog → Watchdog × Bool
consume_judgement_hold_expired w = if not w.judgement_hold_expired then (w, false) else (
  record w {
    judgement_hold_expired = false;
    judgement_holding = false;
    judgement_hold_since_ms = 0;
  },
  true,
)

-- The loop of BackoffMs, over the rounds that are left.
backoff_loop : ℕ → ℕ → ℕ → ℕ
backoff_loop ceiling zero backoff = backoff
backoff_loop ceiling (suc rounds) backoff =
    if leb ceiling backoff then backoff else backoff_loop ceiling rounds (u32 (backoff * 2))

unfoldable pub backoff_ms : Watchdog → ℕ
unfolding backoff_loop
backoff_ms w =
    let ceiling = w.config.max_probe_interval_ms in
    let backoff = backoff_loop ceiling (w.recovery_attempts - 1) w.config.probe_interval_ms in
    if ltb ceiling backoff then ceiling else backoff

-- DeclareLoss, up to the escalation: a new episode is latched and counted against the loop guard.
unfoldable pub note_episode : Watchdog → ℕ → Watchdog
note_episode w now =
    if w.reported_loss
    then w
    else if not w.window_open
        || (not (w.config.loss_window_ms == 0)
            && ltb w.config.loss_window_ms (sub64 now w.loss_window_start_ms))
    then record w {
      reported_loss = true;
      window_open = true;
      loss_window_start_ms = now;
      losses_in_window = 1;
    }
    else record w { reported_loss = true; losses_in_window = w.losses_in_window + 1 }

unfoldable pub is_thrashing : Watchdog → Bool
is_thrashing w =
    ltb 0 w.config.max_losses_in_window && ltb w.config.max_losses_in_window w.losses_in_window

unfoldable pub recovery_is_exhausted : Watchdog → Bool
recovery_is_exhausted w =
    ltb 0 w.config.max_recovery_attempts && leb w.config.max_recovery_attempts w.recovery_attempts

-- DeclareLoss, from the escalation on: what is done about the loss.
unfoldable pub respond : LossAction → Watchdog → Action → Watchdog × Action
respond LossAction.exit_process w action =
    (record w { disabled = true }, record action { exit_process = true })
respond LossAction.log_only w action =
    (record w { probe_outstanding = true }, record action { start_probe = true })
respond LossAction.restart_engine w action =
    if is_thrashing w || recovery_is_exhausted w
    then (
      record w { disabled = true },
      record action {
        exit_process = true;
        escalation =
            if is_thrashing w
            then LossEscalation.repeated_losses
            else LossEscalation.recovery_exhausted;
      },
    )
    else let w' = record w {
      recovery_attempts = w.recovery_attempts + 1;
      missed_probes = 0;
      probe_outstanding = true;
    } in
      (w', record action { restart_engine = true; set_timer_ms = backoff_ms w' })

unfoldable pub declare_loss : Watchdog → LossCause → ℕ → Watchdog × Action
declare_loss w cause now =
    respond w.config.on_loss (note_episode w now)
      (record no_action { cause = cause; report_loss = not w.reported_loss })

-- OnTick once judgement is not held and the expiry is latched.
unfoldable pub judge : Watchdog → ℕ → Watchdog × Action
judge w now =
    if w.probe_outstanding
    then (let w' = record w { missed_probes = w.missed_probes + 1 } in
        if leb w.config.missed_probes_before_recovery w'.missed_probes
        then declare_loss w' LossCause.no_frames_presented now
        else (w', record no_action { start_probe = true }))
    else (record w { probe_outstanding = true }, record no_action { start_probe = true })

-- OnTick's latch: the hold outlived its cap.
unfoldable pub latch_expiry : Watchdog → Watchdog
latch_expiry w =
    if w.judgement_holding && not w.judgement_hold_expired
    then record w { judgement_hold_expired = true }
    else w

unfoldable pub on_tick : Watchdog → ℕ → Watchdog × Action
on_tick w now =
    if w.disabled
    then (w, no_action)
    else if judgement_held w now
    then (record w { probe_outstanding = true }, record no_action { start_probe = true })
    else judge (latch_expiry w) now

unfoldable pub on_renderer_lost : Watchdog → LossCause → ℕ → Watchdog × Action
on_renderer_lost w cause now = if w.disabled then (w, no_action) else declare_loss w cause now

unfoldable pub on_frame_presented : Watchdog → ℕ → Watchdog × Action
on_frame_presented w now =
    if w.disabled
    then (w, no_action)
    else let w' = record w {
      probe_outstanding = false;
      missed_probes = 0;
      reported_loss = false;
      judgement_holding = false;
      judgement_hold_since_ms = 0;
      judgement_hold_expired = false;
    } in
      if ltb 0 w.recovery_attempts
      then (
        record w' { recovery_attempts = 0 },
        record no_action { set_timer_ms = w.config.probe_interval_ms },
      )
      else (w', no_action)

unfoldable pub on_device_loss_hint : Watchdog → ℕ → Watchdog × Action
on_device_loss_hint w now =
    if w.disabled
    then (w, no_action)
    else (record w { probe_outstanding = true }, record no_action { start_probe = true })

unfoldable pub disable : Watchdog → Watchdog
disable w = record w { disabled = true; probe_outstanding = false }
