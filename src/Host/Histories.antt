-- ===== src/Host/Histories.antt =====
-- Histories of FlutterWindow: from OnCreate on, every message, frame callback, report of the Dart
-- side and timer callback in any order, each with its own World.
use Prim.Native.String.{String}
use centroid_x.Common.{ℕ, ◌+◌, ◌<◌, ◌≡◌, refl, ◌∙◌, Bool, true, false, not, arith, if◌then◌else◌}
use centroid_x.Common.Int.{pos}
use centroid_x.Formats.{Formats}
use centroid_x.GpuDiagnosis.{LossCause}
use centroid_x.GpuWatchdog
use centroid_x.RebuildGate
use centroid_x.Host.{World, Reason, Host, new, emit}
use centroid_x.Host.Engine.{
  create_controller, start_epoch, update_judgeable, destroy_controller, perform_engine_rebuild,
}
use centroid_x.Host.Actions.{
  Notice, stop_watchdog_timer, exit_after_device_loss, report_device_loss, apply_action,
}
use centroid_x.Host.Arguments.{Arguments}
use centroid_x.Host.Channel.{on_call}
use centroid_x.Host.Messages.{
  arm_watchdog, on_create, on_destroy, close, on_frame_presented, on_rebuild_due, on_observed_loss,
  on_power_resume, on_display_change, on_session_change, on_tick,
}
use centroid_x.Host.TimerThread.{on_timer}
use centroid_x.Host.Kept.{
  to_nat, builds, teardowns, AllSpare, Descending, IsValid, Kept, same, followed, if-Kept,
}
use centroid_x.Host.Lives.{IsReady, create_controller-IsValid}
use centroid_x.Host.Handlers.{dispatch-Kept}
use centroid_x.Host.Replies.{
  close-Kept, on_frame_presented-Kept, on_observed_loss-Kept, on_power_resume-Kept,
  on_display_change-Kept, on_session_change-Kept, on_timer-Kept,
}
use centroid_x.Host.Ticks.{on_rebuild_due-Kept, on_call-Kept, on_tick-Kept}

-- The Dart side speaks while there is an engine, and a frame spends a callback that the engine holds.
-- `timer` is a callback of the timer thread, with whether its send was answered; the tick that it sends
-- is a step of its own.
pub data Step (f : Formats) : Host → Host → Type 0 where
  called :
      (w : World) (method : String) (args : Arguments) (h : Host)
      → h.controller ≡ true
      → Step f h (on_call f w method args h).0
  frame : (w : World) (h : Host) → 0 < h.callbacks → Step f h (on_frame_presented w h)
  tick : (w : World) (h : Host) → Step f h (on_tick f w h)
  rebuild_due : (w : World) (h : Host) → Step f h (on_rebuild_due w h)
  observed_loss : (w : World) (cause : LossCause) (h : Host) → Step f h (on_observed_loss w cause h)
  power_resume : (w : World) (h : Host) → Step f h (on_power_resume w h)
  display_change : (w : World) (h : Host) → Step f h (on_display_change w h)
  session_change : (w : World) (code : ℕ) (h : Host) → Step f h (on_session_change w code h)
  closed : (w : World) (h : Host) → Step f h (close w h)
  timer : (w : World) (answered : Bool) (h : Host) → Step f h (on_timer w answered h)

pub data Steps (f : Formats) (h : Host) : Host → Type 0 where
  here : Steps f h h
  next : {k k' : Host} → Steps f h k → Step f k k' → Steps f h k'

-- A window that was created, and what it came to.
pub data Reached (f : Formats) (h : Host) : Type 0 where
  reached :
      (w : World) (config : GpuWatchdog.Config) (enabled : Bool)
      → w.window_created ≡ true
      → Steps f (on_create w (new config enabled)) h
      → Reached f h

Step-Kept : {f : Formats} {h h' : Host} → Step f h h' → Kept h h'
Step-Kept {f} (called w method args h c) = on_call-Kept f w method args h
Step-Kept (frame w h c) = on_frame_presented-Kept w h
Step-Kept {f} (tick w h) = on_tick-Kept f w h
Step-Kept (rebuild_due w h) = on_rebuild_due-Kept w h
Step-Kept (observed_loss w cause h) = on_observed_loss-Kept w cause h
Step-Kept (power_resume w h) = on_power_resume-Kept w h
Step-Kept (display_change w h) = on_display_change-Kept w h
Step-Kept (session_change w code h) = on_session_change-Kept w code h
Step-Kept (closed w h) = close-Kept w h
Step-Kept (timer w answered h) = on_timer-Kept w answered h

Steps-Kept : {f : Formats} {h h' : Host} → Steps f h h' → Kept h h'
Steps-Kept here = same refl
Steps-Kept (next steps step) = followed _ (Steps-Kept steps) (Step-Kept step)

arm_watchdog-Kept : (w : World) (h : Host) → Kept h (arm_watchdog w h)
unfolding arm_watchdog
arm_watchdog-Kept w h =
    if-Kept (not h.enabled) h _ _ (λ _. same refl)
      (λ _. followed _ (same refl) (dispatch-Kept w Notice.started _))

new-IsReady : (config : GpuWatchdog.Config) (enabled : Bool) → IsReady (new config enabled)
unfolding new RebuildGate.new
new-IsReady config enabled = record {
  disarmed = refl;
  config = refl;
  even = refl;
  spared = tt;
  falling = tt;
}

shown : (b : Bool) (x y : Host) → b ≡ true → IsValid y → IsValid (if not b then x else y)
shown true x y e v = v
shown false x y e v = cc

on_create-IsValid :
    (w : World) (h : Host) → w.window_created ≡ true → IsReady h → IsValid (on_create w h)
unfolding on_create
on_create-IsValid w h e r =
    let made = create_controller w Reason.initial_start h in
    shown w.window_created h _ e (
      (if-Kept made.controller made _ _ (λ _. arm_watchdog-Kept w made) (λ _. same refl)).valid
        (create_controller-IsValid w Reason.initial_start h r))

pub Reached-IsValid : {f : Formats} {h : Host} → Reached f h → IsValid h
Reached-IsValid (reached w config enabled e steps) =
    (Steps-Kept steps).valid (on_create-IsValid w _ e (new-IsReady config enabled))

-- In every history, a rebuild tears an engine down only when the app's startup on it was complete, or
-- when the engine was at least 180 s old: a startup is never cut short by a rebuild, whatever asked
-- for it.
pub Reached-AllSpare : {f : Formats} {h : Host} → Reached f h → AllSpare h.trace
Reached-AllSpare r = (Reached-IsValid r).spared

-- In every history, the live engine holds one next-frame callback when the probe is armed and none
-- when it is not: probes never pile callbacks up.
pub Reached-callbacks : {f : Formats} {h : Host} → Reached f h → h.callbacks ≡ to_nat h.probe_armed
Reached-callbacks r = (Reached-IsValid r).pending

-- In every history, the engines that were built are those that were torn down and the live one, if
-- there is one: no engine is built over another, and none is torn down twice.
pub Reached-balanced :
    {f : Formats} {h : Host}
    → Reached f h
    → builds h.trace ≡ teardowns h.trace + to_nat h.controller
Reached-balanced r = (Reached-IsValid r).balanced

-- In every history, the epochs of the engines that were built rise strictly up to the current epoch,
-- which is also the one that the Dart liveness listens to.
pub Reached-Descending :
    {f : Formats} {h : Host}
    → Reached f h
    → Descending (h.engine_epoch + 1) h.trace × (h.liveness.epoch ≡ pos h.engine_epoch)
Reached-Descending r = let v = Reached-IsValid r in (v.falling, v.listens)

-- A host without an engine, and with as many built as a count.
Steps-idle :
    {f : Formats} {h h' : Host} (n : ℕ)
    → Steps f h h'
    → h.controller ≡ false
    → builds h.trace ≡ n
    → (h'.controller ≡ false) × (builds h'.trace ≡ n)
Steps-idle n steps c b = let i = (Steps-Kept steps).idle c in (i.none_left, i.none_built ∙ b)

-- After WM_DESTROY no engine is ever built, whatever still arrives.
pub close-lasts :
    {f : Formats} (w : World) (h : Host) {h' : Host}
    → Steps f (close w h) h'
    → (h'.controller ≡ false) × (builds h'.trace ≡ builds h.trace)
unfolding close on_destroy destroy_controller stop_watchdog_timer emit
close-lasts w h steps = Steps-idle _ steps (ground arith) (ground arith)

-- After an Action that exits the process no engine is ever built, whatever still arrives before the
-- quit is taken.
pub apply_action-lasts :
    {f : Formats} (w : World) (action : GpuWatchdog.Action) (h : Host) {h' : Host}
    → action.exit_process ≡ true
    → Steps f (apply_action w action h) h'
    → (h'.controller ≡ false) × (builds h'.trace ≡ builds h.trace)
unfolding apply_action exit_after_device_loss report_device_loss destroy_controller
    stop_watchdog_timer emit
apply_action-lasts w action h e steps = Steps-idle _ steps (ground arith) (ground arith)

-- After a rebuild whose engine did not start no engine is ever built, whatever still arrives.
pub perform_engine_rebuild-lasts :
    {f : Formats} (w : World) (reason : String) (h : Host) {h' : Host}
    → w.engine_starts ≡ false
    → Steps f (perform_engine_rebuild w reason h) h'
    → (h'.controller ≡ false) × (builds h'.trace ≡ builds h.trace)
unfolding perform_engine_rebuild create_controller start_epoch update_judgeable destroy_controller
    emit
perform_engine_rebuild-lasts w reason h e steps = Steps-idle _ steps (ground arith) (ground arith)
