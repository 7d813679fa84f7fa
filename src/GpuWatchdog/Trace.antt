-- ===== src/GpuWatchdog/Trace.antt =====
-- Histories of a watchdog: the calls that FlutterWindow makes, one event for each, and what is
-- counted over the actions that come back.
use centroid_x.Common.{
  ℕ, ◌+◌, ◌≤◌, ◌≡◌, refl, Bool, true, false, List, [], ◌∷◌, length, replicate, arith,
}
use centroid_x.GpuDiagnosis.{LossCause}
use centroid_x.GpuWatchdog.{
  Watchdog, Action, no_action, on_started, on_tick, on_frame_presented, on_device_loss_hint,
  on_renderer_lost, set_judgeable, consume_judgement_hold_expired, disable,
}

pub data Event : Type 0 where
  started ticked framed hinted : ℕ → Event
  lost : LossCause → ℕ → Event
  judged : Bool → ℕ → Event
  consumed disarmed : Event

-- The last three calls ask nothing of the host.
unfoldable pub step : Watchdog → Event → Watchdog × Action
unfolding on_started on_frame_presented on_device_loss_hint
step w (started now) = on_started w now
step w (ticked now) = on_tick w now
step w (framed now) = on_frame_presented w now
step w (hinted now) = on_device_loss_hint w now
step w (lost cause now) = on_renderer_lost w cause now
step w (judged judgeable now) = (set_judgeable w judgeable now, no_action)
step w consumed = ((consume_judgement_hold_expired w).0, no_action)
step w disarmed = (disable w, no_action)

unfoldable pub run : Watchdog → List Event → Watchdog × List Action
run w [] = (w, [])
run w (e ∷ es) = let (w', a) = step w e in let (w'', actions) = run w' es in (w'', a ∷ actions)

abbrev pub to_nat : Bool → ℕ
to_nat true = 1
to_nat false = 0

pub to_nat-le-one : (b : Bool) → to_nat b ≤ 1
to_nat-le-one true = omega arith
to_nat-le-one false = omega arith

abbrev pub is_framed : Event → Bool
is_framed (framed now) = true
is_framed _ = false

abbrev pub frames : List Event → ℕ
frames [] = 0
frames (e ∷ es) = to_nat (is_framed e) + frames es

abbrev pub reports : List Action → ℕ
reports [] = 0
reports (a ∷ actions) = to_nat a.report_loss + reports actions

abbrev pub restarts : List Action → ℕ
restarts [] = 0
restarts (a ∷ actions) = to_nat a.restart_engine + restarts actions

abbrev pub exits : List Action → ℕ
exits [] = 0
exits (a ∷ actions) = to_nat a.exit_process + exits actions

step_disabled :
    (w : Watchdog) (e : Event)
    → w.disabled ≡ true
    → ((step w e).0.disabled ≡ true) × ((step w e).1 ≡ no_action)
unfolding step on_tick on_renderer_lost set_judgeable consume_judgement_hold_expired disable
step_disabled w (started now) h = ground arith
step_disabled w _ h = ground arith

-- Once the watchdog has given up, whatever is called, it stays so and asks nothing of the host.
pub run_disabled :
    (w : Watchdog) (es : List Event)
    → w.disabled ≡ true
    → ((run w es).0.disabled ≡ true) × ((run w es).1 ≡ replicate (length es) no_action)
unfolding run
run_disabled w [] h = (h, refl)
run_disabled w (e ∷ es) h = ground (arith, step_disabled w e h, run_disabled (step w e).0 es)
