-- ===== src/Host/Ticks.antt =====
-- The tick, the queued rebuild and the reports of the Dart side keep the books.
use text.Mathlib.Text
use Prim.Native.String.{String}
use centroid_x.Common.{ℕ, ◌≡◌, refl, Bool, true, false, not, arith, if◌then◌else◌}
use centroid_x.Formats.{Formats}
use centroid_x.RebuildGate
use centroid_x.SessionPolicy
use centroid_x.DartLiveness
use centroid_x.DartLiveness.Describe.{describe_liveness, describe_raster}
use centroid_x.Host.{World, Host, when}
use centroid_x.Host.Engine.{
  perform_engine_rebuild, is_released, handle_session_decision, wants_rebuild,
}
use centroid_x.Host.Channel.{
  is_nothing, reset_liveness_log, count_liveness_log, on_liveness, on_call,
}
use centroid_x.Host.Messages.{
  render_device_is_lost, judge_tick, open_tick, poll_gate, on_rebuild_due, on_tick,
}
use centroid_x.Host.Kept.{GateAgrees, Kept, same, followed, when-Kept, if-Kept}
use centroid_x.Host.Lives.{MayRebuild}
use centroid_x.Host.Requests.{
  gated-Kept, released-Kept, poll-agrees, poll-may, handle_session_decision-Kept,
}
use centroid_x.Host.Arguments.{Arguments, stamp_of}
use centroid_x.Host.Handlers.{
  on_main_starting-Kept, on_startup_complete-Kept, emit-Kept, dispatch-Kept,
}

on_stamp-epoch :
    (l : DartLiveness.Liveness) (stamp : DartLiveness.Stamp) (now : ℕ)
    → (DartLiveness.on_stamp l stamp now).0.epoch ≡ l.epoch
unfolding DartLiveness.on_stamp DartLiveness.accept DartLiveness.judge_raster
on_stamp-epoch l stamp now = ground arith

evaluate-epoch :
    (l : DartLiveness.Liveness) (now : ℕ) → (DartLiveness.evaluate l now).0.epoch ≡ l.epoch
unfolding DartLiveness.evaluate
evaluate-epoch l now = ground arith

-- Another state of the liveness that listens to the same epoch.
listening-Kept :
    (l : DartLiveness.Liveness) (h : Host)
    → l.epoch ≡ h.liveness.epoch
    → Kept h (record h { liveness = l })
listening-Kept l h e = same (rw e refl)

reset_liveness_log-Kept : (h : Host) → Kept h (reset_liveness_log h)
unfolding reset_liveness_log
reset_liveness_log-Kept h = same refl

count_liveness_log-Kept : (w : World) (h : Host) → Kept h (count_liveness_log w h)
unfolding count_liveness_log
count_liveness_log-Kept w h = same refl

judge_tick-Kept : (w : World) (h : Host) → Kept h (judge_tick w h)
unfolding judge_tick
judge_tick-Kept w h =
    let l = (DartLiveness.evaluate h.liveness w.now).0 in
    let h' = record h { liveness = l } in
    followed h' (listening-Kept l h (evaluate-epoch h.liveness w.now)) (
      if-Kept (render_device_is_lost w h') h' _ _
        (λ _.
          followed (record h' { sentinel_loss_logged = true }) (same refl) (dispatch-Kept w _ _))
        (λ _. dispatch-Kept w _ _))

open_tick-Kept : (w : World) (h : Host) → Kept h (open_tick w h)
unfolding open_tick
open_tick-Kept w h = same refl

-- What the gate holds is done when it lets go, and else the rest of the message is handled.
polled-Kept :
    (w : World) (h : Host) (rest : Host → Host)
    → ((k : Host) → Kept k (rest k))
    → let polled = RebuildGate.poll h.gate w.now in
      let h' = record h { gate = polled.0 } in
      Kept h (
        if is_released polled.1.verdict
        then perform_engine_rebuild w polled.1.reason h'
        else rest h')
polled-Kept w h rest kept =
    let polled = RebuildGate.poll h.gate w.now in
    let agrees = poll-agrees h.gate w.now h.dart_startup_complete h.epoch_started_tick in
    if-Kept (is_released polled.1.verdict) h _ _
      (λ r.
        released-Kept w polled.1.reason polled.0 h agrees
          (λ a. poll-may h.gate w.now h.dart_startup_complete h.epoch_started_tick a r))
      (λ _. followed _ (gated-Kept polled.0 h agrees) (kept _))

due-Kept :
    (b : Bool) (w : World) (reason : String) (gate : RebuildGate.Gate) (h : Host)
    → (GateAgrees h.gate h.dart_startup_complete h.epoch_started_tick
        → GateAgrees gate h.dart_startup_complete h.epoch_started_tick)
    → (b ≡ true → GateAgrees h.gate h.dart_startup_complete h.epoch_started_tick → MayRebuild w h)
    → Kept h (when b (perform_engine_rebuild w reason) (record h { gate = gate }))
due-Kept true w reason gate h agrees may = released-Kept w reason gate h agrees (may refl)
due-Kept false w reason gate h agrees may = gated-Kept gate h agrees

pub on_rebuild_due-Kept : (w : World) (h : Host) → Kept h (on_rebuild_due w h)
unfolding on_rebuild_due poll_gate
on_rebuild_due-Kept w h =
    let polled = RebuildGate.poll h.gate w.now in
    let agrees = poll-agrees h.gate w.now h.dart_startup_complete h.epoch_started_tick in
    due-Kept (is_released polled.1.verdict) w polled.1.reason polled.0 h agrees
      (λ r a. poll-may h.gate w.now h.dart_startup_complete h.epoch_started_tick a r)

if-Kept-fst :
    (b : Bool) (h : Host) (x y : Host × Bool)
    → Kept h x.0
    → Kept h y.0
    → Kept h (if b then x else y).0
if-Kept-fst true h x y k l = k
if-Kept-fst false h x y k l = l

module _ (f : Formats) where
  pub on_liveness-Kept :
      (w : World) (stamp : DartLiveness.Stamp) (h : Host) → Kept h (on_liveness f w stamp h)
  unfolding on_liveness
  on_liveness-Kept w stamp h =
      let judged = DartLiveness.on_stamp h.liveness stamp w.now in
      let h' = record h { liveness = judged.0 } in
      let line = describe_liveness f judged.1 judged.0.config in
      let raster_line = describe_raster f judged.1 judged.0.config in
      followed h' (listening-Kept judged.0 h (on_stamp-epoch h.liveness stamp w.now)) (
        followed _
          (if-Kept (not (Text.◌==◌ line "")) h' _ _ (λ _. reset_liveness_log-Kept h')
            (λ _. when-Kept (is_nothing judged.1.verdict) _ h' (count_liveness_log-Kept w)))
          (followed _
            (when-Kept (not (Text.◌==◌ raster_line "")) reset_liveness_log _
              reset_liveness_log-Kept)
            (when-Kept judged.1.raster_lost _ _ (λ k. emit-Kept _ k refl refl tt (λ b d. d)))))

  pub on_call-Kept :
      (w : World) (method : String) (args : Arguments) (h : Host)
      → Kept h (on_call f w method args h).0
  unfolding on_call
  on_call-Kept w method args h =
      if-Kept-fst (Text.◌==◌ method "mainStarting") h _ _ (on_main_starting-Kept w h) (
        if-Kept-fst (Text.◌==◌ method "startupComplete") h _ _ (on_startup_complete-Kept w _ h) (
          if-Kept-fst (Text.◌==◌ method "liveness") h _ _ (on_liveness-Kept w (stamp_of args) h)
            (same refl)))

  -- The tick once the gate was polled and holds its rebuild, or has none.
  rest_of_tick : World → Host → Host
  rest_of_tick w h =
      let (policy, session) = SessionPolicy.on_tick f h.policy w.now in
      let h' = record h { policy = policy } in
      if wants_rebuild session.verdict
      then handle_session_decision w session h'
      else judge_tick w h'

  rest_of_tick-Kept : (w : World) (h : Host) → Kept h (rest_of_tick w h)
  unfolding rest_of_tick
  rest_of_tick-Kept w h =
      let session = SessionPolicy.on_tick f h.policy w.now in
      let h' = record h { policy = session.0 } in
      followed h' (same refl) (
        if-Kept (wants_rebuild session.1.verdict) h' _ _
          (λ _. handle_session_decision-Kept w session.1 h') (λ _. judge_tick-Kept w h'))

  pub on_tick-Kept : (w : World) (h : Host) → Kept h (on_tick f w h)
  unfolding on_tick poll_gate rest_of_tick
  on_tick-Kept w h =
      followed _ (open_tick-Kept w h)
        (polled-Kept w (open_tick w h) (rest_of_tick w) (rest_of_tick-Kept w))
