-- ===== src/Host/Blame.antt =====
-- A rebuild that is maintenance is not a loss: what the loop guard of the watchdog counts, across a
-- tick that rebuilds.
use Prim.Native.String.{String}
use centroid_x.Common.{
  ℕ, ◌+◌, ◌≡◌, refl, ◌∙◌, ◌⊎◌, inl, inr, Bool, true, false, not, ◌||◌, List, [], ◌∷◌, if◌then◌else◌,
  arith,
}
use centroid_x.Formats.{Formats}
use centroid_x.GpuWatchdog
use centroid_x.RebuildGate
use centroid_x.SessionPolicy
use centroid_x.Host.{World, Reason, Effect, Host, when, emit}
use centroid_x.Host.Engine.{
  update_judgeable, note_engine_adapter, start_epoch, engine_up, create_controller,
  destroy_controller, renew_sentinel, perform_engine_rebuild, is_released, request_engine_rebuild,
  wants_rebuild, handle_session_decision,
}
use centroid_x.Host.Messages.{open_tick, poll_gate, on_tick}

abbrev reported_one : Effect → ℕ
reported_one (Effect.reported evidence) = 1
reported_one _ = 0

-- How many losses a trace reported.
abbrev pub reports : List Effect → ℕ
reports [] = 0
reports (e ∷ es) = reported_one e + reports es

-- What a loss is counted by: the window of the loop guard, whether it is open, since when, and with how
-- many episodes, the recoveries tried, the latch of a reported loss, and the reports.
pub record Blame : Type 0 where
  pub window_open : Bool
  pub loss_window_start_ms : ℕ
  pub losses_in_window : ℕ
  pub attempts : ℕ
  pub reported_loss : Bool
  pub reported : ℕ

abbrev pub blame : Host → Blame
blame h = record {
  window_open = h.watchdog.window_open;
  loss_window_start_ms = h.watchdog.loss_window_start_ms;
  losses_in_window = h.watchdog.losses_in_window;
  attempts = h.watchdog.recovery_attempts;
  reported_loss = h.watchdog.reported_loss;
  reported = reports h.trace;
}

update_judgeable-blame : (w : World) (h : Host) → blame (update_judgeable w h) ≡ blame h
unfolding update_judgeable GpuWatchdog.set_judgeable
update_judgeable-blame w h = ground arith

note_engine_adapter-blame : (w : World) (h : Host) → blame (note_engine_adapter w h) ≡ blame h
unfolding note_engine_adapter
note_engine_adapter-blame w h = ground arith

start_epoch-blame : (w : World) (h : Host) → blame (start_epoch w h) ≡ blame h
unfolding start_epoch
start_epoch-blame w h = update_judgeable-blame w _

built-blame :
    (epoch : ℕ) (reason : Reason) (h : Host)
    → blame (emit Effect.redraw (emit (Effect.built epoch reason) h)) ≡ blame h
unfolding emit
built-blame epoch reason h = ground arith

engine_up-blame : (w : World) (reason : Reason) (h : Host) → blame (engine_up w reason h) ≡ blame h
unfolding engine_up
engine_up-blame w reason h = note_engine_adapter-blame w _ ∙ built-blame h.engine_epoch reason _

create_controller-blame :
    (w : World) (reason : Reason) (h : Host) → blame (create_controller w reason h) ≡ blame h
unfolding create_controller
create_controller-blame w reason h =
    elim w.engine_starts
      as (λ b.
        blame (
          if b
          then engine_up w reason (start_epoch w h)
          else record (start_epoch w h) { controller = false; callbacks = 0 })
        ≡ blame h) [
          | true ↦ engine_up-blame w reason _ ∙ start_epoch-blame w h
          | false ↦ start_epoch-blame w h
        ]

destroy_controller-blame :
    (w : World) (reason : Reason) (h : Host) → blame (destroy_controller w reason h) ≡ blame h
unfolding destroy_controller emit
destroy_controller-blame w reason h = ground arith

renewed-blame : (b : Bool) (w : World) (h : Host) → blame (when b (renew_sentinel w) h) ≡ blame h
unfolding renew_sentinel
renewed-blame true w h = refl
renewed-blame false w h = refl

if-blame :
    (b : Bool) (x y h : Host)
    → blame x ≡ blame h
    → blame y ≡ blame h
    → blame (if b then x else y) ≡ blame h
if-blame true x y h p q = p
if-blame false x y h p q = q

perform_engine_rebuild-blame :
    (w : World) (reason : String) (h : Host) → blame (perform_engine_rebuild w reason h) ≡ blame h
unfolding perform_engine_rebuild
perform_engine_rebuild-blame w reason h =
    let torn = destroy_controller w (Reason.rebuilding reason) h in
    let made = create_controller w (Reason.rebuilding reason) torn in
    if-blame (not h.controller) h _ h refl (
      update_judgeable-blame w _
      ∙ (renewed-blame made.controller w made
          ∙ (create_controller-blame w _ torn ∙ destroy_controller-blame w _ h)))

request_engine_rebuild-blame :
    (w : World) (why : String) (h : Host) → blame (request_engine_rebuild w why h) ≡ blame h
unfolding request_engine_rebuild
request_engine_rebuild-blame w why h =
    let asked = RebuildGate.request h.gate why w.now in
    let h' = record h { gate = asked.0 } in
    if-blame (not h.enabled || not h.controller) h _ h refl (
      if-blame (is_released asked.1.verdict) _ _ h
        (perform_engine_rebuild-blame w asked.1.reason h') (update_judgeable-blame w h'))

handle_session_decision-blame :
    (w : World) (decision : SessionPolicy.Decision) (h : Host)
    → blame (handle_session_decision w decision h) ≡ blame h
unfolding handle_session_decision
handle_session_decision-blame w decision h =
    elim (wants_rebuild decision.verdict)
      as (λ b. blame (when b (request_engine_rebuild w decision.reason) h) ≡ blame h) [
        | true ↦ request_engine_rebuild-blame w decision.reason h
        | false ↦ refl
      ]

open_tick-blame : (w : World) (h : Host) → blame (open_tick w h) ≡ blame h
unfolding open_tick GpuWatchdog.consume_judgement_hold_expired
open_tick-blame w h = ground arith

-- The two tests of the tick, of which one holds.
tests-blame :
    (released wanted : Bool) (x y z h : Host)
    → (released ≡ true) ⊎ (wanted ≡ true)
    → blame x ≡ blame h
    → blame y ≡ blame h
    → blame (if released then x else if wanted then y else z) ≡ blame h
tests-blame true wanted x y z h cause p q = p
tests-blame false true x y z h cause p q = q
tests-blame false false x y z h cause p q = elim cause [ inl e ↦ cc | inr e ↦ cc ]

-- A tick on which the gate lets a rebuild go, or on which the session policy asks for one, counts no
-- loss: the loop guard's window (whether it is open, its start and its count), the recoveries tried, the
-- latch of a reported loss and the number of reports stay as they were, whatever the rebuild comes to.
pub on_tick-blame :
    (f : Formats) (w : World) (h : Host)
    → (is_released (RebuildGate.poll h.gate w.now).1.verdict ≡ true)
      ⊎ (wants_rebuild (SessionPolicy.on_tick f h.policy w.now).1.verdict ≡ true)
    → blame (on_tick f w h) ≡ blame h
unfolding on_tick poll_gate open_tick
on_tick-blame f w h cause =
    let polled = RebuildGate.poll h.gate w.now in
    let session = SessionPolicy.on_tick f h.policy w.now in
    tests-blame (is_released polled.1.verdict) (wants_rebuild session.1.verdict) _ _ _ h cause
      (perform_engine_rebuild-blame w polled.1.reason _ ∙ open_tick-blame w h)
      (handle_session_decision-blame w session.1 _ ∙ open_tick-blame w h)
