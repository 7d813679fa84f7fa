-- ===== src/Host/Engine.antt =====
-- The engine's life: CreateController, DestroyController, PerformEngineRebuild and what calls them.
use Prim.Native.String.{String}
use centroid_x.Common.{
  ℕ, ◌+◌, Bool, true, false, not, ◌&&◌, ◌||◌, Option, none, some, if◌then◌else◌, elapsed,
}
use centroid_x.Common.Int.{pos}
use centroid_x.GpuWatchdog
use centroid_x.RebuildGate
use centroid_x.SessionPolicy
use centroid_x.DartLiveness
use centroid_x.LogThrottle
use centroid_x.Host.{World, Reason, Effect, Host, when, emit}

-- UpdateWatchdogJudgeable: frames mean something once Dart runs and no rebuild is queued.
unfoldable pub update_judgeable : World → Host → Host
update_judgeable w h = record h {
  watchdog = GpuWatchdog.set_judgeable h.watchdog (h.dart_main_seen && not h.gate.queued) w.now;
}

-- NoteEngineAdapter: an empty answer leaves the last one in place.
unfoldable pub note_engine_adapter : World → Host → Host
note_engine_adapter w h = if not h.controller then h else elim w.engine_adapter [
  | none ↦ h
  | some luid ↦ record h { adapter_known = true; adapter_luid = luid }
]

abbrev is_some : Option ℕ → Bool
is_some none = false
is_some (some luid) = true

abbrev luid_or_zero : Option ℕ → ℕ
luid_or_zero none = 0
luid_or_zero (some luid) = luid

-- CheckRenderAdapter.
unfoldable pub check_render_adapter : World → Host → Host × SessionPolicy.AdapterCheck
check_render_adapter w h =
    let h' = note_engine_adapter w h in
    (
      h',
      SessionPolicy.classify_adapter_check h'.adapter_known h'.adapter_luid
          (is_some w.session_adapter) (luid_or_zero w.session_adapter),
    )

-- The first part of CreateController: a new generation, of which nothing is known.
unfoldable pub start_epoch : World → Host → Host
start_epoch w h =
    let h' = update_judgeable w (record h {
      engine_epoch = h.engine_epoch + 1;
      epoch_started_tick = w.now;
      gate = RebuildGate.engine_created h.gate w.now;
      dart_startup_complete = false;
      dart_main_seen = false;
    }) in
    record h' {
      liveness = DartLiveness.epoch_started h'.liveness (pos h'.engine_epoch) w.now;
      liveness_log = LogThrottle.reset h'.liveness_log;
    }

-- The second part, once the engine and its view are there. `redraw` is ForceRedraw.
unfoldable pub engine_up : World → Reason → Host → Host
engine_up w reason h = note_engine_adapter w (
    emit Effect.redraw (
      emit (Effect.built h.engine_epoch reason) (record h {
        controller = true;
        probe_armed = true;
        callbacks = 1;
        sentinel_loss_logged = false;
        policy = SessionPolicy.engine_created h.policy h.epoch_started_tick;
        adapter_known = false;
      })))

-- CreateController, which returns whether there is a controller.
unfoldable pub create_controller : World → Reason → Host → Host
create_controller w reason h =
    let h' = start_epoch w h in
    if w.engine_starts
    then engine_up w reason h'
    else record h' { controller = false; callbacks = 0 }

-- DestroyController: the callbacks belong to the engine and go with it.
unfoldable pub destroy_controller : World → Reason → Host → Host
destroy_controller w reason h =
    let h' =
      when h.controller
        (emit
          (Effect.torn_down h.dart_startup_complete (elapsed w.now h.epoch_started_tick) reason))
        h in
    record h' { controller = false; callbacks = 0; probe_armed = false }

-- The sentinel may belong to the adapter that went away.
unfoldable pub renew_sentinel : World → Host → Host
renew_sentinel w h = record h { sentinel_available = w.sentinel_created }

unfoldable pub perform_engine_rebuild : World → String → Host → Host
perform_engine_rebuild w reason h =
    if not h.controller
    then h
    else let h' =
        create_controller w (Reason.rebuilding reason)
          (destroy_controller w (Reason.rebuilding reason) h) in
      update_judgeable w (when h'.controller (renew_sentinel w) h')

abbrev pub is_released : RebuildGate.Verdict → Bool
is_released RebuildGate.Verdict.rebuild_now = true
is_released _ = false

-- Every request for a rebuild goes through the gate.
unfoldable pub request_engine_rebuild : World → String → Host → Host
request_engine_rebuild w why h =
    if not h.enabled || not h.controller
    then h
    else let (gate, decision) = RebuildGate.request h.gate why w.now in
      let h' = record h { gate = gate } in
      if is_released decision.verdict
      then perform_engine_rebuild w decision.reason h'
      else update_judgeable w h'

abbrev pub wants_rebuild : SessionPolicy.Verdict → Bool
wants_rebuild SessionPolicy.Verdict.rebuild_now = true
wants_rebuild _ = false

unfoldable pub handle_session_decision : World → SessionPolicy.Decision → Host → Host
handle_session_decision w decision =
    when (wants_rebuild decision.verdict) (request_engine_rebuild w decision.reason)
