-- ===== src/Host/Requests.antt =====
-- The ways into a rebuild keep the books: a request, which goes through the gate, and what the session
-- policy asks for.
use Prim.Native.String.{String}
use centroid_x.Common.{ℕ, ◌≤◌, ◌≡◌, refl, ◌⊎◌, Bool, true, false, not, ◌||◌, arith, elapsed}
use centroid_x.RebuildGate
use centroid_x.SessionPolicy
use centroid_x.Host.{World, Host}
use centroid_x.Host.Engine.{
  perform_engine_rebuild, is_released, request_engine_rebuild, handle_session_decision,
  wants_rebuild,
}
use centroid_x.Host.Kept.{GateAgrees, IsIdle, Kept, same, followed, when-Kept, if-Kept}
use centroid_x.Host.Lives.{MayRebuild, perform_engine_rebuild-Kept, update_judgeable-Kept}

pub gated-Kept :
    (gate : RebuildGate.Gate) (h : Host)
    → (GateAgrees h.gate h.dart_startup_complete h.epoch_started_tick
        → GateAgrees gate h.dart_startup_complete h.epoch_started_tick)
    → Kept h (record h { gate = gate })
gated-Kept gate h agrees = record {
  valid = λ v. record {
    pending = v.pending;
    owned = v.owned;
    agrees = agrees v.agrees;
    listens = v.listens;
    balanced = v.balanced;
    spared = v.spared;
    falling = v.falling;
  };
  idle = λ e. record { none_left = e; none_built = refl };
}

perform_engine_rebuild-IsIdle :
    (w : World) (reason : String) (h : Host)
    → h.controller ≡ false
    → IsIdle h (perform_engine_rebuild w reason h)
unfolding perform_engine_rebuild
perform_engine_rebuild-IsIdle w reason h e = ground arith

-- A rebuild that the gate has released.
pub released-Kept :
    (w : World) (reason : String) (gate : RebuildGate.Gate) (h : Host)
    → (GateAgrees h.gate h.dart_startup_complete h.epoch_started_tick
        → GateAgrees gate h.dart_startup_complete h.epoch_started_tick)
    → (GateAgrees h.gate h.dart_startup_complete h.epoch_started_tick → MayRebuild w h)
    → Kept h (perform_engine_rebuild w reason (record h { gate = gate }))
released-Kept w reason gate h agrees may =
    let h' = record h { gate = gate } in
    let first = gated-Kept gate h agrees in
    record {
      valid =
          λ v. (perform_engine_rebuild-Kept w reason h' (λ _. may v.agrees)).valid (first.valid v);
      idle = λ e.
          let still = perform_engine_rebuild-IsIdle w reason h' e in
          record { none_left = still.none_left; none_built = still.none_built };
    }

request-agrees :
    (g : RebuildGate.Gate) (why : String) (now : ℕ) (complete : Bool) (started : ℕ)
    → GateAgrees g complete started
    → GateAgrees (RebuildGate.request g why now).0 complete started
unfolding RebuildGate.request RebuildGate.enqueue RebuildGate.release
request-agrees g why now complete started a = ground arith

request-may :
    (g : RebuildGate.Gate) (why : String) (now : ℕ) (complete : Bool) (started : ℕ)
    → GateAgrees g complete started
    → is_released (RebuildGate.request g why now).1.verdict ≡ true
    → (complete ≡ true) ⊎ (180000 ≤ elapsed now started)
unfolding RebuildGate.request RebuildGate.enqueue RebuildGate.release RebuildGate.startup_blocking
request-may g why now complete started a e = ground arith

pub poll-agrees :
    (g : RebuildGate.Gate) (now : ℕ) (complete : Bool) (started : ℕ)
    → GateAgrees g complete started
    → GateAgrees (RebuildGate.poll g now).0 complete started
unfolding RebuildGate.poll RebuildGate.release
poll-agrees g now complete started a = ground arith

pub poll-may :
    (g : RebuildGate.Gate) (now : ℕ) (complete : Bool) (started : ℕ)
    → GateAgrees g complete started
    → is_released (RebuildGate.poll g now).1.verdict ≡ true
    → (complete ≡ true) ⊎ (180000 ≤ elapsed now started)
unfolding RebuildGate.poll RebuildGate.release RebuildGate.startup_blocking
poll-may g now complete started a e = ground arith

pub request_engine_rebuild-Kept :
    (w : World) (why : String) (h : Host) → Kept h (request_engine_rebuild w why h)
unfolding request_engine_rebuild
request_engine_rebuild-Kept w why h =
    let decision = (RebuildGate.request h.gate why w.now).1 in
    let agrees = request-agrees h.gate why w.now h.dart_startup_complete h.epoch_started_tick in
    if-Kept (not h.enabled || not h.controller) h _ _ (λ _. same refl)
      (λ _.
        if-Kept (is_released decision.verdict) h _ _
          (λ r.
            released-Kept w decision.reason _ h agrees
              (λ a. request-may h.gate why w.now h.dart_startup_complete h.epoch_started_tick a r))
          (λ _. followed _ (gated-Kept _ h agrees) (update_judgeable-Kept w _)))

pub handle_session_decision-Kept :
    (w : World) (decision : SessionPolicy.Decision) (h : Host)
    → Kept h (handle_session_decision w decision h)
unfolding handle_session_decision
handle_session_decision-Kept w decision h =
    when-Kept (wants_rebuild decision.verdict) (request_engine_rebuild w decision.reason) h
      (request_engine_rebuild-Kept w decision.reason)
