-- ===== src/SessionPolicy/Phases.antt =====
-- The three flags of the policy seen as one of three phases.
use Prim.Native.String.{String}
use centroid_x.Common.{ℕ, ◌-◌, ◌≡◌, Bool, List, [], ◌∷◌, arith, ltb, if◌then◌else◌}
use centroid_x.Formats.{Formats}
use centroid_x.SessionPolicy.{
  AdapterCheck, Config, Verdict, Decision, no_decision, Policy, changed_reason, blind_reason,
  timeout_reason, set_storm_detector_available, engine_created, on_remote_disconnect,
  on_remote_connect, on_frame_presented, on_tick,
}

pub data Event : Type 0 where
  created disconnected framed ticked : ℕ → Event
  connected : ℕ → AdapterCheck → Event
  detector : Bool → Event

unfoldable pub step : Formats → Policy → Event → Policy × Decision
step f p (created now) = (engine_created p now, no_decision)
step f p (disconnected now) = on_remote_disconnect p now
step f p (framed now) = on_frame_presented p now
step f p (ticked now) = on_tick f p now
step f p (connected now adapter) = on_remote_connect p now adapter
step f p (detector available) = (set_storm_detector_available p available, no_decision)

unfoldable pub run : Formats → Policy → List Event → Policy × List Decision
run f p [] = (p, [])
run f p (e ∷ es) =
    let (p', d) = step f p e in let (p'', decisions) = run f p' es in (p'', d ∷ decisions)

-- The specification: nothing is suspected, a disconnect left the context suspect, or a reconnected
-- renderer has until some time after `since` to present a frame.
pub data Phase : Type 0 where
  settled suspected : Phase
  probing : ℕ → Phase

abbrev rebuild : String → AdapterCheck → ℕ → Decision
rebuild reason adapter waited = record {
  verdict = Verdict.rebuild_now;
  reason = reason;
  adapter = adapter;
  waited_ms = waited;
}

-- A connect that does not rebuild opens the probation, or finds it open.
abbrev open_probation : Config → Phase → ℕ → AdapterCheck → Phase × Decision
open_probation c (probing since) now adapter =
    (probing since, record no_decision { adapter = adapter })
open_probation c _ now adapter = (
  probing now,
  record {
    verdict = Verdict.probe;
    reason = "";
    adapter = adapter;
    waited_ms = c.reconnect_probation_ms;
  },
)

abbrev connect_spec : Config → Phase → ℕ → AdapterCheck → Phase × Decision
connect_spec c ph now AdapterCheck.changed =
    (settled, rebuild changed_reason AdapterCheck.changed 0)
connect_spec c ph now adapter =
    if c.storm_detector_available
    then open_probation c ph now adapter
    else (settled, rebuild blind_reason adapter 0)

abbrev pub spec : Formats → Config → Phase → Event → Phase × Decision
spec f c ph (created now) = (settled, no_decision)
spec f c suspected (disconnected now) = (suspected, no_decision)
spec f c ph (disconnected now) = (suspected, record no_decision { verdict = Verdict.deferred })
spec f c (probing since) (framed now) =
    (settled, record no_decision { verdict = Verdict.kept_renderer; waited_ms = now - since })
spec f c ph (framed now) = (ph, no_decision)
spec f c (probing since) (ticked now) =
    if ltb (now - since) c.reconnect_probation_ms
    then (probing since, no_decision)
    else (settled, rebuild (timeout_reason f c) AdapterCheck.unknown (now - since))
spec f c ph (ticked now) = (ph, no_decision)
spec f c ph (connected now adapter) = connect_spec c ph now adapter
spec f c ph (detector available) = (ph, no_decision)

unfoldable pub phase : Policy → Phase
phase p =
    if p.probation then probing p.probation_since_ms else if p.suspect then suspected else settled

-- Every call does to the phase, and decides, exactly what the specification of three phases says.
pub step-spec :
    (f : Formats) (p : Policy) (e : Event)
    → spec f p.config (phase p) e ≡ (phase (step f p e).0, (step f p e).1)
unfolding phase step on_remote_disconnect on_remote_connect on_frame_presented on_tick
    engine_created set_storm_detector_available
step-spec f p (created now) = ground arith
step-spec f p (disconnected now) = ground arith
step-spec f p (framed now) = ground arith
step-spec f p (ticked now) = ground arith
step-spec f p (connected now adapter) = ground arith
step-spec f p (detector available) = ground arith
