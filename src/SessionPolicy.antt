-- ===== src/SessionPolicy.antt =====
-- centroid-hmi/windows/runner/session_rebuild_policy.h and session_rebuild_policy.cpp: the class
-- SessionRebuildPolicy, which decides what a remote disconnect or connect does to the renderer.
pub mod Phases
pub mod Probation
pub mod Describe
mod Tests
use Prim.Native.String.{String, ◌++◌}
use centroid_x.Common.{ℕ, Bool, true, false, not, ◌&&◌, ◌||◌, ltb, ◌==◌, if◌then◌else◌, elapsed}
use centroid_x.Formats.{Formats}

pub data AdapterCheck : Type 0 where
  unknown same changed : AdapterCheck

unfoldable pub classify_adapter_check : Bool → ℕ → Bool → ℕ → AdapterCheck
classify_adapter_check engine_known engine_luid current_known current_luid =
    if not engine_known || not current_known
    then AdapterCheck.unknown
    else if engine_luid == current_luid
    then AdapterCheck.same
    else AdapterCheck.changed

pub record Config : Type 0 where
  pub reconnect_probation_ms : ℕ
  pub storm_detector_available : Bool

abbrev pub default_config : Config
default_config = record { reconnect_probation_ms = 15000; storm_detector_available = true }

pub data Verdict : Type 0 where
  nothing deferred probe kept_renderer rebuild_now : Verdict

pub record Decision : Type 0 where
  pub verdict : Verdict
  pub reason : String
  pub adapter : AdapterCheck
  pub waited_ms : ℕ

abbrev pub no_decision : Decision
no_decision = record {
  verdict = Verdict.nothing;
  reason = "";
  adapter = AdapterCheck.unknown;
  waited_ms = 0;
}

pub record Policy : Type 0 where
  pub config : Config
  pub suspect : Bool
  pub probation : Bool
  pub probation_since_ms : ℕ

unfoldable pub new : Config → Policy
new c = record { config = c; suspect = false; probation = false; probation_since_ms = 0 }

unfoldable pub set_storm_detector_available : Policy → Bool → Policy
set_storm_detector_available p available = record p {
  config = record (p.config) { storm_detector_available = available };
}

unfoldable pub engine_created : Policy → ℕ → Policy
engine_created p now = record p { suspect = false; probation = false; probation_since_ms = 0 }

unfoldable pub on_remote_disconnect : Policy → ℕ → Policy × Decision
on_remote_disconnect p now =
    let p' = record p { probation = false; probation_since_ms = 0 } in
    if p.suspect && not p.probation
    then (p', no_decision)
    else (record p' { suspect = true }, record no_decision { verdict = Verdict.deferred })

abbrev pub is_changed : AdapterCheck → Bool
is_changed AdapterCheck.changed = true
is_changed _ = false

abbrev pub changed_reason : String
changed_reason = "session change: remote connect (render adapter changed)"

abbrev pub blind_reason : String
blind_reason = "session change: remote connect (no context-loss detector installed)"

unfoldable pub on_remote_connect : Policy → ℕ → AdapterCheck → Policy × Decision
on_remote_connect p now adapter =
    let decision = record no_decision { adapter = adapter } in
    if is_changed adapter
    then (
      record p { suspect = false; probation = false },
      record decision { verdict = Verdict.rebuild_now; reason = changed_reason },
    )
    else if not p.config.storm_detector_available
    then (
      record p { suspect = false; probation = false },
      record decision { verdict = Verdict.rebuild_now; reason = blind_reason },
    )
    else if p.probation
    then (p, decision)
    else (
      record p { probation = true; probation_since_ms = now },
      record decision { verdict = Verdict.probe; waited_ms = p.config.reconnect_probation_ms },
    )

unfoldable pub on_frame_presented : Policy → ℕ → Policy × Decision
on_frame_presented p now = if not p.probation then (p, no_decision) else (
  record p { probation = false; probation_since_ms = 0; suspect = false },
  record no_decision {
    verdict = Verdict.kept_renderer;
    waited_ms = elapsed now p.probation_since_ms;
  },
)

unfoldable pub timeout_reason : Formats → Config → String
timeout_reason f c =
    "session change: remote connect (no frame within "
    ++ (f.seconds c.reconnect_probation_ms ++ " s)")

unfoldable pub on_tick : Formats → Policy → ℕ → Policy × Decision
on_tick f p now =
    if not p.probation
    then (p, no_decision)
    else let waited = elapsed now p.probation_since_ms in
      if ltb waited p.config.reconnect_probation_ms then (p, no_decision) else (
        record p { probation = false; probation_since_ms = 0; suspect = false },
        record no_decision {
          verdict = Verdict.rebuild_now;
          waited_ms = waited;
          reason = timeout_reason f p.config;
        },
      )
