-- ===== src/RebuildGate.antt =====
-- centroid-hmi/windows/runner/engine_rebuild_gate.h and engine_rebuild_gate.cpp: the class
-- EngineRebuildGate, which decides when the engine may be rebuilt.
pub mod Trace
pub mod Describe
mod Tests
use Prim.Native.String.{String}
use centroid_x.Common.{
  ℕ, ◌+◌, ◌-◌, Bool, true, false, not, ◌&&◌, ltb, leb, ◌==◌, if◌then◌else◌, u32, elapsed,
}

pub record Config : Type 0 where
  pub debounce_ms : ℕ
  pub startup_timeout_ms : ℕ

abbrev pub default_config : Config
default_config = record { debounce_ms = 3000; startup_timeout_ms = 180000 }

pub data Verdict : Type 0 where
  idle rebuild_now queued coalesced debounced : Verdict

pub record Decision : Type 0 where
  pub verdict : Verdict
  pub coalesced : ℕ
  pub reason : String
  pub waited_ms : ℕ
  pub startup_timed_out : Bool

abbrev pub no_decision : Decision
no_decision = record {
  verdict = Verdict.idle;
  coalesced = 0;
  reason = "";
  waited_ms = 0;
  startup_timed_out = false;
}

pub record Gate : Type 0 where
  pub config : Config
  pub startup_in_flight : Bool
  pub startup_started_ms : ℕ
  pub last_rebuild_ms : ℕ
  pub ever_rebuilt : Bool
  pub queued : Bool
  pub queued_count : ℕ
  pub queued_since_ms : ℕ
  pub queued_reason : String

unfoldable pub new : Config → Gate
new c = record {
  config = c;
  startup_in_flight = false;
  startup_started_ms = 0;
  last_rebuild_ms = 0;
  ever_rebuilt = false;
  queued = false;
  queued_count = 0;
  queued_since_ms = 0;
  queued_reason = "";
}

unfoldable pub engine_created : Gate → ℕ → Gate
engine_created g now = record g { startup_in_flight = true; startup_started_ms = now }

unfoldable pub startup_complete : Gate → ℕ → Gate
startup_complete g now = record g { startup_in_flight = false }

unfoldable pub startup_blocking : Gate → ℕ → Bool
startup_blocking g now =
    if not g.startup_in_flight
    then false
    else ltb (elapsed now g.startup_started_ms) g.config.startup_timeout_ms

unfoldable pub release : Gate → ℕ → Gate × Decision
release g now = (
  record g {
    queued = false;
    queued_count = 0;
    queued_since_ms = 0;
    queued_reason = "";
    last_rebuild_ms = now;
    ever_rebuilt = true;
  },
  record {
    verdict = Verdict.rebuild_now;
    coalesced = if g.queued_count == 0 then 1 else g.queued_count;
    reason = g.queued_reason;
    waited_ms = if g.queued then elapsed now g.queued_since_ms else 0;
    startup_timed_out = g.queued && g.startup_in_flight;
  },
)

-- The first test of Request.
unfoldable pub in_debounce : Gate → ℕ → Bool
in_debounce g now =
    g.ever_rebuilt
    && leb g.last_rebuild_ms now
    && ltb (now - g.last_rebuild_ms) g.config.debounce_ms

-- The branch of Request that holds a request while a startup is in flight.
unfoldable pub enqueue : Gate → String → ℕ → Gate × Decision
enqueue g reason now =
    let since = if g.queued then g.queued_since_ms else now in
    let count = u32 (g.queued_count + 1) in
    (
      record g {
        queued = true;
        queued_since_ms = since;
        queued_count = count;
        queued_reason = reason;
      },
      record {
        verdict = if g.queued then Verdict.coalesced else Verdict.queued;
        coalesced = count;
        reason = reason;
        waited_ms = elapsed now since;
        startup_timed_out = false;
      },
    )

unfoldable pub request : Gate → String → ℕ → Gate × Decision
request g reason now =
    if in_debounce g now
    then (g, record no_decision { verdict = Verdict.debounced; reason = reason })
    else if startup_blocking g now
    then enqueue g reason now
    else release
        (record g {
          queued_count = u32 (g.queued_count + 1);
          queued_reason = reason;
          queued_since_ms = if g.queued then g.queued_since_ms else now;
          queued = true;
        })
        now

unfoldable pub poll : Gate → ℕ → Gate × Decision
poll g now =
    if not g.queued
    then (g, no_decision)
    else if startup_blocking g now
    then (g, no_decision)
    else release g now
