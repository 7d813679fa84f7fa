-- ===== src/SessionPolicy/Tests.antt =====
-- Runs of the session policy on concrete histories.
use centroid_x.Common.{◌≡◌, ◌≢◌, true, false, List, [], ◌∷◌}
use centroid_x.Formats.{Formats}
use centroid_x.SessionPolicy.{AdapterCheck, default_config, Policy}
use centroid_x.SessionPolicy.Phases.{
  Event, created, disconnected, framed, ticked, connected, step, spec, phase, step-spec,
}

abbrev blank : Formats
blank = record {
  to_string = λ n. "0";
  to_string_signed = λ n. "0";
  seconds = λ n. "0.0";
  seconds_plain = λ n. "0";
  hex8 = λ n. "00000000";
  hex4 = λ n. "0000";
}

-- After a remote disconnect.
abbrev suspicious : Policy
suspicious = record {
  config = default_config;
  suspect = true;
  probation = false;
  probation_since_ms = 0;
}

abbrev patient : List Event
patient = ticked 10000 ∷ connected 11000 AdapterCheck.same ∷ ticked 15999 ∷ []

abbrev unattended : List Event
unattended = ticked 10000 ∷ framed 11000 ∷ disconnected 12000 ∷ created 13000 ∷ []

same-ne-changed : AdapterCheck.same ≢ AdapterCheck.changed
same-ne-changed e = cc

step-spec_example : spec blank default_config (phase suspicious) (connected 5 AdapterCheck.same) ≡ (
  phase (step blank suspicious (connected 5 AdapterCheck.same)).0,
  (step blank suspicious (connected 5 AdapterCheck.same)).1,
)
step-spec_example = step-spec blank suspicious (connected 5 AdapterCheck.same)
