-- ===== src/DartLiveness/Tests.antt =====
-- Runs of the liveness detector on concrete histories.
use centroid_x.Common.{true, false, List, [], ◌∷◌}
use centroid_x.Common.Int.{pos}
use centroid_x.Formats.{Formats}
use centroid_x.DartLiveness.{Stamp, no_stamp, default_config, Liveness}
use centroid_x.DartLiveness.Trace.{Event, stamped, evaluated}

abbrev blank : Formats
blank = record {
  to_string = λ n. "0";
  to_string_signed = λ n. "0";
  seconds = λ n. "0.0";
  seconds_plain = λ n. "0";
  hex8 = λ n. "00000000";
  hex4 = λ n. "0000";
}

-- A detector in its second engine generation.
abbrev live : Liveness
live = record {
  config = default_config;
  watching = true;
  epoch = pos 2;
  epoch_started_ms = 0;
  last_stamp_ms = 0;
  last_report_ms = 0;
  ever_stamped = false;
  silent = false;
  last = no_stamp;
  raster_failures = 0;
  raster_lost = false;
}

-- The same, silent, as reported at 70 s.
abbrev quiet : Liveness
quiet = record live { silent = true; last_report_ms = 70000 }

abbrev failed : Stamp
failed = record no_stamp { epoch = pos 2; raster_probed = true }

abbrev stale : Stamp
stale = record no_stamp { epoch = pos 1 }

abbrev mixed : List Event
mixed = stamped failed 10000 ∷ stamped stale 11000 ∷ evaluated 50000 ∷ stamped failed 60000 ∷ []

abbrev failing : List Event
failing = stamped failed 10000 ∷ stamped failed 20000 ∷ stamped failed 30000 ∷ []

-- A silence is announced at 70 s, before the stamp that ends it.
abbrev stalled : List Event
stalled = stamped failed 30000 ∷ evaluated 70000 ∷ []
