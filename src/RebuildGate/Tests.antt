-- ===== src/RebuildGate/Tests.antt =====
-- Runs of the gate on concrete histories.
use centroid_x.Common.{◌≡◌, refl, true, false, List, [], ◌∷◌, arith}
use centroid_x.Formats.{Formats}
use centroid_x.RebuildGate.{
  default_config, Verdict, no_decision, Gate, new, engine_created, startup_complete,
  startup_blocking, release, in_debounce, enqueue, request, poll,
}
use centroid_x.RebuildGate.Trace.{
  Event, created, completed, polled, requested, step, run, requests, rebuilds, last_reason,
  run-coalesces,
}

-- An engine was created at 1 s and has not reported its startup complete.
abbrev starting : Gate
starting = record {
  config = default_config;
  startup_in_flight = true;
  startup_started_ms = 1000;
  last_rebuild_ms = 0;
  ever_rebuilt = false;
  queued = false;
  queued_count = 0;
  queued_since_ms = 0;
  queued_reason = "";
}

-- The engine was rebuilt at 1 s.
abbrev rebuilt : Gate
rebuilt = record starting { startup_in_flight = false; ever_rebuilt = true; last_rebuild_ms = 1000 }

-- A request waits since 2 s.
abbrev waiting : Gate
waiting = record starting {
  queued = true;
  queued_count = 1;
  queued_since_ms = 2000;
  queued_reason = "resume";
}

abbrev asking : List Event
asking = requested "display" 2000 ∷ polled 3000 ∷ requested "resume" 4000 ∷ []

abbrev life : List Event
life = created 0 ∷ requested "display" 10 ∷ completed 20 ∷ polled 30 ∷ requested "resume" 40 ∷ []

life-rebuilds : rebuilds (run (new default_config) life).1 ≡ 1
unfolding new run step engine_created startup_complete startup_blocking release in_debounce enqueue
    request poll
life-rebuilds = refl

run-coalesces_example :
    let g' = (run starting asking).0 in
    let answered = poll (startup_complete g' 5000) 6000 in
    let forced = poll g' 181000 in
    (rebuilds (run starting asking).1 ≡ 0)
    × (answered.1.verdict ≡ Verdict.rebuild_now)
    × (answered.1.coalesced ≡ requests asking)
    × (answered.1.reason ≡ last_reason "" asking)
    × (answered.1.startup_timed_out ≡ false)
    × (poll answered.0 6000 ≡ (answered.0, no_decision))
    × (forced.1.verdict ≡ Verdict.rebuild_now)
    × (forced.1.coalesced ≡ requests asking)
    × (forced.1.reason ≡ last_reason "" asking)
    × (forced.1.startup_timed_out ≡ true)
unfolding in_debounce request poll startup_blocking enqueue
run-coalesces_example =
    run-coalesces starting asking 5000 6000 181000 (omega arith) refl refl refl
      (omega arith, refl, (omega arith, (omega arith, refl, tt))) (omega arith) (omega arith)
      (omega arith)

abbrev blank : Formats
blank = record {
  to_string = λ n. "0";
  to_string_signed = λ n. "0";
  seconds = λ n. "0.0";
  seconds_plain = λ n. "0";
  hex8 = λ n. "00000000";
  hex4 = λ n. "0000";
}
