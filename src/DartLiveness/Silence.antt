-- ===== src/DartLiveness/Silence.antt =====
-- When the detector speaks of a silence, and how often.
use centroid_x.Common.{
  ℕ, ◌+◌, ◌-◌, ◌*◌, ◌^◌, ◌≤◌, ◌<◌, ◌≡◌, refl, sym, ap, ◌∙◌, Bool, true, false, List, [], ◌∷◌, arith,
}
use centroid_x.Common.Int.{ℤ}
use centroid_x.DartLiveness.{
  Stamp, Config, Verdict, Decision, Liveness, epoch_started, snapshot, on_stamp, judge_raster,
  accept, stamp_verdict, evaluate,
}
use centroid_x.DartLiveness.Trace.{Event, stamped, evaluated, step, run}

abbrev pub one_if : Bool → ℕ
one_if true = 1
one_if false = 0

abbrev pub is_alarm : Verdict → ℕ
is_alarm Verdict.silent = 1
is_alarm Verdict.never_arrived = 1
is_alarm _ = 0

abbrev pub is_recovered : Verdict → ℕ
is_recovered Verdict.recovered = 1
is_recovered _ = 0

abbrev pub is_still : Verdict → ℕ
is_still Verdict.still_silent = 1
is_still _ = 0

-- How often a verdict was given.
abbrev pub count : (Verdict → ℕ) → List Decision → ℕ
count p [] = 0
count p (d ∷ decisions) = p d.verdict + count p decisions

abbrev pub stamps : List Event → ℕ
stamps [] = 0
stamps (stamped stamp now ∷ es) = 1 + stamps es
stamps (evaluated now ∷ es) = stamps es

-- An alarm raises the flag; only a stamp lowers it, and says so unless it is the first.
record Latched (arrived : ℕ) (l : Liveness) (r : Liveness × Decision) : Type 0 where
  alarm : is_alarm r.1.verdict + one_if l.silent ≤ arrived + one_if r.0.silent
  recovery : is_recovered r.1.verdict + one_if r.0.silent ≤ is_alarm r.1.verdict + one_if l.silent

on_stamp-Latched : (l : Liveness) (stamp : Stamp) (now : ℕ) → Latched 1 l (on_stamp l stamp now)
unfolding on_stamp judge_raster accept snapshot stamp_verdict
on_stamp-Latched l stamp now = ground arith

evaluate-Latched : (l : Liveness) (now : ℕ) → Latched 0 l (evaluate l now)
unfolding evaluate snapshot
evaluate-Latched l now = ground arith

run-Latched :
    (l : Liveness) (es : List Event)
    → (count is_alarm (run l es).1 + one_if l.silent ≤ stamps es + one_if (run l es).0.silent)
      × (count is_recovered (run l es).1 + one_if (run l es).0.silent
          ≤ count is_alarm (run l es).1 + one_if l.silent)
unfolding run step
run-Latched l [] = (omega arith, omega arith)
run-Latched l (stamped stamp now ∷ es) =
    let s = on_stamp-Latched l stamp now in
    let rest = run-Latched (on_stamp l stamp now).0 es in
    (omega (arith, s.alarm, rest.0), omega (arith, s.recovery, rest.1))
run-Latched l (evaluated now ∷ es) =
    let s = evaluate-Latched l now in
    let rest = run-Latched (evaluate l now).0 es in
    (omega (arith, s.alarm, rest.0), omega (arith, s.recovery, rest.1))

one_if-le-one : (b : Bool) → one_if b ≤ 1
one_if-le-one true = omega arith
one_if-le-one false = omega arith

-- A stall is announced once and ended once: from the start of an engine generation, over any stamps
-- and evaluations, the alarms are at most one more than the stamps, and the recoveries are at most
-- as many as the alarms.
pub alarms-le-stamps :
    (l : Liveness) (epoch : ℤ) (now : ℕ) (es : List Event)
    → let decisions = (run (epoch_started l epoch now) es).1 in
      (count is_alarm decisions ≤ stamps es + 1)
      × (count is_recovered decisions ≤ count is_alarm decisions)
unfolding epoch_started
alarms-le-stamps l epoch now es =
    let l' = epoch_started l epoch now in
    let (alarms, recoveries) = run-Latched l' es in
    (omega (arith, alarms, one_if-le-one (run l' es).0.silent), omega (arith, recoveries))

abbrev pub evaluations : List ℕ → List Event
evaluations [] = []
evaluations (t ∷ ts) = evaluated t ∷ evaluations ts

-- Clock readings that never run back, up to a last one.
abbrev pub Ordered : ℕ → List ℕ → ℕ → Type 0
Ordered from [] to = from ≤ to
Ordered from (t ∷ ts) to = (from ≤ t) × (t ≤ to) × Ordered t ts to

record Repeats (l : Liveness) (now : ℕ) (r : Liveness × Decision) : Type 0 where
  same_config : r.0.config ≡ l.config
  silent : r.0.silent ≡ true
  spaced : l.config.repeat_ms * is_still r.1.verdict + l.last_report_ms ≤ r.0.last_report_ms
  not_later : r.0.last_report_ms ≤ now

evaluate-Repeats :
    (l : Liveness) (now : ℕ)
    → l.silent ≡ true
    → l.last_report_ms ≤ now
    → now < 2 ^ 64
    → Repeats l now (evaluate l now)
unfolding evaluate snapshot
evaluate-Repeats l now s h r = ground arith

run-Repeats :
    (repeat : ℕ) (l : Liveness) (from to : ℕ) (ts : List ℕ)
    → repeat ≡ l.config.repeat_ms
    → Ordered from ts to
    → to < 2 ^ 64
    → l.silent ≡ true
    → l.last_report_ms ≤ from
    → repeat * count is_still (run l (evaluations ts)).1 + l.last_report_ms ≤ to
unfolding run step
run-Repeats repeat l from to [] e o r s h = omega arith
run-Repeats repeat l from to (t ∷ ts) e o r s h =
    let k = evaluate-Repeats l t s (omega arith) (omega arith) in
    let rest =
      run-Repeats repeat (evaluate l t).0 t to ts
        (e ∙ ap (λ (c : Config). c.repeat_ms) (sym k.same_config)) o.2 r k.silent k.not_later in
    let spaced : repeat * is_still (evaluate l t).1.verdict + l.last_report_ms
        ≤ (evaluate l t).0.last_report_ms =
      rw e k.spaced in
    omega (arith, spaced, rest)

-- A silence that goes on is repeated at intervals, never as a flood: over evaluations at clock
-- readings that do not run back, from the one at which the silence was last reported, the repeats
-- times the configured interval do not exceed the time that has passed.
pub repeats_spaced :
    (l : Liveness) (from to : ℕ) (ts : List ℕ)
    → l.silent ≡ true
    → l.last_report_ms ≡ from
    → Ordered from ts to
    → to < 2 ^ 64
    → l.config.repeat_ms * count is_still (run l (evaluations ts)).1 ≤ to - from
repeats_spaced l from to ts s at o r =
    omega (arith, run-Repeats l.config.repeat_ms l from to ts refl o r s (omega arith))
