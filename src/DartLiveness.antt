-- ===== src/DartLiveness.antt =====
-- centroid-hmi/windows/runner/dart_liveness.h and dart_liveness.cpp: the class DartLiveness, which
-- judges the stamps that the UI isolate sends. An epoch is signed, and -1 where it is not known; the
-- `int` count of failures is a number, since it is only ever set to 0 and increased.
pub mod Trace
pub mod Silence
pub mod Deadline
pub mod Raster
pub mod Describe
mod Tests
use centroid_x.Common.{
  ℕ, ◌+◌, ◌-◌, Bool, true, false, not, ◌&&◌, ltb, leb, ◌==◌, if◌then◌else◌, elapsed, sub64,
}
use centroid_x.Common.Int.{ℤ, pos, negsuc}

pub record Stamp : Type 0 where
  pub epoch : ℤ
  pub uptime_ms : ℕ
  pub ticks : ℕ
  pub frames : ℕ
  pub lag_ms : ℕ
  pub startup_complete : Bool
  pub raster_probed : Bool
  pub raster_ok : Bool

abbrev pub no_stamp : Stamp
no_stamp = record {
  epoch = negsuc 0;
  uptime_ms = 0;
  ticks = 0;
  frames = 0;
  lag_ms = 0;
  startup_complete = false;
  raster_probed = false;
  raster_ok = false;
}

pub record Config : Type 0 where
  pub expected_interval_ms : ℕ
  pub silent_after_ms : ℕ
  pub repeat_ms : ℕ
  pub startup_grace_ms : ℕ
  pub raster_failures_before_loss : ℕ

abbrev pub default_config : Config
default_config = record {
  expected_interval_ms = 10000;
  silent_after_ms = 30000;
  repeat_ms = 60000;
  startup_grace_ms = 60000;
  raster_failures_before_loss = 3;
}

pub data Verdict : Type 0 where
  nothing_to_say first_stamp silent still_silent recovered never_arrived : Verdict

pub record Decision : Type 0 where
  pub verdict : Verdict
  pub silence_ms : ℕ
  pub last : Stamp
  pub ever_stamped : Bool
  pub raster_lost : Bool
  pub raster_recovered : Bool
  pub raster_failures : ℕ

abbrev pub no_decision : Decision
no_decision = record {
  verdict = Verdict.nothing_to_say;
  silence_ms = 0;
  last = no_stamp;
  ever_stamped = false;
  raster_lost = false;
  raster_recovered = false;
  raster_failures = 0;
}

pub record Liveness : Type 0 where
  pub config : Config
  pub watching : Bool
  pub epoch : ℤ
  pub epoch_started_ms : ℕ
  pub last_stamp_ms : ℕ
  pub last_report_ms : ℕ
  pub ever_stamped : Bool
  pub silent : Bool
  pub last : Stamp
  pub raster_failures : ℕ
  pub raster_lost : Bool

unfoldable pub new : Config → Liveness
new c = record {
  config = c;
  watching = false;
  epoch = negsuc 0;
  epoch_started_ms = 0;
  last_stamp_ms = 0;
  last_report_ms = 0;
  ever_stamped = false;
  silent = false;
  last = no_stamp;
  raster_failures = 0;
  raster_lost = false;
}

unfoldable pub epoch_started : Liveness → ℤ → ℕ → Liveness
epoch_started l epoch now = record l {
  epoch = epoch;
  watching = true;
  epoch_started_ms = now;
  last_stamp_ms = 0;
  last_report_ms = 0;
  ever_stamped = false;
  silent = false;
  last = no_stamp;
  raster_failures = 0;
  raster_lost = false;
}

-- What a silence is measured from.
unfoldable pub reference : Liveness → ℕ
reference l = if l.ever_stamped then l.last_stamp_ms else l.epoch_started_ms

unfoldable pub snapshot : Liveness → Verdict → ℕ → Decision
snapshot l verdict now = record {
  verdict = verdict;
  silence_ms = elapsed now (reference l);
  last = l.last;
  ever_stamped = l.ever_stamped;
  raster_lost = false;
  raster_recovered = false;
  raster_failures = l.raster_failures;
}

-- `stamp.epoch >= 0 && epoch_ >= 0 && stamp.epoch != epoch_`
unfoldable pub is_stale : ℤ → ℤ → Bool
is_stale (pos stamped) (pos current) = not (stamped == current)
is_stale (pos stamped) (negsuc n) = false
is_stale (negsuc n) current = false

-- The raster part of OnStamp, on the detector and the decision that the first part made.
unfoldable pub judge_raster : Liveness → Stamp → Decision → Liveness × Decision
judge_raster l stamp d =
    if not stamp.raster_probed
    then (l, d)
    else if stamp.raster_ok
    then (
      record l { raster_failures = 0; raster_lost = false },
      record d { raster_recovered = l.raster_lost; raster_failures = 0 },
    )
    else let failures = l.raster_failures + 1 in
      let now_lost =
        not l.raster_lost
        && (ltb 0 l.config.raster_failures_before_loss
            && leb l.config.raster_failures_before_loss failures) in
      (
        record l {
          raster_failures = failures;
          raster_lost = if now_lost then true else l.raster_lost;
        },
        record d { raster_lost = now_lost; raster_failures = failures },
      )

-- The verdict of an accepted stamp.
unfoldable pub stamp_verdict : Liveness → Verdict
stamp_verdict l =
    if not l.ever_stamped
    then Verdict.first_stamp
    else if l.silent
    then Verdict.recovered
    else Verdict.nothing_to_say

-- The state that an accepted stamp leaves, before the raster part.
unfoldable pub accept : Liveness → Stamp → ℕ → Liveness
accept l stamp now = record l {
  last = stamp;
  last_stamp_ms = now;
  ever_stamped = true;
  silent = false;
  last_report_ms = 0;
}

unfoldable pub on_stamp : Liveness → Stamp → ℕ → Liveness × Decision
on_stamp l stamp now =
    if is_stale stamp.epoch l.epoch
    then (l, record (snapshot l Verdict.nothing_to_say now) { last = stamp })
    else let closed_gap = (snapshot l Verdict.nothing_to_say now).silence_ms in
      let l' = accept l stamp now in
      judge_raster l' stamp (record (snapshot l' (stamp_verdict l) now) { silence_ms = closed_gap })

unfoldable pub threshold : Liveness → ℕ
threshold l = if l.ever_stamped then l.config.silent_after_ms else l.config.startup_grace_ms

unfoldable pub evaluate : Liveness → ℕ → Liveness × Decision
evaluate l now =
    if not l.watching
    then (l, no_decision)
    else if leb (elapsed now (reference l)) (threshold l)
    then (l, snapshot l Verdict.nothing_to_say now)
    else if not l.silent
    then (let l' = record l { silent = true; last_report_ms = now } in
        (l', snapshot l' (if l.ever_stamped then Verdict.silent else Verdict.never_arrived) now))
    else if leb l.config.repeat_ms (sub64 now l.last_report_ms)
    then (let l' = record l { last_report_ms = now } in (l', snapshot l' Verdict.still_silent now))
    else (l, snapshot l Verdict.nothing_to_say now)
