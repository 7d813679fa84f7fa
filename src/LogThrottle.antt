-- ===== src/LogThrottle.antt =====
-- centroid-hmi/windows/runner/log_throttle.h and log_throttle.cpp: the class LogThrottle.
pub mod Account
pub mod Describe
mod Tests
use centroid_x.Common.{
  ℕ, ◌+◌, ◌-◌, ◌%◌, Bool, true, false, not, ◌&&◌, ◌||◌, ltb, leb, ◌==◌, if◌then◌else◌, u64,
}
use centroid_x.Common.Int.{ℤ, pos, negsuc}

-- What the caller asks for: two signed numbers and an interval.
pub record Config : Type 0 where
  pub burst : ℤ
  pub every_nth : ℤ
  pub summary_interval_ms : ℕ

abbrev pub default_config : Config
default_config = record { burst = pos 5; every_nth = pos 100; summary_interval_ms = 60000 }

pub record Decision : Type 0 where
  pub emit : Bool
  pub suppressed : ℕ
  pub total : ℕ

-- The constructor raises `every_nth` to 1 and `burst` to 0, so the two fields are numbers from then
-- on.
pub record Throttle : Type 0 where
  pub burst : ℕ
  pub every_nth : ℕ
  pub summary_interval_ms : ℕ
  pub total : ℕ
  pub suppressed : ℕ
  pub last_emit_ms : ℕ
  pub ever_emitted : Bool

at_least_one : ℤ → ℕ
at_least_one (pos n) = if ltb n 1 then 1 else n
at_least_one (negsuc n) = 1

at_least_zero : ℤ → ℕ
at_least_zero (pos n) = n
at_least_zero (negsuc n) = 0

unfoldable pub new : Config → Throttle
unfolding at_least_one at_least_zero
new c = record {
  burst = at_least_zero c.burst;
  every_nth = at_least_one c.every_nth;
  summary_interval_ms = c.summary_interval_ms;
  total = 0;
  suppressed = 0;
  last_emit_ms = 0;
  ever_emitted = false;
}

-- The three tests of Record, on the total that counts this occurrence.
unfoldable pub in_burst : Throttle → ℕ → Bool
in_burst t total = leb total t.burst

unfoldable pub is_sampled : Throttle → ℕ → Bool
is_sampled t total =
    let since_burst = if in_burst t total then 0 else total - t.burst in
    not (in_burst t total) && since_burst % t.every_nth == 0

unfoldable pub interval_elapsed : Throttle → ℕ → Bool
interval_elapsed t now =
    t.summary_interval_ms == 0
    || (not t.ever_emitted || leb (u64 (t.last_emit_ms + t.summary_interval_ms)) now)

unfoldable pub log_record : Throttle → ℕ → Throttle × Decision
log_record t now =
    let total = u64 (t.total + 1) in
    if in_burst t total || (is_sampled t total && interval_elapsed t now)
    then (
      record t { total = total; suppressed = 0; last_emit_ms = now; ever_emitted = true },
      record { emit = true; suppressed = t.suppressed; total = total },
    )
    else (
      record t { total = total; suppressed = u64 (t.suppressed + 1) },
      record { emit = false; suppressed = 0; total = total },
    )

unfoldable pub reset : Throttle → Throttle
reset t = record t { total = 0; suppressed = 0; last_emit_ms = 0; ever_emitted = false }
