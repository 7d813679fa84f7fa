-- ===== src/GpuWatchdog/Backoff.antt =====
-- BackoffMs: the doubling loop against its closed form.
use centroid_x.Common.{
  ℕ, zero, suc, ◌-◌, ◌*◌, ◌^◌, ◌≤◌, ◌<◌, ◌≡◌, ap, ◌∙◌, arith, leb, u32, Bool-cases, leb→le, inl,
  inr,
}
use Prim.Native.Nat.{min}
use native.Mathlib.Nat.{pow-suc}
use centroid_x.GpuWatchdog.{Watchdog, backoff_loop, backoff_ms}

-- Past the ceiling the loop has stopped.
min-double : (ceiling b p : ℕ) → ceiling ≤ b → 0 < p → min ceiling (b * p) ≡ ceiling
min-double ceiling b p h k = grind arith

pow-pos : (n : ℕ) → 0 < 2 ^ n
pow-pos zero = omega arith
pow-pos (suc n) = rw (pow-suc) (omega (arith, pow-pos n))

no_wrap : (b : ℕ) → b < 2 ^ 31 → u32 (b * 2) ≡ b * 2
no_wrap b h = omega arith

backoff_loop_lem :
    (ceiling rounds b : ℕ)
    → ceiling ≤ 2 ^ 31
    → min ceiling (backoff_loop ceiling rounds b) ≡ min ceiling (b * 2 ^ rounds)
unfolding backoff_loop
backoff_loop_lem ceiling zero b small = omega arith
backoff_loop_lem ceiling (suc rounds) b small = elim (Bool-cases (leb ceiling b)) [
  | inl stop ↦ rw stop (
      omega (
        arith,
        min-double ceiling b (2 ^ suc rounds) (leb→le ceiling b stop) (pow-pos (suc rounds)),
        leb→le ceiling b stop,
      ))
  | inr more ↦
      let below : b < 2 ^ 31 = ground arith in
      rw more (
        backoff_loop_lem ceiling rounds (u32 (b * 2)) small
        ∙ ap (min ceiling) (rw (no_wrap b below, pow-suc 2 rounds) (omega arith)))
]

-- The period after a recovery is the probe interval, doubled once for each failed attempt after the
-- first, and cut at the ceiling; provided that the ceiling is at most 2 ^ 31 ms, so that doubling
-- an `unsigned int` below it does not wrap.
pub backoff_ms-eq-min :
    (w : Watchdog)
    → w.config.max_probe_interval_ms ≤ 2 ^ 31
    → backoff_ms w
      ≡ min w.config.max_probe_interval_ms
          (w.config.probe_interval_ms * 2 ^ (w.recovery_attempts - 1))
unfolding backoff_ms
backoff_ms-eq-min w small = ground (
  arith,
  backoff_loop_lem w.config.max_probe_interval_ms (w.recovery_attempts - 1)
      w.config.probe_interval_ms small,
)
