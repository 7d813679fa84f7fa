-- ===== src/LogThrottle/Account.antt =====
-- Every occurrence is accounted for, the first ones are printed, and the rest are spaced.
use centroid_x.Common.{
  ℕ, suc, ◌+◌, ◌^◌, ◌≤◌, ◌<◌, ◌≡◌, refl, true, List, [], ◌∷◌, length, arith, if◌then◌else◌,
}
use centroid_x.LogThrottle.{Config, Decision, Throttle, new, in_burst, log_record}

-- Occurrences at the given clock readings.
unfoldable pub run : Throttle → List ℕ → Throttle × List Decision
run t [] = (t, [])
run t (now ∷ times) =
    let (t', d) = log_record t now in let (t'', decisions) = run t' times in (t'', d ∷ decisions)

-- What the printed lines speak of: each of itself, and of those swallowed before it.
abbrev pub accounted : List Decision → ℕ
accounted [] = 0
accounted (d ∷ decisions) = (if d.emit then 1 + d.suppressed else 0) + accounted decisions

abbrev pub emitted : List Decision → ℕ
emitted [] = 0
emitted (d ∷ decisions) = (if d.emit then 1 else 0) + emitted decisions

record Stepped (t : Throttle) (r : Throttle × Decision) : Type 0 where
  total : r.0.total ≡ suc t.total
  told : r.1.total ≡ suc t.total
  capped : r.0.suppressed ≤ suc t.suppressed
  balance : (if r.1.emit then 1 + r.1.suppressed else 0) + r.0.suppressed ≡ suc t.suppressed

log_record-Stepped :
    (t : Throttle) (now : ℕ)
    → suc t.total < 2 ^ 64
    → suc t.suppressed < 2 ^ 64
    → Stepped t (log_record t now)
unfolding log_record
log_record-Stepped t now h k = ground arith

run-accounted :
    (t : Throttle) (times : List ℕ)
    → t.total + length times < 2 ^ 64
    → t.suppressed ≤ t.total
    → ((run t times).0.total ≡ t.total + length times)
      × (accounted (run t times).1 + (run t times).0.suppressed ≡ t.suppressed + length times)
unfolding run
run-accounted t [] h k = (omega arith, omega arith)
run-accounted t (now ∷ times) h k =
    let s = log_record-Stepped t now (omega arith) (omega arith) in
    let rest =
      run-accounted (log_record t now).0 times (omega (arith, s.total))
        (omega (arith, s.total, s.capped)) in
    (omega (arith, s.total, rest.0), omega (arith, s.balance, rest.1))

-- No occurrence goes unmentioned: of fewer than 2 ^ 64 occurrences, those that the printed lines
-- account for, each for itself and for the ones swallowed before it, and those swallowed since, add
-- up to all of them; and the total kept is their number.
pub record_conserved :
    (c : Config) (times : List ℕ)
    → length times < 2 ^ 64
    → (accounted (run (new c) times).1 + (run (new c) times).0.suppressed ≡ length times)
      × ((run (new c) times).0.total ≡ length times)
unfolding new
record_conserved c times h =
    let a = run-accounted (new c) times (omega arith) (omega arith) in
    (omega (arith, a.1), omega (arith, a.0))

record Allowed (t : Throttle) (now : ℕ) (r : Throttle × Decision) : Type 0 where
  burst : r.0.burst ≡ t.burst
  total : r.0.total ≡ suc t.total
  printed : suc t.total ≤ t.burst → r.1.emit ≡ true

log_record-Allowed :
    (t : Throttle) (now : ℕ) → suc t.total < 2 ^ 64 → Allowed t now (log_record t now)
unfolding log_record in_burst
log_record-Allowed t now h = ground arith

run-burst :
    (t : Throttle) (times : List ℕ)
    → t.total + length times < 2 ^ 64
    → t.total + length times ≤ t.burst
    → emitted (run t times).1 ≡ length times
unfolding run
run-burst t [] h k = refl
run-burst t (now ∷ times) h k =
    let a = log_record-Allowed t now (omega arith) in
    let rest =
      run-burst (log_record t now).0 times (omega (arith, a.total))
        (omega (arith, a.total, a.burst)) in
    rw (a.printed (omega arith)) omega (arith, rest)

-- The first occurrences are all printed: of no more occurrences than the configured burst, counted
-- from a new throttle, each is printed, whatever the clock.
pub emits-burst :
    (c : Config) (times : List ℕ)
    → length times < 2 ^ 64
    → length times ≤ (new c).burst
    → emitted (run (new c) times).1 ≡ length times
unfolding new
emits-burst c times h k = run-burst (new c) times (omega arith) (omega arith)
