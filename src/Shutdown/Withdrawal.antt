-- ===== src/Shutdown/Withdrawal.antt =====
-- Crash-restart is withdrawn once, by the first window that existed.
use centroid_x.Common.{ℕ, ◌+◌, ◌≡◌, refl, Bool, true, false, ◌||◌, List, [], ◌∷◌, arith}
use centroid_x.Common.Int.{ℤ}
use centroid_x.Formats.{Formats}
use centroid_x.Shutdown.{Policy, Step, new, window_destroyed, loop_ended}

-- Windows destroyed one after the other, each with whether it existed.
unfoldable pub run : Policy → List Bool → Policy × List Step
run p [] = (p, [])
run p (existed ∷ rest) =
    let (p', s) = window_destroyed p existed in let (p'', steps) = run p' rest in (p'', s ∷ steps)

abbrev pub one_if : Bool → ℕ
one_if true = 1
one_if false = 0

abbrev pub withdrawals : List Step → ℕ
withdrawals [] = 0
withdrawals (s ∷ steps) = one_if s.withdraw_restart + withdrawals steps

abbrev pub any_existed : List Bool → Bool
any_existed [] = false
any_existed (existed ∷ rest) = existed || any_existed rest

record Withdrawn (p : Policy) (existed : Bool) (r : Policy × Step) : Type 0 where
  latched : r.0.restart_withdrawn ≡ (existed || p.restart_withdrawn)
  counted : one_if r.1.withdraw_restart + one_if p.restart_withdrawn ≡ one_if r.0.restart_withdrawn

window_destroyed-Withdrawn :
    (p : Policy) (existed : Bool) → Withdrawn p existed (window_destroyed p existed)
unfolding window_destroyed
window_destroyed-Withdrawn p existed = ground arith

run-latched :
    (p : Policy) (events : List Bool)
    → (withdrawals (run p events).1 + one_if p.restart_withdrawn
        ≡ one_if (run p events).0.restart_withdrawn)
      × ((run p events).0.restart_withdrawn ≡ (any_existed events || p.restart_withdrawn))
unfolding run
run-latched p [] = (omega arith, refl)
run-latched p (existed ∷ rest) =
    let w = window_destroyed-Withdrawn p existed in
    let later = run-latched (window_destroyed p existed).0 rest in
    (omega (arith, w.counted, later.0), ground (arith, w.latched, later.1))

-- The operator's close withdraws crash-restart, and nothing else does, and never twice: over any
-- windows destroyed in one process, restart is withdrawn once if one of them existed and not at all
-- otherwise; and the process then leaves with the loop's exit code, whatever happened.
pub withdrawals-run :
    (f : Formats) (events : List Bool) (exit_code : ℤ)
    → (withdrawals (run new events).1 ≡ one_if (any_existed events))
      × ((run new events).0.restart_withdrawn ≡ any_existed events)
      × ((loop_ended f (run new events).0 exit_code).exit_code ≡ exit_code)
unfolding loop_ended
withdrawals-run f events exit_code =
    let k = run-latched new events in (ground (arith, k.0, k.1), ground (arith, k.1), refl)
