-- ===== src/Shutdown/Tests.antt =====
-- A close after the Destroy that runs before any window exists.
use centroid_x.Common.{◌≡◌, true, false, [], ◌∷◌}
use centroid_x.Common.Int.{pos}
use centroid_x.Formats.{Formats}
use centroid_x.Shutdown.{new, loop_ended}
use centroid_x.Shutdown.Withdrawal.{run, withdrawals, withdrawals-run}

abbrev blank : Formats
blank = record {
  to_string = λ n. "0";
  to_string_signed = λ n. "0";
  seconds = λ n. "0.0";
  seconds_plain = λ n. "0";
  hex8 = λ n. "00000000";
  hex4 = λ n. "0000";
}

withdrawals-run_example :
    (withdrawals (run new (false ∷ true ∷ true ∷ [])).1 ≡ 1)
    × ((run new (false ∷ true ∷ true ∷ [])).0.restart_withdrawn ≡ true)
    × ((loop_ended blank (run new (false ∷ true ∷ true ∷ [])).0 (pos 0)).exit_code ≡ pos 0)
withdrawals-run_example = withdrawals-run blank (false ∷ true ∷ true ∷ []) (pos 0)
