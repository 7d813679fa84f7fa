-- ===== src/Shutdown.antt =====
-- centroid-hmi/windows/runner/shutdown_policy.h and shutdown_policy.cpp: the class ShutdownPolicy,
-- which decides when crash-restart is withdrawn and how the process leaves.
pub mod Withdrawal
mod Tests
use Prim.Native.String.{String, ◌++◌}
use centroid_x.Common.{Bool, true, false, not, ◌&&◌, if◌then◌else◌}
use centroid_x.Common.Int.{ℤ}
use centroid_x.Formats.{Formats}

pub record Step : Type 0 where
  pub withdraw_restart : Bool

pub record ExitPlan : Type 0 where
  pub exit_code : ℤ
  pub skip_module_teardown : Bool
  pub description : String

pub record Policy : Type 0 where
  pub restart_withdrawn : Bool

abbrev pub new : Policy
new = record { restart_withdrawn = false }

unfoldable pub window_destroyed : Policy → Bool → Policy × Step
window_destroyed p window_existed =
    if window_existed && not p.restart_withdrawn
    then (record p { restart_withdrawn = true }, record { withdraw_restart = true })
    else (p, record { withdraw_restart = false })

abbrev withdrawn_line : String
withdrawn_line = "crash-restart withdrawn (the window was closed)"

abbrev registered_line : String
registered_line = "crash-restart still registered (the window was not closed)"

abbrev leaving_line : String
leaving_line =
    ". Ending with TerminateProcess: module teardown would release flutter_inappwebview's static Compositor after COM is gone, which is the dcomp.dll fail-fast every close hit on 2026-09-11."

unfoldable pub loop_ended : Formats → Policy → ℤ → ExitPlan
loop_ended f p exit_code = record {
  exit_code = exit_code;
  skip_module_teardown = true;
  description =
      "message loop ended, exit code "
      ++ (f.to_string_signed exit_code
          ++ (", "
              ++ ((if p.restart_withdrawn then withdrawn_line else registered_line)
                  ++ leaving_line)));
}
