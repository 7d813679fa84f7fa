-- ===== src/Runner/Main.antt =====
-- wWinMain of main.cpp, from its start to its end.
use centroid_x.Common.{ℕ, Bool, not, List, [], ◌∷◌, ◌++◌, if◌then◌else◌}
use centroid_x.Common.Int.{pos}
use centroid_x.CString.{codes}
use centroid_x.Formats.{Formats}
use centroid_x.CefCache.{is_empty}
use centroid_x.Shutdown
use centroid_x.Runner.{
  World, Effect, console_attached, variable_set, handlers_installed, unattended, com_initialized,
  window_shown, loop_ran, process_ended, returned, com_uninitialized,
}
use centroid_x.Runner.Target.{
  inherited, file, directory_of, debug_mode, max_archives, default_log_path, log_path,
  output_target,
}
use centroid_x.Runner.Redirect.{
  redirect_io_to_file, create_and_attach_console, redirect_io_to_console, rotate_logs,
}
use centroid_x.Runner.Sidecar.{no_log, init_runner_log}

-- A console, when it is asked for or when there is one to attach to.
unfoldable pub attach_console : World → List Effect
unfolding create_and_attach_console redirect_io_to_console
attach_console w =
    if debug_mode w
    then if not w.attaches
      then create_and_attach_console w
      else console_attached ∷ redirect_io_to_console
    else if w.attaches
    then console_attached ∷ []
    else if w.debugger_present
    then create_and_attach_console w
    else []

-- The Dart side is told where the log is, and that its own writer must stand down when the streams of
-- the engine follow.
abbrev pub tell_dart : Bool → List ℕ → List Effect
tell_dart follows path =
    variable_set (codes "CENTROID_LOG_FILE") path
    ∷ (if follows then variable_set (codes "CENTROID_LOG_REDIRECTED") (codes "1") ∷ [] else [])

unfoldable pub log_to_file : World → List ℕ → List Effect
unfolding rotate_logs redirect_io_to_file directory_of
log_to_file w path =
    let (follows, effects) = redirect_io_to_file w path in
    rotate_logs w path (max_archives w)
    ++ (effects ++ (tell_dart follows path ++ (handlers_installed (directory_of path) path ∷ [])))

unfoldable pub open_output : World → List Effect
unfolding log_to_file output_target directory_of default_log_path log_path
open_output w = elim (output_target w) [
  | inherited ↦ handlers_installed (directory_of (default_log_path w)) [] ∷ []
  | file ↦ if not (is_empty (log_path w)) then log_to_file w (log_path w) else []
]

-- The end of wWinMain, where the window was given a policy.
unfoldable pub leave : Formats → World → Shutdown.Policy → List Effect
unfolding Shutdown.loop_ended
leave f w policy =
    let plan = Shutdown.loop_ended f policy w.quit_code in
    if plan.skip_module_teardown
    then process_ended plan.exit_code ∷ []
    else com_uninitialized ∷ returned plan.exit_code ∷ []

unfoldable pub run_window : Formats → World → Shutdown.Policy → List Effect
unfolding leave
run_window f w policy =
    if not w.window_created
    then returned (pos 1) ∷ []
    else window_shown ∷ loop_ran ∷ leave f w policy

unfoldable pub ww_main : Formats → World → Shutdown.Policy → List Effect
unfolding attach_console open_output init_runner_log run_window log_path
ww_main f w policy =
    attach_console w
    ++ (open_output w
        ++ ((init_runner_log w (log_path w) no_log).1
            ++ (unattended ∷ com_initialized ∷ run_window f w policy)))
