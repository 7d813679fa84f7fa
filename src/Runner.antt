-- ===== src/Runner.antt =====
-- centroid-hmi/windows/runner: main.cpp, with the parts of utils.cpp, output_target.cpp, path_utils.cpp
-- and runner_log.cpp that it calls. What Windows answers is a record, and what the runner does to the
-- outside is a list of effects, the first first. The texts of the lines on stderr are left out.
pub mod Target
pub mod Redirect
pub mod Sidecar
pub mod Main
pub mod Handled
pub mod Kept
mod Tests
use centroid_x.Common.{ℕ, Bool, List, Option}
use centroid_x.Common.Int.{ℤ}

-- The answers of Windows. Of the environment: three variables, and LOCALAPPDATA. Of the console: whether
-- stdout leads somewhere at the start, whether AttachConsole and AllocConsole succeed, whether a debugger
-- is present, whether the standard handle is usable when the streams are redirected, and whether there
-- is a console window. `decimal` is std::to_string. `deletes` and `moves` say
-- whether DeleteFileW of a path and MoveFileExW from one to another succeed. Then each step of the
-- redirection, of the runner's own log, and of the window.
pub record World : Type 0 where
  pub debug_env : Option (List ℕ)
  pub log_file_env : Option (List ℕ)
  pub archives_env : Option (List ℕ)
  pub atoi : List ℕ → ℤ
  pub decimal : ℕ → List ℕ
  pub local_app_data : Option (List ℕ)
  pub logs_directory : Bool
  pub deletes : List ℕ → Bool
  pub moves : List ℕ → List ℕ → Bool
  pub stdout_connected : Bool
  pub attaches : Bool
  pub allocates : Bool
  pub debugger_present : Bool
  pub console_handle : Bool
  pub console_window : Bool
  pub converts : Bool
  pub creates_file : Bool
  pub duplicates : Bool
  pub creates_pipe : Bool
  pub pipe_fd : Bool
  pub pipe_stream : Bool
  pub file_fd : Bool
  pub file_stream : Bool
  pub sidecar_converts : Bool
  pub sidecar_size : Option ℕ
  pub sidecar_opens : Bool
  pub window_created : Bool
  pub quit_code : ℤ

-- `pump` copies what arrives in the pipe to the file, and to the console when its handle was duplicated.
pub data Effect : Type 0 where
  console_attached console_created streams_to_console : Effect
  deleted : List ℕ → Effect
  renamed : List ℕ → List ℕ → Effect
  truncated : List ℕ → Effect
  pump : Bool → Effect
  streams_to_pipe streams_to_file engine_resynced : Effect
  variable_set : List ℕ → List ℕ → Effect
  handlers_installed : List ℕ → List ℕ → Effect
  sidecar_rolled sidecar_opened : List ℕ → Effect
  unattended com_initialized window_shown loop_ran : Effect
  process_ended returned : ℤ → Effect
  com_uninitialized : Effect
