-- ===== src/Runner/Tests.antt =====
-- Starts from a shortcut, from a terminal, and without a profile.
use centroid_x.Common.{
  ℕ, zero, suc, ◌≡◌, refl, true, false, not, ◌||◌, List, [], ◌∷◌, none, some, replicate, length, ap,
  sym, ◌∙◌, arith,
}
use centroid_x.Common.Int.{pos}
use centroid_x.CString.{codes}
use centroid_x.CefCache.{is_empty}
use centroid_x.LogRotation.{generation_path, renames_below, plan_rotation, find_last}
use centroid_x.LogRotation.Files.{same_path, rename, remove}
use centroid_x.Runner.{World, handlers_installed}
use centroid_x.Runner.Target.{
  debug_mode, log_path, default_log_path, output_target, choose_output_target, directory_of,
  max_archives,
}
use centroid_x.Runner.Redirect.{
  redirect_io_to_file, redirect_tee, redirect_plain, rotate_logs, delete_files, rename_files,
}
use centroid_x.Runner.Main.{open_output, log_to_file}
use centroid_x.Runner.Handled.{
  occurs, is_install, is_resync, redirect_io_to_file-resync, open_output-installs,
}
use centroid_x.Runner.Kept.{carry_one, carry_all, log_to_file-keeps}

abbrev strokes : ℕ → List ℕ
strokes n = replicate n b'1'

-- From a shortcut: nobody reads stdout and there is no console. A number is written as strokes. No file
-- can be deleted, as when a viewer holds it.
abbrev shortcut : World
shortcut = record {
  debug_env = none;
  log_file_env = none;
  archives_env = none;
  atoi = λ text. pos 0;
  decimal = strokes;
  local_app_data = some (codes "C:\\Users\\hmi\\AppData\\Local");
  logs_directory = true;
  deletes = λ path. false;
  moves = λ old new. true;
  stdout_connected = false;
  attaches = false;
  allocates = false;
  debugger_present = false;
  console_handle = false;
  console_window = false;
  converts = true;
  creates_file = true;
  duplicates = true;
  creates_pipe = true;
  pipe_fd = true;
  pipe_stream = true;
  file_fd = true;
  file_stream = true;
  sidecar_converts = true;
  sidecar_size = some 9000000;
  sidecar_opens = true;
  window_created = true;
  quit_code = pos 0;
}

abbrev terminal : World
terminal = record shortcut { stdout_connected = true; console_handle = true; console_window = true }

-- No LOCALAPPDATA.
abbrev homeless : World
homeless = record shortcut { local_app_data = none }

homeless-output : open_output homeless ≡ []
unfolding open_output output_target choose_output_target debug_mode log_path default_log_path
homeless-output = refl

terminal-output :
    open_output terminal
    ≡ handlers_installed (codes "C:\\Users\\hmi\\AppData\\Local\\centroid-hmi\\logs") [] ∷ []
unfolding open_output output_target choose_output_target debug_mode log_path default_log_path
    directory_of find_last
terminal-output = refl

redirect_io_to_file-resync_example :
    (redirect_io_to_file terminal (codes "hmi.log")).0
    ≡ occurs is_resync (redirect_io_to_file terminal (codes "hmi.log")).1
redirect_io_to_file-resync_example = redirect_io_to_file-resync terminal (codes "hmi.log")

open_output-installs_example :
    occurs is_install (open_output homeless)
    ≡ (homeless.stdout_connected || (debug_mode homeless || not (is_empty (log_path homeless))))
open_output-installs_example = open_output-installs homeless

length-strokes : (n : ℕ) → length (strokes n) ≡ n
length-strokes zero = refl
length-strokes (suc n) = ap suc (length-strokes n)

strokes_inj : (a b : ℕ) → strokes a ≡ strokes b → a ≡ b
strokes_inj a b e = sym (length-strokes a) ∙ (ap length e ∙ length-strokes b)

five_archives : max_archives shortcut ≡ 5
unfolding max_archives
five_archives = refl

log_to_file-keeps_example :
    carry_all
      (log_to_file shortcut (codes "hmi.log"))
      (λ path. some path)
      (generation_path shortcut.decimal (codes "hmi.log") 1)
    ≡ some (generation_path shortcut.decimal (codes "hmi.log") 0)
log_to_file-keeps_example =
    log_to_file-keeps shortcut (codes "hmi.log") 4 0 (λ path. some path)
      (generation_path shortcut.decimal (codes "hmi.log") 0) strokes_inj refl five_archives
      (omega arith) refl refl

-- No file can be moved, as when a viewer holds it without sharing.
abbrev locked : World
locked = record shortcut { moves = λ old new. false }

-- The log of the run before is truncated, and is nowhere else.
locked-lost :
    carry_all
      (log_to_file locked (codes "hmi.log"))
      (λ path. some (codes "crashed"))
      (codes "hmi.log")
    ≡ some []
unfolding carry_all carry_one log_to_file rotate_logs delete_files rename_files plan_rotation
    renames_below generation_path redirect_io_to_file redirect_tee redirect_plain same_path rename
    remove max_archives
locked-lost = refl
