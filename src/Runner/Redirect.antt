-- ===== src/Runner/Redirect.antt =====
-- RedirectIOToFile, RedirectIOToConsole, CreateAndAttachConsole and RotateLogs of utils.cpp.
use centroid_x.Common.{ℕ, Bool, true, false, not, ◌&&◌, List, [], ◌∷◌, ◌++◌, if◌then◌else◌}
use centroid_x.CefCache.{is_empty}
use centroid_x.LogRotation.{plan_rotation}
use centroid_x.Runner.{
  World, Effect, console_created, streams_to_console, deleted, renamed, truncated, pump,
  streams_to_pipe, streams_to_file, engine_resynced,
}

-- Without a console the engine cannot be resynced.
unfoldable pub redirect_plain : World → Bool × List Effect
redirect_plain w =
    if not w.file_fd
    then (false, [])
    else if not w.file_stream
    then (false, [])
    else if not w.console_window
    then (false, streams_to_file ∷ [])
    else (true, streams_to_file ∷ engine_resynced ∷ [])

-- The pump is running before the pipe is made a stream; where that fails the plain way follows.
unfoldable pub redirect_tee : World → Bool × List Effect
unfolding redirect_plain
redirect_tee w =
    let plain = redirect_plain w in
    if not w.creates_pipe
    then plain
    else if w.pipe_fd && w.pipe_stream
    then (true, pump w.duplicates ∷ streams_to_pipe ∷ engine_resynced ∷ [])
    else (plain.0, pump w.duplicates ∷ plain.1)

unfoldable pub redirect_io_to_file : World → List ℕ → Bool × List Effect
unfolding redirect_tee redirect_plain
redirect_io_to_file w path =
    if not w.converts
    then (false, [])
    else if not w.creates_file
    then (false, [])
    else let done = if w.console_handle then redirect_tee w else redirect_plain w in
      (done.0, truncated path ∷ done.1)

unfoldable pub create_and_attach_console : World → List Effect
create_and_attach_console w = if w.allocates then console_created ∷ engine_resynced ∷ [] else []

unfoldable pub redirect_io_to_console : List Effect
redirect_io_to_console = streams_to_console ∷ engine_resynced ∷ []

-- The loops of RotateLogs, which go on after a call that fails: the effects are those of the calls that
-- succeed.
module _ (w : World) where
  unfoldable pub delete_files : List (List ℕ) → List Effect
  delete_files [] = []
  delete_files (path ∷ paths) =
      let rest = delete_files paths in if w.deletes path then deleted path ∷ rest else rest

  unfoldable pub rename_files : List (List ℕ × List ℕ) → List Effect
  rename_files [] = []
  rename_files ((from, to) ∷ renames) =
      let rest = rename_files renames in if w.moves from to then renamed from to ∷ rest else rest

  unfoldable pub rotate_logs : List ℕ → ℕ → List Effect
  unfolding delete_files rename_files plan_rotation
  rotate_logs path max_archives =
      let plan = plan_rotation w.decimal path max_archives in
      if is_empty path then [] else delete_files plan.deletes ++ rename_files plan.renames
