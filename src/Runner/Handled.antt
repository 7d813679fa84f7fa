-- ===== src/Runner/Handled.antt =====
-- When the crash handlers are installed, when the engine's streams follow the log, and how the process
-- leaves.
use centroid_x.Common.{
  ℕ, ◌≡◌, refl, ap, ◌∙◌, inl, inr, Bool, true, false, not, ◌||◌, List, [], ◌∷◌, ◌++◌, if◌then◌else◌,
  arith, Bool-cases,
}
use centroid_x.CefCache.{is_empty}
use centroid_x.Runner.{World, Effect, engine_resynced, handlers_installed}
use centroid_x.Runner.Target.{
  OutputTarget, inherited, file, choose_output_target, debug_mode, default_log_path, log_path,
  output_target, directory_of, max_archives,
}
use centroid_x.Runner.Redirect.{redirect_plain, redirect_tee, redirect_io_to_file, rotate_logs}
use centroid_x.Runner.Main.{log_to_file, open_output, tell_dart}

abbrev pub is_install : Effect → Bool
is_install (handlers_installed directory path) = true
is_install _ = false

abbrev pub is_resync : Effect → Bool
is_resync engine_resynced = true
is_resync _ = false

-- Whether an effect that passes the test stands in a list.
abbrev pub occurs : (Effect → Bool) → List Effect → Bool
occurs test [] = false
occurs test (e ∷ es) = test e || occurs test es

occurs-append :
    (test : Effect → Bool) (xs ys : List Effect)
    → occurs test (xs ++ ys) ≡ (occurs test xs || occurs test ys)
occurs-append test [] ys = refl
occurs-append test (x ∷ xs) ys = ground (arith, occurs-append test xs ys)

plain-resync : (w : World) → (redirect_plain w).0 ≡ occurs is_resync (redirect_plain w).1
unfolding redirect_plain
plain-resync w = ground arith

tee-resync : (w : World) → (redirect_tee w).0 ≡ occurs is_resync (redirect_tee w).1
unfolding redirect_tee
tee-resync w = ground (arith, plain-resync w)

-- RedirectIOToFile answers true exactly when the streams of the engine were resynced, on every path
-- through it.
pub redirect_io_to_file-resync :
    (w : World) (path : List ℕ)
    → (redirect_io_to_file w path).0 ≡ occurs is_resync (redirect_io_to_file w path).1
unfolding redirect_io_to_file
redirect_io_to_file-resync w path = ground (arith, plain-resync w, tee-resync w)

install-last :
    (xs : List Effect) (directory path : List ℕ)
    → occurs is_install (xs ++ (handlers_installed directory path ∷ [])) ≡ true
install-last [] directory path = refl
install-last (x ∷ xs) directory path = ground (arith, install-last xs directory path)

log_to_file-installs : (w : World) (path : List ℕ) → occurs is_install (log_to_file w path) ≡ true
unfolding log_to_file
log_to_file-installs w path =
    let (follows, effects) = redirect_io_to_file w path in
    let rotated = rotate_logs w path (max_archives w) in
    let last = handlers_installed (directory_of path) path in
    occurs-append is_install rotated (effects ++ (tell_dart follows path ++ (last ∷ [])))
    ∙ ground (
      arith,
      occurs-append is_install effects (tell_dart follows path ++ (last ∷ [])),
      install-last (tell_dart follows path) (directory_of path) path,
    )

abbrev open_as : World → OutputTarget → List Effect
open_as w inherited = handlers_installed (directory_of (default_log_path w)) [] ∷ []
open_as w file = if not (is_empty (log_path w)) then log_to_file w (log_path w) else []

open-eq : (w : World) (t : OutputTarget) → output_target w ≡ t → open_output w ≡ open_as w t
unfolding open_output
open-eq w inherited e = ground (arith, e)
open-eq w file e = ground (arith, e)

target-eq :
    (w : World) → output_target w ≡ (if w.stdout_connected || debug_mode w then inherited else file)
unfolding output_target choose_output_target
target-eq w = ground arith

-- The crash handlers are installed at every start but one: nobody reads stdout, no console is asked
-- for, and there is no path for the log, neither in CENTROID_LOG_FILE nor by default.
pub open_output-installs :
    (w : World)
    → occurs is_install (open_output w)
      ≡ (w.stdout_connected || (debug_mode w || not (is_empty (log_path w))))
open_output-installs w = elim (Bool-cases (w.stdout_connected || debug_mode w)) [
  | inl b ↦
      ap (occurs is_install) (open-eq w inherited (target-eq w ∙ ground (arith, b)))
      ∙ ground (arith, b)
  | inr b ↦
      ap (occurs is_install) (open-eq w file (target-eq w ∙ ground (arith, b)))
      ∙ ground (arith, b, log_to_file-installs w (log_path w))
]
