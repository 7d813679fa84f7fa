-- ===== src/CacheHost/Sweeps.antt =====
-- ClearStaleSingletonState and PrepareCefCachePaths of cef_cache_paths_host.cc.
use centroid_x.Common.{
  ℕ, ◌-◌, Bool, not, ◌&&◌, List, [], ◌∷◌, ◌++◌, Option, none, some, ltb, leb, length, if◌then◌else◌,
}
use centroid_x.Common.Int.{pos}
use centroid_x.CString.{codes}
use centroid_x.CefCache.{
  HostPlatform, CachePaths, is_empty, is_absolute_path, cache_paths_for_root, temp_directory,
  resolve_cache_paths,
}
use centroid_x.CefCache.Sweep.{
  SingletonState, SingletonSweep, same_bytes, is_chromium_socket_dir, plan_singleton_sweep,
}
use centroid_x.CacheHost.{Os, host_env, path_exists, under}
use centroid_x.CacheHost.Sockets.{unix_socket_answers}
use centroid_x.CacheHost.Directories.{ensure_writable_directory, find_socket_dirs}

-- `unlink` of a path and RemoveTree of a path.
pub data Deletion : Type 0 where
  unlinked removed_tree : List ℕ → Deletion

abbrev pub least : Option ℕ → ℕ → Option ℕ
least none age = some age
least (some y) age = if ltb age y then some age else some y

-- A round of the loop over the three files, with `youngest` none for -1.
unfoldable pub younger : Os → Option ℕ → List ℕ → Option ℕ
younger os youngest path = elim (os.lstat path) [
  | none ↦ youngest
  | some stat ↦ least youngest (os.now - stat.modified)
]

abbrev pub youngest_or_zero : Option ℕ → ℕ
youngest_or_zero none = 0
youngest_or_zero (some n) = n

abbrev pub lock_path : List ℕ → List ℕ
lock_path root = under root (codes "SingletonLock")

abbrev pub cookie_path : List ℕ → List ℕ
cookie_path root = under root (codes "SingletonCookie")

abbrev pub socket_path : List ℕ → List ℕ
socket_path root = under root (codes "SingletonSocket")

abbrev pub target_or : List ℕ → List ℕ → List ℕ
target_or [] path = path
target_or (c ∷ cs) path = c ∷ cs

-- The state that the sweep is planned on.
unfoldable pub singleton_state : Os → List ℕ → SingletonState
unfolding path_exists unix_socket_answers younger
singleton_state os root =
    let present = path_exists os (socket_path root) in
    let target = if present then os.readlink (socket_path root) else [] in
    record {
      lock_present = path_exists os (lock_path root);
      cookie_present = path_exists os (cookie_path root);
      socket_present = present;
      socket_target = target;
      socket_answers = present && unix_socket_answers os (target_or target (socket_path root));
      age_seconds = pos (
          youngest_or_zero (
            younger os (younger os (younger os none (lock_path root)) (cookie_path root))
              (socket_path root)));
    }

unfoldable pub unlink_all : List (List ℕ) → List Deletion
unlink_all [] = []
unlink_all (file ∷ files) = unlinked file ∷ unlink_all files

-- The directories are tested again before they are removed.
unfoldable pub remove_directories : List ℕ → List (List ℕ) → List Deletion
unfolding is_chromium_socket_dir
remove_directories temp_dir [] = []
remove_directories temp_dir (directory ∷ directories) =
    let rest = remove_directories temp_dir directories in
    if is_chromium_socket_dir directory temp_dir then removed_tree directory ∷ rest else rest

unfoldable pub planned : Os → List ℕ → List ℕ → SingletonSweep
unfolding singleton_state plan_singleton_sweep find_socket_dirs
planned os root temp_dir =
    plan_singleton_sweep root (singleton_state os root) temp_dir (find_socket_dirs os temp_dir)

unfoldable pub clear_stale_singleton_state : Os → List ℕ → List ℕ → List Deletion × SingletonSweep
unfolding planned unlink_all remove_directories
clear_stale_singleton_state os root temp_dir =
    let sweep = planned os root temp_dir in
    (unlink_all sweep.files ++ remove_directories temp_dir sweep.directories, sweep)

-- The lines that PrepareCefCachePaths writes.
pub data Spoken : Type 0 where
  not_absolute not_honoured cache_root instance_live : List ℕ → Spoken
  none_writable : Spoken
  cleared : ℕ → ℕ → Spoken

abbrev pub line_if : Bool → Spoken → List Spoken
line_if b line = if b then line ∷ [] else []

unfoldable pub override_lines : List ℕ → CachePaths → HostPlatform → List Spoken
unfolding is_absolute_path cache_paths_for_root same_bytes
override_lines requested paths platform =
    if is_empty requested
    then []
    else if not (is_absolute_path requested platform)
    then not_absolute requested ∷ []
    else line_if (not (same_bytes paths.root (cache_paths_for_root requested platform).root))
        (not_honoured requested)

abbrev pub sweep_is_empty : SingletonSweep → Bool
sweep_is_empty sweep = leb (length sweep.files) 0 && leb (length sweep.directories) 0

unfoldable pub sweep_lines : List ℕ → SingletonSweep → List Spoken
sweep_lines root sweep =
    if sweep.owner_alive
    then instance_live root ∷ []
    else line_if (not (sweep_is_empty sweep))
        (cleared (length sweep.files) (length sweep.directories))

pub record Prepared : Type 0 where
  pub paths : CachePaths
  pub lines : List Spoken
  pub deletions : List Deletion

unfoldable pub cleared_profile : Os → CachePaths → HostPlatform → List Spoken → Prepared
unfolding clear_stale_singleton_state host_env temp_directory sweep_lines
cleared_profile os paths platform lines =
    let (deletions, sweep) =
      clear_stale_singleton_state os paths.root (temp_directory (host_env os) platform) in
    record {
      paths = paths;
      lines = lines ++ (cache_root paths.root ∷ sweep_lines paths.root sweep);
      deletions = deletions;
    }

unfoldable pub prepare_cef_cache_paths : Os → HostPlatform → Prepared
unfolding resolve_cache_paths host_env ensure_writable_directory override_lines cleared_profile
prepare_cef_cache_paths os platform =
    let paths =
      resolve_cache_paths (host_env os) (λ path. (ensure_writable_directory os path).1) platform in
    let lines =
      override_lines (host_env os (codes "CENTROIDX_CEF_ROOT_CACHE_PATH")) paths platform in
    if is_empty paths.root
    then record { paths = paths; lines = lines ++ (none_writable ∷ []); deletions = [] }
    else cleared_profile os paths platform lines
