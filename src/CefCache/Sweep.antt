-- ===== src/CefCache/Sweep.antt =====
-- IsChromiumSocketDir and PlanSingletonSweep of cef_cache_paths.cc.
use centroid_x.Common.{
  ℕ, Bool, true, false, not, ◌&&◌, ◌||◌, List, [], ◌∷◌, ◌++◌, length, take, drop, ltb, leb, ◌==◌,
  if◌then◌else◌,
}
use centroid_x.Common.Int.{ℤ, pos, negsuc}
use centroid_x.CString.{codes}
use centroid_x.LogRotation.{is_separator}
use centroid_x.CefCache.{
  HostPlatform, is_empty, strip_trailing_separators, parent_directory, join_path,
}

pub record SingletonState : Type 0 where
  pub lock_present : Bool
  pub cookie_present : Bool
  pub socket_present : Bool
  pub socket_target : List ℕ
  pub socket_answers : Bool
  pub age_seconds : ℤ

pub record SocketDir : Type 0 where
  pub path : List ℕ
  pub socket_answers : Bool
  pub age_seconds : ℤ

pub record SingletonSweep : Type 0 where
  pub owner_alive : Bool
  pub files : List (List ℕ)
  pub directories : List (List ℕ)

-- `==` and `compare` of strings.
unfoldable pub same_bytes : List ℕ → List ℕ → Bool
same_bytes [] [] = true
same_bytes [] (y ∷ ys) = false
same_bytes (x ∷ xs) [] = false
same_bytes (x ∷ xs) (y ∷ ys) = x == y && same_bytes xs ys

-- `find_first_of("/\\")` finds nothing.
unfoldable pub has_no_separator : List ℕ → Bool
has_no_separator [] = true
has_no_separator (c ∷ cs) = not (is_separator c) && has_no_separator cs

unfoldable pub socket_dir_prefix : List ℕ → List ℕ
socket_dir_prefix temp_dir =
    join_path (strip_trailing_separators temp_dir) (codes "org.chromium.Chromium.")
      HostPlatform.linux

unfoldable pub is_chromium_socket_dir : List ℕ → List ℕ → Bool
is_chromium_socket_dir path temp_dir =
    if is_empty path || is_empty temp_dir
    then false
    else let candidate = strip_trailing_separators path in
      let prefix = socket_dir_prefix temp_dir in
      if leb (length candidate) (length prefix)
      then false
      else if not (same_bytes (take (length prefix) candidate) prefix)
      then false
      else has_no_separator (drop (length prefix) candidate)

abbrev pub is_younger : ℤ → ℕ → Bool
is_younger (pos age) limit = ltb age limit
is_younger (negsuc age) limit = true

-- Whether the plan reaches the files under the root.
unfoldable pub owner_alive : SingletonState → Bool
owner_alive state = state.socket_present && state.socket_answers

unfoldable pub is_dead : List ℕ → SingletonState → Bool
is_dead root state =
    let any_file_present = state.lock_present || (state.cookie_present || state.socket_present) in
    let possibly_mid_startup = any_file_present && is_younger state.age_seconds 10 in
    not (is_empty root) && (not (owner_alive state) && not possibly_mid_startup)

abbrev pub only_if : Bool → List ℕ → List (List ℕ)
only_if b path = if b then path ∷ [] else []

unfoldable pub singleton_files : List ℕ → SingletonState → List (List ℕ)
singleton_files root state =
    only_if state.lock_present (join_path root (codes "SingletonLock") HostPlatform.linux)
    ++ (only_if state.cookie_present (join_path root (codes "SingletonCookie") HostPlatform.linux)
        ++ only_if state.socket_present
            (join_path root (codes "SingletonSocket") HostPlatform.linux))

unfoldable pub orphans : SingletonState → List ℕ → List (List ℕ)
orphans state temp_dir =
    let orphan = parent_directory state.socket_target in
    only_if (is_chromium_socket_dir orphan temp_dir) (strip_trailing_separators orphan)

-- `std::find`.
unfoldable pub contains : List ℕ → List (List ℕ) → Bool
contains path [] = false
contains path (d ∷ ds) = same_bytes d path || contains path ds

-- A round of the loop over the socket directories.
unfoldable pub consider : List ℕ → List (List ℕ) → SocketDir → List (List ℕ)
consider temp_dir directories dir =
    if dir.socket_answers
    then directories
    else if is_younger dir.age_seconds 300
    then directories
    else let path = strip_trailing_separators dir.path in
      if not (is_chromium_socket_dir path temp_dir)
      then directories
      else if contains path directories
      then directories
      else directories ++ (path ∷ [])

unfoldable pub consider_all : List ℕ → List (List ℕ) → List SocketDir → List (List ℕ)
consider_all temp_dir directories [] = directories
consider_all temp_dir directories (dir ∷ dirs) =
    consider_all temp_dir (consider temp_dir directories dir) dirs

unfoldable pub plan_singleton_sweep :
    List ℕ → SingletonState → List ℕ → List SocketDir → SingletonSweep
plan_singleton_sweep root state temp_dir socket_dirs = record {
  owner_alive = owner_alive state;
  files = if is_dead root state then singleton_files root state else [];
  directories =
      consider_all temp_dir (if is_dead root state then orphans state temp_dir else []) socket_dirs;
}
