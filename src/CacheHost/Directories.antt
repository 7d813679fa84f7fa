-- ===== src/CacheHost/Directories.antt =====
-- EnsureWritableDirectory and FindSocketDirs of cef_cache_paths_host.cc.
use centroid_x.Common.{
  ℕ, Bool, false, not, ◌&&◌, List, [], ◌∷◌, ◌++◌, Option, none, some, leb, length, take,
  if◌then◌else◌,
}
use centroid_x.Common.Int.{pos}
use centroid_x.CString.{codes}
use centroid_x.LogRotation.{is_separator}
use centroid_x.CefCache.{is_empty}
use centroid_x.CefCache.Sweep.{SocketDir, same_bytes}
use centroid_x.CacheHost.{Os, Stat, seconds_since_modified, under}
use centroid_x.CacheHost.Sockets.{unix_socket_answers}

-- The loop of EnsureWritableDirectory: the directories that it makes, where `done` is the part of the
-- path that was read.
unfoldable pub prefixes : List ℕ → List ℕ → List (List ℕ)
prefixes done [] = []
prefixes done (c ∷ cs) =
    let rest = prefixes (done ++ (c ∷ [])) cs in if is_separator c then done ∷ rest else rest

-- The directories that are made on the way to a path, whose first byte is not looked at.
unfoldable pub made_directories : List ℕ → List (List ℕ)
unfolding prefixes
made_directories [] = []
made_directories (c ∷ cs) = prefixes (c ∷ []) cs ++ ((c ∷ cs) ∷ [])

unfoldable pub ensure_writable_directory : Os → List ℕ → List (List ℕ) × Bool
unfolding made_directories
ensure_writable_directory os path =
    (made_directories path, if is_empty path then false else os.writable path)

abbrev pub prefix : List ℕ
prefix = codes "org.chromium.Chromium."

abbrev pub is_directory : Option Stat → Bool
is_directory none = false
is_directory (some stat) = stat.directory

-- Whether a name of the temp directory is that of a candidate.
unfoldable pub is_candidate : Os → List ℕ → List ℕ → Bool
is_candidate os temp_dir name =
    not (leb (length name) (length prefix))
    && (same_bytes (take (length prefix) name) prefix
        && is_directory (os.lstat (under temp_dir name)))

unfoldable pub candidate_of : Os → List ℕ → SocketDir
unfolding seconds_since_modified unix_socket_answers
candidate_of os path =
    let age = seconds_since_modified os path in
    record {
      path = path;
      age_seconds = pos age;
      socket_answers = leb 300 age && unix_socket_answers os (under path (codes "SingletonSocket"));
    }

unfoldable pub collect : Os → List ℕ → List (List ℕ) → List SocketDir
unfolding is_candidate candidate_of
collect os temp_dir [] = []
collect os temp_dir (name ∷ names) =
    let rest = collect os temp_dir names in
    if is_candidate os temp_dir name then candidate_of os (under temp_dir name) ∷ rest else rest

unfoldable pub find_socket_dirs : Os → List ℕ → List SocketDir
unfolding collect
find_socket_dirs os temp_dir = elim (os.listing temp_dir) [
  | none ↦ []
  | some names ↦ collect os temp_dir names
]
