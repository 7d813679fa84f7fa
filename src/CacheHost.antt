-- ===== src/CacheHost.antt =====
-- packages/webview_cef/common/cef_cache_paths_host.cc on a POSIX host: the side of the CEF cache that
-- reads and changes the file system. What the host answers is a record; what the code does to the file
-- system is the list of its calls.
pub mod Sockets
pub mod Trees
pub mod Directories
pub mod Sweeps
pub mod Stale
pub mod Gone
pub mod Deleted
pub mod Prepared
mod Tests
use centroid_x.Common.{
  ℕ, ◌-◌, Bool, true, false, not, ◌&&◌, List, [], ◌∷◌, ◌++◌, Option, none, some, if◌then◌else◌,
}
use centroid_x.CString.{codes}
use centroid_x.CefCache.{is_empty}
use centroid_x.CefCache.Sweep.{same_bytes}

-- What `poll` says of a connection in progress: it is ready, and then SO_ERROR is read, none when
-- `getsockopt` fails; the deadline passed; or it failed.
pub data Poll : Type 0 where
  ready : Option ℕ → Poll
  timed_out poll_failed : Poll

-- `connect` of a non-blocking socket, or no socket.
pub data Attempt : Type 0 where
  no_socket connected would_block refused : Attempt
  in_progress : Poll → Attempt

-- What `lstat` says of an entry.
pub record Stat : Type 0 where
  pub modified : ℕ
  pub directory : Bool

-- The answers of the host. `home` is the directory of the user's passwd entry; `writable` is stat and
-- access of a path once it was made; `stat` is the time of the last change; `readlink` is empty where
-- there is no link; `listing` is the names of a directory; and no time is before 1970.
pub record Os : Type 0 where
  pub getenv : List ℕ → Option (List ℕ)
  pub home : Option (List ℕ)
  pub writable : List ℕ → Bool
  pub lstat : List ℕ → Option Stat
  pub stat : List ℕ → Option ℕ
  pub readlink : List ℕ → List ℕ
  pub connect : List ℕ → Attempt
  pub listing : List ℕ → Option (List (List ℕ))
  pub now : ℕ
  pub sun_path : ℕ

abbrev value_or_empty : Option (List ℕ) → List ℕ
value_or_empty none = []
value_or_empty (some value) = value

-- EnvOrEmpty and HostEnv.
unfoldable pub host_env : Os → List ℕ → List ℕ
host_env os name =
    let value = value_or_empty (os.getenv name) in
    if is_empty value && same_bytes name (codes "HOME") then value_or_empty os.home else value

abbrev pub is_some : {A : Type 0} → Option A → Bool
is_some none = false
is_some (some x) = true

unfoldable pub path_exists : Os → List ℕ → Bool
path_exists os path = is_some (os.lstat path)

-- SecondsSinceModified.
unfoldable pub seconds_since_modified : Os → List ℕ → ℕ
seconds_since_modified os path = elim (os.stat path) [
  | none ↦ 0
  | some modified ↦ os.now - modified
]

-- `directory + "/" + name`.
abbrev pub under : List ℕ → List ℕ → List ℕ
under directory name = directory ++ (codes "/" ++ name)
