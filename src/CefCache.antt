-- ===== src/CefCache.antt =====
-- packages/webview_cef/common/cef_cache_paths.h and cef_cache_paths.cc: where CEF keeps its profile,
-- and what a start may delete of what the run before left. A path is a list of bytes; an age is a
-- signed number. The environment and the probe for a writable directory are parameters.
pub mod Sweep
pub mod Owned
pub mod Planned
pub mod Listed
pub mod Candidates
mod Tests
use centroid_x.Common.{
  ℕ, zero, suc, Bool, true, false, not, ◌&&◌, ◌||◌, List, [], ◌∷◌, ◌++◌, Option, none, some, take,
  ltb, leb, ◌==◌, if◌then◌else◌,
}
use centroid_x.CString.{codes}
use centroid_x.LogRotation.{is_separator, find_last}

pub data HostPlatform : Type 0 where
  linux mac_os windows : HostPlatform

abbrev pub is_windows : HostPlatform → Bool
is_windows HostPlatform.windows = true
is_windows _ = false

abbrev pub is_empty : List ℕ → Bool
is_empty [] = true
is_empty (c ∷ cs) = false

-- What a list is without its trailing separators.
unfoldable pub drop_trailing : List ℕ → List ℕ
drop_trailing [] = []
drop_trailing (c ∷ cs) =
    let rest = drop_trailing cs in if is_separator c && is_empty rest then [] else c ∷ rest

-- StripTrailingSeparators: the loop stops at the last byte that is no separator, or at the first byte.
unfoldable pub strip_trailing_separators : List ℕ → List ℕ
unfolding drop_trailing
strip_trailing_separators [] = []
strip_trailing_separators (c ∷ cs) = c ∷ drop_trailing cs

unfoldable pub parent_directory : List ℕ → List ℕ
unfolding find_last strip_trailing_separators
parent_directory path =
    let trimmed = strip_trailing_separators path in
    elim (find_last is_separator trimmed) [
      | none ↦ []
      | some zero ↦ []
      | some (suc n) ↦ take (suc n) trimmed
    ]

unfoldable pub path_separator : HostPlatform → ℕ
path_separator platform = if is_windows platform then b'\\' else b'/'

-- The loop of JoinPath over the separators that the right part begins with.
unfoldable pub skip_separators : List ℕ → List ℕ
skip_separators [] = []
skip_separators (c ∷ cs) = let rest = skip_separators cs in if is_separator c then rest else c ∷ cs

unfoldable pub join_path : List ℕ → List ℕ → HostPlatform → List ℕ
unfolding strip_trailing_separators path_separator skip_separators
join_path left right platform =
    if is_empty left
    then right
    else if is_empty right
    then left
    else strip_trailing_separators left ++ (path_separator platform ∷ skip_separators right)

-- `isalpha` of the C locale.
abbrev is_alpha : ℕ → Bool
is_alpha c = (leb b'A' c && leb c b'Z') || (leb b'a' c && leb c b'z')

-- A drive's directory, or a share.
abbrev is_rooted : List ℕ → Bool
is_rooted (c ∷ d ∷ e ∷ cs) =
    (is_separator c && is_separator d) || (is_alpha c && (d == b':' && is_separator e))
is_rooted (c ∷ d ∷ []) = is_separator c && is_separator d
is_rooted _ = false

unfoldable pub is_absolute_path : List ℕ → HostPlatform → Bool
is_absolute_path [] platform = false
is_absolute_path (c ∷ cs) platform =
    if not (is_windows platform) then c == b'/' else is_rooted (c ∷ cs)

pub record CachePaths : Type 0 where
  pub root : List ℕ
  pub cache : List ℕ

abbrev pub no_paths : CachePaths
no_paths = record { root = []; cache = [] }

unfoldable pub cache_paths_for_root : List ℕ → HostPlatform → CachePaths
unfolding strip_trailing_separators join_path
cache_paths_for_root root platform =
    if is_empty root
    then no_paths
    else let stripped = strip_trailing_separators root in
      record { root = stripped; cache = join_path stripped (codes "cache") platform }

-- AppendIfAbsolute, as the list that it appends.
unfoldable pub if_absolute : List ℕ → HostPlatform → List (List ℕ)
unfolding is_absolute_path strip_trailing_separators
if_absolute path platform =
    if not (is_empty path) && is_absolute_path path platform
    then strip_trailing_separators path ∷ []
    else []

abbrev vendor_dir : HostPlatform → List ℕ
vendor_dir HostPlatform.linux = codes "centroidx"
vendor_dir _ = codes "CentroidX"

-- AppendVendorAppDir, as the list that it appends.
unfoldable pub vendor_app_dir : List ℕ → HostPlatform → List (List ℕ)
unfolding if_absolute join_path
vendor_app_dir base platform =
    if is_empty base
    then []
    else if_absolute
        (join_path (join_path base (vendor_dir platform) platform) (codes "webview_cef") platform)
        platform

module _ (env : List ℕ → List ℕ) where
  unfoldable pub temp_directory : HostPlatform → List ℕ
  unfolding strip_trailing_separators
  temp_directory platform =
      if is_windows platform
      then if not (is_empty (env (codes "TMP")))
        then strip_trailing_separators (env (codes "TMP"))
        else if not (is_empty (env (codes "TEMP")))
        then strip_trailing_separators (env (codes "TEMP"))
        else codes "."
      else if not (is_empty (env (codes "TMPDIR")))
      then strip_trailing_separators (env (codes "TMPDIR"))
      else codes "/tmp"

  -- The switch of RootCacheCandidates.
  unfoldable pub platform_candidates : HostPlatform → List (List ℕ)
  unfolding vendor_app_dir join_path
  platform_candidates HostPlatform.windows =
      vendor_app_dir (env (codes "LOCALAPPDATA")) HostPlatform.windows
  platform_candidates HostPlatform.mac_os =
      vendor_app_dir
        (join_path (join_path (env (codes "HOME")) (codes "Library") HostPlatform.mac_os)
          (codes "Application Support") HostPlatform.mac_os)
        HostPlatform.mac_os
  platform_candidates HostPlatform.linux =
      vendor_app_dir (env (codes "XDG_CONFIG_HOME")) HostPlatform.linux
      ++ vendor_app_dir (join_path (env (codes "HOME")) (codes ".config") HostPlatform.linux)
          HostPlatform.linux

  unfoldable pub root_cache_candidates : HostPlatform → List (List ℕ)
  unfolding if_absolute temp_directory platform_candidates join_path
  root_cache_candidates platform =
      if_absolute (env (codes "CENTROIDX_CEF_ROOT_CACHE_PATH")) platform
      ++ (platform_candidates platform
          ++ if_absolute
              (join_path (temp_directory platform) (codes "centroidx-webview-cef") platform)
              platform)

-- The loop of ResolveCachePaths over the candidates.
unfoldable pub first_writable : (List ℕ → Bool) → List (List ℕ) → HostPlatform → CachePaths
unfolding cache_paths_for_root
first_writable writable [] platform = no_paths
first_writable writable (root ∷ roots) platform =
    let paths = cache_paths_for_root root platform in
    let rest = first_writable writable roots platform in
    if writable paths.cache then paths else rest

unfoldable pub resolve_cache_paths : (List ℕ → List ℕ) → (List ℕ → Bool) → HostPlatform → CachePaths
unfolding root_cache_candidates first_writable
resolve_cache_paths env writable platform =
    first_writable writable (root_cache_candidates env platform) platform
