-- ===== src/CefCache/Tests.antt =====
-- Runs of the cache paths and of the sweep on concrete inputs.
use centroid_x.Common.{ℕ, ◌≡◌, refl, ◌↔◌, ◌⊎◌, Bool, true, false, List, [], ◌∷◌, if◌then◌else◌}
use centroid_x.Common.Int.{pos}
use centroid_x.CString.{codes}
use centroid_x.LogRotation.{find_last}
use centroid_x.CefCache.{
  HostPlatform, drop_trailing, strip_trailing_separators, path_separator, skip_separators,
  join_path, parent_directory, is_absolute_path, no_paths, if_absolute, vendor_app_dir,
  temp_directory, platform_candidates, root_cache_candidates, resolve_cache_paths,
}
use centroid_x.CefCache.Sweep.{
  SingletonState, SocketDir, same_bytes, has_no_separator, socket_dir_prefix,
  is_chromium_socket_dir, owner_alive, is_dead, singleton_files, orphans, contains, consider,
  consider_all, plan_singleton_sweep,
}
use centroid_x.CefCache.Candidates.{AllRefused, AreGiven, IsFirst, resolve_cache_paths-IsFirst}

-- No variable is set.
abbrev unset : List ℕ → List ℕ
unset name = []

-- Only the variable of that name is set.
abbrev only : List ℕ → List ℕ → List ℕ → List ℕ
only name value asked = if same_bytes name asked then value else []

abbrev anything : List ℕ → Bool
anything path = true

-- A run that was killed a minute ago.
abbrev killed : SingletonState
killed = record {
  lock_present = true;
  cookie_present = true;
  socket_present = true;
  socket_target = codes "/tmp/org.chromium.Chromium.a/SingletonSocket";
  socket_answers = false;
  age_seconds = pos 60;
}

abbrev alive : SingletonState
alive = record killed { socket_answers = true }

abbrev found : List SocketDir
found =
    record {
      path = codes "/tmp/org.chromium.Chromium.a/";
      socket_answers = false;
      age_seconds = pos 400;
    }
    ∷ record {
      path = codes "/tmp/org.chromium.Chromium.b";
      socket_answers = false;
      age_seconds = pos 10;
    }
    ∷ record {
      path = codes "/tmp/org.chromium.Chromium.c";
      socket_answers = true;
      age_seconds = pos 900;
    }
    ∷ record { path = codes "/home/d"; socket_answers = false; age_seconds = pos 900 }
    ∷ []

killed-directories :
    (plan_singleton_sweep (codes "/r") killed (codes "/tmp") found).directories
    ≡ codes "/tmp/org.chromium.Chromium.a" ∷ []
unfolding plan_singleton_sweep is_dead owner_alive orphans parent_directory find_last consider_all
    consider contains is_chromium_socket_dir socket_dir_prefix same_bytes has_no_separator
    strip_trailing_separators drop_trailing join_path path_separator skip_separators
killed-directories = refl

killed-files :
    (plan_singleton_sweep (codes "/r") killed (codes "/tmp") found).files
    ≡ codes "/r/SingletonLock" ∷ codes "/r/SingletonCookie" ∷ codes "/r/SingletonSocket" ∷ []
unfolding plan_singleton_sweep is_dead owner_alive singleton_files strip_trailing_separators
    drop_trailing join_path path_separator skip_separators
killed-files = refl

-- A drive's directory is absolute, and the root that is tried for it is not.
drive-candidates :
    root_cache_candidates
      (only (codes "CENTROIDX_CEF_ROOT_CACHE_PATH") (codes "D:\\"))
      HostPlatform.windows
    ≡ codes "D:" ∷ []
unfolding root_cache_candidates if_absolute is_absolute_path platform_candidates vendor_app_dir
    temp_directory same_bytes strip_trailing_separators drop_trailing join_path path_separator
    skip_separators
drive-candidates = refl

drive-relative :
    (is_absolute_path (codes "D:\\") HostPlatform.windows ≡ true)
    × (is_absolute_path (codes "D:") HostPlatform.windows ≡ false)
unfolding is_absolute_path
drive-relative = (refl, refl)

-- With a relative temp directory and no home there is no candidate at all.
relative-candidates :
    root_cache_candidates (only (codes "TMPDIR") (codes "tmp")) HostPlatform.linux ≡ []
unfolding root_cache_candidates if_absolute is_absolute_path platform_candidates vendor_app_dir
    temp_directory same_bytes strip_trailing_separators drop_trailing join_path path_separator
    skip_separators
relative-candidates = refl

-- A direct child of the root directory is not recognised.
top-is_chromium_socket_dir :
    is_chromium_socket_dir (codes "/org.chromium.Chromium.a") (codes "/") ≡ false
unfolding is_chromium_socket_dir socket_dir_prefix same_bytes has_no_separator
    strip_trailing_separators drop_trailing join_path path_separator skip_separators
top-is_chromium_socket_dir = refl

resolve_cache_paths-IsFirst_example :
    let roots = root_cache_candidates unset HostPlatform.linux in
    let paths = resolve_cache_paths unset anything HostPlatform.linux in
    ((IsFirst anything HostPlatform.linux roots paths × AreGiven paths)
      ⊎ (AllRefused anything HostPlatform.linux roots × (paths ≡ no_paths)))
    × ((paths ≡ no_paths) ↔ AllRefused anything HostPlatform.linux roots)
resolve_cache_paths-IsFirst_example = resolve_cache_paths-IsFirst unset anything HostPlatform.linux
