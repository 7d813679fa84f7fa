-- ===== src/CacheHost/Tests.antt =====
-- A host whose last run was killed a minute ago, and one with nothing on it.
use centroid_x.Common.{
  ℕ, ◌≤◌, ◌≡◌, refl, ◌⊎◌, ◌↔◌, Bool, true, false, List, [], ◌∷◌, none, some, length, if◌then◌else◌,
}
use centroid_x.CString.{codes}
use centroid_x.LogRotation.{find_last}
use centroid_x.CefCache.{
  HostPlatform, is_empty, cache_paths_for_root, temp_directory, drop_trailing,
  strip_trailing_separators, path_separator, skip_separators, join_path, parent_directory,
}
use centroid_x.CefCache.Sweep.{
  same_bytes, has_no_separator, socket_dir_prefix, is_chromium_socket_dir, owner_alive, is_dead,
  singleton_files, orphans, contains, consider, consider_all, plan_singleton_sweep,
}
use centroid_x.CefCache.Planned.{All}
use centroid_x.CacheHost.{connected, refused, Os, path_exists, seconds_since_modified, host_env}
use centroid_x.CacheHost.Sockets.{
  unix_socket_answers, attempted, IsRefusal, IsUntold, unix_socket_answers_iff,
}
use centroid_x.CacheHost.Trees.{
  Entry, leaf, directory, empty, entry, remove_tree_at, IsRemovable, remove_tree_at_iff,
}
use centroid_x.CacheHost.Directories.{
  made_directories, prefixes, is_candidate, candidate_of, collect, find_socket_dirs,
}
use centroid_x.CacheHost.Sweeps.{
  unlinked, removed_tree, younger, singleton_state, unlink_all, remove_directories, planned,
  clear_stale_singleton_state, prepare_cef_cache_paths,
}
use centroid_x.CacheHost.Deleted.{IsAllowed, clear_stale_singleton_state-IsAllowed}
use centroid_x.CacheHost.Prepared.{IsTold, prepare_cef_cache_paths-IsTold}

abbrev among : List (List ℕ) → List ℕ → Bool
among [] path = false
among (p ∷ ps) path = if same_bytes p path then true else among ps path

-- The lock and the socket of the profile are there, and a directory of an older run.
abbrev killed : Os
killed = record {
  getenv = λ name. none;
  home = some (codes "/home/hmi");
  writable = λ path. true;
  lstat = λ path.
      if among (codes "/r/SingletonLock" ∷ codes "/r/SingletonSocket" ∷ []) path
      then some (record { modified = 940; directory = false })
      else if among (codes "/tmp/org.chromium.Chromium.old" ∷ []) path
      then some (record { modified = 100; directory = true })
      else none;
  stat = λ path. some 100;
  readlink = λ path. codes "/tmp/org.chromium.Chromium.a/SingletonSocket";
  connect = λ path. refused;
  listing = λ path. some (codes "notes" ∷ codes "org.chromium.Chromium.old" ∷ []);
  now = 1000;
  sun_path = 108;
}

killed-cleared :
    (clear_stale_singleton_state killed (codes "/r") (codes "/tmp")).0
    ≡ unlinked (codes "/r/SingletonLock")
      ∷ unlinked (codes "/r/SingletonSocket")
      ∷ removed_tree (codes "/tmp/org.chromium.Chromium.a")
      ∷ removed_tree (codes "/tmp/org.chromium.Chromium.old")
      ∷ []
unfolding clear_stale_singleton_state planned plan_singleton_sweep singleton_state path_exists
    younger find_socket_dirs collect is_candidate candidate_of seconds_since_modified
    unix_socket_answers attempted unlink_all remove_directories is_dead owner_alive singleton_files
    orphans parent_directory find_last consider_all consider contains is_chromium_socket_dir
    socket_dir_prefix same_bytes has_no_separator strip_trailing_separators drop_trailing join_path
    path_separator skip_separators
killed-cleared = refl

-- While its owner answers, nothing of the profile goes.
abbrev alive : Os
alive = record killed { connect = λ path. connected }

alive-cleared : (clear_stale_singleton_state alive (codes "/r") (codes "/tmp")).0 ≡ []
unfolding clear_stale_singleton_state planned plan_singleton_sweep singleton_state path_exists
    younger find_socket_dirs collect is_candidate candidate_of seconds_since_modified
    unix_socket_answers attempted unlink_all remove_directories is_dead owner_alive consider_all
    consider same_bytes
alive-cleared = refl

made-test : made_directories (codes "/a/b") ≡ codes "/a" ∷ codes "/a/b" ∷ []
unfolding made_directories prefixes
made-test = refl

clear_stale_singleton_state-IsAllowed_example :
    All
      (IsAllowed killed (codes "/r") (codes "/tmp"))
      (clear_stale_singleton_state killed (codes "/r") (codes "/tmp")).0
clear_stale_singleton_state-IsAllowed_example =
    clear_stale_singleton_state-IsAllowed killed (codes "/r") (codes "/tmp")

unix_socket_answers_iff_example : (unix_socket_answers killed (codes "/s") ≡ false) ↔ (
    (codes "/s" ≡ [])
    ⊎ ((killed.sun_path ≤ length (codes "/s"))
        ⊎ (IsRefusal (killed.connect (codes "/s")) ⊎ IsUntold (killed.connect (codes "/s")))))
unix_socket_answers_iff_example = unix_socket_answers_iff killed (codes "/s")

-- A directory with a file that cannot be removed and one that can.
abbrev held : Entry
held =
    directory true true true (entry (codes "a") (leaf false) (entry (codes "b") (leaf true) empty))

held-left :
    remove_tree_at held ≡ some (directory true true true (entry (codes "a") (leaf false) empty))
unfolding remove_tree_at
held-left = refl

remove_tree_at_iff_example : (remove_tree_at held ≡ none) ↔ IsRemovable held
remove_tree_at_iff_example = remove_tree_at_iff held

prepare_cef_cache_paths-IsTold_example :
    let p = prepare_cef_cache_paths killed HostPlatform.linux in
    let requested = host_env killed (codes "CENTROIDX_CEF_ROOT_CACHE_PATH") in
    (is_empty requested ≡ false
      → (p.paths.root ≡ (cache_paths_for_root requested HostPlatform.linux).root)
        ⊎ IsTold requested p.lines)
    × All
        (IsAllowed killed p.paths.root (temp_directory (host_env killed) HostPlatform.linux))
        p.deletions
    × (p.paths.root ≡ [] → p.deletions ≡ [])
prepare_cef_cache_paths-IsTold_example = prepare_cef_cache_paths-IsTold killed HostPlatform.linux
