-- ===== src/CacheHost/Prepared.antt =====
-- What PrepareCefCachePaths does as a whole.
use mathlib.Core.Path.{subst}
use centroid_x.Common.{
  ℕ, ◌≡◌, ◌≢◌, refl, sym, ap, ◌∙◌, ◌⊎◌, inl, inr, true, false, List, [], ◌∷◌, ◌++◌, some, get_elem?,
  arith, Bool-cases,
}
use centroid_x.CString.{codes}
use centroid_x.CefCache.{
  HostPlatform, CachePaths, is_empty, strip_trailing_separators, parent_directory, is_absolute_path,
  cache_paths_for_root, temp_directory, resolve_cache_paths,
}
use centroid_x.CefCache.Sweep.{
  SingletonState, SocketDir, same_bytes, is_chromium_socket_dir, plan_singleton_sweep,
}
use centroid_x.CefCache.Owned.{
  IsSocketDir, same_bytes_sound, strip_idem, is_chromium_socket_dir_iff,
}
use centroid_x.CefCache.Planned.{All, All-map, IsAmong, MayDelete, plan_singleton_sweep-MayDelete}
use centroid_x.CacheHost.{Os, host_env}
use centroid_x.CacheHost.Directories.{ensure_writable_directory, find_socket_dirs}
use centroid_x.CacheHost.Sweeps.{
  Deletion, removed_tree, Spoken, not_absolute, not_honoured, none_writable, override_lines,
  singleton_state, unlink_all, remove_directories, planned, clear_stale_singleton_state, Prepared,
  cleared_profile, prepare_cef_cache_paths,
}
use centroid_x.CacheHost.Deleted.{IsAllowed, clear_stale_singleton_state-IsAllowed}

among-stripped :
    (path : List ℕ) (dirs : List SocketDir)
    → IsAmong path dirs
    → strip_trailing_separators path ≡ path
among-stripped path [] h = absurd h
among-stripped path (dir ∷ dirs) (inl (a, e)) =
    subst (λ (p : List ℕ). strip_trailing_separators p ≡ p) (sym e) (strip_idem dir.path)
among-stripped path (dir ∷ dirs) (inr h) = among-stripped path dirs h

MayDelete-stripped :
    (root : List ℕ) (state : SingletonState) (temp_dir : List ℕ) (dirs : List SocketDir)
    (path : List ℕ)
    → MayDelete root state temp_dir dirs path
    → strip_trailing_separators path ≡ path
MayDelete-stripped root state temp_dir dirs path m = elim m.because [
  | inl (d, e) ↦
      subst (λ (p : List ℕ). strip_trailing_separators p ≡ p) (sym e)
        (strip_idem (parent_directory state.socket_target))
  | inr a ↦ among-stripped path dirs a
]

MayDelete-passes :
    (root : List ℕ) (state : SingletonState) (temp_dir : List ℕ) (dirs : List SocketDir)
    (path : List ℕ)
    → is_empty temp_dir ≡ false
    → MayDelete root state temp_dir dirs path
    → is_chromium_socket_dir path temp_dir ≡ true
MayDelete-passes root state temp_dir dirs path t m =
    (is_chromium_socket_dir_iff path temp_dir t).1 (
      subst (IsSocketDir temp_dir) (sym (MayDelete-stripped root state temp_dir dirs path m))
        m.within)

-- Every directory of a list, removed.
abbrev pub trees : List (List ℕ) → List Deletion
trees [] = []
trees (d ∷ ds) = removed_tree d ∷ trees ds

remove_directories-trees :
    (temp_dir : List ℕ) (ds : List (List ℕ))
    → All (λ (d : List ℕ). is_chromium_socket_dir d temp_dir ≡ true) ds
    → remove_directories temp_dir ds ≡ trees ds
unfolding remove_directories
remove_directories-trees temp_dir [] h = refl
remove_directories-trees temp_dir (d ∷ ds) h =
    ground (arith, h.0, remove_directories-trees temp_dir ds h.1)

-- Where there is a temp directory, the second test of a directory refuses none that is planned: a start
-- does exactly the plan, the files first.
pub clear_stale_singleton_state-eq :
    (os : Os) (root temp_dir : List ℕ)
    → is_empty temp_dir ≡ false
    → let sweep = (clear_stale_singleton_state os root temp_dir).1 in
      (clear_stale_singleton_state os root temp_dir).0
      ≡ unlink_all sweep.files ++ trees sweep.directories
unfolding clear_stale_singleton_state planned
clear_stale_singleton_state-eq os root temp_dir t =
    let state = singleton_state os root in
    let dirs = find_socket_dirs os temp_dir in
    let sweep = plan_singleton_sweep root state temp_dir dirs in
    ap (λ (ds : List Deletion). unlink_all sweep.files ++ ds)
      (remove_directories-trees temp_dir sweep.directories (
        All-map (MayDelete root state temp_dir dirs) _ _
          (λ path m. MayDelete-passes root state temp_dir dirs path t m)
          (plan_singleton_sweep-MayDelete root state temp_dir dirs).0))

-- A variable that is set and that does not name the root is spoken of in the first line.
abbrev pub IsTold : List ℕ → List Spoken → Type 0
IsTold requested lines =
    (get_elem? lines 0 ≡ some (not_absolute requested))
    ⊎ (get_elem? lines 0 ≡ some (not_honoured requested))

IsTold-override_lines :
    (requested : List ℕ) (paths : CachePaths) (platform : HostPlatform) (rest : List Spoken)
    → is_empty requested ≡ false
    → (paths.root ≡ (cache_paths_for_root requested platform).root)
      ⊎ IsTold requested (override_lines requested paths platform ++ rest)
unfolding override_lines
IsTold-override_lines requested paths platform rest e =
    let root = (cache_paths_for_root requested platform).root in
    elim (Bool-cases (is_absolute_path requested platform)) [
      | inr a ↦ inr (inl (ground (arith, e, a)))
      | inl a ↦ elim (Bool-cases (same_bytes paths.root root)) [
        | inl s ↦ inl (same_bytes_sound paths.root root s)
        | inr s ↦ inr (inr (ground (arith, e, a, s)))
      ]
    ]

abbrev Outcome : Os → HostPlatform → Prepared → Type 0
Outcome os platform p =
    let requested = host_env os (codes "CENTROIDX_CEF_ROOT_CACHE_PATH") in
    (is_empty requested ≡ false
      → (p.paths.root ≡ (cache_paths_for_root requested platform).root) ⊎ IsTold requested p.lines)
    × All (IsAllowed os p.paths.root (temp_directory (host_env os) platform)) p.deletions
    × (p.paths.root ≡ [] → p.deletions ≡ [])

empty_root : (root : List ℕ) → is_empty root ≡ true → root ≡ []
empty_root [] e = refl
empty_root (c ∷ cs) e = absurd (true-ne-false (sym e))
  where
    true-ne-false : true ≢ false
    true-ne-false e = cc

cleared-Outcome :
    (os : Os) (paths : CachePaths) (platform : HostPlatform)
    → is_empty paths.root ≡ false
    → Outcome os platform (
        cleared_profile os paths platform
          (override_lines (host_env os (codes "CENTROIDX_CEF_ROOT_CACHE_PATH")) paths platform))
unfolding cleared_profile
cleared-Outcome os paths platform n = (
  λ e.
      IsTold-override_lines (host_env os (codes "CENTROIDX_CEF_ROOT_CACHE_PATH")) paths platform _
        e,
  clear_stale_singleton_state-IsAllowed os paths.root (temp_directory (host_env os) platform),
  λ z. absurd (true-ne-false (sym (ap is_empty z) ∙ n)),
)
  where
    true-ne-false : true ≢ false
    true-ne-false e = cc

-- For every host: an override that is set and is not the root is told in the first line, all that is
-- deleted is allowed for the root and the temp directory of the host, and with no root nothing is deleted.
pub prepare_cef_cache_paths-IsTold :
    (os : Os) (platform : HostPlatform)
    → let p = prepare_cef_cache_paths os platform in
      let requested = host_env os (codes "CENTROIDX_CEF_ROOT_CACHE_PATH") in
      (is_empty requested ≡ false
        → (p.paths.root ≡ (cache_paths_for_root requested platform).root)
          ⊎ IsTold requested p.lines)
      × All (IsAllowed os p.paths.root (temp_directory (host_env os) platform)) p.deletions
      × (p.paths.root ≡ [] → p.deletions ≡ [])
unfolding prepare_cef_cache_paths
prepare_cef_cache_paths-IsTold os platform =
    let paths =
      resolve_cache_paths (host_env os) (λ path. (ensure_writable_directory os path).1) platform in
    let requested = host_env os (codes "CENTROIDX_CEF_ROOT_CACHE_PATH") in
    elim (Bool-cases (is_empty paths.root)) [
      | inl e ↦ rw e (
        λ n. IsTold-override_lines requested paths platform (none_writable ∷ []) n,
        tt,
        λ z. refl,
      )
      | inr e ↦ rw e (cleared-Outcome os paths platform e)
    ]
