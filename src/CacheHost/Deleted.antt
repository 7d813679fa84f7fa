-- ===== src/CacheHost/Deleted.antt =====
-- What ClearStaleSingletonState may delete, in terms of what the host answered.
use mathlib.Core.Path.{subst}
use centroid_x.Common.{
  ℕ, ◌≡◌, ◌≢◌, refl, sym, ap, ◌∙◌, ◌⊎◌, inl, inr, Bool, true, false, List, [], ◌∷◌, ◌++◌,
  Bool-cases, append-nil,
}
use centroid_x.CString.{codes}
use centroid_x.CefCache.{
  HostPlatform, is_empty, strip_trailing_separators, parent_directory, join_path,
}
use centroid_x.CefCache.Sweep.{
  is_chromium_socket_dir, is_dead, singleton_files, plan_singleton_sweep, socket_dir_prefix,
  only_if,
}
use centroid_x.LogRotation.{find_last}
use centroid_x.CefCache.Owned.{IsSocketDir, empty_append}
use centroid_x.CefCache.Planned.{All, MayDelete, All-map, plan_singleton_sweep-MayDelete}
use centroid_x.CacheHost.{Os, path_exists}
use centroid_x.CacheHost.Directories.{find_socket_dirs}
use centroid_x.CacheHost.Sweeps.{
  Deletion, unlinked, removed_tree, lock_path, cookie_path, socket_path, singleton_state,
  unlink_all, remove_directories, planned, clear_stale_singleton_state,
}
use centroid_x.CacheHost.Stale.{IsStale, found-IsStale}
use centroid_x.CacheHost.Gone.{IsGone, dead-IsGone}

-- A file of the profile that the host shows, under the name that is unlinked.
pub data IsShown (os : Os) (root : List ℕ) (path : List ℕ) : Type 0 where
  shown_lock :
      path_exists os (lock_path root) ≡ true
      → path ≡ join_path root (codes "SingletonLock") HostPlatform.linux
      → IsShown os root path
  shown_cookie :
      path_exists os (cookie_path root) ≡ true
      → path ≡ join_path root (codes "SingletonCookie") HostPlatform.linux
      → IsShown os root path
  shown_socket :
      path_exists os (socket_path root) ≡ true
      → path ≡ join_path root (codes "SingletonSocket") HostPlatform.linux
      → IsShown os root path

-- The directory that the profile's own socket link names.
pub record IsNamed (os : Os) (root path : List ℕ) : Type 0 where
  pub present : path_exists os (socket_path root) ≡ true
  pub named : path ≡ strip_trailing_separators (parent_directory (os.readlink (socket_path root)))

-- What may be deleted.
abbrev pub IsAllowed : Os → List ℕ → List ℕ → Deletion → Type 0
IsAllowed os root temp_dir (unlinked path) = IsGone os root × IsShown os root path
IsAllowed os root temp_dir (removed_tree path) =
    IsSocketDir temp_dir path × ((IsGone os root × IsNamed os root path) ⊎ IsStale os path)

only_if-All :
    (P : List ℕ → Type 0) (b : Bool) (path : List ℕ) (rest : List (List ℕ))
    → (b ≡ true → P path)
    → All P rest
    → All P (only_if b path ++ rest)
only_if-All P true path rest f h = (f refl, h)
only_if-All P false path rest f h = h

singleton_files-IsShown :
    (os : Os) (root : List ℕ)
    → All (IsShown os root) (singleton_files root (singleton_state os root))
unfolding singleton_files singleton_state
singleton_files-IsShown os root =
    only_if-All (IsShown os root) _ _ _ (λ e. shown_lock e refl)
      (only_if-All (IsShown os root) _ _ _ (λ e. shown_cookie e refl)
        (subst (All (IsShown os root)) (append-nil _)
          (only_if-All (IsShown os root) _ _ [] (λ e. shown_socket e refl) tt)))

unlink_all-All :
    (os : Os) (root temp_dir : List ℕ) (files : List (List ℕ))
    → IsGone os root
    → All (IsShown os root) files
    → All (IsAllowed os root temp_dir) (unlink_all files)
unfolding unlink_all
unlink_all-All os root temp_dir [] g h = tt
unlink_all-All os root temp_dir (file ∷ files) g (s, h) =
    ((g, s), unlink_all-All os root temp_dir files g h)

planned-files :
    (os : Os) (root temp_dir : List ℕ)
    → All (IsAllowed os root temp_dir) (unlink_all (planned os root temp_dir).files)
unfolding planned plan_singleton_sweep unlink_all
planned-files os root temp_dir = elim (Bool-cases (is_dead root (singleton_state os root))) [
  | inl d ↦
      rw d (
        unlink_all-All os root temp_dir _ (dead-IsGone os root d) (singleton_files-IsShown os root))
  | inr d ↦ rw d tt
]

true-ne-false : true ≢ false
true-ne-false e = cc

target-none :
    (os : Os) (root : List ℕ)
    → path_exists os (socket_path root) ≡ false
    → strip_trailing_separators (parent_directory (singleton_state os root).socket_target) ≡ []
unfolding singleton_state parent_directory strip_trailing_separators find_last
target-none os root e = rw e refl

target-some :
    (os : Os) (root : List ℕ)
    → path_exists os (socket_path root) ≡ true
    → (singleton_state os root).socket_target ≡ os.readlink (socket_path root)
unfolding singleton_state
target-some os root e = rw e refl

orphan-IsNamed :
    (os : Os) (root temp_dir path : List ℕ)
    → IsSocketDir temp_dir path
    → path ≡ strip_trailing_separators (parent_directory (singleton_state os root).socket_target)
    → IsNamed os root path
orphan-IsNamed os root temp_dir path s e = elim (Bool-cases (path_exists os (socket_path root))) [
  | inl p ↦ record {
    present = p;
    named =
        e
        ∙ ap (λ (t : List ℕ). strip_trailing_separators (parent_directory t))
            (target-some os root p);
  }
  | inr p ↦
      let long = empty_append (socket_dir_prefix temp_dir) s.suffix s.named in
      let none_left : is_empty path ≡ true = ap is_empty (e ∙ target-none os root p) in
      let some_left : is_empty path ≡ false = ap is_empty s.splits ∙ long in
      absurd (true-ne-false (sym none_left ∙ some_left))
]

directory-IsAllowed :
    (os : Os) (root temp_dir path : List ℕ)
    → MayDelete root (singleton_state os root) temp_dir (find_socket_dirs os temp_dir) path
    → IsAllowed os root temp_dir (removed_tree path)
directory-IsAllowed os root temp_dir path m = (
  m.within,
  elim m.because [
    | inl (d, e) ↦ inl (dead-IsGone os root d, orphan-IsNamed os root temp_dir path m.within e)
    | inr a ↦ inr (found-IsStale os temp_dir path a)
  ],
)

remove_directories-All :
    (P : Deletion → Type 0) (temp_dir : List ℕ) (directories : List (List ℕ))
    → All (λ (d : List ℕ). P (removed_tree d)) directories
    → All P (remove_directories temp_dir directories)
unfolding remove_directories
remove_directories-All P temp_dir [] h = tt
remove_directories-All P temp_dir (d ∷ directories) h =
    let rest = remove_directories-All P temp_dir directories h.1 in
    elim (Bool-cases (is_chromium_socket_dir d temp_dir)) [
      | inl e ↦ rw e (h.0, rest)
      | inr e ↦ rw e rest
    ]

deletions-All :
    (P : Deletion → Type 0) (xs ys : List Deletion) → All P xs → All P ys → All P (xs ++ ys)
deletions-All P [] ys h k = k
deletions-All P (x ∷ xs) ys h k = (h.0, deletions-All P xs ys h.1 k)

-- For every host: a start unlinks a file only of the profile's three, one that is there, and removes a
-- tree only of a direct child of the temp directory with Chromium's prefix. A file, and the directory
-- that the profile's socket link names, goes only when none of the three files was changed within 10 s
-- and the probe of the profile's socket, if there is one, found no listener; any other directory only
-- when it is itself a directory, was not changed for 300 s, and the probe of the socket in it found no
-- listener.
pub clear_stale_singleton_state-IsAllowed :
    (os : Os) (root temp_dir : List ℕ)
    → All (IsAllowed os root temp_dir) (clear_stale_singleton_state os root temp_dir).0
unfolding clear_stale_singleton_state planned
clear_stale_singleton_state-IsAllowed os root temp_dir =
    deletions-All (IsAllowed os root temp_dir) _ _ (planned-files os root temp_dir) (
      remove_directories-All (IsAllowed os root temp_dir) temp_dir _ (
        All-map _ _ _ (directory-IsAllowed os root temp_dir)
          (plan_singleton_sweep-MayDelete root (singleton_state os root) temp_dir
            (find_socket_dirs os temp_dir)).0))
