-- ===== src/CefCache/Listed.antt =====
-- What holds of every candidate for the root of the profile.
use centroid_x.Common.{
  ℕ, ◌≡◌, refl, inl, inr, true, false, not, ◌&&◌, List, [], ◌∷◌, ◌++◌, arith, Bool-cases,
}
use centroid_x.CString.{codes}
use centroid_x.CefCache.{
  HostPlatform, is_windows, is_empty, strip_trailing_separators, join_path, is_absolute_path,
  if_absolute, vendor_app_dir, temp_directory, platform_candidates, root_cache_candidates,
}
use centroid_x.CefCache.Planned.{All}

All-concat : (P : List ℕ → Type 0) (xs ys : List (List ℕ)) → All P xs → All P ys → All P (xs ++ ys)
All-concat P [] ys h k = k
All-concat P (x ∷ xs) ys h k = (h.0, All-concat P xs ys h.1 k)

abbrev pub Absolute : HostPlatform → List ℕ → Type 0
Absolute platform path = is_absolute_path path platform ≡ true

strip-Absolute :
    (platform : HostPlatform) (path : List ℕ)
    → is_windows platform ≡ false
    → Absolute platform path
    → Absolute platform (strip_trailing_separators path)
unfolding strip_trailing_separators is_absolute_path
strip-Absolute platform [] w h = h
strip-Absolute platform (c ∷ cs) w h = ground arith

pub if_absolute-All :
    (platform : HostPlatform) (path : List ℕ)
    → is_windows platform ≡ false
    → All (Absolute platform) (if_absolute path platform)
unfolding if_absolute
if_absolute-All platform path w =
    elim (Bool-cases (not (is_empty path) && is_absolute_path path platform)) [
      | inl e ↦ rw e (strip-Absolute platform path w (ground arith), tt)
      | inr e ↦ rw e tt
    ]

-- What holds of whatever AppendIfAbsolute appends holds of every candidate.
module _ (P : List ℕ → Type 0) (env : List ℕ → List ℕ) where
  vendor_app_dir-All :
      (platform : HostPlatform) (base : List ℕ)
      → ((path : List ℕ) → All P (if_absolute path platform))
      → All P (vendor_app_dir base platform)
  unfolding vendor_app_dir
  vendor_app_dir-All platform [] each = tt
  vendor_app_dir-All platform (c ∷ cs) each = each _

  platform_candidates-All :
      (platform : HostPlatform)
      → ((path : List ℕ) → All P (if_absolute path platform))
      → All P (platform_candidates env platform)
  unfolding platform_candidates
  platform_candidates-All HostPlatform.linux each =
      let xdg = env (codes "XDG_CONFIG_HOME") in
      let home = join_path (env (codes "HOME")) (codes ".config") HostPlatform.linux in
      All-concat P (vendor_app_dir xdg HostPlatform.linux) (vendor_app_dir home HostPlatform.linux)
        (vendor_app_dir-All HostPlatform.linux xdg each)
        (vendor_app_dir-All HostPlatform.linux home each)
  platform_candidates-All HostPlatform.mac_os each =
      vendor_app_dir-All HostPlatform.mac_os
        (join_path (join_path (env (codes "HOME")) (codes "Library") HostPlatform.mac_os)
          (codes "Application Support") HostPlatform.mac_os)
        each
  platform_candidates-All HostPlatform.windows each =
      vendor_app_dir-All HostPlatform.windows (env (codes "LOCALAPPDATA")) each

  pub root_cache_candidates-All :
      (platform : HostPlatform)
      → ((path : List ℕ) → All P (if_absolute path platform))
      → All P (root_cache_candidates env platform)
  unfolding root_cache_candidates
  root_cache_candidates-All platform each =
      let chosen = env (codes "CENTROIDX_CEF_ROOT_CACHE_PATH") in
      let last = join_path (temp_directory env platform) (codes "centroidx-webview-cef") platform in
      All-concat P (if_absolute chosen platform)
        (platform_candidates env platform ++ if_absolute last platform) (each chosen)
        (All-concat P (platform_candidates env platform) (if_absolute last platform)
          (platform_candidates-All platform each) (each last))

strip-is_empty :
    (path : List ℕ) → is_empty path ≡ false → is_empty (strip_trailing_separators path) ≡ false
unfolding strip_trailing_separators
strip-is_empty [] h = h
strip-is_empty (c ∷ cs) h = refl

abbrev pub Named : List ℕ → Type 0
Named path = is_empty path ≡ false

pub if_absolute-Named :
    (platform : HostPlatform) (path : List ℕ) → All Named (if_absolute path platform)
unfolding if_absolute
if_absolute-Named platform path =
    elim (Bool-cases (not (is_empty path) && is_absolute_path path platform)) [
      | inl e ↦ rw e (strip-is_empty path (ground arith), tt)
      | inr e ↦ rw e tt
    ]
