-- ===== src/CefCache/Candidates.antt =====
-- The candidate for the root of the profile that is taken.
use centroid_x.Common.{
  ℕ, ◌≡◌, refl, sym, ap, ◌↔◌, ◌⊎◌, inl, inr, Bool, true, false, List, [], ◌∷◌, ◌++◌, arith,
  Bool-cases,
}
use mathlib.Core.Path.{subst}
use centroid_x.CString.{codes}
use centroid_x.CefCache.{
  HostPlatform, is_windows, is_empty, strip_trailing_separators, path_separator, skip_separators,
  join_path, is_absolute_path, CachePaths, no_paths, cache_paths_for_root, root_cache_candidates,
  first_writable, resolve_cache_paths,
}
use centroid_x.CefCache.Owned.{strip_idem}
use centroid_x.CefCache.Planned.{All}
use centroid_x.CefCache.Listed.{
  Absolute, Named, if_absolute-All, if_absolute-Named, root_cache_candidates-All,
}

-- A root and a cache are given.
abbrev pub AreGiven : CachePaths → Type 0
AreGiven paths = (is_empty paths.root ≡ false) × (is_empty paths.cache ≡ false)

cache_paths_for_root-AreGiven :
    (platform : HostPlatform) (root : List ℕ)
    → is_empty root ≡ false
    → AreGiven (cache_paths_for_root root platform)
unfolding cache_paths_for_root join_path strip_trailing_separators
cache_paths_for_root-AreGiven platform [] e = cc
cache_paths_for_root-AreGiven platform (c ∷ cs) e = (refl, refl)

-- No root of a list has a cache directory that can be written.
abbrev pub AllRefused : (List ℕ → Bool) → HostPlatform → List (List ℕ) → Type 0
AllRefused writable platform =
    All (λ (root : List ℕ). writable (cache_paths_for_root root platform).cache ≡ false)

-- The first root of a list with a cache directory that can be written.
pub record IsFirst (writable : List ℕ → Bool) (platform : HostPlatform) (roots : List (List ℕ))
    (paths : CachePaths) : Type 0 where
  pub before : List (List ℕ)
  pub root : List ℕ
  pub after : List (List ℕ)
  pub splits : roots ≡ before ++ (root ∷ after)
  pub refused : AllRefused writable platform before
  pub accepted : writable (cache_paths_for_root root platform).cache ≡ true
  pub taken : paths ≡ cache_paths_for_root root platform

first_writable-IsFirst :
    (writable : List ℕ → Bool) (platform : HostPlatform) (roots : List (List ℕ))
    → let paths = first_writable writable roots platform in
      IsFirst writable platform roots paths
      ⊎ (AllRefused writable platform roots × (paths ≡ no_paths))
unfolding first_writable
first_writable-IsFirst writable platform [] = inr (tt, refl)
first_writable-IsFirst writable platform (root ∷ roots) =
    elim (Bool-cases (writable (cache_paths_for_root root platform).cache)) [
      | inl e ↦ inl (record {
        before = [];
        root = root;
        after = roots;
        splits = refl;
        refused = tt;
        accepted = e;
        taken = rw e refl;
      })
      | inr e ↦ elim (first_writable-IsFirst writable platform roots) [
        | inl f ↦ inl (record {
          before = root ∷ f.before;
          root = f.root;
          after = f.after;
          splits = ap (λ (t : List (List ℕ)). root ∷ t) f.splits;
          refused = (e, f.refused);
          accepted = f.accepted;
          taken = rw e f.taken;
        })
        | inr n ↦ inr ((e, n.0), rw e n.1)
      ]
    ]

All-middle :
    (P : List ℕ → Type 0) (xs : List (List ℕ)) (x : List ℕ) (ys : List (List ℕ))
    → All P (xs ++ (x ∷ ys))
    → P x
All-middle P [] x ys h = h.0
All-middle P (z ∷ zs) x ys h = All-middle P zs x ys h.1

-- The paths that CEF is given are those of the first candidate whose cache directory can be written,
-- every candidate before it having been refused, and neither path is empty; or all were refused, and
-- both are empty. So they are empty exactly when all were refused, whatever the environment says.
pub resolve_cache_paths-IsFirst :
    (env : List ℕ → List ℕ) (writable : List ℕ → Bool) (platform : HostPlatform)
    → let roots = root_cache_candidates env platform in
      let paths = resolve_cache_paths env writable platform in
      ((IsFirst writable platform roots paths × AreGiven paths)
        ⊎ (AllRefused writable platform roots × (paths ≡ no_paths)))
      × ((paths ≡ no_paths) ↔ AllRefused writable platform roots)
unfolding resolve_cache_paths
resolve_cache_paths-IsFirst env writable platform =
    let roots = root_cache_candidates env platform in
    elim (first_writable-IsFirst writable platform roots) [
      | inl f ↦
          let named = All-middle Named f.before f.root f.after (
            subst (All Named) f.splits
              (root_cache_candidates-All Named env platform (if_absolute-Named platform))) in
          let given =
            subst AreGiven (sym f.taken) (cache_paths_for_root-AreGiven platform f.root named) in
          (
            inl (f, given),
            (
              (λ e. absurd (given_lem _ given e)),
              λ refused. absurd (
                  accepted_lem f.root f.accepted (
                    All-middle
                      (λ (root : List ℕ).
                        writable (cache_paths_for_root root platform).cache ≡ false)
                      f.before f.root f.after
                      (subst (AllRefused writable platform) f.splits refused))),
            ),
          )
      | inr n ↦ (inr n, (λ e. n.0, λ refused. n.1))
    ]
  where
    given_lem : (paths : CachePaths) → AreGiven paths → paths ≡ no_paths → ⊥
    given_lem paths given e = ground (arith, e, given)

    accepted_lem :
        (root : List ℕ)
        → writable (cache_paths_for_root root platform).cache ≡ true
        → writable (cache_paths_for_root root platform).cache ≡ false
        → ⊥
    accepted_lem root accepted refused = cc

pub child :
    (platform : HostPlatform) (root : List ℕ)
    → is_windows platform ≡ false
    → Absolute platform root
    → let paths = cache_paths_for_root root platform in
      Absolute platform paths.root × (paths.cache ≡ paths.root ++ (b'/' ∷ codes "cache"))
unfolding cache_paths_for_root join_path path_separator skip_separators strip_trailing_separators
    is_absolute_path
child platform [] w a = cc
child platform (c ∷ cs) w a =
    (ground arith, rw w (ap (λ (t : List ℕ). t ++ (b'/' ∷ codes "cache")) (strip_idem (c ∷ cs))))

-- On Linux and macOS the root that CEF is given is an absolute path and the cache is its child "cache",
-- as CEF requires, or both are empty, whatever the environment and the probe say.
pub resolve_cache_paths-child :
    (env : List ℕ → List ℕ) (writable : List ℕ → Bool) (platform : HostPlatform)
    → is_windows platform ≡ false
    → let paths = resolve_cache_paths env writable platform in
      (paths ≡ no_paths)
      ⊎ (Absolute platform paths.root × (paths.cache ≡ paths.root ++ (b'/' ∷ codes "cache")))
unfolding resolve_cache_paths
resolve_cache_paths-child env writable platform w =
    elim (first_writable-IsFirst writable platform (root_cache_candidates env platform)) [
      | inl f ↦ inr (
          subst
            (λ (paths : CachePaths).
              Absolute platform paths.root × (paths.cache ≡ paths.root ++ (b'/' ∷ codes "cache")))
            (sym f.taken)
            (child platform f.root w (
              All-middle (Absolute platform) f.before f.root f.after (
                subst (All (Absolute platform)) f.splits (
                  root_cache_candidates-All (Absolute platform) env platform
                    (λ path. if_absolute-All platform path w))))))
      | inr n ↦ inl n.1
    ]
