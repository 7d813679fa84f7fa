-- ===== src/CefCache/Planned.antt =====
-- Where every directory that a sweep deletes comes from.
use centroid_x.Common.{
  ℕ, ◌≡◌, refl, ◌⊎◌, inl, inr, Bool, true, false, not, List, [], ◌∷◌, ◌++◌, arith, if◌then◌else◌,
}
use mathlib.Core.Path.{subst}
use centroid_x.CefCache.{strip_trailing_separators, parent_directory}
use centroid_x.CefCache.Sweep.{
  SingletonState, SocketDir, same_bytes, is_chromium_socket_dir, is_younger, owner_alive, is_dead,
  orphans, contains, consider, consider_all, plan_singleton_sweep,
}
use centroid_x.CefCache.Owned.{
  IsSocketDir, is_chromium_socket_dir_sound, strip_idem, same_bytes_comm,
}

-- A socket directory that nobody answers in and that is at least 300 s old.
abbrev pub IsAbandoned : SocketDir → Type 0
IsAbandoned dir = (dir.socket_answers ≡ false) × (is_younger dir.age_seconds 300 ≡ false)

-- A path is that of an abandoned directory of the list.
abbrev pub IsAmong : List ℕ → List SocketDir → Type 0
IsAmong path [] = ⊥
IsAmong path (dir ∷ dirs) =
    (IsAbandoned dir × (path ≡ strip_trailing_separators dir.path)) ⊎ IsAmong path dirs

abbrev pub All {ℓ} : {A : Type 0} → (A → Type ℓ) → List A → Type ℓ
All P [] = Unit
All P (x ∷ xs) = P x × All P xs

All-append {ℓ} :
    {A : Type 0} (P : A → Type ℓ) (xs : List A) (x : A) → All P xs → P x → All P (xs ++ (x ∷ []))
All-append P [] x h p = (p, tt)
All-append P (y ∷ xs) x h p = (h.0, All-append P xs x h.1 p)

pub All-map {ℓ κ} :
    {A : Type 0} (P : A → Type ℓ) (Q : A → Type κ) (xs : List A)
    → ((x : A) → P x → Q x)
    → All P xs
    → All Q xs
All-map P Q [] f h = tt
All-map P Q (x ∷ xs) f h = (f x h.0, All-map P Q xs f h.1)

-- The directory that the dead link of the profile names.
abbrev pub IsOrphan : List ℕ → SingletonState → List ℕ → Type 0
IsOrphan root state path =
    (is_dead root state ≡ true)
    × (path ≡ strip_trailing_separators (parent_directory state.socket_target))

-- What the plan may delete recursively.
pub record MayDelete (root : List ℕ) (state : SingletonState) (temp_dir : List ℕ)
    (dirs : List SocketDir) (path : List ℕ) : Type 0 where
  pub within : IsSocketDir temp_dir path
  pub because : IsOrphan root state path ⊎ IsAmong path dirs

-- A list in which no path stands twice.
abbrev pub IsDistinct : List (List ℕ) → Type 0
IsDistinct [] = Unit {0}
IsDistinct (d ∷ ds) = (contains d ds ≡ false) × IsDistinct ds

contains-append :
    (path d : List ℕ) (ds : List (List ℕ))
    → contains path ds ≡ false
    → same_bytes d path ≡ false
    → contains path (ds ++ (d ∷ [])) ≡ false
unfolding contains
contains-append path d [] h s = ground arith
contains-append path d (e ∷ ds) h s = ground (arith, contains-append path d ds)

IsDistinct-append :
    (d : List ℕ) (ds : List (List ℕ))
    → IsDistinct ds
    → contains d ds ≡ false
    → IsDistinct (ds ++ (d ∷ []))
unfolding contains
IsDistinct-append d [] h c = (refl, tt)
IsDistinct-append d (e ∷ ds) h c = (
  contains-append e d ds h.0 (ground (arith, same_bytes_comm d e)),
  IsDistinct-append d ds h.1 (ground arith),
)

if-P :
    {A : Type 0} (P : A → Type 0) (b : Bool) (x y : A)
    → (b ≡ true → P x)
    → (b ≡ false → P y)
    → P (if b then x else y)
if-P P true x y f g = f refl
if-P P false x y f g = g refl

consider-All :
    (P : List ℕ → Type 0) (temp_dir : List ℕ) (ds : List (List ℕ)) (dir : SocketDir)
    → All P ds
    → (IsAbandoned dir
        → IsSocketDir temp_dir (strip_trailing_separators dir.path)
        → P (strip_trailing_separators dir.path))
    → All P (consider temp_dir ds dir)
unfolding consider
consider-All P temp_dir ds dir h f =
    let path = strip_trailing_separators dir.path in
    if-P (All P) dir.socket_answers ds _ (λ _. h)
      (λ a.
        if-P (All P) (is_younger dir.age_seconds 300) ds _ (λ _. h)
          (λ y.
            if-P (All P) (not (is_chromium_socket_dir path temp_dir)) ds _ (λ _. h)
              (λ c.
                if-P (All P) (contains path ds) ds _ (λ _. h)
                  (λ _. All-append P ds path h (
                    f (a, y)
                      (subst (IsSocketDir temp_dir) (strip_idem dir.path)
                        (is_chromium_socket_dir_sound path temp_dir (ground arith))))))))

consider-IsDistinct :
    (temp_dir : List ℕ) (ds : List (List ℕ)) (dir : SocketDir)
    → IsDistinct ds
    → IsDistinct (consider temp_dir ds dir)
unfolding consider
consider-IsDistinct temp_dir ds dir h =
    let path = strip_trailing_separators dir.path in
    if-P IsDistinct dir.socket_answers ds _ (λ _. h)
      (λ _.
        if-P IsDistinct (is_younger dir.age_seconds 300) ds _ (λ _. h)
          (λ _.
            if-P IsDistinct (not (is_chromium_socket_dir path temp_dir)) ds _ (λ _. h)
              (λ _.
                if-P IsDistinct (contains path ds) ds _ (λ _. h)
                  (λ c. IsDistinct-append path ds h c))))

consider_all-All :
    (P : List ℕ → Type 0) (temp_dir : List ℕ) (ds : List (List ℕ)) (dirs : List SocketDir)
    → All P ds
    → ((path : List ℕ) → IsSocketDir temp_dir path → IsAmong path dirs → P path)
    → All P (consider_all temp_dir ds dirs)
unfolding consider_all
consider_all-All P temp_dir ds [] h f = h
consider_all-All P temp_dir ds (dir ∷ dirs) h f =
    consider_all-All P temp_dir (consider temp_dir ds dir) dirs
      (consider-All P temp_dir ds dir h
        (λ a s. f (strip_trailing_separators dir.path) s (inl (a, refl))))
      (λ path s a. f path s (inr a))

consider_all-IsDistinct :
    (temp_dir : List ℕ) (ds : List (List ℕ)) (dirs : List SocketDir)
    → IsDistinct ds
    → IsDistinct (consider_all temp_dir ds dirs)
unfolding consider_all
consider_all-IsDistinct temp_dir ds [] h = h
consider_all-IsDistinct temp_dir ds (dir ∷ dirs) h =
    consider_all-IsDistinct temp_dir (consider temp_dir ds dir) dirs
      (consider-IsDistinct temp_dir ds dir h)

orphans-All :
    (P : List ℕ → Type 0) (state : SingletonState) (temp_dir : List ℕ)
    → (IsSocketDir temp_dir (strip_trailing_separators (parent_directory state.socket_target))
        → P (strip_trailing_separators (parent_directory state.socket_target)))
    → All P (orphans state temp_dir)
unfolding orphans
orphans-All P state temp_dir f =
    let orphan = parent_directory state.socket_target in
    if-P (All P) (is_chromium_socket_dir orphan temp_dir) _ []
      (λ e. (f (is_chromium_socket_dir_sound orphan temp_dir e), tt)) (λ _. tt)

orphans-IsDistinct :
    (state : SingletonState) (temp_dir : List ℕ) → IsDistinct (orphans state temp_dir)
unfolding orphans contains
orphans-IsDistinct state temp_dir =
    if-P IsDistinct (is_chromium_socket_dir (parent_directory state.socket_target) temp_dir) _ []
      (λ e. (refl, tt)) (λ _. tt)

spared :
    (root : List ℕ) (state : SingletonState)
    → ((state.socket_present ≡ true) × (state.socket_answers ≡ true))
      ⊎ (((state.lock_present ≡ true)
            ⊎ ((state.cookie_present ≡ true) ⊎ (state.socket_present ≡ true)))
          × (is_younger state.age_seconds 10 ≡ true))
    → is_dead root state ≡ false
unfolding is_dead owner_alive
spared root state guarded = ground arith

-- Every directory that a start deletes recursively is a direct child of the temp directory named with
-- Chromium's prefix, and is either the one that the profile's own dead socket link names, or one of
-- the socket directories found, in which nobody answered and which is at least 300 s old. None is
-- planned twice.
pub plan_singleton_sweep-MayDelete :
    (root : List ℕ) (state : SingletonState) (temp_dir : List ℕ) (dirs : List SocketDir)
    → let planned = (plan_singleton_sweep root state temp_dir dirs).directories in
      All (MayDelete root state temp_dir dirs) planned × IsDistinct planned
unfolding plan_singleton_sweep
plan_singleton_sweep-MayDelete root state temp_dir dirs =
    let P = MayDelete root state temp_dir dirs in
    (
      consider_all-All P temp_dir _ dirs
          (if-P (All P) (is_dead root state) (orphans state temp_dir) []
            (λ d.
              orphans-All P state temp_dir (λ s. record { within = s; because = inl (d, refl) }))
            (λ _. tt))
          (λ path s a. record { within = s; because = inr a }),
      consider_all-IsDistinct temp_dir _ dirs (
          if-P IsDistinct (is_dead root state) (orphans state temp_dir) []
            (λ _. orphans-IsDistinct state temp_dir) (λ _. tt)),
    )

-- When the owner of the profile answers, or files of the profile are less than 10 s old, no file of
-- the profile is deleted, and every directory that is deleted is one of the socket directories found
-- in which nobody answered and which is at least 300 s old.
pub plan_singleton_sweep-IsAmong :
    (root : List ℕ) (state : SingletonState) (temp_dir : List ℕ) (dirs : List SocketDir)
    → ((state.socket_present ≡ true) × (state.socket_answers ≡ true))
      ⊎ (((state.lock_present ≡ true)
            ⊎ ((state.cookie_present ≡ true) ⊎ (state.socket_present ≡ true)))
          × (is_younger state.age_seconds 10 ≡ true))
    → let sweep = plan_singleton_sweep root state temp_dir dirs in
      (sweep.files ≡ []) × All (λ (path : List ℕ). IsAmong path dirs) sweep.directories
unfolding plan_singleton_sweep
plan_singleton_sweep-IsAmong root state temp_dir dirs guarded =
    let alive = spared root state guarded in
    (
      ground arith,
      consider_all-All (λ (path : List ℕ). IsAmong path dirs) temp_dir _ dirs
          (if-P (All (λ (path : List ℕ). IsAmong path dirs)) (is_dead root state)
            (orphans state temp_dir) [] (λ d. cc) (λ _. tt))
          (λ path s a. a),
    )
