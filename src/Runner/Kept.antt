-- ===== src/Runner/Kept.antt =====
-- The log of the run before, through a start that logs to a file.
use centroid_x.Common.{
  ℕ, zero, suc, ◌<◌, ◌≡◌, refl, ap, ◌∙◌, inl, inr, Bool, true, false, List, [], ◌∷◌, ◌++◌, Option,
  some, if◌then◌else◌, ltb, ltb→lt, Bool-cases, arith,
}
use centroid_x.CefCache.{is_empty}
use centroid_x.LogRotation.{generation_path, renames_below, plan_rotation}
use centroid_x.LogRotation.Files.{
  same_path, apart, remove, rename, remove-other, rename-other, rename-some,
}
use centroid_x.Runner.{World, Effect, deleted, renamed, truncated, handlers_installed}
use centroid_x.Runner.Target.{max_archives, directory_of}
use centroid_x.Runner.Redirect.{
  redirect_plain, redirect_tee, redirect_io_to_file, rotate_logs, delete_files, rename_files,
}
use centroid_x.Runner.Main.{log_to_file, tell_dart}

-- What an effect does to the files, whose contents are bytes.
unfoldable pub carry_one : Effect → (List ℕ → Option (List ℕ)) → List ℕ → Option (List ℕ)
unfolding same_path
carry_one (deleted path) files = remove path files
carry_one (renamed old new) files = rename old new files
carry_one (truncated path) files = λ p. if same_path p path then some [] else files p
carry_one _ files = files

unfoldable pub carry_all : List Effect → (List ℕ → Option (List ℕ)) → List ℕ → Option (List ℕ)
unfolding carry_one
carry_all [] files = files
carry_all (e ∷ es) files = carry_all es (carry_one e files)

carry_all-append :
    (xs ys : List Effect) (files : List ℕ → Option (List ℕ))
    → carry_all (xs ++ ys) files ≡ carry_all ys (carry_all xs files)
unfolding carry_all
carry_all-append [] ys files = refl
carry_all-append (x ∷ xs) ys files = carry_all-append xs ys (carry_one x files)

module _ (w : World) where
  -- What is not the path of a deletion is left alone, whichever of the deletions succeed.
  deleted-other :
      (path p : List ℕ) (files : List ℕ → Option (List ℕ))
      → same_path p path ≡ false
      → carry_all (delete_files w (path ∷ [])) files p ≡ files p
  unfolding carry_all carry_one delete_files
  deleted-other path p files apart = elim (Bool-cases (w.deletes path)) [
    | inl e ↦ rw e (remove-other path p files apart)
    | inr e ↦ rw e refl
  ]

  -- One rename, and the files after it.
  after_rename :
      (old new : List ℕ) (renames : List (List ℕ × List ℕ)) (files : List ℕ → Option (List ℕ))
      → carry_all (rename_files w ((old, new) ∷ renames)) files
        ≡ carry_all
            (rename_files w renames)
            (if w.moves old new then rename old new files else files)
  unfolding carry_all carry_one rename_files
  after_rename old new renames files = elim (Bool-cases (w.moves old new)) [
    | inl e ↦ rw e refl
    | inr e ↦ rw e refl
  ]

  renamed-other :
      (old new p : List ℕ) (files : List ℕ → Option (List ℕ))
      → same_path p new ≡ false
      → same_path p old ≡ false
      → (if w.moves old new then rename old new files else files) p ≡ files p
  renamed-other old new p files a b = elim (Bool-cases (w.moves old new)) [
    | inl e ↦ rw e (rename-other old new p files a b)
    | inr e ↦ rw e refl
  ]

module _ (w : World) (base : List ℕ) (inj : (a b : ℕ) → w.decimal a ≡ w.decimal b → a ≡ b) where
  renames-above :
      (n k : ℕ) (files : List ℕ → Option (List ℕ))
      → n < k
      → carry_all
          (rename_files w (renames_below w.decimal base n))
          files
          (generation_path w.decimal base k)
        ≡ files (generation_path w.decimal base k)
  unfolding renames_below carry_all rename_files
  renames-above zero k files l = refl
  renames-above (suc g) k files l =
      let path = generation_path w.decimal base in
      ap (λ (f : List ℕ → Option (List ℕ)). f (path k))
        (after_rename w (path g) (path (suc g)) (renames_below w.decimal base g) files)
      ∙ (renames-above g k _ (omega arith)
          ∙ renamed-other w (path g) (path (suc g)) (path k) files
              (apart w.decimal base inj k (suc g) (λ e. omega arith))
              (apart w.decimal base inj k g (λ e. omega arith)))

  -- A file whose own move succeeds is moved, whichever of the other moves succeed.
  renames-keep :
      (n j : ℕ) (files : List ℕ → Option (List ℕ)) {content : List ℕ}
      → j < n
      → w.moves (generation_path w.decimal base j) (generation_path w.decimal base (suc j)) ≡ true
      → files (generation_path w.decimal base j) ≡ some content
      → carry_all
          (rename_files w (renames_below w.decimal base n))
          files
          (generation_path w.decimal base (suc j))
        ≡ some content
  unfolding renames_below
  renames-keep zero j files l m c = absurd (omega arith)
  renames-keep (suc g) j files l m c =
      let path = generation_path w.decimal base in
      ap (λ (f : List ℕ → Option (List ℕ)). f (path (suc j)))
        (after_rename w (path g) (path (suc g)) (renames_below w.decimal base g) files)
      ∙ elim (Bool-cases (ltb j g)) [
        | inl below ↦
            let under = ltb→lt j g below in
            renames-keep g j _ under m (
              renamed-other w (path g) (path (suc g)) (path j) files
                (apart w.decimal base inj j (suc g) (λ e. omega arith))
                (apart w.decimal base inj j g (λ e. omega arith))
              ∙ c)
        | inr top ↦
            let same : g ≡ j = ground arith in
            rw same (
              renames-above j (suc j) _ (omega arith)
              ∙ rw m (rename-some (path j) (path (suc j)) files c))
      ]

  rotate_logs-keeps :
      (n j : ℕ) (files : List ℕ → Option (List ℕ)) {content : List ℕ}
      → is_empty base ≡ false
      → j < suc n
      → w.moves (generation_path w.decimal base j) (generation_path w.decimal base (suc j)) ≡ true
      → files (generation_path w.decimal base j) ≡ some content
      → carry_all (rotate_logs w base (suc n)) files (generation_path w.decimal base (suc j))
        ≡ some content
  unfolding rotate_logs plan_rotation
  rotate_logs-keeps n j files e l m c =
      let path = generation_path w.decimal base in
      let deletes = delete_files w (path (suc n) ∷ []) in
      let renames = rename_files w (renames_below w.decimal base (suc n)) in
      rw e (
        ap (λ (f : List ℕ → Option (List ℕ)). f (path (suc j)))
          (carry_all-append deletes renames files)
        ∙ renames-keep (suc n) j (carry_all deletes files) l m (
            deleted-other w (path (suc n)) (path j) files
              (apart w.decimal base inj j (suc n) (λ q. omega arith))
            ∙ c))

module _ (w : World) (path p : List ℕ) (other : same_path p path ≡ false) where
  plain-untouched :
      (files : List ℕ → Option (List ℕ)) → carry_all (redirect_plain w).1 files p ≡ files p
  unfolding carry_all carry_one redirect_plain
  plain-untouched files = ground arith

  tee-untouched :
      (files : List ℕ → Option (List ℕ)) → carry_all (redirect_tee w).1 files p ≡ files p
  unfolding carry_all carry_one redirect_tee
  tee-untouched files = ground (arith, plain-untouched files)

  truncated-untouched :
      (files : List ℕ → Option (List ℕ)) → carry_one (truncated path) files p ≡ files p
  unfolding carry_one
  truncated-untouched files = ground (arith, other)

  -- Opening the log, and what follows it, leaves every other path alone.
  redirect-untouched :
      (files : List ℕ → Option (List ℕ))
      → carry_all (redirect_io_to_file w path).1 files p ≡ files p
  unfolding carry_all redirect_io_to_file
  redirect-untouched files =
      let opened = carry_one (truncated path) files in
      ground (arith, plain-untouched opened, tee-untouched opened, truncated-untouched files)

told-untouched :
    (follows : Bool) (directory path : List ℕ) (files : List ℕ → Option (List ℕ))
    → carry_all (tell_dart follows path ++ (handlers_installed directory path ∷ [])) files ≡ files
unfolding carry_all carry_one
told-untouched true directory path files = refl
told-untouched false directory path files = refl

-- When different numbers print differently, the log has a path, and n + 1 archives are kept: after a
-- start that logs to a file, a file of a generation below the last, the live log of the run before
-- first, is found at the next path with the content that it had, provided that the move of this file
-- succeeds. It does not matter which of the other deletions and moves fail, nor whether the new log can
-- be opened.
pub log_to_file-keeps :
    (w : World) (path : List ℕ) (n j : ℕ) (files : List ℕ → Option (List ℕ)) (content : List ℕ)
    → ((a b : ℕ) → w.decimal a ≡ w.decimal b → a ≡ b)
    → is_empty path ≡ false
    → max_archives w ≡ suc n
    → j < suc n
    → w.moves (generation_path w.decimal path j) (generation_path w.decimal path (suc j)) ≡ true
    → files (generation_path w.decimal path j) ≡ some content
    → carry_all (log_to_file w path) files (generation_path w.decimal path (suc j)) ≡ some content
unfolding log_to_file generation_path
log_to_file-keeps w path n j files content inj e m l moves there =
    let target = generation_path w.decimal path (suc j) in
    let rotated = carry_all (rotate_logs w path (max_archives w)) files in
    let (follows, effects) = redirect_io_to_file w path in
    let rest = tell_dart follows path ++ (handlers_installed (directory_of path) path ∷ []) in
    let at_target = λ (f : List ℕ → Option (List ℕ)). f target in
    ap at_target (carry_all-append (rotate_logs w path (max_archives w)) (effects ++ rest) files)
    ∙ (ap at_target (carry_all-append effects rest rotated)
        ∙ (ap at_target
              (told-untouched follows (directory_of path) path (carry_all effects rotated))
            ∙ (redirect-untouched w path target
                  (apart w.decimal path inj (suc j) 0 (λ q. omega arith)) rotated
                ∙ (ap (λ (k : ℕ). carry_all (rotate_logs w path k) files target) m
                    ∙ rotate_logs-keeps w path inj n j files e l moves there))))
