-- ===== src/LogRotation/Files.antt =====
-- What a removal and a rename do to the files, and the paths of a plan, of which no two are the same.
use centroid_x.Common.{
  ℕ, ◌≡◌, ◌≢◌, refl, Bool, true, false, ◌&&◌, List, [], ◌∷◌, Option, none, some, arith, ◌==◌,
  if◌then◌else◌, Option-cases,
}
use centroid_x.LogRotation.Names.{generation_path_inj}
use centroid_x.LogRotation.{generation_path}

unfoldable pub same_path : List ℕ → List ℕ → Bool
same_path [] [] = true
same_path [] (y ∷ ys) = false
same_path (x ∷ xs) [] = false
same_path (x ∷ xs) (y ∷ ys) = x == y && same_path xs ys

pub same_path_refl : (p : List ℕ) → same_path p p ≡ true
unfolding same_path
same_path_refl [] = refl
same_path_refl (x ∷ xs) = ground (arith, same_path_refl xs)

same_path_sound : (p q : List ℕ) → same_path p q ≡ true → p ≡ q
unfolding same_path
same_path_sound [] [] h = refl
same_path_sound [] (y ∷ ys) h = cc
same_path_sound (x ∷ xs) [] h = cc
same_path_sound (x ∷ xs) (y ∷ ys) h = ground (arith, same_path_sound xs ys)

module _ {ℓ} {C : Type ℓ} where
  -- Files by path, removed and renamed as an operating system does: a file that is not there is left
  -- alone, and one at the new path is replaced.
  unfoldable pub remove : List ℕ → (List ℕ → Option C) → List ℕ → Option C
  unfolding same_path
  remove path files p = if same_path p path then none else files p

  unfoldable pub rename : List ℕ → List ℕ → (List ℕ → Option C) → List ℕ → Option C
  unfolding same_path
  rename old new files p = elim (files old) [
    | none ↦ files p
    | some content ↦
        if same_path p new then some content else if same_path p old then none else files p
  ]

  pub remove-other :
      (path p : List ℕ) (files : List ℕ → Option C)
      → same_path p path ≡ false
      → remove path files p ≡ files p
  unfolding remove
  remove-other path p files h = rw h refl

  pub rename-some :
      (old new : List ℕ) (files : List ℕ → Option C) {content : C}
      → files old ≡ some content
      → rename old new files new ≡ some content
  unfolding rename
  rename-some old new files h = ground (arith, same_path_refl new, h)

  pub rename-other :
      (old new p : List ℕ) (files : List ℕ → Option C)
      → same_path p new ≡ false
      → same_path p old ≡ false
      → rename old new files p ≡ files p
  unfolding rename
  rename-other old new p files h k = ground (arith, Option-cases (files old))

pub apart :
    (to_string : ℕ → List ℕ) (base : List ℕ)
    → ((m n : ℕ) → to_string m ≡ to_string n → m ≡ n)
    → (i j : ℕ) → i ≢ j
    → same_path (generation_path to_string base i) (generation_path to_string base j) ≡ false
apart to_string base inj i j h = ground (
  arith,
  same_path_sound (generation_path to_string base i) (generation_path to_string base j),
  generation_path_inj to_string base i j inj,
)
