-- ===== src/LogRotation/Names.antt =====
-- Different generations have different names.
use centroid_x.Common.{
  ℕ, zero, suc, ◌+◌, ◌≡◌, refl, ap, List, [], ◌∷◌, ◌++◌, Option, none, some, take, drop, length,
  length-append, length-take-drop, arith,
}
use mathlib.Core.List.{append_cancel_left, append_cancel_right}
use centroid_x.LogRotation.{extension_dot, insert, generation_path}

module _ (to_string : ℕ → List ℕ) (base : List ℕ) where
  length-insert :
      (suffix : List ℕ) (dot : Option ℕ)
      → length (insert to_string base suffix dot) ≡ length base + length suffix
  unfolding insert
  length-insert suffix none = length-append base suffix
  length-insert suffix (some dot) = omega (
    arith,
    length-append (take dot base) (suffix ++ drop dot base),
    length-append suffix (drop dot base),
    length-take-drop dot base,
  )

  insert_inj :
      (s t : List ℕ) (dot : Option ℕ)
      → insert to_string base s dot ≡ insert to_string base t dot
      → s ≡ t
  unfolding insert
  insert_inj s t none e = append_cancel_left base s t e
  insert_inj s t (some dot) e =
      append_cancel_right s t (drop dot base)
        (append_cancel_left (take dot base) (s ++ drop dot base) (t ++ drop dot base) e)

  -- Generations whose numbers print differently have different paths.
  pub generation_path_inj :
      (i j : ℕ)
      → ((m n : ℕ) → to_string m ≡ to_string n → m ≡ n)
      → generation_path to_string base i ≡ generation_path to_string base j
      → i ≡ j
  unfolding generation_path
  generation_path_inj zero zero inj e = refl
  generation_path_inj zero (suc j) inj e =
      omega (arith, ap length e, length-insert (b'.' ∷ to_string (suc j)) (extension_dot base))
  generation_path_inj (suc i) zero inj e =
      omega (arith, ap length e, length-insert (b'.' ∷ to_string (suc i)) (extension_dot base))
  generation_path_inj (suc i) (suc j) inj e =
      let same =
        insert_inj (b'.' ∷ to_string (suc i)) (b'.' ∷ to_string (suc j)) (extension_dot base) e in
      inj (suc i) (suc j)
        (append_cancel_left (b'.' ∷ []) (to_string (suc i)) (to_string (suc j)) same)
