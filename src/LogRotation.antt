-- ===== src/LogRotation.antt =====
-- centroid-hmi/windows/runner/log_rotation.h and log_rotation.cpp: the plan of a log rotation. A path
-- is a list of bytes, `std::to_string` of a generation a parameter, and an `int` a number, since the
-- source treats a negative one as 0.
pub mod Names
pub mod Files
mod Tests
use centroid_x.Common.{
  ℕ, zero, suc, ◌+◌, Bool, true, false, ◌||◌, List, [], ◌∷◌, ◌++◌, Option, none, some, take, drop,
  ltb, ◌==◌, if◌then◌else◌,
}

abbrev pub is_separator : ℕ → Bool
is_separator c = c == b'/' || c == b'\\'

abbrev is_dot : ℕ → Bool
is_dot c = c == b'.'

-- `find_last_of`, for a set of bytes given by a test.
unfoldable pub find_last : (ℕ → Bool) → List ℕ → Option ℕ
find_last p [] = none
find_last p (c ∷ cs) = elim (find_last p cs) [
  | some i ↦ some (suc i)
  | none ↦ if p c then some 0 else none
]

unfoldable pub extension_dot : List ℕ → Option ℕ
unfolding find_last
extension_dot path = elim (find_last is_dot path) [
  | none ↦ none
  | some dot ↦ elim (find_last is_separator path) [
    | none ↦ some dot
    | some slash ↦ if ltb dot slash then none else some dot
  ]
]

pub record LogRotationPlan : Type 0 where
  pub deletes : List (List ℕ)
  pub renames : List (List ℕ × List ℕ)

module _ (to_string : ℕ → List ℕ) (base : List ℕ) where
  -- The suffix goes before the extension.
  unfoldable pub insert : List ℕ → Option ℕ → List ℕ
  insert suffix none = base ++ suffix
  insert suffix (some dot) = take dot base ++ (suffix ++ drop dot base)

  unfoldable pub generation_path : ℕ → List ℕ
  generation_path zero = base
  generation_path (suc n) = insert (b'.' ∷ to_string (suc n)) (extension_dot base)

  -- The loop of PlanRotation, from the generation below the given one down to the live file.
  unfoldable pub renames_below : ℕ → List (List ℕ × List ℕ)
  renames_below zero = []
  renames_below (suc generation) =
      (generation_path generation, generation_path (suc generation)) ∷ renames_below generation

  unfoldable pub plan_rotation : ℕ → LogRotationPlan
  plan_rotation zero = record { deletes = base ∷ []; renames = [] }
  plan_rotation (suc n) = record {
    deletes = generation_path (suc n) ∷ [];
    renames = renames_below (suc n);
  }
