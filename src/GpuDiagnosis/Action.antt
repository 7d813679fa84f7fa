-- ===== src/GpuDiagnosis/Action.antt =====
-- ParseLossAction and DescribeLossAction of gpu_diagnosis.cpp.
use centroid_x.Common.{ℕ, ◌≡◌, refl, ◌||◌, List, [], ◌∷◌, Option, none, some, if◌then◌else◌}
use mathlib.Core.List.{map}
use centroid_x.CString.{codes, to_lower, equals_ignore_case, equals_ignore_case_congr}
use centroid_x.GpuDiagnosis.{LossAction}

unfoldable pub parse_loss_action : Option (List ℕ) → LossAction → LossAction
parse_loss_action none fallback = fallback
parse_loss_action (some []) fallback = fallback
parse_loss_action (some (c ∷ cs)) fallback =
    if equals_ignore_case (c ∷ cs) (codes "exit") || equals_ignore_case (c ∷ cs) (codes "quit")
    then LossAction.exit_process
    else if equals_ignore_case (c ∷ cs) (codes "restart")
    then LossAction.restart_engine
    else if equals_ignore_case (c ∷ cs) (codes "log") || equals_ignore_case (c ∷ cs) (codes "none")
    then LossAction.log_only
    else fallback

-- The case of the letters of CENTROID_GPU_ON_LOSS does not matter: two values with the same
-- lower-case form select the same action, whatever the fallback.
pub parse_loss_action_congr :
    (xs ys : List ℕ) (fallback : LossAction)
    → map to_lower xs ≡ map to_lower ys
    → parse_loss_action (some xs) fallback ≡ parse_loss_action (some ys) fallback
unfolding parse_loss_action
parse_loss_action_congr [] [] fallback e = refl
parse_loss_action_congr [] (y ∷ ys) fallback e = cc
parse_loss_action_congr (x ∷ xs) [] fallback e = cc
parse_loss_action_congr (x ∷ xs) (y ∷ ys) fallback e =
    let same = equals_ignore_case_congr (x ∷ xs) (y ∷ ys) in
    rw
      (
        same (codes "exit") e,
        same (codes "quit") e,
        same (codes "restart") e,
        same (codes "log") e,
        same (codes "none") e,
      )
      refl
