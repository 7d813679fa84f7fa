-- ===== src/Runner/Sidecar.antt =====
-- runner_log.cpp: the runner's own log beside the log file.
use centroid_x.Common.{
  ℕ, suc, Bool, true, false, not, ◌||◌, List, [], ◌∷◌, ◌++◌, Option, none, some, ltb, take,
  if◌then◌else◌,
}
use centroid_x.CString.{codes}
use centroid_x.LogRotation.{is_separator, find_last}
use centroid_x.CefCache.{is_empty}
use centroid_x.Runner.{World, Effect, sidecar_rolled, sidecar_opened}

-- LogHandle and LogPathStorage.
pub record RunnerLog : Type 0 where
  pub opened : Bool
  pub path : List ℕ

abbrev pub no_log : RunnerLog
no_log = record { opened = false; path = [] }

abbrev pub max_sidecar_bytes : ℕ
max_sidecar_bytes = 8388608

unfoldable pub sidecar_path_for : List ℕ → List ℕ
unfolding find_last
sidecar_path_for log_path = elim (find_last is_separator log_path) [
  | none ↦ codes "hmi-runner.log"
  | some slash ↦ take (suc slash) log_path ++ codes "hmi-runner.log"
]

abbrev pub is_full : Option ℕ → Bool
is_full none = false
is_full (some size) = ltb max_sidecar_bytes size

abbrev pub rolled : World → List ℕ → List Effect
rolled w sidecar = if is_full w.sidecar_size then sidecar_rolled sidecar ∷ [] else []

unfoldable pub init_runner_log : World → List ℕ → RunnerLog → RunnerLog × List Effect
unfolding sidecar_path_for
init_runner_log w log_path log =
    let sidecar = sidecar_path_for log_path in
    if log.opened || is_empty log_path
    then (log, [])
    else if not w.sidecar_converts
    then (log, [])
    else if not w.sidecar_opens
    then (log, rolled w sidecar)
    else (
      record { opened = true; path = sidecar },
      rolled w sidecar ++ (sidecar_opened sidecar ∷ []),
    )
