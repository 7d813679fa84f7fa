-- ===== src/Runner/Target.antt =====
-- ChooseOutputTarget of output_target.cpp, the helpers of path_utils.cpp, DefaultLogPath of utils.cpp, and
-- what wWinMain reads from the environment.
use centroid_x.Common.{
  ℕ, ◌-◌, Bool, false, not, ◌||◌, List, [], ◌++◌, Option, none, some, take, if◌then◌else◌,
}
use centroid_x.Common.Int.{ℤ, pos, negsuc}
use centroid_x.CString.{codes}
use centroid_x.LogRotation.{is_separator, find_last}
use centroid_x.CefCache.{is_empty}
use centroid_x.CefCache.Sweep.{same_bytes}
use centroid_x.Runner.{World}

pub data OutputTarget : Type 0 where
  inherited file : OutputTarget

pub record Inputs : Type 0 where
  pub explicit_log_file : Bool
  pub console_requested : Bool
  pub stdout_connected : Bool

unfoldable pub choose_output_target : Inputs → OutputTarget
choose_output_target inputs =
    if inputs.stdout_connected
    then inherited
    else if inputs.console_requested
    then inherited
    else if inputs.explicit_log_file
    then file
    else file

unfoldable pub directory_of : List ℕ → List ℕ
unfolding find_last
directory_of path = elim (find_last is_separator path) [ none ↦ [] | some slash ↦ take slash path ]

unfoldable pub utf8_length_without_nul : ℤ → ℕ
utf8_length_without_nul (pos n) = n - 1
utf8_length_without_nul (negsuc n) = 0

-- `env != nullptr && env[0] != '\0'`.
abbrev pub is_set : Option (List ℕ) → Bool
is_set none = false
is_set (some value) = not (is_empty value)

abbrev pub text_of : Option (List ℕ) → List ℕ
text_of none = []
text_of (some value) = value

unfoldable pub debug_mode : World → Bool
unfolding same_bytes
debug_mode w = elim w.debug_env [
  | none ↦ false
  | some value ↦ same_bytes value (codes "1") || same_bytes value (codes "true")
]

abbrev pub natural_or : ℤ → ℕ → ℕ
natural_or (pos n) fallback = n
natural_or (negsuc n) fallback = fallback

unfoldable pub max_archives : World → ℕ
max_archives w = if is_set w.archives_env then natural_or (w.atoi (text_of w.archives_env)) 5 else 5

-- DefaultLogPath, after it has made the two directories.
unfoldable pub default_log_path : World → List ℕ
default_log_path w = elim w.local_app_data [
  | none ↦ []
  | some directory ↦
      if w.logs_directory then directory ++ codes "\\centroid-hmi\\logs\\hmi.log" else []
]

unfoldable pub log_path : World → List ℕ
unfolding default_log_path
log_path w = if is_set w.log_file_env then text_of w.log_file_env else default_log_path w

unfoldable pub output_target : World → OutputTarget
unfolding choose_output_target debug_mode
output_target w = choose_output_target (record {
  explicit_log_file = is_set w.log_file_env;
  console_requested = debug_mode w;
  stdout_connected = w.stdout_connected;
})
