-- ===== src/EglStorm.antt =====
-- centroid-hmi/windows/runner/egl_storm_detector.h and egl_storm_detector.cpp: the class
-- EglStormDetector, which reads the engine's stderr. Text is a list of bytes.
pub mod Search
pub mod Chunks
pub mod Rate
mod Tests
use centroid_x.Common.{
  ℕ, suc, ◌+◌, Bool, true, false, not, ◌&&◌, ◌||◌, List, [], ◌∷◌, ◌++◌, length, ltb, leb, ◌==◌,
  if◌then◌else◌, u32, u64, sub64,
}
use centroid_x.CString.{codes}

abbrev pub needles : List (List ℕ)
needles = codes "EGL Error: Context Lost" ∷ codes "Could not make the context current" ∷ []

-- The inner loop of Contains: the needle against the text at one position.
unfoldable pub matches_at : List ℕ → List ℕ → Bool
matches_at [] hay = true
matches_at (n ∷ needle) [] = false
matches_at (n ∷ needle) (h ∷ hay) = h == n && matches_at needle hay

-- The outer loop of Contains, over what is left of the text.
unfoldable pub contains_from : List ℕ → List ℕ → Bool
contains_from needle [] = false
contains_from needle (h ∷ hay) =
    let rest = contains_from needle hay in
    if leb (length needle) (length (h ∷ hay))
    then (if matches_at needle (h ∷ hay) then true else rest)
    else false

unfoldable pub contains : List ℕ → List ℕ → Bool
contains hay needle =
    if length needle == 0 || ltb (length hay) (length needle)
    then false
    else contains_from needle hay

abbrev pub max_carry_bytes : ℕ
max_carry_bytes = 4096

any_needle : List (List ℕ) → List ℕ → Bool
any_needle [] line = false
any_needle (needle ∷ rest) line =
    let later = any_needle rest line in if contains line needle then true else later

unfoldable pub line_matches : List ℕ → Bool
unfolding any_needle
line_matches line = any_needle needles line

pub record Config : Type 0 where
  pub min_matches : ℕ
  pub window_ms : ℕ
  pub refire_cooldown_ms : ℕ

abbrev pub default_config : Config
default_config = record { min_matches = 10; window_ms = 5000; refire_cooldown_ms = 10000 }

pub record Detector : Type 0 where
  pub config : Config
  pub matches : ℕ
  pub window_start_ms : ℕ
  pub quiet_until_ms : ℕ
  pub carry : List ℕ

unfoldable pub new : Config → Detector
new c = record { config = c; matches = 0; window_start_ms = 0; quiet_until_ms = 0; carry = [] }

-- OnLine, once the line is known to match.
unfoldable pub count_match : Detector → ℕ → Detector × Bool
count_match d now =
    let reset = d.matches == 0 || ltb d.config.window_ms (sub64 now d.window_start_ms) in
    let start = if reset then now else d.window_start_ms in
    let matches = u32 ((if reset then 0 else d.matches) + 1) in
    if leb d.config.min_matches matches
    then (
      record d {
        matches = 0;
        window_start_ms = 0;
        quiet_until_ms = u64 (now + d.config.refire_cooldown_ms);
      },
      true,
    )
    else (record d { matches = matches; window_start_ms = start }, false)

unfoldable pub on_line : Detector → List ℕ → ℕ → Detector × Bool
on_line d line now =
    if ltb now d.quiet_until_ms
    then (d, false)
    else if not (line_matches line)
    then (d, false)
    else count_match d now

-- A newline ends the segment: it is fed alone, or behind the bytes carried over.
unfoldable pub end_line : Detector → List ℕ → ℕ → Detector × Bool
end_line d segment now = elim d.carry [
  | [] ↦ on_line d segment now
  | c ∷ cs ↦
      let (d', fired) =
        on_line (record d { carry = (c ∷ cs) ++ segment }) ((c ∷ cs) ++ segment) now in
      (record d' { carry = [] }, fired)
]

-- The loop of OnBytes: the detector, the bytes since the last newline, and whether it has fired.
unfoldable pub walk : Detector → List ℕ → Bool → List ℕ → ℕ → Detector × List ℕ × Bool
walk d segment fired [] now = (d, segment, fired)
walk d segment fired (b ∷ bs) now = elim (b == b'\n') [
  | true ↦ let (d', line_fired) = end_line d segment now in walk d' [] (fired || line_fired) bs now
  | false ↦ walk d (segment ++ b ∷ []) fired bs now
]

-- The end of OnBytes: the rest is carried over, or fed as it is once it is too long.
unfoldable pub keep_rest : Detector → List ℕ → Bool → ℕ → Detector × Bool
keep_rest d [] fired now = (d, fired)
keep_rest d (s ∷ segment) fired now =
    let carry = d.carry ++ (s ∷ segment) in
    if ltb max_carry_bytes (length carry)
    then (let (d', line_fired) = on_line (record d { carry = carry }) carry now in
        (record d' { carry = [] }, fired || line_fired))
    else (record d { carry = carry }, fired)

unfoldable pub on_bytes : Detector → List ℕ → ℕ → Detector × Bool
on_bytes d bytes now =
    let (d', segment, fired) = walk d [] false bytes now in keep_rest d' segment fired now
