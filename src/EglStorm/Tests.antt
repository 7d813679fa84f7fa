-- ===== src/EglStorm/Tests.antt =====
-- Runs of the storm detector on concrete lines.
use centroid_x.Common.{ℕ, ◌≡◌, refl, ◌≢◌, true, ◌||◌, List, [], ◌∷◌, ◌++◌, arith}
use centroid_x.CString.{codes}
use centroid_x.EglStorm.{
  contains, matches_at, contains_from, line_matches, any_needle, Config, default_config, Detector,
  on_bytes,
}
use centroid_x.EglStorm.Chunks.{on_bytes-append}
use centroid_x.EglStorm.Rate.{Line}

abbrev lost : List ℕ
lost = codes "[ERROR] EGL Error: Context Lost (12302)"

abbrev pair : Config
pair = record default_config { min_matches = 2 }

abbrev calm : Detector
calm = record { config = pair; matches = 0; window_start_ms = 0; quiet_until_ms = 0; carry = [] }

abbrev two : List Line
two = (1000, lost) ∷ (1016, lost) ∷ []

lost-matches : line_matches lost ≡ true
unfolding line_matches any_needle contains contains_from matches_at
lost-matches = refl

on_bytes-append_example : on_bytes calm (codes "EGL Er" ++ codes "ror: Context Lost\n") 5 ≡ (
    let (d', first) = on_bytes calm (codes "EGL Er") 5 in
    let (d'', second) = on_bytes d' (codes "ror: Context Lost\n") 5 in (d'', first || second))
on_bytes-append_example =
    on_bytes-append calm (codes "EGL Er") (codes "ror: Context Lost\n") 5 (omega arith)

lost-not_empty : codes "Lost" ≢ []
lost-not_empty e = cc
