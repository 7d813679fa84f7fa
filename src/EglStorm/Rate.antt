-- ===== src/EglStorm/Rate.antt =====
-- How many lines a storm takes, and how often it is declared.
use centroid_x.Common.{
  ℕ, suc, ◌+◌, ◌-◌, ◌*◌, ◌^◌, ◌≤◌, ◌<◌, ◌≡◌, refl, sym, ap, ◌∙◌, Bool, true, false, List, [], ◌∷◌,
  ◌++◌, length, replicate, arith,
}
use centroid_x.EglStorm.{Config, Detector, new, line_matches, count_match, on_line}

-- A line with the clock reading at which it is fed.
abbrev pub Line : Type 0
Line = ℕ × List ℕ

unfoldable pub feed : Detector → List Line → Detector × List Bool
feed d [] = (d, [])
feed d ((now, line) ∷ lines) =
    let (d', fired) = on_line d line now in let (d'', later) = feed d' lines in (d'', fired ∷ later)

abbrev pub one_if : Bool → ℕ
one_if true = 1
one_if false = 0

abbrev pub fires : List Bool → ℕ
fires [] = 0
fires (b ∷ bs) = one_if b + fires bs

abbrev pub matching : List Line → ℕ
matching [] = 0
matching ((now, line) ∷ lines) = one_if (line_matches line) + matching lines

-- Clock readings that do not run back, from one reading to another.
abbrev pub Ordered : ℕ → List Line → ℕ → Type 0
Ordered from [] to = from ≤ to
Ordered from ((now, line) ∷ lines) to = (from ≤ now) × (now ≤ to) × Ordered now lines to

record Charged (min : ℕ) (d : Detector) (line : List ℕ) (now : ℕ) (r : Detector × Bool)
    : Type 0 where
  same_config : r.0.config ≡ d.config
  below : r.0.matches < min
  paid : min * one_if r.1 + r.0.matches ≤ one_if (line_matches line) + d.matches

on_line-Charged :
    (min : ℕ) (d : Detector) (line : List ℕ) (now : ℕ)
    → min ≡ d.config.min_matches
    → 0 < min
    → min < 2 ^ 32
    → d.matches < min
    → Charged min d line now (on_line d line now)
unfolding on_line count_match
on_line-Charged min d line now e k r h = ground arith

feed-Charged :
    (min : ℕ) (d : Detector) (lines : List Line)
    → min ≡ d.config.min_matches
    → 0 < min
    → min < 2 ^ 32
    → d.matches < min
    → min * fires (feed d lines).1 ≤ matching lines + d.matches
unfolding feed
feed-Charged min d [] e k r h = omega arith
feed-Charged min d ((now, line) ∷ lines) e k r h =
    let c = on_line-Charged min d line now e k r h in
    let rest =
      feed-Charged min (on_line d line now).0 lines
        (e ∙ ap (λ (j : Config). j.min_matches) (sym c.same_config)) k r c.below in
    omega (arith, c.paid, rest)

-- A storm is never declared on less evidence than configured: whatever the times, a detector fires
-- at most once for each `min_matches` lines that carry one of the two errors.
pub fires-le-matching :
    (c : Config) (lines : List Line)
    → 0 < c.min_matches
    → c.min_matches < 2 ^ 32
    → c.min_matches * fires (feed (new c) lines).1 ≤ matching lines
unfolding new
fires-le-matching c lines k r =
    omega (arith, feed-Charged c.min_matches (new c) lines refl k r (omega arith))

record Cooled (cooldown : ℕ) (d : Detector) (now : ℕ) (r : Detector × Bool) : Type 0 where
  same_config : r.0.config ≡ d.config
  spaced : cooldown * one_if r.1 + d.quiet_until_ms ≤ r.0.quiet_until_ms
  bounded : r.0.quiet_until_ms ≤ now + cooldown

on_line-Cooled :
    (cooldown : ℕ) (d : Detector) (line : List ℕ) (now : ℕ)
    → cooldown ≡ d.config.refire_cooldown_ms
    → now + cooldown < 2 ^ 64
    → d.quiet_until_ms ≤ now + cooldown
    → Cooled cooldown d now (on_line d line now)
unfolding on_line count_match
on_line-Cooled cooldown d line now e r h = ground arith

feed-Cooled :
    (cooldown : ℕ) (d : Detector) (from to : ℕ) (lines : List Line)
    → cooldown ≡ d.config.refire_cooldown_ms
    → Ordered from lines to
    → to + cooldown < 2 ^ 64
    → d.quiet_until_ms ≤ from + cooldown
    → cooldown * fires (feed d lines).1 + d.quiet_until_ms ≤ to + cooldown
unfolding feed
feed-Cooled cooldown d from to [] e o r h = omega arith
feed-Cooled cooldown d from to ((now, line) ∷ lines) e o r h =
    let c = on_line-Cooled cooldown d line now e (omega arith) (omega arith) in
    let rest =
      feed-Cooled cooldown (on_line d line now).0 now to lines
        (e ∙ ap (λ (j : Config). j.refire_cooldown_ms) (sym c.same_config)) o.2 r c.bounded in
    omega (arith, c.spaced, rest)

Ordered-le : (from to : ℕ) (lines : List Line) → Ordered from lines to → from ≤ to
Ordered-le from to [] o = o
Ordered-le from to ((now, line) ∷ lines) o = omega arith

-- The platform thread is not woken again and again: from the end of a quiet time on, over clock
-- readings that do not run back and stay below the wrap, the fires times the cooldown do not exceed
-- the time that passes and one cooldown more.
pub fires-cooldown :
    (d : Detector) (to : ℕ) (lines : List Line)
    → Ordered d.quiet_until_ms lines to
    → to + d.config.refire_cooldown_ms < 2 ^ 64
    → d.config.refire_cooldown_ms * fires (feed d lines).1
      ≤ to - d.quiet_until_ms + d.config.refire_cooldown_ms
fires-cooldown d to lines o r = omega (
  arith,
  feed-Cooled d.config.refire_cooldown_ms d d.quiet_until_ms to lines refl o r (omega arith),
  Ordered-le d.quiet_until_ms to lines o,
)

-- Lines that all carry one of the errors.
abbrev pub AllMatch : List Line → Type 0
AllMatch [] = Unit {0}
AllMatch ((now, line) ∷ lines) = (line_matches line ≡ true) × AllMatch lines

-- A detector that has counted some lines of a window, is not quiet and whose window is still open.
record Counting (start from to : ℕ) (d : Detector) : Type 0 where
  loud : d.quiet_until_ms ≤ from
  begun : 0 < d.matches
  opened : d.window_start_ms ≡ start
  earlier : start ≤ from
  in_window : to ≤ start + d.config.window_ms
  in_range : to < 2 ^ 64
  countable : d.config.min_matches < 2 ^ 32

record Counted (start from to : ℕ) (d : Detector) (r : Detector × Bool) : Type 0 where
  same_config : r.0.config ≡ d.config
  still : Counting start from to r.0
  one_more : r.0.matches ≡ suc d.matches
  not_yet : r.1 ≡ false

on_line-Counted :
    (start now to : ℕ) (d : Detector) (line : List ℕ)
    → now ≤ to
    → line_matches line ≡ true
    → suc d.matches < d.config.min_matches
    → Counting start now to d
    → Counted start now to d (on_line d line now)
unfolding on_line count_match
on_line-Counted start now to d line h m under c = ground arith

on_line_last :
    (start now to : ℕ) (d : Detector) (line : List ℕ)
    → now ≤ to
    → line_matches line ≡ true
    → suc d.matches ≡ d.config.min_matches
    → Counting start now to d
    → (on_line d line now).1 ≡ true
unfolding on_line count_match
on_line_last start now to d line h m at c = ground arith

Counting-later :
    (start from now to : ℕ) (d : Detector)
    → from ≤ now
    → Counting start from to d
    → Counting start now to d
Counting-later start from now to d h c = ground arith

-- The answers of a row of lines of which only the last one fires.
abbrev pub last_fires : ℕ → List Bool
last_fires n = replicate n false ++ true ∷ []

feed-Counting :
    (start from to : ℕ) (d : Detector) (now : ℕ) (line : List ℕ) (lines : List Line)
    → Ordered from ((now, line) ∷ lines) to
    → AllMatch ((now, line) ∷ lines)
    → d.matches + suc (length lines) ≡ d.config.min_matches
    → Counting start from to d
    → (feed d ((now, line) ∷ lines)).1 ≡ last_fires (length lines)
unfolding feed
feed-Counting start from to d now line [] o m n c =
    ap (λ (b : Bool). b ∷ [])
      (on_line_last start now to d line o.1 m.0 (omega arith)
        (Counting-later start from now to d o.0 c))
feed-Counting start from to d now line ((now', line') ∷ lines) o m n c =
    let k =
      on_line-Counted start now to d line o.1 m.0 (omega arith)
        (Counting-later start from now to d o.0 c) in
    let rest =
      feed-Counting start now to (on_line d line now).0 now' line' lines o.2 m.1
        (omega (arith, k.one_more, ap (λ (j : Config). j.min_matches) k.same_config)) k.still in
    ground (arith, k, rest)

on_line_first :
    (now to : ℕ) (d : Detector) (line : List ℕ)
    → d.quiet_until_ms ≤ now
    → d.matches ≡ 0
    → 1 < d.config.min_matches
    → d.config.min_matches < 2 ^ 32
    → now ≤ to
    → to ≤ now + d.config.window_ms
    → to < 2 ^ 64
    → line_matches line ≡ true
    → Counted now now to (record d { window_start_ms = now }) (on_line d line now)
unfolding on_line count_match
on_line_first now to d line = ground arith

-- A storm is declared: a detector that is not quiet and has nothing counted fires at the last of
-- exactly `min_matches` lines, at least two, that all carry one of the errors and come in order
-- within one window of the first, and at none before.
pub feed-storm :
    (d : Detector) (now now' to : ℕ) (line line' : List ℕ) (lines : List Line)
    → d.quiet_until_ms ≤ now
    → d.matches ≡ 0
    → d.config.min_matches ≡ suc (suc (length lines))
    → d.config.min_matches < 2 ^ 32
    → to ≤ now + d.config.window_ms
    → to < 2 ^ 64
    → Ordered now ((now, line) ∷ (now', line') ∷ lines) to
    → AllMatch ((now, line) ∷ (now', line') ∷ lines)
    → (feed d ((now, line) ∷ (now', line') ∷ lines)).1 ≡ last_fires (suc (length lines))
unfolding feed
feed-storm d now now' to line line' lines loud none_yet n r w r' o m =
    let k = on_line_first now to d line loud none_yet (omega arith) r (omega arith) w r' m.0 in
    let rest =
      feed-Counting now now to (on_line d line now).0 now' line' lines o.2 m.1
        (omega (arith, k.one_more, none_yet, n, ap (λ (j : Config). j.min_matches) k.same_config))
        k.still in
    ground (arith, k, rest)
