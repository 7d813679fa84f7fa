-- ===== src/GpuWatchdog/Environment.antt =====
-- ParseWatchdogEnabled and ParseProbeIntervalMs of gpu_watchdog.cpp.
use centroid_x.Common.{
  ℕ, ◌^◌, ◌≤◌, ◌<◌, ◌≡◌, refl, ◌⊎◌, inl, inr, Bool, true, false, ◌||◌, List, [], ◌∷◌, Option, none,
  some, ltb, ◌==◌, if◌then◌else◌, arith, length, u32, Bool-cases,
}
use mathlib.Core.List.{map}
use centroid_x.Common.Int.{ℤ, pos, negsuc}
use centroid_x.CString.{codes, to_lower, equals_ignore_case, equals_ignore_case_congr}

-- The loops over the two tables of words.
unfoldable pub is_one_of : List (List ℕ) → List ℕ → Bool
is_one_of [] raw = false
is_one_of (candidate ∷ rest) raw =
    let later = is_one_of rest raw in if equals_ignore_case raw candidate then true else later

abbrev pub falsy : List (List ℕ)
falsy = codes "0" ∷ codes "false" ∷ codes "no" ∷ codes "off" ∷ []

abbrev pub truthy : List (List ℕ)
truthy = codes "1" ∷ codes "true" ∷ codes "yes" ∷ codes "on" ∷ []

unfoldable pub parse_watchdog_enabled : Option (List ℕ) → Bool → Bool
parse_watchdog_enabled none fallback = fallback
parse_watchdog_enabled (some []) fallback = fallback
parse_watchdog_enabled (some (c ∷ cs)) fallback =
    if is_one_of falsy (c ∷ cs) then false else if is_one_of truthy (c ∷ cs) then true else fallback

abbrev pub min_probe_interval_ms : ℕ
min_probe_interval_ms = 1000

-- `strtol` of the C library, in base 10: the value, and how many bytes it read.
abbrev pub Strtol : Type 0
Strtol = List ℕ → ℤ × ℕ

-- The tests on what `strtol` read. A `long` below zero is below the floor.
accept_interval : ℤ × ℕ → ℕ → ℕ → ℕ
accept_interval (negsuc n, consumed) len fallback = fallback
accept_interval (pos n, consumed) len fallback =
    if consumed == 0 || ltb consumed len
    then fallback
    else if ltb n min_probe_interval_ms
    then fallback
    else u32 n

unfoldable pub parse_probe_interval_ms : Strtol → Option (List ℕ) → ℕ → ℕ
unfolding accept_interval
parse_probe_interval_ms strtol none fallback = fallback
parse_probe_interval_ms strtol (some []) fallback = fallback
parse_probe_interval_ms strtol (some (c ∷ cs)) fallback =
    accept_interval (strtol (c ∷ cs)) (length (c ∷ cs)) fallback

is_one_of_congr :
    (words : List (List ℕ)) (xs ys : List ℕ)
    → map to_lower xs ≡ map to_lower ys
    → is_one_of words xs ≡ is_one_of words ys
unfolding is_one_of
is_one_of_congr [] xs ys e = refl
is_one_of_congr (w ∷ words) xs ys e =
    ground (arith, equals_ignore_case_congr xs ys w e, is_one_of_congr words xs ys e)

-- The case of the letters of CENTROID_GPU_WATCHDOG does not matter.
pub parse_watchdog_enabled_congr :
    (xs ys : List ℕ) (fallback : Bool)
    → map to_lower xs ≡ map to_lower ys
    → parse_watchdog_enabled (some xs) fallback ≡ parse_watchdog_enabled (some ys) fallback
unfolding parse_watchdog_enabled
parse_watchdog_enabled_congr [] [] fallback e = refl
parse_watchdog_enabled_congr [] (y ∷ ys) fallback e = cc
parse_watchdog_enabled_congr (x ∷ xs) [] fallback e = cc
parse_watchdog_enabled_congr (x ∷ xs) (y ∷ ys) fallback e =
    ground
      (arith, is_one_of_congr falsy (x ∷ xs) (y ∷ ys) e, is_one_of_congr truthy (x ∷ xs) (y ∷ ys) e)

accept_interval_cases :
    (v : ℤ) (consumed len fallback : ℕ)
    → ((n : ℕ) → v ≡ pos n → n < 2 ^ 31)
    → (accept_interval (v, consumed) len fallback ≡ fallback)
      ⊎ ((n : ℕ) × (v ≡ pos n)
          × (0 < consumed)
          × (len ≤ consumed)
          × (1000 ≤ n)
          × (accept_interval (v, consumed) len fallback ≡ n))
unfolding accept_interval
accept_interval_cases (negsuc n) consumed len fallback range = inl refl
accept_interval_cases (pos n) consumed len fallback range =
    elim (Bool-cases (consumed == 0 || ltb consumed len)) [
      | inl bad ↦ inl (ground arith)
      | inr whole ↦ elim (Bool-cases (ltb n 1000)) [
        | inl low ↦ inl (ground arith)
        | inr high ↦
            inr (n, refl, ground arith, ground arith, ground arith, ground (arith, range n refl))
      ]
    ]

-- CENTROID_GPU_WATCHDOG_INTERVAL_MS is taken only as a whole: the result is the fallback, or it is
-- the number that `strtol` read from the entire non-empty text, unchanged, and at least a second.
-- The hypothesis is the range of a 32-bit `long`.
pub parse_probe_interval_ms_cases :
    (strtol : Strtol) (raw : Option (List ℕ)) (fallback : ℕ)
    → ((text : List ℕ) (n : ℕ) → (strtol text).0 ≡ pos n → n < 2 ^ 31)
    → (parse_probe_interval_ms strtol raw fallback ≡ fallback)
      ⊎ ((text : List ℕ) × (n : ℕ) × (raw ≡ some text)
          × ((strtol text).0 ≡ pos n)
          × (0 < (strtol text).1)
          × (length text ≤ (strtol text).1)
          × (1000 ≤ n)
          × (parse_probe_interval_ms strtol raw fallback ≡ n))
unfolding parse_probe_interval_ms
parse_probe_interval_ms_cases strtol none fallback range = inl refl
parse_probe_interval_ms_cases strtol (some []) fallback range = inl refl
parse_probe_interval_ms_cases strtol (some (c ∷ cs)) fallback range =
    elim (accept_interval_cases (strtol (c ∷ cs)).0 (strtol (c ∷ cs)).1 (length (c ∷ cs)) fallback
      (range (c ∷ cs))) [
        | inl e ↦ inl e
        | inr (n, v, some_read, all_read, floor, e) ↦
            inr (c ∷ cs, n, refl, v, some_read, all_read, floor, e)
      ]
