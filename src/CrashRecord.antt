-- ===== src/CrashRecord.antt =====
-- centroid-hmi/windows/runner/crash_record.h and crash_record.cpp: CleanTypeName, which turns the name
-- that MSVC gives a type into the one that the source has. A text is its bytes before the NUL.
pub mod RoundTrip
pub mod Bounds
mod Tests
use centroid_x.Common.{
  ℕ, zero, suc, ◌+◌, Bool, false, ◌&&◌, ◌||◌, List, [], ◌∷◌, ◌++◌, Option, none, some, length, ltb,
  ◌==◌, if◌then◌else◌,
}
use centroid_x.CefCache.{is_empty}
use centroid_x.CString.{codes}

-- The test of the first four bytes, and what comes after them.
unfoldable pub body_of : List ℕ → Option (List ℕ)
body_of (a ∷ b ∷ c ∷ d ∷ body) =
    if a == b'.' && (b == b'?' && (c == b'A' && (d == b'V' || d == b'U'))) then some body else none
body_of _ = none

abbrev put : ℕ → Option (List ℕ) → Option (List ℕ)
put c none = none
put c (some cs) = some (c ∷ cs)

-- The test of the last two bytes, and what comes before them.
unfoldable pub scopes_of : List ℕ → Option (List ℕ)
scopes_of [] = none
scopes_of (c ∷ []) = none
scopes_of (c ∷ d ∷ []) = if c == b'@' && d == b'@' then some [] else none
scopes_of (c ∷ d ∷ e ∷ cs) = put c (scopes_of (d ∷ e ∷ cs))

-- The loop that looks for a template or an operator.
unfoldable pub has_question_mark : List ℕ → Bool
has_question_mark [] = false
has_question_mark (c ∷ cs) = c == b'?' || has_question_mark cs

-- What comes before the last '@', when there is one, and what comes after it.
unfoldable pub last_part : List ℕ → Option (List ℕ) × List ℕ
last_part [] = (none, [])
last_part (c ∷ cs) =
    let (before, part) = last_part cs in
    elim before [
      | some rest ↦ (some (c ∷ rest), part)
      | none ↦ if c == b'@' then (some [], part) else (none, c ∷ part)
    ]

abbrev or_empty : Option (List ℕ) → List ℕ
or_empty none = []
or_empty (some cs) = cs

unfoldable pub append_part : List ℕ → List ℕ → List ℕ
append_part out part = if is_empty out then part else out ++ (codes "::" ++ part)

-- The loop over the parts, from the last. A part that is empty, or that does not fit, gives the name
-- up.
unfoldable pub append_parts : ℕ → ℕ → List ℕ → List ℕ → Option (List ℕ)
unfolding last_part append_part
append_parts out_len fuel [] out = some out
append_parts out_len zero (c ∷ cs) out = none
append_parts out_len (suc fuel) (c ∷ cs) out =
    let (before, part) = last_part (c ∷ cs) in
    let out' = append_part out part in
    let rest = append_parts out_len fuel (or_empty before) out' in
    if is_empty part then none else if ltb out_len (length out' + 1) then none else rest

-- A name that is given up, and one that is empty, leave the raw one in place.
abbrev written : Option (List ℕ) → Option (List ℕ)
written none = none
written (some []) = none
written (some (c ∷ cs)) = some (c ∷ cs)

-- None stands for the pointer that was given, and some text for what is written to the buffer.
unfoldable pub clean_type_name : ℕ → Option (List ℕ) → Option (List ℕ)
unfolding body_of scopes_of has_question_mark append_parts
clean_type_name out_len none = none
clean_type_name out_len (some raw) = if out_len == 0 then none else elim (body_of raw) [
  | none ↦ none
  | some body ↦ elim (scopes_of body) [
    | none ↦ none
    | some scopes ↦
        if has_question_mark scopes
        then none
        else written (append_parts out_len (length scopes) scopes [])
  ]
]
