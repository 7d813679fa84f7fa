-- ===== src/CrashRecord/Bounds.antt =====
-- What is written to the buffer fits it, and the loop ends.
use centroid_x.Common.{
  ℕ, zero, suc, ◌+◌, ◌≤◌, ◌<◌, ◌≡◌, refl, Bool, true, false, List, [], ◌∷◌, Option, none, some,
  length, ◌==◌, if◌then◌else◌, arith,
}
use centroid_x.CrashRecord.{
  body_of, scopes_of, has_question_mark, last_part, or_empty, append_part, append_parts, written,
  clean_type_name,
}

append_parts-le :
    (out_len fuel : ℕ) (xs out text : List ℕ)
    → length out + 1 ≤ out_len
    → append_parts out_len fuel xs out ≡ some text
    → length text + 1 ≤ out_len
unfolding append_parts
append_parts-le out_len zero [] out text l e = ground arith
append_parts-le out_len (suc fuel) [] out text l e = ground arith
append_parts-le out_len zero (c ∷ cs) out text l e = cc
append_parts-le out_len (suc fuel) (c ∷ cs) out text l e =
    let split = last_part (c ∷ cs) in
    let out' = append_part out split.1 in
    ground (arith, append_parts-le out_len fuel (or_empty split.0) out' text)

written_cases : (o : Option (List ℕ)) (text : List ℕ) → written o ≡ some text → o ≡ some text
written_cases none text e = cc
written_cases (some []) text e = cc
written_cases (some (c ∷ cs)) text e = e

written-lt : (o : Option (List ℕ)) (text : List ℕ) → written o ≡ some text → 0 < length text
written-lt none text e = cc
written-lt (some []) text e = cc
written-lt (some (c ∷ cs)) text e = ground arith

appended-le :
    (out_len : ℕ) (b : Bool) (scopes text : List ℕ)
    → 1 ≤ out_len
    → (if b then none else written (append_parts out_len (length scopes) scopes [])) ≡ some text
    → (0 < length text) × (length text + 1 ≤ out_len)
appended-le out_len true scopes text l e = cc
appended-le out_len false scopes text l e = (
  written-lt (append_parts out_len (length scopes) scopes []) text e,
  append_parts-le out_len (length scopes) scopes [] text (omega arith)
      (written_cases (append_parts out_len (length scopes) scopes []) text e),
)

scopes-le :
    (out_len : ℕ) (o : Option (List ℕ)) (text : List ℕ)
    → 1 ≤ out_len
    → elim o [
      | none ↦ none
      | some scopes ↦
          if has_question_mark scopes
          then none
          else written (append_parts out_len (length scopes) scopes [])
    ]
      ≡ some text
    → (0 < length text) × (length text + 1 ≤ out_len)
scopes-le out_len none text l e = cc
scopes-le out_len (some scopes) text l e =
    appended-le out_len (has_question_mark scopes) scopes text l e

body-le :
    (out_len : ℕ) (o : Option (List ℕ)) (text : List ℕ)
    → 1 ≤ out_len
    → elim o [
      | none ↦ none
      | some body ↦ elim (scopes_of body) [
        | none ↦ none
        | some scopes ↦
            if has_question_mark scopes
            then none
            else written (append_parts out_len (length scopes) scopes [])
      ]
    ]
      ≡ some text
    → (0 < length text) × (length text + 1 ≤ out_len)
body-le out_len none text l e = cc
body-le out_len (some body) text l e = scopes-le out_len (scopes_of body) text l e

nonzero :
    (n : ℕ) (o : Option (List ℕ)) (text : List ℕ)
    → (if n == 0 then none else o) ≡ some text
    → (1 ≤ n) × (o ≡ some text)
nonzero n o text e = ground arith

-- Whatever the raw name and the buffer are, a name that is written to the buffer is not empty, and it
-- fits with its NUL.
pub clean_type_name-le :
    (out_len : ℕ) (raw : Option (List ℕ)) (text : List ℕ)
    → clean_type_name out_len raw ≡ some text
    → (0 < length text) × (length text + 1 ≤ out_len)
unfolding clean_type_name
clean_type_name-le out_len none text e = cc
clean_type_name-le out_len (some raw) text e =
    let (positive, e') = nonzero out_len _ text e in body-le out_len (body_of raw) text positive e'

last_part-lt : (c : ℕ) (cs : List ℕ) → length (or_empty (last_part (c ∷ cs)).0) < length (c ∷ cs)
unfolding last_part
last_part-lt c [] = ground arith
last_part-lt c (d ∷ ds) = ground (arith, last_part-lt d ds)

-- Fuel for as many rounds as there are bytes is enough: more changes nothing.
append_parts-fuel :
    (out_len fuel : ℕ) (xs out : List ℕ)
    → length xs ≤ fuel
    → append_parts out_len (suc fuel) xs out ≡ append_parts out_len fuel xs out
unfolding append_parts
append_parts-fuel out_len zero [] out l = refl
append_parts-fuel out_len (suc fuel) [] out l = refl
append_parts-fuel out_len zero (c ∷ cs) out l = ground arith
append_parts-fuel out_len (suc fuel) (c ∷ cs) out l =
    let split = last_part (c ∷ cs) in
    let out' = append_part out split.1 in
    ground (arith, append_parts-fuel out_len fuel (or_empty split.0) out', last_part-lt c cs)
