-- ===== src/CrashRecord/RoundTrip.antt =====
-- The name that MSVC makes of a scoped name is turned back into that name.
use centroid_x.Common.{
  ℕ, zero, suc, ◌+◌, ◌≤◌, ◌≡◌, refl, ap, ◌∙◌, Bool, true, false, not, ◌&&◌, List, [], ◌∷◌, ◌++◌,
  append_assoc, Option, none, some, length, length-append, ◌⊎◌, ◌==◌, arith,
}
use centroid_x.CefCache.{is_empty}
use centroid_x.CString.{codes}
use centroid_x.CrashRecord.{
  body_of, put, scopes_of, has_question_mark, last_part, or_empty, append_part, append_parts,
  written, clean_type_name,
}

-- A name of the source: not empty, and with neither '@' nor '?'.
unfoldable pub spells : List ℕ → Bool
spells [] = true
spells (c ∷ cs) = not (c == b'@') && (not (c == b'?') && spells cs)

abbrev pub IsPlain : List ℕ → Type 0
IsPlain name = (is_empty name ≡ false) × (spells name ≡ true)

abbrev pub AllPlain : List (List ℕ) → Type 0
AllPlain [] = Unit {0}
AllPlain (n ∷ ns) = IsPlain n × AllPlain ns

-- The scopes of a name, the outermost first, as MSVC writes them: innermost first, with '@' between.
unfoldable pub mangled : List ℕ → List (List ℕ) → List ℕ
mangled n [] = n
mangled n (m ∷ ms) = mangled m ms ++ (b'@' ∷ n)

-- And as the source writes them.
unfoldable pub scoped : List ℕ → List (List ℕ) → List ℕ
scoped n [] = n
scoped n (m ∷ ms) = n ++ (codes "::" ++ scoped m ms)

last_part-spells : (n : List ℕ) → spells n ≡ true → last_part n ≡ (none, n)
unfolding last_part spells
last_part-spells [] h = refl
last_part-spells (c ∷ cs) h = ground (arith, last_part-spells cs)

last_part-append : (xs n : List ℕ) → spells n ≡ true → last_part (xs ++ (b'@' ∷ n)) ≡ (some xs, n)
unfolding last_part
last_part-append [] n h = ground (arith, last_part-spells n h)
last_part-append (c ∷ cs) n h = ground (arith, last_part-append cs n h)

scopes_of-append : (xs : List ℕ) → scopes_of (xs ++ codes "@@") ≡ some xs
unfolding scopes_of
scopes_of-append [] = refl
scopes_of-append (c ∷ []) = refl
scopes_of-append (c ∷ d ∷ []) = refl
scopes_of-append (c ∷ d ∷ e ∷ cs) = ap (put c) (scopes_of-append (d ∷ e ∷ cs))

question-append :
    (xs ys : List ℕ)
    → has_question_mark xs ≡ false
    → has_question_mark ys ≡ false
    → has_question_mark (xs ++ ys) ≡ false
unfolding has_question_mark
question-append [] ys h k = k
question-append (c ∷ cs) ys h k = ground (arith, question-append cs ys)

question-spells : (n : List ℕ) → spells n ≡ true → has_question_mark n ≡ false
unfolding has_question_mark spells
question-spells [] h = refl
question-spells (c ∷ cs) h = ground (arith, question-spells cs)

question-mangled :
    (n : List ℕ) (ms : List (List ℕ)) → AllPlain (n ∷ ms) → has_question_mark (mangled n ms) ≡ false
unfolding mangled has_question_mark
question-mangled n [] h = question-spells n h.0.1
question-mangled n (m ∷ ms) h =
    question-append (mangled m ms) (b'@' ∷ n) (question-mangled m ms h.1)
      (ground (arith, question-spells n h.0.1))

append_part_assoc :
    (out n text : List ℕ)
    → is_empty n ≡ false
    → append_part (append_part out n) text ≡ append_part out (n ++ (codes "::" ++ text))
unfolding append_part
append_part_assoc [] [] text e = cc
append_part_assoc [] (c ∷ cs) text e = refl
append_part_assoc (o ∷ out) n text e = ap (λ (t : List ℕ). o ∷ t) (simp append_assoc refl)

append_part-ne-nil :
    (out part : List ℕ) → is_empty part ≡ false → is_empty (append_part out part) ≡ false
unfolding append_part
append_part-ne-nil [] part e = e
append_part-ne-nil (o ∷ out) part e = refl

length-append_part : (out part : List ℕ) → length out ≤ length (append_part out part)
unfolding append_part
length-append_part [] part = omega arith
length-append_part (o ∷ out) part = omega (arith, length-append (o ∷ out) (codes "::" ++ part))

append-ne-nil : (xs ys : List ℕ) (y : ℕ) → is_empty (xs ++ (y ∷ ys)) ≡ false
append-ne-nil [] ys y = refl
append-ne-nil (x ∷ xs) ys y = refl

-- One round of the loop.
append_parts-round :
    (out_len fuel : ℕ) (xs out part : List ℕ) (before : Option (List ℕ))
    → is_empty xs ≡ false
    → last_part xs ≡ (before, part)
    → is_empty part ≡ false
    → length (append_part out part) + 1 ≤ out_len
    → append_parts out_len (suc fuel) xs out
      ≡ append_parts out_len fuel (or_empty before) (append_part out part)
unfolding append_parts
append_parts-round out_len fuel [] out part before x e p l = cc
append_parts-round out_len fuel (c ∷ cs) out part before x e p l = rw (e, p) (ground arith)

mangled-ne-nil :
    (n : List ℕ) (ms : List (List ℕ)) → AllPlain (n ∷ ms) → is_empty (mangled n ms) ≡ false
unfolding mangled
mangled-ne-nil n [] h = h.0.0
mangled-ne-nil n (m ∷ ms) h = append-ne-nil (mangled m ms) n b'@'

append_parts-nil : (out_len fuel : ℕ) (out : List ℕ) → append_parts out_len fuel [] out ≡ some out
unfolding append_parts
append_parts-nil out_len zero out = refl
append_parts-nil out_len (suc fuel) out = refl

no_fuel : (xs : List ℕ) → is_empty xs ≡ false → length xs ≤ 0 → false ≡ true
no_fuel [] e l = cc
no_fuel (x ∷ xs) e l = ground arith

-- The loop writes the scopes, the outermost first, behind what was written.
append_parts-mangled :
    (out_len fuel : ℕ) (n : List ℕ) (ms : List (List ℕ)) (out : List ℕ)
    → AllPlain (n ∷ ms)
    → length (mangled n ms) ≤ fuel
    → length (append_part out (scoped n ms)) + 1 ≤ out_len
    → append_parts out_len fuel (mangled n ms) out ≡ some (append_part out (scoped n ms))
unfolding mangled scoped
append_parts-mangled out_len zero n ms out h f l =
    cc (no_fuel (mangled n ms) (mangled-ne-nil n ms h) f)
append_parts-mangled out_len (suc fuel) n [] out h f l =
    append_parts-round out_len fuel n out n none h.0.0 (last_part-spells n h.0.1) h.0.0 l
    ∙ append_parts-nil out_len fuel (append_part out n)
append_parts-mangled out_len (suc fuel) n (m ∷ ms) out h f l =
    let whole = append_part_assoc out n (scoped m ms) h.0.0 in
    let fits = ap length whole in
    append_parts-round out_len fuel (mangled m ms ++ (b'@' ∷ n)) out n (some (mangled m ms))
      (append-ne-nil (mangled m ms) n b'@') (last_part-append (mangled m ms) n h.0.1) h.0.0
      (omega (arith, fits, length-append_part (append_part out n) (scoped m ms)))
    ∙ (append_parts-mangled out_len fuel m ms (append_part out n) h.1
          (omega (arith, length-append (mangled m ms) (b'@' ∷ n))) (omega (arith, fits))
        ∙ ap (λ (t : List ℕ). some t) whole)

scoped-ne-nil :
    (n : List ℕ) (ms : List (List ℕ)) → is_empty n ≡ false → is_empty (scoped n ms) ≡ false
unfolding scoped
scoped-ne-nil n [] e = e
scoped-ne-nil [] (m ∷ ms) e = cc
scoped-ne-nil (c ∷ cs) (m ∷ ms) e = refl

written-ne-nil : (xs : List ℕ) → is_empty xs ≡ false → written (some xs) ≡ some xs
written-ne-nil [] e = cc
written-ne-nil (x ∷ xs) e = refl

mangled-clean :
    (out_len kind : ℕ) (body scopes text : List ℕ)
    → (kind ≡ b'V') ⊎ (kind ≡ b'U')
    → (out_len == 0) ≡ false
    → scopes_of body ≡ some scopes
    → has_question_mark scopes ≡ false
    → append_parts out_len (length scopes) scopes [] ≡ some text
    → is_empty text ≡ false
    → clean_type_name out_len (some (codes ".?A" ++ (kind ∷ body))) ≡ some text
unfolding clean_type_name body_of
mangled-clean out_len kind body scopes text k z s q a e = ground (arith, written-ne-nil text e)

-- A class or a struct whose scopes and name are not empty and have neither '@' nor '?' is given back as the source
-- spells it, with "::" between the scopes, from the name that MSVC makes of it, whenever the buffer
-- holds the result and its NUL.
pub clean_type_name-mangled :
    (out_len kind : ℕ) (n : List ℕ) (ms : List (List ℕ))
    → (kind ≡ b'V') ⊎ (kind ≡ b'U')
    → AllPlain (n ∷ ms)
    → length (scoped n ms) + 1 ≤ out_len
    → clean_type_name out_len (some (codes ".?A" ++ (kind ∷ (mangled n ms ++ codes "@@"))))
      ≡ some (scoped n ms)
unfolding append_part
clean_type_name-mangled out_len kind n ms k h l =
    mangled-clean out_len kind (mangled n ms ++ codes "@@") (mangled n ms) (scoped n ms) k
      (ground arith) (scopes_of-append (mangled n ms)) (question-mangled n ms h)
      (append_parts-mangled out_len (length (mangled n ms)) n ms [] h (omega arith) l)
      (scoped-ne-nil n ms h.0.0)
