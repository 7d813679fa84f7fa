-- ===== src/EglStorm/Chunks.antt =====
-- How the bytes are cut into reads does not matter.
use centroid_x.Common.{
  ℕ, ◌+◌, ◌≤◌, ◌≡◌, refl, sym, ap, ◌∙◌, Bool, true, false, ◌||◌, List, [], ◌∷◌, ◌++◌, append_assoc,
  append-nil, length, length-append, arith, Bool-cases, inl, inr, ◌==◌,
}
use centroid_x.EglStorm.{
  Detector, max_carry_bytes, on_line, count_match, end_line, walk, keep_rest, on_bytes,
}

-- The detector with another text carried over.
carrying : Detector → List ℕ → Detector
carrying d c = record d { carry = c }

-- A line is judged without regard to what is carried, and nothing is carried past it.
judged : Detector → List ℕ → ℕ → Detector × Bool
judged d line now = let (d', fired) = on_line (carrying d []) line now in (carrying d' [], fired)

end_line_lem :
    (d : Detector) (c segment : List ℕ) (now : ℕ)
    → end_line (carrying d c) segment now ≡ judged d (c ++ segment) now
unfolding end_line judged carrying on_line count_match
end_line_lem d [] segment now = ground arith
end_line_lem d (x ∷ c) segment now = ground arith

end_line-shift :
    (d : Detector) (first second : List ℕ) (now : ℕ)
    → end_line d (first ++ second) now ≡ end_line (carrying d (d.carry ++ first)) second now
unfolding carrying
end_line-shift d first second now =
    end_line_lem d d.carry (first ++ second) now
    ∙ ap (λ (line : List ℕ). judged d line now) (sym (append_assoc d.carry first second))
    ∙ sym (end_line_lem d (d.carry ++ first) second now)

keep_rest-shift :
    (d : Detector) (first second : List ℕ) (fired : Bool) (now : ℕ)
    → length (d.carry ++ first) ≤ max_carry_bytes
    → keep_rest d (first ++ second) fired now
      ≡ keep_rest (carrying d (d.carry ++ first)) second fired now
unfolding keep_rest carrying
keep_rest-shift d [] [] fired now h = rw append-nil refl
keep_rest-shift d [] (s ∷ second) fired now h = rw append-nil refl
keep_rest-shift d (f ∷ first) [] fired now h = rw append-nil (ground arith)
keep_rest-shift d (f ∷ first) (s ∷ second) fired now h =
    rw (append_assoc d.carry (f ∷ first) (s ∷ second)) refl

-- OnBytes from the middle of a read.
rest_of : Detector → List ℕ → Bool → List ℕ → ℕ → Detector × Bool
rest_of d segment fired bytes now =
    let (d', segment', fired') = walk d segment fired bytes now in keep_rest d' segment' fired' now

walk_newline :
    (d : Detector) (segment : List ℕ) (fired : Bool) (b : ℕ) (bs : List ℕ) (now : ℕ)
    → (b == b'\n') ≡ true
    → walk d segment fired (b ∷ bs) now
      ≡ (let (d', line_fired) = end_line d segment now in walk d' [] (fired || line_fired) bs now)
unfolding walk
walk_newline d segment fired b bs now h = rw (h, walk) refl

walk_other :
    (d : Detector) (segment : List ℕ) (fired : Bool) (b : ℕ) (bs : List ℕ) (now : ℕ)
    → (b == b'\n') ≡ false
    → walk d segment fired (b ∷ bs) now ≡ walk d (segment ++ b ∷ []) fired bs now
unfolding walk
walk_other d segment fired b bs now h = rw (h, walk) refl

walk_nil :
    (d : Detector) (segment : List ℕ) (fired : Bool) (now : ℕ)
    → walk d segment fired [] now ≡ (d, segment, fired)
unfolding walk
walk_nil d segment fired now = refl

rest_of-shift :
    (d : Detector) (first second : List ℕ) (fired : Bool) (ys : List ℕ) (now : ℕ)
    → length (d.carry ++ first) ≤ max_carry_bytes
    → rest_of d (first ++ second) fired ys now
      ≡ rest_of (carrying d (d.carry ++ first)) second fired ys now
unfolding rest_of
rest_of-shift d first second fired [] now h =
    rw
      (
        walk_nil d (first ++ second) fired now,
        walk_nil (carrying d (d.carry ++ first)) second fired now,
      )
      (keep_rest-shift d first second fired now h)
rest_of-shift d first second fired (y ∷ ys) now h = elim (Bool-cases (y == b'\n')) [
  | inl newline ↦
      rw
        (
          walk_newline d (first ++ second) fired y ys now newline,
          walk_newline (carrying d (d.carry ++ first)) second fired y ys now newline,
          end_line-shift d first second now,
        )
        refl
  | inr other ↦
      rw
        (
          walk_other d (first ++ second) fired y ys now other,
          walk_other (carrying d (d.carry ++ first)) second fired y ys now other,
          append_assoc first second (y ∷ []),
        )
        (rest_of-shift d first (second ++ y ∷ []) fired ys now h)
]

-- The loop over two chunks.
walk-append :
    (d : Detector) (segment : List ℕ) (fired : Bool) (xs ys : List ℕ) (now : ℕ)
    → walk d segment fired (xs ++ ys) now
      ≡ (let (d', segment', fired') = walk d segment fired xs now in walk d' segment' fired' ys now)
walk-append d segment fired [] ys now = rw (walk_nil d segment fired now) refl
walk-append d segment fired (x ∷ xs) ys now = elim (Bool-cases (x == b'\n')) [
  | inl newline ↦
      rw
        (
          walk_newline d segment fired x (xs ++ ys) now newline,
          walk_newline d segment fired x xs now newline,
        )
        (walk-append (end_line d segment now).0 [] (fired || (end_line d segment now).1) xs ys now)
  | inr other ↦
      rw
        (
          walk_other d segment fired x (xs ++ ys) now other,
          walk_other d segment fired x xs now other,
        )
        (walk-append d (segment ++ x ∷ []) fired xs ys now)
]

carry-end_line : (d : Detector) (segment : List ℕ) (now : ℕ) → (end_line d segment now).0.carry ≡ []
unfolding judged carrying
carry-end_line d segment now =
    ap (λ (r : Detector × Bool). r.0.carry) (end_line_lem d d.carry segment now)

-- The bytes in hand grow by one for each byte read, at most.
length-walk :
    (d : Detector) (segment : List ℕ) (fired : Bool) (xs : List ℕ) (now : ℕ)
    → let (d', segment', fired') = walk d segment fired xs now in
      length (d'.carry ++ segment') ≤ length (d.carry ++ segment) + length xs
length-walk d segment fired [] now = rw (walk_nil d segment fired now) (omega arith)
length-walk d segment fired (x ∷ xs) now = elim (Bool-cases (x == b'\n')) [
  | inl newline ↦ rw (walk_newline d segment fired x xs now newline) (
      omega (
        arith,
        length-walk (end_line d segment now).0 [] (fired || (end_line d segment now).1) xs now,
        ap length (ap (λ (c : List ℕ). c ++ []) (carry-end_line d segment now)),
      ))
  | inr other ↦ rw (walk_other d segment fired x xs now other) (
      omega (
        arith,
        length-walk d (segment ++ x ∷ []) fired xs now,
        ap length (sym (append_assoc d.carry segment (x ∷ []))),
        length-append (d.carry ++ segment) (x ∷ []),
      ))
]

-- What has fired before is only added to.
walk-fired :
    (d : Detector) (segment : List ℕ) (fired : Bool) (xs : List ℕ) (now : ℕ)
    → walk d segment fired xs now ≡ (
        let (d', segment', fired') = walk d segment false xs now in (d', segment', fired || fired'))
walk-fired d segment fired [] now =
    ground (arith, walk_nil d segment fired now, walk_nil d segment false now)
walk-fired d segment fired (x ∷ xs) now = elim (Bool-cases (x == b'\n')) [
  | inl newline ↦
      let (d', line_fired) = end_line d segment now in
      ground (
        arith,
        walk_newline d segment fired x xs now newline,
        walk_newline d segment false x xs now newline,
        walk-fired d' [] (fired || line_fired) xs now,
        walk-fired d' [] line_fired xs now,
      )
  | inr other ↦ ground (
    arith,
    walk_other d segment fired x xs now other,
    walk_other d segment false x xs now other,
    walk-fired d (segment ++ x ∷ []) fired xs now,
  )
]

keep_rest-fired :
    (d : Detector) (segment : List ℕ) (fired : Bool) (now : ℕ)
    → keep_rest d segment fired now
      ≡ (let (d', fired') = keep_rest d segment false now in (d', fired || fired'))
unfolding keep_rest
keep_rest-fired d [] fired now = ground arith
keep_rest-fired d (s ∷ segment) fired now = ground arith

rest_of-fired :
    (d : Detector) (segment : List ℕ) (fired : Bool) (xs : List ℕ) (now : ℕ)
    → rest_of d segment fired xs now
      ≡ (let (d', fired') = rest_of d segment false xs now in (d', fired || fired'))
unfolding rest_of
rest_of-fired d segment fired xs now =
    let (d', segment', fired') = walk d segment false xs now in
    ground (
      arith,
      walk-fired d segment fired xs now,
      keep_rest-fired d' segment' fired' now,
      keep_rest-fired d' segment' (fired || fired') now,
    )

keep_rest_short :
    (d : Detector) (segment : List ℕ) (fired : Bool) (now : ℕ)
    → length (d.carry ++ segment) ≤ max_carry_bytes
    → keep_rest d segment fired now ≡ (carrying d (d.carry ++ segment), fired)
unfolding keep_rest carrying
keep_rest_short d [] fired now h = rw append-nil refl
keep_rest_short d (s ∷ segment) fired now h = ground arith

-- The detector does not see how a stream is cut into reads: two reads at one clock reading do what
-- one read of both does, to the detector and in whether a line crossed the threshold, provided that
-- the bytes carried over and the first read fit the buffer, so that no line is cut short between.
pub on_bytes-append :
    (d : Detector) (xs ys : List ℕ) (now : ℕ)
    → length d.carry + length xs ≤ max_carry_bytes
    → on_bytes d (xs ++ ys) now ≡ (
        let (d', first) = on_bytes d xs now in
        let (d'', second) = on_bytes d' ys now in (d'', first || second))
unfolding on_bytes rest_of
on_bytes-append d xs ys now h =
    let (d', segment', fired') = walk d [] false xs now in
    let short : length (d'.carry ++ segment') ≤ max_carry_bytes =
      omega (arith, length-walk d [] false xs now, ap length (append-nil d.carry)) in
    let whole : rest_of d [] false (xs ++ ys) now ≡ rest_of d' segment' fired' ys now =
      rw (walk-append d [] false xs ys now) refl in
    let shifted = rest_of-shift d' segment' [] fired' ys now short in
    let padded : rest_of d' segment' fired' ys now ≡ rest_of d' (segment' ++ []) fired' ys now =
      rw (append-nil segment') refl in
    whole
    ∙ padded
    ∙ shifted
    ∙ rest_of-fired (carrying d' (d'.carry ++ segment')) [] fired' ys now
    ∙ rw (keep_rest_short d' segment' fired' now short) refl
