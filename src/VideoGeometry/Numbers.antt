-- ===== src/VideoGeometry/Numbers.antt =====
-- ParseNullableInt of packages/media_kit_video_elinux/elinux/video_geometry.cc: a dimension or a
-- handle that crosses the channel as text.
use mathlib.Core.Path.{subst}
use centroid_x.Common.{
  ◌++◌, append_assoc, append-nil, sym, Bool-cases, inl, inr, ℕ, ◌+◌, ◌-◌, ◌*◌, ◌^◌, ◌<◌, ◌≡◌, refl,
  ap, ◌∙◌, ◌↔◌, Bool, true, false, ◌&&◌, List, [], ◌∷◌, Option, none, some, ltb, leb, ◌==◌,
  if◌then◌else◌, arith,
}

unfoldable pub is_digit : ℕ → Bool
is_digit c = leb b'0' c && leb c b'9'

-- The digits at the beginning of a text, read after `value`, and what is left.
unfoldable pub read_digits : List ℕ → ℕ → ℕ × List ℕ
read_digits [] value = (value, [])
read_digits (c ∷ cs) value = elim (is_digit c) [
  | true ↦ read_digits cs (value * 10 + (c - b'0'))
  | false ↦ (value, c ∷ cs)
]

unfoldable pub starts_with_digit : List ℕ → Bool
starts_with_digit [] = false
starts_with_digit (c ∷ cs) = is_digit c

-- `std::from_chars` of an int64_t, when its text does not begin with '-'.
unfoldable pub from_digits : List ℕ → Option (ℕ × List ℕ)
unfolding starts_with_digit read_digits
from_digits text =
    let read = read_digits text 0 in
    if starts_with_digit text && ltb read.0 (2 ^ 63) then some read else none

-- After a '-' nothing is parsed that is greater than 0.
unfoldable pub parse_nullable_int : List ℕ → Option ℕ
unfolding from_digits
parse_nullable_int text = elim (from_digits text) [
  | none ↦ none
  | some (parsed, []) ↦ if parsed == 0 then none else some parsed
  | some (parsed, c ∷ cs) ↦ none
]

-- The decimal numerals, leading zeros included, and the numbers that they write.
pub data Numeral : List ℕ → ℕ → Type 0 where
  digit : {s : List ℕ} (d : ℕ) → d < 10 → s ≡ (b'0' + d) ∷ [] → Numeral s d
  longer :
      {s t : List ℕ} {n m : ℕ} (d : ℕ)
      → Numeral s n
      → d < 10
      → t ≡ s ++ ((b'0' + d) ∷ [])
      → m ≡ n * 10 + d
      → Numeral t m

read_digits-append :
    (s t : List ℕ) (v n : ℕ) → read_digits s v ≡ (n, []) → read_digits (s ++ t) v ≡ read_digits t n
unfolding read_digits is_digit
read_digits-append [] t v n e = ap (λ (r : ℕ × List ℕ). read_digits t r.0) e
read_digits-append (c ∷ cs) t v n e =
    ground (arith, read_digits-append cs t (v * 10 + (c - b'0')) n)

read_one : (d v : ℕ) → d < 10 → read_digits ((b'0' + d) ∷ []) v ≡ (v * 10 + d, [])
unfolding read_digits is_digit
read_one d v l = ground arith

starts-append : (s t : List ℕ) → starts_with_digit s ≡ true → starts_with_digit (s ++ t) ≡ true
unfolding starts_with_digit
starts-append [] t e = cc
starts-append (c ∷ cs) t e = e

Numeral-starts : {s : List ℕ} {n : ℕ} → Numeral s n → starts_with_digit s ≡ true
unfolding starts_with_digit is_digit
Numeral-starts (digit d l e) = rw e (ground arith)
Numeral-starts (longer {s} d h l e m) = rw e (starts-append s _ (Numeral-starts h))

Numeral-read : {s : List ℕ} {n : ℕ} → Numeral s n → read_digits s 0 ≡ (n, [])
Numeral-read (digit d l e) = rw e (ground (arith, read_one d 0 l))
Numeral-read (longer {s} {n = n} d h l e m) =
    rw (e, m) (read_digits-append s _ 0 n (Numeral-read h) ∙ read_one d n l)

grown :
    (s cs : List ℕ) (v c n : ℕ)
    → Numeral s v
    → is_digit c ≡ true
    → ((t : List ℕ) (w : ℕ) → Numeral t w → read_digits cs w ≡ (n, []) → Numeral (t ++ cs) n)
    → read_digits cs (v * 10 + (c - b'0')) ≡ (n, [])
    → Numeral (s ++ (c ∷ cs)) n
unfolding is_digit
grown s cs v c n h g more e =
    let t : List ℕ = s ++ (c ∷ []) in
    let one : Numeral t (v * 10 + (c - b'0')) =
      longer (c - b'0') h (ground arith) (ap (λ (x : ℕ). s ++ (x ∷ [])) (ground arith)) refl in
    subst (λ (u : List ℕ). Numeral u n) (append_assoc s (c ∷ []) cs) (more t _ one e)

read_step :
    (c : ℕ) (cs : List ℕ) (v : ℕ)
    → is_digit c ≡ true
    → read_digits (c ∷ cs) v ≡ read_digits cs (v * 10 + (c - b'0'))
unfolding read_digits
read_step c cs v g = ground arith

read_stop :
    (c : ℕ) (cs : List ℕ) (v : ℕ) → is_digit c ≡ false → read_digits (c ∷ cs) v ≡ (v, c ∷ cs)
unfolding read_digits
read_stop c cs v g = ground arith

read-Numeral :
    (cs s : List ℕ) (v n : ℕ) → Numeral s v → read_digits cs v ≡ (n, []) → Numeral (s ++ cs) n
unfolding read_digits
read-Numeral [] s v n h e =
    subst (λ (u : List ℕ). Numeral u n) (sym (append-nil s))
      (subst (Numeral s) (ap (λ (r : ℕ × List ℕ). r.0) e) h)
read-Numeral (c ∷ cs) s v n h e = elim (Bool-cases (is_digit c)) [
  | inl g ↦ grown s cs v c n h g (λ t w k. read-Numeral cs t w n k) (sym (read_step c cs v g) ∙ e)
  | inr g ↦ cc (read_stop c cs v g)
]

from_digits_cases :
    (text : List ℕ) (n : ℕ)
    → (from_digits text ≡ some (n, []))
      ↔ ((starts_with_digit text ≡ true) × (read_digits text 0 ≡ (n, [])) × (n < 2 ^ 63))
unfolding from_digits
from_digits_cases text n = ground arith

parse-from_digits :
    (text : List ℕ) (n : ℕ)
    → (parse_nullable_int text ≡ some n) ↔ ((from_digits text ≡ some (n, [])) × (0 < n))
unfolding parse_nullable_int
parse-from_digits text n = ground arith

first_digit :
    (c n : ℕ) (cs : List ℕ)
    → starts_with_digit (c ∷ cs) ≡ true
    → read_digits (c ∷ cs) 0 ≡ (n, [])
    → Numeral (c ∷ cs) n
unfolding starts_with_digit is_digit
first_digit c n cs h e =
    read-Numeral cs (c ∷ []) (0 * 10 + (c - b'0')) n
      (digit (0 * 10 + (c - b'0')) (ground arith) (ap (λ (x : ℕ). x ∷ []) (ground arith)))
      (sym (read_step c cs 0 h) ∙ e)

read_digits-Numeral :
    (text : List ℕ) (n : ℕ)
    → starts_with_digit text ≡ true
    → read_digits text 0 ≡ (n, [])
    → Numeral text n
unfolding starts_with_digit
read_digits-Numeral [] n h e = cc
read_digits-Numeral (c ∷ cs) n h e = first_digit c n cs h e

-- A text is read as a number exactly when it is a decimal numeral of that number and the number is
-- greater than 0 and less than 2 ^ 63.
pub parse_nullable_int_iff :
    (text : List ℕ) (n : ℕ)
    → (parse_nullable_int text ≡ some n) ↔ (Numeral text n × (0 < n) × (n < 2 ^ 63))
parse_nullable_int_iff text n = (
  λ e.
      let (parsed, above) = (parse-from_digits text n).0 e in
      let (starts, read, below) = (from_digits_cases text n).0 parsed in
      (read_digits-Numeral text n starts read, above, below),
  λ (numeral, above, below).
      (parse-from_digits text n).1
        ((from_digits_cases text n).1 (Numeral-starts numeral, Numeral-read numeral, below), above),
)
