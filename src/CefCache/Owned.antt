-- ===== src/CefCache/Owned.antt =====
-- What a sweep may delete recursively.
use centroid_x.Common.{
  ℕ, zero, suc, ◌+◌, ◌<◌, ◌≡◌, refl, sym, ap, ◌∙◌, ◌↔◌, true, false, List, [], ◌∷◌, ◌++◌, length,
  take, drop, arith,
}
use centroid_x.CefCache.{is_empty, drop_trailing, strip_trailing_separators}
use centroid_x.CefCache.Sweep.{
  same_bytes, has_no_separator, socket_dir_prefix, is_chromium_socket_dir,
}

drop_trailing_idem : (cs : List ℕ) → drop_trailing (drop_trailing cs) ≡ drop_trailing cs
unfolding drop_trailing
drop_trailing_idem [] = refl
drop_trailing_idem (c ∷ cs) = ground (arith, drop_trailing_idem cs)

pub strip_idem :
    (path : List ℕ)
    → strip_trailing_separators (strip_trailing_separators path) ≡ strip_trailing_separators path
unfolding strip_trailing_separators
strip_idem [] = refl
strip_idem (c ∷ cs) = ap (λ (t : List ℕ). c ∷ t) (drop_trailing_idem cs)

pub same_bytes_sound : (xs ys : List ℕ) → same_bytes xs ys ≡ true → xs ≡ ys
unfolding same_bytes
same_bytes_sound [] [] e = refl
same_bytes_sound [] (y ∷ ys) e = cc
same_bytes_sound (x ∷ xs) [] e = cc
same_bytes_sound (x ∷ xs) (y ∷ ys) e = ground (arith, same_bytes_sound xs ys)

pub same_bytes_refl : (xs : List ℕ) → same_bytes xs xs ≡ true
unfolding same_bytes
same_bytes_refl [] = refl
same_bytes_refl (x ∷ xs) = ground (arith, same_bytes_refl xs)

pub same_bytes_comm : (xs ys : List ℕ) → same_bytes xs ys ≡ same_bytes ys xs
unfolding same_bytes
same_bytes_comm [] [] = refl
same_bytes_comm [] (y ∷ ys) = refl
same_bytes_comm (x ∷ xs) [] = refl
same_bytes_comm (x ∷ xs) (y ∷ ys) = ground (arith, same_bytes_comm xs ys)

take-drop : (n : ℕ) (xs : List ℕ) → take n xs ++ drop n xs ≡ xs
take-drop zero xs = refl
take-drop (suc n) [] = refl
take-drop (suc n) (x ∷ xs) = ap (λ (t : List ℕ). x ∷ t) (take-drop n xs)

take-append : (xs ys : List ℕ) → take (length xs) (xs ++ ys) ≡ xs
take-append [] ys = refl
take-append (x ∷ xs) ys = ap (λ (t : List ℕ). x ∷ t) (take-append xs ys)

drop-append : (xs ys : List ℕ) → drop (length xs) (xs ++ ys) ≡ ys
drop-append [] ys = refl
drop-append (x ∷ xs) ys = drop-append xs ys

length-append : (xs ys : List ℕ) → length (xs ++ ys) ≡ length xs + length ys
length-append [] ys = omega arith
length-append (x ∷ xs) ys = omega (arith, length-append xs ys)

drop-ne-nil : (n : ℕ) (xs : List ℕ) → n < length xs → is_empty (drop n xs) ≡ false
drop-ne-nil zero [] h = ground arith
drop-ne-nil zero (x ∷ xs) h = refl
drop-ne-nil (suc n) [] h = ground arith
drop-ne-nil (suc n) (x ∷ xs) h = drop-ne-nil n xs (omega arith)

-- A direct child of the temp directory: the prefix of Chromium's socket directories, and a suffix
-- that is not empty and has no separator.
pub record IsSocketDir (temp_dir : List ℕ) (path : List ℕ) : Type 0 where
  pub suffix : List ℕ
  pub splits : path ≡ socket_dir_prefix temp_dir ++ suffix
  pub named : is_empty suffix ≡ false
  pub direct : has_no_separator suffix ≡ true

pub is_chromium_socket_dir_sound :
    (path temp_dir : List ℕ)
    → is_chromium_socket_dir path temp_dir ≡ true
    → IsSocketDir temp_dir (strip_trailing_separators path)
unfolding is_chromium_socket_dir
is_chromium_socket_dir_sound path temp_dir e =
    let candidate = strip_trailing_separators path in
    let n = length (socket_dir_prefix temp_dir) in
    let begins : take n candidate ≡ socket_dir_prefix temp_dir =
      same_bytes_sound (take n candidate) (socket_dir_prefix temp_dir) (ground arith) in
    record {
      suffix = drop n candidate;
      splits = sym (take-drop n candidate) ∙ ap (λ (t : List ℕ). t ++ drop n candidate) begins;
      named = drop-ne-nil n candidate (ground arith);
      direct = ground arith;
    }

strip_empty : strip_trailing_separators [] ≡ []
unfolding strip_trailing_separators
strip_empty = refl

pub empty_append : (xs ys : List ℕ) → is_empty ys ≡ false → is_empty (xs ++ ys) ≡ false
empty_append [] ys e = e
empty_append (x ∷ xs) ys e = refl

nonempty_length : (xs : List ℕ) → is_empty xs ≡ false → 0 < length xs
nonempty_length [] e = cc
nonempty_length (x ∷ xs) e = omega arith

socket_dir-ne-nil :
    (path temp_dir : List ℕ)
    → IsSocketDir temp_dir (strip_trailing_separators path)
    → is_empty path ≡ false
socket_dir-ne-nil [] temp_dir s =
    let long = empty_append (socket_dir_prefix temp_dir) s.suffix s.named in
    cc (long, ap is_empty strip_empty, ap is_empty s.splits)
socket_dir-ne-nil (c ∷ cs) temp_dir s = refl

is_chromium_socket_dir_complete :
    (path temp_dir : List ℕ)
    → is_empty temp_dir ≡ false
    → IsSocketDir temp_dir (strip_trailing_separators path)
    → is_chromium_socket_dir path temp_dir ≡ true
unfolding is_chromium_socket_dir
is_chromium_socket_dir_complete path temp_dir t s =
    let prefix = socket_dir_prefix temp_dir in
    rw s.splits (
      ground (
        arith,
        t,
        socket_dir-ne-nil path temp_dir s,
        length-append prefix s.suffix,
        nonempty_length s.suffix s.named,
        take-append prefix s.suffix,
        drop-append prefix s.suffix,
        same_bytes_refl prefix,
        s.direct,
      ))

-- For a temp directory that is given, the test accepts a path exactly when the path, less its trailing
-- separators, is the prefix of Chromium's socket directories under that directory, followed by a
-- suffix that is not empty and has no separator of either kind.
pub is_chromium_socket_dir_iff :
    (path temp_dir : List ℕ)
    → is_empty temp_dir ≡ false
    → (is_chromium_socket_dir path temp_dir ≡ true)
      ↔ IsSocketDir temp_dir (strip_trailing_separators path)
is_chromium_socket_dir_iff path temp_dir t =
    (is_chromium_socket_dir_sound path temp_dir, is_chromium_socket_dir_complete path temp_dir t)
