-- ===== src/EglStorm/Search.antt =====
-- Contains is a substring test.
use centroid_x.Common.{
  ℕ, ◌≡◌, ◌≢◌, ◌↔◌, refl, ap, ◌∙◌, true, List, [], ◌∷◌, ◌++◌, length-append, arith, Bool-cases, inl,
  inr,
}
use centroid_x.EglStorm.{matches_at, contains_from, contains}

-- The needle stands somewhere in the text.
abbrev pub Occurs : List ℕ → List ℕ → Type 0
Occurs needle hay = (before : List ℕ) × (after : List ℕ) × (hay ≡ before ++ (needle ++ after))

matches_at_sound :
    (needle hay : List ℕ)
    → matches_at needle hay ≡ true
    → (after : List ℕ) × (hay ≡ needle ++ after)
unfolding matches_at
matches_at_sound [] hay h = (hay, refl)
matches_at_sound (n ∷ needle) [] h = absurd (ground arith)
matches_at_sound (n ∷ needle) (x ∷ hay) h =
    let (after, e) = matches_at_sound needle hay (ground arith) in (after, ground (arith, e))

matches_at_complete : (needle after : List ℕ) → matches_at needle (needle ++ after) ≡ true
unfolding matches_at
matches_at_complete [] after = refl
matches_at_complete (n ∷ needle) after = ground (arith, matches_at_complete needle after)

contains_from_sound : (needle hay : List ℕ) → contains_from needle hay ≡ true → Occurs needle hay
unfolding contains_from
contains_from_sound needle [] h = absurd (ground arith)
contains_from_sound needle (x ∷ hay) h = elim (Bool-cases (matches_at needle (x ∷ hay))) [
  | inl here ↦ let (after, e) = matches_at_sound needle (x ∷ hay) here in ([], after, e)
  | inr later ↦
      let (before, after, e) = contains_from_sound needle hay (ground arith) in
      (x ∷ before, after, ap (◌∷◌ x) e)
]

contains_from_complete :
    (needle before after : List ℕ)
    → needle ≢ []
    → contains_from needle (before ++ (needle ++ after)) ≡ true
unfolding contains_from
contains_from_complete [] before after h = absurd (h refl)
contains_from_complete (n ∷ needle) [] after h =
    ground (arith, matches_at_complete (n ∷ needle) after, length-append needle after)
contains_from_complete (n ∷ needle) (b ∷ before) after h = ground (
  arith,
  contains_from_complete (n ∷ needle) before after h,
  length-append before ((n ∷ needle) ++ after),
  length-append needle after,
)

contains_complete :
    (needle before after : List ℕ)
    → needle ≢ []
    → contains (before ++ (needle ++ after)) needle ≡ true
unfolding contains
contains_complete [] before after h = absurd (h refl)
contains_complete (n ∷ needle) before after h = ground (
  arith,
  contains_from_complete (n ∷ needle) before after h,
  length-append before ((n ∷ needle) ++ after),
  length-append needle after,
)

-- The bounded search of a line for a needle answers yes exactly when the needle, which is not empty,
-- stands somewhere in it.
pub contains_iff :
    (hay needle : List ℕ) → needle ≢ [] → (contains hay needle ≡ true) ↔ Occurs needle hay
unfolding contains
contains_iff hay needle some_needle = (
  λ h. contains_from_sound needle hay (ground arith),
  λ o.
      ap (λ (text : List ℕ). contains text needle) o.2
      ∙ contains_complete needle o.0 o.1 some_needle,
)
