-- ===== src/MediaVideo/Leaving.antt =====
-- The invariant of the video plugin when an output is shut down, and when the registrar is done with its
-- texture.
use centroid_x.Common.{
  ℕ, ◌≤◌, ◌<◌, ◌≡◌, ◌⊎◌, inl, inr, List, [], ◌∷◌, none, some, ◌==◌, if◌then◌else◌, arith,
  Bool-cases,
}
use centroid_x.MediaVideo.{Held, owner, registered, leaving, update}
use centroid_x.MediaVideo.Plugin.{find, erase}
use centroid_x.MediaVideo.Texture.{Brief, live, stopped, Books, IsKeyed, Fits, IsSound}

pub find-erase :
    (h k : ℕ) (outputs : List (ℕ × ℕ))
    → find (erase h outputs) k ≡ (if h == k then none else find outputs k)
unfolding find erase
find-erase h k [] = ground arith
find-erase h k ((key, a) ∷ outputs) = ground (arith, find-erase h k outputs)

pub erase-IsKeyed : (h : ℕ) (outputs : List (ℕ × ℕ)) → IsKeyed outputs → IsKeyed (erase h outputs)
unfolding find erase
erase-IsKeyed h [] keyed = tt
erase-IsKeyed h ((key, a) ∷ outputs) (first, keyed) = elim (Bool-cases (key == h)) [
  | inl q ↦ rw q (erase-IsKeyed h outputs keyed)
  | inr q ↦ rw q (ground (arith, find-erase h key outputs, first), erase-IsKeyed h outputs keyed)
]

-- The output of a player leaves the map and is shut down.
abbrev pub shut : ℕ → ℕ → ℕ → List (ℕ × ℕ) → Books → Books
shut h a id outputs b = record b {
  outputs = outputs;
  object = update b.object a (some (stopped h));
  held = update b.held id (some (leaving a (some a)));
}

module _ (h a : ℕ) (outputs : List (ℕ × ℕ)) (b : Books) (s : IsSound b) (keyed : IsKeyed outputs)
    (known : find b.outputs h ≡ some a)
    (erased : (k : ℕ) → find outputs k ≡ (if h == k then none else find b.outputs k)) where
  shut-shown :
      (k c : ℕ)
      → find outputs k ≡ some c
      → (update b.object a (some (stopped h)) c ≡ some (live k (s.id_of c)))
        × (update b.held (s.id_of a) (some (leaving a (some a))) (s.id_of c) ≡ some (registered c))
        × (s.who c ≡ k)
  shut-shown k c e =
      let f : find b.outputs k ≡ some c = ground (arith, e, erased k) in
      let (o, t, w) = s.shown k c f in
      let (o', t', w') = s.shown h a known in ground (arith, o, t, w, o', t', w', e, erased k)

  shut-Fits :
      (k : ℕ) (t : Held)
      → update b.held (s.id_of a) (some (leaving a (some a))) k ≡ some t
      → (s.id_of (owner t) ≡ k)
        × (owner t < b.next)
        × Fits (shut h a (s.id_of a) outputs b) s.id_of s.who t
  shut-Fits k (registered c) e = elim (Bool-cases (s.id_of a == k)) [
    | inl q ↦ ground (arith, q, e)
    | inr q ↦
        let f : b.held k ≡ some (registered c) = ground (arith, q, e) in
        let (i, l, (o, w)) = s.fits k (registered c) f in
        let (o', t', w') = s.shown h a known in ground (arith, i, l, o, w, erased (s.who c))
  ]
  shut-Fits k (leaving c (some d)) e = elim (Bool-cases (s.id_of a == k)) [
    | inl q ↦
        let (o', t', w') = s.shown h a known in
        let (i', l', o'') = s.fits (s.id_of a) (registered a) t' in
        ground (arith, q, e, t', w', i', l')
    | inr q ↦
        let f : b.held k ≡ some (leaving c (some d)) = ground (arith, q, e) in
        let (i, l, (o, w)) = s.fits k (leaving c (some d)) f in ground (arith, i, l, o, w)
  ]
  shut-Fits k (leaving c none) e = elim (Bool-cases (s.id_of a == k)) [
    | inl q ↦ ground (arith, q, e)
    | inr q ↦
        let f : b.held k ≡ some (leaving c none) = ground (arith, q, e) in
        let (i, l, o) = s.fits k (leaving c none) f in ground (arith, i, l, o)
  ]

  shut-owned :
      (c : ℕ) (v : Brief)
      → update b.object a (some (stopped h)) c ≡ some v
      → (update b.held (s.id_of a) (some (leaving a (some a))) (s.id_of c) ≡ some (registered c))
        ⊎ (update b.held (s.id_of a) (some (leaving a (some a))) (s.id_of c)
            ≡ some (leaving c (some c)))
  shut-owned c v e = elim (Bool-cases (a == c)) [
    | inl q ↦ inr (ground (arith, q))
    | inr q ↦
        let f : b.object c ≡ some v = ground (arith, q, e) in
        let (o', t', w') = s.shown h a known in
        elim (s.owned c v f) [
          | inl t ↦ inl (ground (arith, q, t, t'))
          | inr t ↦ inr (ground (arith, q, t, t'))
        ]
  ]

  shut-fresh : (c : ℕ) → b.next ≤ c → update b.object a (some (stopped h)) c ≡ none
  shut-fresh c l = let (o', t', w') = s.shown h a known in ground (arith, o', s.fresh c)

  pub shut-IsSound : IsSound (shut h a (s.id_of a) outputs b)
  shut-IsSound = record {
    id_of = s.id_of;
    who = s.who;
    keyed = keyed;
    shown = shut-shown;
    fits = shut-Fits;
    owned = shut-owned;
    fresh = shut-fresh;
  }

-- The registrar forgets a texture that leaves, and the object that it kept is no more.
abbrev pub done : ℕ → ℕ → Books → Books
done id a b = record b { object = update b.object a none; held = update b.held id none }

abbrev pub forgot : ℕ → Books → Books
forgot id b = record b { held = update b.held id none }

module _ (id a : ℕ) (b : Books) (s : IsSound b) where
  module _ (t : b.held id ≡ some (leaving a (some a))) where
    done-shown :
        (k c : ℕ)
        → find b.outputs k ≡ some c
        → (update b.object a none c ≡ some (live k (s.id_of c)))
          × (update b.held id none (s.id_of c) ≡ some (registered c))
          × (s.who c ≡ k)
    done-shown k c e =
        let (o, u, w) = s.shown k c e in
        let (i, l, (q, p)) = s.fits id (leaving a (some a)) t in ground (arith, o, u, w, t, i, p)

    done-Fits :
        (k : ℕ) (u : Held)
        → update b.held id none k ≡ some u
        → (s.id_of (owner u) ≡ k) × (owner u < b.next) × Fits (done id a b) s.id_of s.who u
    done-Fits k (registered c) e =
        let f : b.held k ≡ some (registered c) = ground (arith, e) in
        let (i, l, (o, w)) = s.fits k (registered c) f in
        let (i', l', (q, p)) = s.fits id (leaving a (some a)) t in
        ground (arith, i, l, o, w, i', p, e)
    done-Fits k (leaving c (some d)) e =
        let f : b.held k ≡ some (leaving c (some d)) = ground (arith, e) in
        let (i, l, (o, w)) = s.fits k (leaving c (some d)) f in
        let (i', l', (q, p)) = s.fits id (leaving a (some a)) t in
        ground (arith, i, l, o, w, i', p, e)
    done-Fits k (leaving c none) e =
        let f : b.held k ≡ some (leaving c none) = ground (arith, e) in
        let (i, l, o) = s.fits k (leaving c none) f in ground (arith, i, l, o)

    done-owned :
        (c : ℕ) (v : Brief)
        → update b.object a none c ≡ some v
        → (update b.held id none (s.id_of c) ≡ some (registered c))
          ⊎ (update b.held id none (s.id_of c) ≡ some (leaving c (some c)))
    done-owned c v e =
        let f : b.object c ≡ some v = ground (arith, e) in
        elim (s.owned c v f) [
          | inl u ↦ inl (ground (arith, e, t, u))
          | inr u ↦ inr (ground (arith, e, t, u))
        ]

    pub done-IsSound : IsSound (done id a b)
    done-IsSound = record {
      id_of = s.id_of;
      who = s.who;
      keyed = s.keyed;
      shown = done-shown;
      fits = done-Fits;
      owned = done-owned;
      fresh = λ c l. ground (arith, s.fresh c l);
    }

  module _ (t : b.held id ≡ some (leaving a none)) where
    forgot-Fits :
        (k : ℕ) (u : Held)
        → update b.held id none k ≡ some u
        → (s.id_of (owner u) ≡ k) × (owner u < b.next) × Fits (forgot id b) s.id_of s.who u
    forgot-Fits k (registered c) e = s.fits k (registered c) (ground (arith, e))
    forgot-Fits k (leaving c (some d)) e = s.fits k (leaving c (some d)) (ground (arith, e))
    forgot-Fits k (leaving c none) e = s.fits k (leaving c none) (ground (arith, e))

    pub forgot-IsSound : IsSound (forgot id b)
    forgot-IsSound = record {
      id_of = s.id_of;
      who = s.who;
      keyed = s.keyed;
      shown = λ k c e. let (o, u, w) = s.shown k c e in (o, ground (arith, u, t), w);
      fits = forgot-Fits;
      owned = λ c v e. elim (s.owned c v e) [
        | inl u ↦ inl (ground (arith, t, u))
        | inr u ↦ inr (ground (arith, t, u))
      ];
      fresh = s.fresh;
    }
