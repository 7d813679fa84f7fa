-- ===== src/MediaVideo/Texture.antt =====
-- What the plugin's steps keep: an invariant of who owns an object of VideoOutput and which texture reads
-- it.
use centroid_x.Common.{
  ℕ, ◌+◌, ◌≤◌, ◌<◌, ◌≡◌, ◌⊎◌, inl, inr, Bool, true, false, List, [], ◌∷◌, Option, none, some, ◌==◌,
  if◌then◌else◌, arith, Bool-cases,
}
use centroid_x.MediaVideo.{Held, owner, registered, leaving, update}
use centroid_x.MediaVideo.Plugin.{find}

-- What the invariant reads of an object: the player's handle, the texture, and whether it was shut down
-- and has a render context.
pub record Brief : Type 0 where
  pub handle : ℕ
  pub texture_id : Option ℕ
  pub shut_down : Bool
  pub context : Bool

abbrev pub live : ℕ → ℕ → Brief
live handle id = record { handle = handle; texture_id = some id; shut_down = false; context = true }

abbrev pub stopped : ℕ → Brief
stopped handle = record { handle = handle; texture_id = none; shut_down = true; context = true }

pub record Books : Type 0 where
  pub outputs : List (ℕ × ℕ)
  pub object : ℕ → Option Brief
  pub held : ℕ → Option Held
  pub next : ℕ

-- Each key once.
abbrev pub IsKeyed : List (ℕ × ℕ) → Type 0
IsKeyed [] = Unit {0}
IsKeyed ((h, a) ∷ outputs) = (find outputs h ≡ none) × IsKeyed outputs

-- A registered texture is that of an output in the map; one that leaves with an object kept reads
-- that object, which is shut down; and one that leaves with none reads an object that is no more.
abbrev pub Fits : Books → (ℕ → ℕ) → (ℕ → ℕ) → Held → Type 0
Fits b id_of who (registered a) =
    (b.object a ≡ some (live (who a) (id_of a))) × (find b.outputs (who a) ≡ some a)
Fits b id_of who (leaving a (some k)) = (k ≡ a) × (b.object a ≡ some (stopped (who a)))
Fits b id_of who (leaving a none) = b.object a ≡ none

-- `id_of` is the texture that an object was registered under, and `who` its player.
pub record IsSound (b : Books) : Type 0 where
  pub id_of : ℕ → ℕ
  pub who : ℕ → ℕ
  pub keyed : IsKeyed b.outputs
  pub shown :
      (h a : ℕ)
      → find b.outputs h ≡ some a
      → (b.object a ≡ some (live h (id_of a)))
        × (b.held (id_of a) ≡ some (registered a))
        × (who a ≡ h)
  pub fits :
      (id : ℕ) (t : Held)
      → b.held id ≡ some t
      → (id_of (owner t) ≡ id) × (owner t < b.next) × Fits b id_of who t
  pub owned :
      (a : ℕ) (v : Brief)
      → b.object a ≡ some v
      → (b.held (id_of a) ≡ some (registered a)) ⊎ (b.held (id_of a) ≡ some (leaving a (some a)))
  pub fresh : (a : ℕ) → b.next ≤ a → b.object a ≡ none

abbrev pub with_value : (ℕ → ℕ) → ℕ → ℕ → ℕ → ℕ
with_value f key value k = if key == k then value else f k

-- Initialize succeeded for a handle that is not in the map.
abbrev pub added : ℕ → ℕ → Books → Books
added h id b = record {
  outputs = (h, b.next) ∷ b.outputs;
  object = update b.object b.next (some (live h id));
  held = update b.held id (some (registered b.next));
  next = b.next + 1;
}

module _ (h id : ℕ) (b : Books) (s : IsSound b) (unknown : find b.outputs h ≡ none)
    (free : b.held id ≡ none) where
  added-shown :
      (k a : ℕ)
      → find ((h, b.next) ∷ b.outputs) k ≡ some a
      → (update b.object b.next (some (live h id)) a
          ≡ some (live k (with_value s.id_of b.next id a)))
        × (update b.held id (some (registered b.next)) (with_value s.id_of b.next id a)
            ≡ some (registered a))
        × (with_value s.who b.next h a ≡ k)
  unfolding find
  added-shown k a e = elim (Bool-cases (h == k)) [
    | inl q ↦ ground (arith, q, e)
    | inr q ↦
        let f : find b.outputs k ≡ some a = ground (arith, q, e) in
        let (o, t, w) = s.shown k a f in ground (arith, o, t, w, s.fresh a, free)
  ]

  added-Fits :
      (k : ℕ) (t : Held)
      → update b.held id (some (registered b.next)) k ≡ some t
      → (with_value s.id_of b.next id (owner t) ≡ k)
        × (owner t < b.next + 1)
        × Fits (added h id b) (with_value s.id_of b.next id) (with_value s.who b.next h) t
  unfolding find
  added-Fits k (registered a) e = elim (Bool-cases (id == k)) [
    | inl q ↦ ground (arith, q, e)
    | inr q ↦
        let f : b.held k ≡ some (registered a) = ground (arith, q, e) in
        let (i, l, (o, w)) = s.fits k (registered a) f in ground (arith, i, l, o, w, unknown)
  ]
  added-Fits k (leaving a (some c)) e = elim (Bool-cases (id == k)) [
    | inl q ↦ ground (arith, q, e)
    | inr q ↦
        let f : b.held k ≡ some (leaving a (some c)) = ground (arith, q, e) in
        let (i, l, (o, w)) = s.fits k (leaving a (some c)) f in ground (arith, i, l, o, w)
  ]
  added-Fits k (leaving a none) e = elim (Bool-cases (id == k)) [
    | inl q ↦ ground (arith, q, e)
    | inr q ↦
        let f : b.held k ≡ some (leaving a none) = ground (arith, q, e) in
        let (i, l, o) = s.fits k (leaving a none) f in ground (arith, i, l, o)
  ]

  added-owned :
      (a : ℕ) (v : Brief)
      → update b.object b.next (some (live h id)) a ≡ some v
      → (update b.held id (some (registered b.next)) (with_value s.id_of b.next id a)
          ≡ some (registered a))
        ⊎ (update b.held id (some (registered b.next)) (with_value s.id_of b.next id a)
            ≡ some (leaving a (some a)))
  added-owned a v e = elim (Bool-cases (b.next == a)) [
    | inl q ↦ inl (ground (arith, q))
    | inr q ↦
        let f : b.object a ≡ some v = ground (arith, q, e) in
        elim (s.owned a v f) [
          | inl t ↦ inl (ground (arith, q, t, free))
          | inr t ↦ inr (ground (arith, q, t, free))
        ]
  ]

  pub added-IsSound : IsSound (added h id b)
  added-IsSound = record {
    id_of = with_value s.id_of b.next id;
    who = with_value s.who b.next h;
    keyed = (unknown, s.keyed);
    shown = added-shown;
    fits = added-Fits;
    owned = added-owned;
    fresh = λ a l. ground (arith, l, s.fresh a);
  }

-- Initialize failed: the object is no more, and its texture, if it was given one, leaves with none kept.
abbrev pub failed : Option ℕ → Books → Books
failed none b = record b { next = b.next + 1 }
failed (some id) b = record b {
  held = update b.held id (some (leaving b.next none));
  next = b.next + 1;
}

module _ (b : Books) (s : IsSound b) where
  pub none-failed-IsSound : IsSound (failed none b)
  none-failed-IsSound = record {
    id_of = s.id_of;
    who = s.who;
    keyed = s.keyed;
    shown = s.shown;
    fits = λ id t e. let (i, l, o) = s.fits id t e in (i, omega arith, Fits-next t o);
    owned = s.owned;
    fresh = λ a l. s.fresh a (omega arith);
  }
    where
      Fits-next : (t : Held) → Fits b s.id_of s.who t → Fits (failed none b) s.id_of s.who t
      Fits-next (registered a) o = o
      Fits-next (leaving a (some k)) o = o
      Fits-next (leaving a none) o = o

module _ (id : ℕ) (b : Books) (s : IsSound b) (free : b.held id ≡ none) where
  failed-shown :
      (k a : ℕ)
      → find b.outputs k ≡ some a
      → (b.object a ≡ some (live k (with_value s.id_of b.next id a)))
        × (update b.held id (some (leaving b.next none)) (with_value s.id_of b.next id a)
            ≡ some (registered a))
        × (s.who a ≡ k)
  failed-shown k a e = let (o, t, w) = s.shown k a e in ground (arith, o, t, w, s.fresh a, free)

  failed-Fits :
      (k : ℕ) (t : Held)
      → update b.held id (some (leaving b.next none)) k ≡ some t
      → (with_value s.id_of b.next id (owner t) ≡ k)
        × (owner t < b.next + 1)
        × Fits (failed (some id) b) (with_value s.id_of b.next id) s.who t
  failed-Fits k (registered a) e = elim (Bool-cases (id == k)) [
    | inl q ↦ ground (arith, q, e)
    | inr q ↦
        let f : b.held k ≡ some (registered a) = ground (arith, q, e) in
        let (i, l, (o, w)) = s.fits k (registered a) f in ground (arith, i, l, o, w)
  ]
  failed-Fits k (leaving a (some c)) e = elim (Bool-cases (id == k)) [
    | inl q ↦ ground (arith, q, e)
    | inr q ↦
        let f : b.held k ≡ some (leaving a (some c)) = ground (arith, q, e) in
        let (i, l, (o, w)) = s.fits k (leaving a (some c)) f in ground (arith, i, l, o, w)
  ]
  failed-Fits k (leaving a none) e = elim (Bool-cases (id == k)) [
    | inl q ↦ ground (arith, q, e, s.fresh b.next)
    | inr q ↦
        let f : b.held k ≡ some (leaving a none) = ground (arith, q, e) in
        let (i, l, o) = s.fits k (leaving a none) f in ground (arith, i, l, o)
  ]

  failed-owned :
      (a : ℕ) (v : Brief)
      → b.object a ≡ some v
      → (update b.held id (some (leaving b.next none)) (with_value s.id_of b.next id a)
          ≡ some (registered a))
        ⊎ (update b.held id (some (leaving b.next none)) (with_value s.id_of b.next id a)
            ≡ some (leaving a (some a)))
  failed-owned a v e = elim (s.owned a v e) [
    | inl t ↦ inl (ground (arith, e, t, s.fresh a, free))
    | inr t ↦ inr (ground (arith, e, t, s.fresh a, free))
  ]

  pub failed-IsSound : IsSound (failed (some id) b)
  failed-IsSound = record {
    id_of = with_value s.id_of b.next id;
    who = s.who;
    keyed = s.keyed;
    shown = failed-shown;
    fits = failed-Fits;
    owned = failed-owned;
    fresh = λ a l. s.fresh a (omega arith);
  }
