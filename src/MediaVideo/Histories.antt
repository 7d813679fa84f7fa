-- ===== src/MediaVideo/Histories.antt =====
-- Histories of the video plugin: calls of the channel, frames asked by the render thread, updates of mpv,
-- completions of an unregistration and the destructor, in any order.
use Prim.Native.String.{String}
use mathlib.Core.Path.{subst}
use centroid_x.Common.{
  ℕ, ◌≡◌, ◌≢◌, ◌↔◌, refl, sym, ap, ◌∙◌, ◌⊎◌, inl, inr, Bool, true, false, ◌&&◌, List, [], Option,
  none, some, arith,
}
use centroid_x.Formats.{Formats}
use centroid_x.MediaVideo.{World, Video, Held, owner, registered, leaving, update}
use centroid_x.MediaVideo.Library.{Linker}
use centroid_x.MediaVideo.Output.{copy_pixel_buffer}
use centroid_x.MediaVideo.Plugin.{
  Plugin, find, Asked, not_held, dangling, answered, ask_object, ask_frame, mpv_update,
  unregistered, handle_call, destroyed,
}
use centroid_x.MediaVideo.Values.{Value}
use centroid_x.MediaVideo.Texture.{Brief, live, stopped}
use centroid_x.MediaVideo.Owned.{
  brief, seen, IsValid, IsFree, ask_frame-IsValid, mpv_update-IsValid,
}
use centroid_x.MediaVideo.Called.{handle_call-IsValid, destroyed-IsValid, unregistered-IsValid}

-- The registrar gives a texture an id that it does not hold.
pub data Step (f : Formats) : Plugin → Plugin → Type 0 where
  called :
      (linker : Linker) (w : World) (method : String) (arguments : Option Value) (p : Plugin)
      → IsFree w p
      → Step f p (handle_call f linker w method arguments p).0
  asked : (w : World) (id : ℕ) (p : Plugin) → Step f p (ask_frame w id p).0
  updated : (a : ℕ) (p : Plugin) → Step f p (mpv_update a p)
  completed : (id : ℕ) (p : Plugin) → Step f p (unregistered id p)
  closed : (p : Plugin) → Step f p (destroyed p)

abbrev pub started : Plugin
started = record {
  outputs = [];
  objects = λ a. none;
  next = 0;
  registrar = record { held = λ id. none; marks = [] };
  api = none;
  sent = [];
}

pub data Reached (f : Formats) : Plugin → Type 0 where
  here : Reached f started
  next : {p q : Plugin} → Reached f p → Step f p q → Reached f q

started-IsValid : IsValid started
unfolding find
started-IsValid = record {
  id_of = λ a. a;
  who = λ a. a;
  keyed = tt;
  shown = λ h a e. cc;
  fits = λ id t e. cc;
  owned = λ a v e. cc;
  fresh = λ a l. refl;
}

Step-IsValid : (f : Formats) (p q : Plugin) → Step f p q → IsValid p → IsValid q
Step-IsValid f _ _ (called linker w method arguments p free) s =
    handle_call-IsValid f linker w method arguments p free s
Step-IsValid f _ _ (asked w id p) s = ask_frame-IsValid w id p s
Step-IsValid f _ _ (updated a p) s = mpv_update-IsValid a p s
Step-IsValid f _ _ (completed id p) s = unregistered-IsValid id p s
Step-IsValid f _ _ (closed p) s = destroyed-IsValid p s

pub Reached-IsValid : (f : Formats) (p : Plugin) → Reached f p → IsValid p
Reached-IsValid f _ here = started-IsValid
Reached-IsValid f _ (next {p} {q} r step) = Step-IsValid f p q step (Reached-IsValid f p r)

-- A texture given back without an object to keep.
abbrev pub is_dropped : Option Held → Bool
is_dropped (some (leaving a none)) = true
is_dropped _ = false

abbrev pub is_withdrawn : Option Held → Bool
is_withdrawn (some (leaving a (some k))) = true
is_withdrawn _ = false

-- No frame, and no call of mpv.
abbrev pub is_quiet : Asked → Bool
is_quiet (answered copied) =
    elim copied.render [ none ↦ true | some r ↦ false ]
    && elim copied.frame [ none ↦ true | some size ↦ false ]
is_quiet _ = false

abbrev answer_of : World → Option Video → Asked
answer_of w none = dangling
answer_of w (some video) = answered (copy_pixel_buffer w video)

asked-object : (w : World) (a : ℕ) (p : Plugin) → (ask_object w a p).1 ≡ answer_of w (p.objects a)
unfolding ask_object
asked-object w a p =
    elim (p.objects a)
      as (λ o.
        (elim o as (λ _. Plugin × Asked) [
          | none ↦ (p, dangling)
          | some video ↦ (
            record p { objects = update p.objects a (some (copy_pixel_buffer w video).video) },
            answered (copy_pixel_buffer w video),
          )
        ]).1
        ≡ answer_of w o) [ none ↦ refl | some video ↦ refl ]

abbrev asked_of : World → Plugin → Option Held → Asked
asked_of w p none = not_held
asked_of w p (some t) = answer_of w (p.objects (owner t))

asked-frame :
    (w : World) (id : ℕ) (p : Plugin) → (ask_frame w id p).1 ≡ asked_of w p (p.registrar.held id)
unfolding ask_frame
asked-frame w id p =
    elim (p.registrar.held id)
      as (λ t.
        (elim t as (λ _. Plugin × Asked) [
          | none ↦ (p, not_held)
          | some t ↦ ask_object w (owner t) p
        ]).1
        ≡ asked_of w p t) [ none ↦ refl | some t ↦ asked-object w (owner t) p ]

halted-quiet :
    (w : World) (o : Option Video) (h : ℕ)
    → seen o ≡ some (stopped h)
    → is_quiet (answer_of w o) ≡ true
unfolding copy_pixel_buffer
halted-quiet w none h e = cc
halted-quiet w (some v) h e = let down : v.shut_down ≡ true = ground (arith, e) in rw down refl

alive : (w : World) (o : Option Video) (v : Brief) → seen o ≡ some v → answer_of w o ≢ dangling
alive w none v e d = cc
alive w (some u) v e d = cc

unseen : (w : World) (o : Option Video) → seen o ≡ none → answer_of w o ≡ dangling
unseen w none e = refl
unseen w (some v) e = cc

asked-Held :
    (w : World) (id : ℕ) (p : Plugin) (s : IsValid p) (t : Option Held)
    → p.registrar.held id ≡ t
    → ((asked_of w p t ≡ dangling) ↔ (is_dropped t ≡ true))
      × (is_withdrawn t ≡ true → is_quiet (asked_of w p t) ≡ true)
asked-Held w id p s none e = ((λ d. cc, λ d. cc), λ d. cc)
asked-Held w id p s (some (registered a)) e =
    let (i, l, (o, q)) = s.fits id (registered a) e in
    ((λ d. absurd (alive w (p.objects a) _ o d), λ d. cc), λ d. cc)
asked-Held w id p s (some (leaving a none)) e =
    let (i, l, o) = s.fits id (leaving a none) e in
    ((λ d. refl, λ d. unseen w (p.objects a) o), λ d. cc)
asked-Held w id p s (some (leaving a (some k))) e =
    let (i, l, (q, o)) = s.fits id (leaving a (some k)) e in
    (
      (λ d. absurd (alive w (p.objects a) _ o d), λ d. cc),
      λ d. halted-quiet w (p.objects a) (s.who a) o,
    )

abbrev DanglesWhenDropped : World → ℕ → Plugin → Asked → Type 0
DanglesWhenDropped w id p x =
    ((x ≡ dangling) ↔ (is_dropped (p.registrar.held id) ≡ true))
    × (is_withdrawn (p.registrar.held id) ≡ true → is_quiet x ≡ true)

pub ask_frame-IsSound :
    (p : Plugin) (w : World) (id : ℕ)
    → IsValid p
    → (((ask_frame w id p).1 ≡ dangling) ↔ (is_dropped (p.registrar.held id) ≡ true))
      × (is_withdrawn (p.registrar.held id) ≡ true → is_quiet (ask_frame w id p).1 ≡ true)
ask_frame-IsSound p w id s =
    subst (DanglesWhenDropped w id p) (sym (asked-frame w id p))
      (asked-Held w id p s (p.registrar.held id) refl)

-- In every history, a frame that is asked of a texture reads an object that is no more exactly when
-- the texture was given back without an object to keep; and of a texture that leaves with its object
-- kept, no frame is returned and mpv is not called.
pub ask_frame-dangling :
    (f : Formats) (p : Plugin) (w : World) (id : ℕ)
    → Reached f p
    → (((ask_frame w id p).1 ≡ dangling) ↔ (is_dropped (p.registrar.held id) ≡ true))
      × (is_withdrawn (p.registrar.held id) ≡ true → is_quiet (ask_frame w id p).1 ≡ true)
ask_frame-dangling f p w id r = ask_frame-IsSound p w id (Reached-IsValid f p r)

live-facts :
    (v : Video) (h id : ℕ)
    → some (brief v) ≡ some (live h id)
    → (v.handle ≡ h) × (v.texture_id ≡ some id) × (v.shut_down ≡ false)
live-facts v h id e = ground (arith, e)

stopped-facts :
    (v : Video) (h : ℕ)
    → some (brief v) ≡ some (stopped h)
    → (v.texture_id ≡ none) × (v.shut_down ≡ true)
stopped-facts v h e = ground (arith, e)

-- In every history, an object is either that of its player in the map, not shut down and with a
-- registered texture that reads it; or it is shut down, has no texture, and the closure of a texture that
-- leaves keeps it.
pub Reached-owned :
    (f : Formats) (p : Plugin) (a : ℕ) (v : Video)
    → Reached f p
    → p.objects a ≡ some v
    → ((find p.outputs v.handle ≡ some a)
        × (v.shut_down ≡ false)
        × ((id : ℕ) × (v.texture_id ≡ some id) × (p.registrar.held id ≡ some (registered a))))
      ⊎ ((v.shut_down ≡ true)
          × (v.texture_id ≡ none)
          × ((id : ℕ) × (p.registrar.held id ≡ some (leaving a (some a)))))
Reached-owned f p a v r e =
    let s = Reached-IsValid f p r in
    elim (s.owned a (brief v) (ap seen e)) [
      | inl t ↦
          let (i, l, (o, q)) = s.fits (s.id_of a) (registered a) t in
          let (h, x, d) = live-facts v (s.who a) (s.id_of a) (ap seen (sym e) ∙ o) in
          inl (ap (λ (k : ℕ). find p.outputs k) h ∙ q, d, (s.id_of a, x, t))
      | inr t ↦
          let (i, l, (q, o)) = s.fits (s.id_of a) (leaving a (some a)) t in
          let (x, d) = stopped-facts v (s.who a) (ap seen (sym e) ∙ o) in inr (d, x, (s.id_of a, t))
    ]

destroyed-outputs : (p : Plugin) → (destroyed p).outputs ≡ []
unfolding destroyed
destroyed-outputs p = refl

-- After the destructor, in every history, no texture is registered, and each object that is left is
-- shut down.
pub destroyed_lem :
    (f : Formats) (p : Plugin)
    → Reached f p
    → ((id a : ℕ) → (destroyed p).registrar.held id ≢ some (registered a))
      × ((a : ℕ) (v : Video) → (destroyed p).objects a ≡ some v → v.shut_down ≡ true)
unfolding find
destroyed_lem f p r =
    let after = next r (closed p) in
    let s = Reached-IsValid f (destroyed p) after in
    (
      λ id a t.
          let (i, l, (o, q)) = s.fits id (registered a) t in
          let none_found : find (destroyed p).outputs (s.who a) ≡ none =
            ap (λ (l : List (ℕ × ℕ)). find l (s.who a)) (destroyed-outputs p) in
          cc,
      λ a v e. elim (Reached-owned f (destroyed p) a v after e) [
        | inl (q, d, t) ↦
            let none_found : find (destroyed p).outputs v.handle ≡ none =
              ap (λ (l : List (ℕ × ℕ)). find l v.handle) (destroyed-outputs p) in
            cc
        | inr (d, x, t) ↦ d
      ],
    )
