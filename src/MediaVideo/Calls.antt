-- ===== src/MediaVideo/Calls.antt =====
-- What the calls of the video plugin answer.
use Prim.Native.String.{String}
use mathlib.Core.Path.{subst}
use centroid_x.Common.{ℕ, ◌≡◌, ◌≢◌, refl, sym, ap, ◌∙◌, true, false, Option, none, some, arith}
use centroid_x.Formats.{Formats}
use centroid_x.VideoGeometry.{Size}
use centroid_x.MediaVideo.{World, Video, Held, registered, Registrar, update, gone, unregister}
use centroid_x.MediaVideo.Library.{Load, Linker, MpvApi, loaded, refused, mpv_api_for_process}
use centroid_x.MediaVideo.Output.{new, is_ok, context_error}
use centroid_x.MediaVideo.Plugin.{
  Plugin, Reply, success, error, find, keep_output, create_output, with_library, create,
  notify_resize, dangling, ask_frame,
}
use centroid_x.MediaVideo.Values.{Entries, requested_size}
use centroid_x.MediaVideo.Owned.{IsFree}
use centroid_x.MediaVideo.Creation.{initialize-failed, create-IsValid}
use centroid_x.MediaVideo.Histories.{Reached, Reached-IsValid, is_dropped, ask_frame-IsSound}

create-unknown :
    (f : Formats) (linker : Linker) (w : World) (h : ℕ) (arguments : Entries) (p : Plugin)
    → find p.outputs h ≡ none
    → create f linker w h arguments p
      ≡ with_library f w h arguments
          (mpv_api_for_process linker p.api).0
          (record p { api = (mpv_api_for_process linker p.api).1 })
unfolding create
create-unknown f linker w h arguments p e = ground (arith, e)

create-known :
    (f : Formats) (linker : Linker) (w : World) (h a : ℕ) (arguments : Entries) (p : Plugin)
    → find p.outputs h ≡ some a
    → create f linker w h arguments p ≡ (p, success)
unfolding create
create-known f linker w h a arguments p e = ground (arith, e)

with_library-loaded :
    (f : Formats) (w : World) (h : ℕ) (arguments : Entries) (load : Load) (api : MpvApi)
    (p : Plugin)
    → load ≡ loaded api
    → with_library f w h arguments load p ≡ create_output f w h arguments p
unfolding with_library
with_library-loaded f w h arguments load api p e = rw e refl

module _ (w : World) (h self : ℕ) (p : Plugin) where
  kept-found :
      (r : (Video × Registrar) × Option String)
      → (keep_output w h self r p).1 ≡ success
      → find (keep_output w h self r p).0.outputs h ≡ some self
  unfolding keep_output find notify_resize
  kept-found ((video, registrar), none) e = ground arith
  kept-found ((video, registrar), some t) e = cc

  -- An error leaves the map, the messages and, where nothing was at `self`, the objects.
  pub kept-error :
      (r : (Video × Registrar) × Option String) (c m : String)
      → (keep_output w h self r p).1 ≡ error c m
      → p.objects self ≡ none
      → ((keep_output w h self r p).0.outputs ≡ p.outputs)
        × ((keep_output w h self r p).0.sent ≡ p.sent)
        × ((a : ℕ) → (keep_output w h self r p).0.objects a ≡ p.objects a)
  unfolding keep_output notify_resize
  kept-error ((video, registrar), none) c m e n = absurd (cc)
  kept-error ((video, registrar), some t) c m e n = (refl, refl, λ a. ground (arith, n))

abbrev Found : ℕ → Plugin → Type 0
Found h p = (a : ℕ) × (find p.outputs h ≡ some a)

library-Found :
    (f : Formats) (w : World) (h : ℕ) (arguments : Entries) (load : Load) (p : Plugin)
    → (with_library f w h arguments load p).1 ≡ success
    → Found h (with_library f w h arguments load p).0
unfolding with_library create_output
library-Found f w h arguments (refused t) p e = absurd (cc)
library-Found f w h arguments (loaded api) p e = (p.next, kept-found w h p.next p _ e)

create-Found :
    (f : Formats) (linker : Linker) (w : World) (h : ℕ) (arguments : Entries) (p : Plugin)
    (o : Option ℕ)
    → find p.outputs h ≡ o
    → (create f linker w h arguments p).1 ≡ success
    → Found h (create f linker w h arguments p).0
create-Found f linker w h arguments p (some a) i e = (
  a,
  ap (λ (r : Plugin × Reply). find r.0.outputs h) (create-known f linker w h a arguments p i) ∙ i,
)
create-Found f linker w h arguments p none i e =
    subst (λ (r : Plugin × Reply). Found h r.0) (sym (create-unknown f linker w h arguments p i))
      (library-Found f w h arguments _ _
        (sym (ap (λ (r : Plugin × Reply). r.1) (create-unknown f linker w h arguments p i)) ∙ e))

-- A Create that succeeds, for a handle that the map may or may not hold, leaves an output under that
-- handle, and a second Create of the handle then changes nothing and succeeds, whatever the library, the
-- registrar, mpv and the arguments are.
pub create_idem :
    (f : Formats) (linker linker' : Linker) (w w' : World) (h : ℕ) (arguments arguments' : Entries)
    (p : Plugin)
    → (create f linker w h arguments p).1 ≡ success
    → let q = (create f linker w h arguments p).0 in
      (find q.outputs h ≢ none) × (create f linker' w' h arguments' q ≡ (q, success))
create_idem f linker linker' w w' h arguments arguments' p e =
    let q = (create f linker w h arguments p).0 in
    let (a, known) = create-Found f linker w h arguments p (find p.outputs h) refl e in
    ((λ (n : find q.outputs h ≡ none). cc), create-known f linker' w' h a arguments' q known)

-- What Create does when the context is refused.
abbrev refused_context : Formats → World → ℕ → ℕ → Size → Option Load → Plugin → Plugin × Reply
refused_context f w h id size cached p =
    keep_output w h p.next
      (
        (
          record (new h) { requested = size; texture_id = none },
          unregister id none
              (record p.registrar { held = update p.registrar.held id (some (registered p.next)) }),
        ),
        some (context_error f w),
      )
      (record p { api = cached })

create-refused :
    (f : Formats) (linker : Linker) (w : World) (h id : ℕ) (arguments : Entries) (api : MpvApi)
    (p : Plugin)
    → find p.outputs h ≡ none
    → (mpv_api_for_process linker p.api).0 ≡ loaded api
    → w.texture ≡ some id
    → is_ok w.context_status ≡ false
    → create f linker w h arguments p
      ≡ refused_context f w h id (requested_size arguments) (mpv_api_for_process linker p.api).1 p
unfolding create_output
create-refused f linker w h id arguments api p unknown load texture refusal =
    create-unknown f linker w h arguments p unknown
    ∙ (with_library-loaded f w h arguments _ api _ load
        ∙ ap
            (λ (r : (Video × Registrar) × Option String).
              keep_output w h p.next r (record p { api = (mpv_api_for_process linker p.api).1 }))
            (initialize-failed f w p.next (requested_size arguments) (new h) p.registrar id texture
              refusal))

given_back :
    (held : ℕ → Option Held) (id a : ℕ)
    → is_dropped (
        update
          (update held id (some (registered a)))
          id
          (gone (update held id (some (registered a)) id) none)
          id)
      ≡ true
given_back held id a = ground arith

only-IsFree :
    (w : World) (p : Plugin) (id : ℕ)
    → w.texture ≡ some id
    → p.registrar.held id ≡ none
    → IsFree w p
only-IsFree w p id texture free k e = ground (arith, texture, free, e)

-- In every history, for a handle that is not in the map and with libmpv loaded: when the context is
-- refused after the texture was registered, Create answers with the error, and a frame asked of the
-- texture then reads an object that is no more.
pub create-dropped :
    (f : Formats) (linker : Linker) (w w' : World) (h id : ℕ) (arguments : Entries) (api : MpvApi)
    (p : Plugin)
    → Reached f p
    → find p.outputs h ≡ none
    → (mpv_api_for_process linker p.api).0 ≡ loaded api
    → w.texture ≡ some id
    → p.registrar.held id ≡ none
    → is_ok w.context_status ≡ false
    → ((create f linker w h arguments p).1 ≡ error "video-output-unavailable" (context_error f w))
      × ((ask_frame w' id (create f linker w h arguments p).0).1 ≡ dangling)
unfolding keep_output
create-dropped f linker w w' h id arguments api p r unknown load texture free refusal =
    let valid = Reached-IsValid f p r in
    let created = create-refused f linker w h id arguments api p unknown load texture refusal in
    let s = create-IsValid f linker w h arguments p (only-IsFree w p id texture free) valid in
    (
      ap (λ (q : Plugin × Reply). q.1) created,
      (ask_frame-IsSound (create f linker w h arguments p).0 w' id s).0.1 (
          ap (λ (q : Plugin × Reply). is_dropped (q.0.registrar.held id)) created
          ∙ given_back p.registrar.held id p.next),
    )
