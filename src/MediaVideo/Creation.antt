-- ===== src/MediaVideo/Creation.antt =====
-- The invariant of the video plugin through Create, with each outcome of Initialize.
use Prim.Native.String.{String}
use mathlib.Core.Path.{subst}
use centroid_x.Common.{
  ℕ, ◌+◌, ◌≡◌, refl, sym, inl, inr, true, false, Option, none, some, arith, Bool-cases,
}
use centroid_x.Formats.{Formats}
use centroid_x.VideoGeometry.{Size}
use centroid_x.MediaVideo.{World, Video, registered, Registrar, update, gone, unregister}
use centroid_x.MediaVideo.Library.{Load, Linker, loaded, refused, mpv_api_for_process}
use centroid_x.MediaVideo.Output.{
  new, is_ok, refused_texture, context_error, create_context, initialize,
}
use centroid_x.MediaVideo.Plugin.{
  Plugin, Reply, success, find, keep_output, create_output, with_library, create, notify_resize,
}
use centroid_x.MediaVideo.Values.{Entries, requested_size}
use centroid_x.MediaVideo.Texture.{
  IsSound, added, added-IsSound, failed-IsSound, none-failed-IsSound,
}
use centroid_x.MediaVideo.Owned.{
  seen, books, IsValid, seen-update, IsFree, unheld-twice, released-twice,
}

-- The outcomes of Initialize.
initialize-none :
    (f : Formats) (w : World) (self : ℕ) (size : Size) (video : Video) (r : Registrar)
    → w.texture ≡ none
    → initialize f w self size video r
      ≡ ((record video { requested = size }, r), some refused_texture)
unfolding initialize
initialize-none f w self size video r e = ground (arith, e)

initialize-ok :
    (f : Formats) (w : World) (self : ℕ) (size : Size) (video : Video) (r : Registrar) (id : ℕ)
    → w.texture ≡ some id
    → is_ok w.context_status ≡ true
    → initialize f w self size video r ≡ (
      (
        record video { requested = size; texture_id = some id; context = true; watched = true },
        record r { held = update r.held id (some (registered self)) },
      ),
      none,
    )
unfolding initialize create_context
initialize-ok f w self size video r id e q = rw e (rw q refl)

pub initialize-failed :
    (f : Formats) (w : World) (self : ℕ) (size : Size) (video : Video) (r : Registrar) (id : ℕ)
    → w.texture ≡ some id
    → is_ok w.context_status ≡ false
    → initialize f w self size video r ≡ (
      (
        record video { requested = size; texture_id = none },
        unregister id none (record r { held = update r.held id (some (registered self)) }),
      ),
      some (context_error f w),
    )
unfolding initialize create_context
initialize-failed f w self size video r id e q = rw e (rw q refl)

pub nothing_there : (plugin : Plugin) → IsValid plugin → plugin.objects plugin.next ≡ none
nothing_there plugin s = unseen (plugin.objects plugin.next) (s.fresh plugin.next (omega arith))
  where
    unseen : (o : Option Video) → seen o ≡ none → o ≡ none
    unseen none e = refl
    unseen (some v) e = cc

none-kept :
    (w : World) (h : ℕ) (plugin : Plugin) (size : Size) (e : String)
    → IsValid plugin
    → IsValid
        (keep_output w h plugin.next
          ((record (new h) { requested = size }, plugin.registrar), some e)
          plugin).0
unfolding keep_output
none-kept w h plugin size e s =
    subst
      (λ o. IsSound (record (books plugin) { object = λ c. seen (o c); next = plugin.next + 1 }))
      (sym (released-twice plugin.objects plugin.next _ (nothing_there plugin s)))
      (none-failed-IsSound (books plugin) s)

failed-kept :
    (w : World) (h id : ℕ) (plugin : Plugin) (size : Size) (e : String)
    → IsValid plugin
    → plugin.registrar.held id ≡ none
    → IsValid
        (keep_output w h plugin.next
          (
            (
              record (new h) { requested = size; texture_id = none },
              unregister id none (record plugin.registrar {
                held = update plugin.registrar.held id (some (registered plugin.next));
              }),
            ),
            some e,
          )
          plugin).0
unfolding keep_output
failed-kept w h id plugin size e s free =
    subst
      (λ o. IsSound (record (books plugin) {
        object = λ c. seen (o c);
        held =
            update (update plugin.registrar.held id (some (registered plugin.next))) id
              (gone (update plugin.registrar.held id (some (registered plugin.next)) id) none);
        next = plugin.next + 1;
      }))
      (sym (released-twice plugin.objects plugin.next _ (nothing_there plugin s)))
      (subst (λ t. IsSound (record (books plugin) { held = t; next = plugin.next + 1 }))
        (sym (unheld-twice plugin.registrar.held id plugin.next))
        (failed-IsSound id (books plugin) s free))

ok-kept :
    (w : World) (h id : ℕ) (plugin : Plugin) (size : Size)
    → IsValid plugin
    → plugin.registrar.held id ≡ none
    → find plugin.outputs h ≡ none
    → IsValid
        (keep_output w h plugin.next
          (
            (
              record (new h) {
                requested = size;
                texture_id = some id;
                context = true;
                watched = true;
              },
              record plugin.registrar {
                held = update plugin.registrar.held id (some (registered plugin.next));
              },
            ),
            none,
          )
          plugin).0
unfolding keep_output notify_resize new
ok-kept w h id plugin size s free unknown =
    subst (λ o. IsSound (record (added h id (books plugin)) { object = o }))
      (sym (seen-update plugin.objects plugin.next _))
      (added-IsSound h id (books plugin) s unknown free)

create_output-IsValid :
    (f : Formats) (w : World) (h : ℕ) (arguments : Entries) (plugin : Plugin)
    → IsFree w plugin
    → find plugin.outputs h ≡ none
    → IsValid plugin
    → IsValid (create_output f w h arguments plugin).0
unfolding create_output
create_output-IsValid f w h arguments plugin free unknown s = by_cases w.texture refl
  where
    size : Size
    size = requested_size arguments

    kept : (Video × Registrar) × Option String → Type 0
    kept r = IsValid (keep_output w h plugin.next r plugin).0

    by_cases :
        (t : Option ℕ)
        → w.texture ≡ t
        → kept (initialize f w plugin.next (requested_size arguments) (new h) plugin.registrar)
    by_cases none e =
        subst kept (sym (initialize-none f w plugin.next size (new h) plugin.registrar e))
          (none-kept w h plugin size refused_texture s)
    by_cases (some id) e = elim (Bool-cases (is_ok w.context_status)) [
      | inl q ↦
          subst kept (sym (initialize-ok f w plugin.next size (new h) plugin.registrar id e q))
            (ok-kept w h id plugin size s (free id e) unknown)
      | inr q ↦
          subst kept (sym (initialize-failed f w plugin.next size (new h) plugin.registrar id e q))
            (failed-kept w h id plugin size (context_error f w) s (free id e))
    ]

with_library-IsValid :
    (f : Formats) (w : World) (h : ℕ) (arguments : Entries) (load : Load) (plugin : Plugin)
    → IsFree w plugin
    → find plugin.outputs h ≡ none
    → IsValid plugin
    → IsValid (with_library f w h arguments load plugin).0
unfolding with_library
with_library-IsValid f w h arguments (refused e) plugin free unknown s = s
with_library-IsValid f w h arguments (loaded api) plugin free unknown s =
    create_output-IsValid f w h arguments plugin free unknown s

pub create-IsValid :
    (f : Formats) (linker : Linker) (w : World) (h : ℕ) (arguments : Entries) (plugin : Plugin)
    → IsFree w plugin
    → IsValid plugin
    → IsValid (create f linker w h arguments plugin).0
unfolding create
create-IsValid f linker w h arguments plugin free s = by_cases (find plugin.outputs h) refl
  where
    answer : Option ℕ → Plugin × Reply
    answer o = elim o [
      | some a ↦ (plugin, success)
      | none ↦
          let (load, cached) = mpv_api_for_process linker plugin.api in
          with_library f w h arguments load (record plugin { api = cached })
    ]

    by_cases : (o : Option ℕ) → find plugin.outputs h ≡ o → IsValid (answer o).0
    by_cases none e =
        with_library-IsValid f w h arguments _
          (record plugin { api = (mpv_api_for_process linker plugin.api).1 }) free e s
    by_cases (some a) e = s
