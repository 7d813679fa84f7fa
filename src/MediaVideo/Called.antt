-- ===== src/MediaVideo/Called.antt =====
-- The calls of the video plugin keep its invariant, and so do the completion of an unregistration and the
-- destructor.
use Prim.Native.String.{String}
use mathlib.Core.Path.{subst, fun_ext}
use centroid_x.Common.{
  ℕ, ◌≡◌, refl, sym, Bool, true, false, List, [], ◌∷◌, Option, none, some, if◌then◌else◌, arith,
}
use centroid_x.Formats.{Formats}
use centroid_x.MediaVideo.{World, Video, Held, registered, leaving, update}
use centroid_x.MediaVideo.Library.{Linker}
use centroid_x.MediaVideo.Output.{shutdown}
use centroid_x.MediaVideo.Plugin.{
  Plugin, no_handle, no_output, Reply, success, find, erase, resize_output, shut_output, shut_all,
  destroyed, unregistered, released, forgotten, set_size, dispose, handle_method, handle_call,
}
use centroid_x.MediaVideo.Values.{Value, map, phrase, other, int_at, size_at, Entries}
use centroid_x.MediaVideo.Texture.{IsSound}
use centroid_x.MediaVideo.Leaving.{find-erase, erase-IsKeyed, done-IsSound, forgot-IsSound}
use centroid_x.MediaVideo.Owned.{books, IsValid, seen-update, IsFree, resize_output-IsValid}
use centroid_x.MediaVideo.Creation.{create-IsValid}
use centroid_x.MediaVideo.Stopping.{shut_output-IsValid}

shut_output-outputs :
    (a : ℕ) (plugin : Plugin) (outputs : List (ℕ × ℕ))
    → shut_output a (record plugin { outputs = outputs })
      ≡ record (shut_output a plugin) { outputs = outputs }
unfolding shut_output
shut_output-outputs a plugin outputs =
    elim (plugin.objects a)
      as (λ o.
        at_object_as o (record plugin { outputs = outputs })
        ≡ record (at_object_as o plugin) { outputs = outputs }) [ none ↦ refl | some video ↦ refl ]
  where
    at_object_as : Option Video → Plugin → Plugin
    at_object_as o p = elim o [
      | none ↦ p
      | some video ↦
          let (stopped_video, registrar) = shutdown (some a) video p.registrar in
          record p { objects = update p.objects a (some stopped_video); registrar = registrar }
    ]

dispose-IsValid : (h : ℕ) (plugin : Plugin) → IsValid plugin → IsValid (dispose h plugin).0
unfolding dispose
dispose-IsValid h plugin s = by_cases (find plugin.outputs h) refl
  where
    answer : Option ℕ → Plugin × Reply
    answer o = elim o [
      | none ↦ (plugin, success)
      | some a ↦ (shut_output a (record plugin { outputs = erase h plugin.outputs }), success)
    ]

    by_cases : (o : Option ℕ) → find plugin.outputs h ≡ o → IsValid (answer o).0
    by_cases none e = s
    by_cases (some a) e =
        subst IsValid (sym (shut_output-outputs a plugin (erase h plugin.outputs))) (
          shut_output-IsValid h a plugin s (erase h plugin.outputs) e
            (erase-IsKeyed h plugin.outputs s.keyed) (λ k. find-erase h k plugin.outputs))

set_size-IsValid :
    (w : World) (h : ℕ) (arguments : Entries) (plugin : Plugin)
    → IsValid plugin
    → IsValid (set_size w h arguments plugin).0
unfolding set_size
set_size-IsValid w h arguments plugin s = by_cases (find plugin.outputs h)
  where
    answer : Option ℕ → Plugin × Reply
    answer o = elim o [
      | none ↦ (plugin, no_output)
      | some a ↦ (resize_output w h a (size_at arguments) plugin, success)
    ]

    by_cases : (o : Option ℕ) → IsValid (answer o).0
    by_cases none = s
    by_cases (some a) = resize_output-IsValid w h a (size_at arguments) plugin s

if-IsValid :
    (b : Bool) (x y : Plugin × Reply) → IsValid x.0 → IsValid y.0 → IsValid (if b then x else y).0
if-IsValid true x y s t = s
if-IsValid false x y s t = t

handle_method-IsValid :
    (f : Formats) (linker : Linker) (w : World) (method : String) (h : ℕ) (arguments : Entries)
    (plugin : Plugin)
    → IsFree w plugin
    → IsValid plugin
    → IsValid (handle_method f linker w method h arguments plugin).0
unfolding handle_method
handle_method-IsValid f linker w method h arguments plugin free s =
    if-IsValid _ _ _ (create-IsValid f linker w h arguments plugin free s) (
      if-IsValid _ _ _ (set_size-IsValid w h arguments plugin s)
        (if-IsValid _ _ _ (dispose-IsValid h plugin s) s))

pub handle_call-IsValid :
    (f : Formats) (linker : Linker) (w : World) (method : String) (arguments : Option Value)
    (plugin : Plugin)
    → IsFree w plugin
    → IsValid plugin
    → IsValid (handle_call f linker w method arguments plugin).0
unfolding handle_call
handle_call-IsValid f linker w method (some (map arguments)) plugin free s =
    by_cases (int_at arguments "handle")
  where
    answer : Option ℕ → Plugin × Reply
    answer o = elim o [
      | none ↦ (plugin, no_handle)
      | some h ↦ handle_method f linker w method h arguments plugin
    ]

    by_cases : (o : Option ℕ) → IsValid (answer o).0
    by_cases none = s
    by_cases (some h) = handle_method-IsValid f linker w method h arguments plugin free s
handle_call-IsValid f linker w method (some (phrase text)) plugin free s = s
handle_call-IsValid f linker w method (some other) plugin free s = s
handle_call-IsValid f linker w method none plugin free s = s

shut_all-IsValid :
    (outputs : List (ℕ × ℕ)) (plugin : Plugin)
    → IsValid (record plugin { outputs = outputs })
    → IsValid (record (shut_all outputs plugin) { outputs = [] })
unfolding shut_all find
shut_all-IsValid [] plugin s = s
shut_all-IsValid ((h, a) ∷ outputs) plugin s =
    let whole : Plugin = record plugin { outputs = (h, a) ∷ outputs } in
    shut_all-IsValid outputs (shut_output a plugin) (
      subst (λ (p : Plugin). IsValid (record p { outputs = outputs }))
        (shut_output-outputs a plugin ((h, a) ∷ outputs))
        (shut_output-IsValid h a whole s outputs (ground arith) s.keyed.1
          (λ k. ground (arith, s.keyed.0))))

pub destroyed-IsValid : (plugin : Plugin) → IsValid plugin → IsValid (destroyed plugin)
unfolding destroyed
destroyed-IsValid plugin s = shut_all-IsValid plugin.outputs plugin s

same_entry :
    (held : ℕ → Option Held) (id : ℕ) (t : Option Held) → held id ≡ t → update held id t ≡ held
same_entry held id t e = fun_ext λ k. ground (arith, e)

unregister-cases :
    (id : ℕ) (plugin : Plugin) (s : IsValid plugin) (t : Option Held)
    → plugin.registrar.held id ≡ t
    → IsValid (
        released t (record plugin {
          registrar = record plugin.registrar {
            held = update plugin.registrar.held id (forgotten t);
          };
        }))
unregister-cases id plugin s none e =
    subst (λ held. IsSound (record (books plugin) { held = held }))
      (sym (same_entry plugin.registrar.held id none e)) s
unregister-cases id plugin s (some (registered a)) e =
    subst (λ held. IsSound (record (books plugin) { held = held }))
      (sym (same_entry plugin.registrar.held id (some (registered a)) e)) s
unregister-cases id plugin s (some (leaving a none)) e = forgot-IsSound id a (books plugin) s e
unregister-cases id plugin s (some (leaving a (some k))) e =
    let (i, l, (q, p)) = s.fits id (leaving a (some k)) e in
    subst
      (λ object.
        IsSound
          (record (books plugin) { object = object; held = update plugin.registrar.held id none }))
      (sym (seen-update plugin.objects k none))
      (done-IsSound id k (books plugin) s
        (subst (λ c. plugin.registrar.held id ≡ some (leaving c (some k))) (sym q) e))

pub unregistered-IsValid :
    (id : ℕ) (plugin : Plugin) → IsValid plugin → IsValid (unregistered id plugin)
unfolding unregistered
unregistered-IsValid id plugin s = unregister-cases id plugin s (plugin.registrar.held id) refl
