-- ===== src/MediaVideo/Errors.antt =====
-- A call of the video plugin that is answered with an error.
use Prim.Native.String.{String}
use centroid_x.Common.{ℕ, ◌≡◌, refl, Bool, true, false, Option, none, some, if◌then◌else◌, arith}
use centroid_x.Formats.{Formats}
use centroid_x.MediaVideo.{World}
use centroid_x.MediaVideo.Library.{Load, Linker, loaded, refused, mpv_api_for_process}
use centroid_x.MediaVideo.Output.{new, initialize}
use centroid_x.MediaVideo.Plugin.{
  Plugin, Reply, success, error, no_output, no_handle, find, create_output, with_library, create,
  set_size, dispose, resize_output, handle_method, handle_call,
}
use centroid_x.MediaVideo.Values.{
  Value, map, phrase, other, Entries, int_at, size_at, requested_size,
}
use centroid_x.MediaVideo.Creation.{nothing_there}
use centroid_x.MediaVideo.Histories.{Reached, Reached-IsValid}
use centroid_x.MediaVideo.Calls.{kept-error}

-- The map, the messages sent and the objects are the same.
pub record IsUnchanged (p q : Plugin) : Type 0 where
  pub outputs : q.outputs ≡ p.outputs
  pub sent : q.sent ≡ p.sent
  pub objects : (a : ℕ) → q.objects a ≡ p.objects a

abbrev unchanged : (p : Plugin) → IsUnchanged p p
unchanged p = record { outputs = refl; sent = refl; objects = λ a. refl }

abbrev Refused : Plugin → Plugin × Reply → Type 0
Refused p r = (c m : String) → r.1 ≡ error c m → IsUnchanged p r.0

with_library-Refused :
    (f : Formats) (w : World) (h : ℕ) (arguments : Entries) (load : Load) (cached : Option Load)
    (p : Plugin)
    → p.objects p.next ≡ none
    → Refused p (with_library f w h arguments load (record p { api = cached }))
unfolding with_library create_output
with_library-Refused f w h arguments (refused t) cached p n c m e = record {
  outputs = refl;
  sent = refl;
  objects = λ a. refl;
}
with_library-Refused f w h arguments (loaded api) cached p n c m e =
    let (o, s, k) =
      kept-error w h p.next (record p { api = cached })
        (initialize f w p.next (requested_size arguments) (new h) p.registrar) c m e n in
    record { outputs = o; sent = s; objects = k }

create-Refused :
    (f : Formats) (linker : Linker) (w : World) (h : ℕ) (arguments : Entries) (p : Plugin)
    → p.objects p.next ≡ none
    → Refused p (create f linker w h arguments p)
unfolding create
create-Refused f linker w h arguments p n = by_cases (find p.outputs h)
  where
    by_cases :
        (o : Option ℕ)
        → Refused p (elim o as (λ _. Plugin × Reply) [
          | some a ↦ (p, success)
          | none ↦
              let (load, cached) = mpv_api_for_process linker p.api in
              with_library f w h arguments load (record p { api = cached })
        ])
    by_cases none = with_library-Refused f w h arguments _ (mpv_api_for_process linker p.api).1 p n
    by_cases (some a) = λ c m e. unchanged p

set_size-Refused :
    (w : World) (h : ℕ) (arguments : Entries) (p : Plugin) → Refused p (set_size w h arguments p)
unfolding set_size
set_size-Refused w h arguments p = by_cases (find p.outputs h)
  where
    by_cases :
        (o : Option ℕ)
        → Refused p (elim o as (λ _. Plugin × Reply) [
          | none ↦ (p, no_output)
          | some a ↦ (resize_output w h a (size_at arguments) p, success)
        ])
    by_cases none = λ c m e. unchanged p
    by_cases (some a) = λ c m e. absurd (cc)

-- Dispose never answers with an error.
dispose-success : (h : ℕ) (p : Plugin) → (dispose h p).1 ≡ success
unfolding dispose
dispose-success h p = ground arith

dispose-Refused : (h : ℕ) (p : Plugin) → Refused p (dispose h p)
dispose-Refused h p c m e = absurd (cc (dispose-success h p))

if-Refused :
    (p : Plugin) (b : Bool) (x y : Plugin × Reply)
    → Refused p x
    → Refused p y
    → Refused p (if b then x else y)
if-Refused p true x y s t = s
if-Refused p false x y s t = t

handle_method-Refused :
    (f : Formats) (linker : Linker) (w : World) (method : String) (h : ℕ) (arguments : Entries)
    (p : Plugin)
    → p.objects p.next ≡ none
    → Refused p (handle_method f linker w method h arguments p)
unfolding handle_method
handle_method-Refused f linker w method h arguments p n =
    if-Refused p _ _ _ (create-Refused f linker w h arguments p n) (
      if-Refused p _ _ _ (set_size-Refused w h arguments p)
        (if-Refused p _ _ _ (dispose-Refused h p) (λ c m e. unchanged p)))

call-Refused :
    (f : Formats) (linker : Linker) (w : World) (method : String) (arguments : Option Value)
    (p : Plugin)
    → p.objects p.next ≡ none
    → Refused p (handle_call f linker w method arguments p)
unfolding handle_call
call-Refused f linker w method (some (map arguments)) p n = by_cases (int_at arguments "handle")
  where
    by_cases :
        (o : Option ℕ)
        → Refused p (elim o as (λ _. Plugin × Reply) [
          | none ↦ (p, no_handle)
          | some h ↦ handle_method f linker w method h arguments p
        ])
    by_cases none = λ c m e. unchanged p
    by_cases (some h) = handle_method-Refused f linker w method h arguments p n
call-Refused f linker w method (some (phrase text)) p n = λ c m e. unchanged p
call-Refused f linker w method (some other) p n = λ c m e. unchanged p
call-Refused f linker w method none p n = λ c m e. unchanged p

-- In every history, a call that is answered with an error, whichever the error, leaves the map of the
-- outputs, the objects and the messages as they were.
pub handle_call-error :
    (f : Formats) (linker : Linker) (w : World) (method : String) (arguments : Option Value)
    (p : Plugin) (code message : String)
    → Reached f p
    → (handle_call f linker w method arguments p).1 ≡ error code message
    → IsUnchanged p (handle_call f linker w method arguments p).0
handle_call-error f linker w method arguments p code message r e =
    call-Refused f linker w method arguments p (nothing_there p (Reached-IsValid f p r)) code
      message e
