-- ===== src/MediaVideo/Owned.antt =====
-- Each step of the video plugin keeps the invariant of its objects.
use mathlib.Core.Path.{subst, fun_ext}
use centroid_x.Common.{
  ℕ, ◌≡◌, refl, sym, inl, inr, true, false, Option, none, some, ◌==◌, if◌then◌else◌, arith,
  Bool-cases,
}
use centroid_x.VideoGeometry.{Size}
use centroid_x.MediaVideo.{World, Video, Held, owner, registered, leaving, Registrar, update, gone}
use centroid_x.MediaVideo.Output.{set_requested_size, on_mpv_render_update, copy_pixel_buffer}
use centroid_x.MediaVideo.Plugin.{
  Plugin, Asked, not_held, dangling, answered, at_object, resize_output, notify_resize, ask_object,
  ask_frame, mpv_update,
}
use centroid_x.MediaVideo.Texture.{Brief, Books, IsSound}

abbrev pub brief : Video → Brief
brief video = record {
  handle = video.handle;
  texture_id = video.texture_id;
  shut_down = video.shut_down;
  context = video.context;
}

abbrev pub seen : Option Video → Option Brief
seen none = none
seen (some video) = some (brief video)

abbrev pub books : Plugin → Books
books plugin = record {
  outputs = plugin.outputs;
  object = λ a. seen (plugin.objects a);
  held = plugin.registrar.held;
  next = plugin.next;
}

abbrev pub IsValid : Plugin → Type 0
IsValid plugin = IsSound (books plugin)

pub seen-update :
    (objects : ℕ → Option Video) (a : ℕ) (v : Option Video)
    → ◌≡◌ {A = ℕ → Option Brief}
        (λ c. seen (update objects a v c))
        (update (λ c. seen (objects c)) a (seen v))
seen-update objects a v = fun_ext λ c. ground arith

-- A write that the invariant does not see.
same_object :
    (objects : ℕ → Option Video) (a : ℕ) (v v' : Video)
    → objects a ≡ some v
    → brief v' ≡ brief v
    → ◌≡◌ {A = ℕ → Option Brief} (λ c. seen (update objects a (some v') c)) (λ c. seen (objects c))
same_object objects a v v' e q =
    fun_ext λ c. elim (Bool-cases (a == c)) [
      | inl i ↦ ground (arith, i, e, q)
      | inr i ↦ ground (arith, i)
    ]

abbrev pub with_object : Plugin → (ℕ → Option Brief) → Books
with_object plugin object = record (books plugin) { object = object }

pub at_object-P :
    (P : Plugin → Type 0) (plugin : Plugin) (a : ℕ) (k : Video → Plugin)
    → P plugin
    → ((video : Video) → plugin.objects a ≡ some video → P (k video))
    → P (at_object plugin a k)
at_object-P P plugin a k p q = by_cases (plugin.objects a) refl
  where
    by_cases :
        (o : Option Video)
        → plugin.objects a ≡ o
        → P (elim o [ none ↦ plugin | some video ↦ k video ])
    by_cases none e = p
    by_cases (some video) e = q video e

-- An object that is written and looks the same to the invariant.
pub rewritten-IsValid :
    (plugin : Plugin) (a : ℕ) (v v' : Video)
    → plugin.objects a ≡ some v
    → brief v' ≡ brief v
    → IsValid plugin
    → IsSound (with_object plugin (λ c. seen (update plugin.objects a (some v') c)))
rewritten-IsValid plugin a v v' e q s =
    subst (λ o. IsSound (with_object plugin o)) (sym (same_object plugin.objects a v v' e q)) s

pub resize_output-IsValid :
    (w : World) (h a : ℕ) (size : Size) (plugin : Plugin)
    → IsValid plugin
    → IsValid (resize_output w h a size plugin)
unfolding resize_output notify_resize set_requested_size
resize_output-IsValid w h a size plugin s =
    at_object-P IsValid plugin a _ s
      λ video e. rewritten-IsValid plugin a video (set_requested_size size video) e refl s

copied-brief : (w : World) (v : Video) → brief (copy_pixel_buffer w v).video ≡ brief v
unfolding copy_pixel_buffer
copied-brief w v = ground arith

ask_object-IsValid :
    (w : World) (a : ℕ) (plugin : Plugin) → IsValid plugin → IsValid (ask_object w a plugin).0
unfolding ask_object
ask_object-IsValid w a plugin s = by_cases (plugin.objects a) refl
  where
    by_cases :
        (o : Option Video)
        → plugin.objects a ≡ o
        → IsValid
            (elim o as (λ _. Plugin × Asked) [
              | none ↦ (plugin, dangling)
              | some video ↦ (
                record plugin {
                  objects = update plugin.objects a (some (copy_pixel_buffer w video).video);
                },
                answered (copy_pixel_buffer w video),
              )
            ]).0
    by_cases none e = s
    by_cases (some video) e =
        rewritten-IsValid plugin a video (copy_pixel_buffer w video).video e (copied-brief w video)
          s

pub ask_frame-IsValid :
    (w : World) (id : ℕ) (plugin : Plugin) → IsValid plugin → IsValid (ask_frame w id plugin).0
unfolding ask_frame
ask_frame-IsValid w id plugin s =
    elim (plugin.registrar.held id)
      as (λ t.
        IsValid
          (elim t as (λ _. Plugin × Asked) [
            | none ↦ (plugin, not_held)
            | some t ↦ ask_object w (owner t) plugin
          ]).0) [ none ↦ s | some t ↦ ask_object-IsValid w (owner t) plugin s ]

marks-same : (video : Video) (r : Registrar) → (on_mpv_render_update video r).held ≡ r.held
unfolding on_mpv_render_update
marks-same video r = ground arith

pub mpv_update-IsValid : (a : ℕ) (plugin : Plugin) → IsValid plugin → IsValid (mpv_update a plugin)
unfolding mpv_update
mpv_update-IsValid a plugin s = at_object-P IsValid plugin a _ s λ video e.
    elim video.watched
      as (λ b. IsValid (
        if b
        then record plugin { registrar = on_mpv_render_update video plugin.registrar }
        else plugin)) [
          | true ↦
              subst (λ held. IsSound (record (books plugin) { held = held }))
                (sym (marks-same video plugin.registrar)) s
          | false ↦ s
        ]

-- What the registrar gives a texture is an id that it does not hold.
abbrev pub IsFree : World → Plugin → Type 0
IsFree w plugin = (id : ℕ) → w.texture ≡ some id → plugin.registrar.held id ≡ none

pub unheld-twice :
    (held : ℕ → Option Held) (id a : ℕ)
    → update
        (update held id (some (registered a)))
        id
        (gone (update held id (some (registered a)) id) none)
      ≡ update held id (some (leaving a none))
unheld-twice held id a = fun_ext λ k. ground arith

pub released-twice :
    (objects : ℕ → Option Video) (a : ℕ) (v : Video)
    → objects a ≡ none
    → update (update objects a (some v)) a none ≡ objects
released-twice objects a v e = fun_ext λ k. ground (arith, e)
