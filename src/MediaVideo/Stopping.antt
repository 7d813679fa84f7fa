-- ===== src/MediaVideo/Stopping.antt =====
-- The invariant of the video plugin through Shutdown.
use mathlib.Core.Path.{subst}
use centroid_x.Common.{
  ℕ, ◌≡◌, refl, sym, ap, ◌∙◌, true, not, List, Option, none, some, ◌==◌, if◌then◌else◌, arith, ◌&&◌,
  ◌≢◌,
}
use centroid_x.MediaVideo.{Video, Held, Registrar, update, gone, unregister}
use centroid_x.MediaVideo.Output.{shutdown}
use centroid_x.MediaVideo.Plugin.{Plugin, find, shut_output}
use centroid_x.MediaVideo.Texture.{Brief, live, stopped, IsKeyed, IsSound}
use centroid_x.MediaVideo.Leaving.{shut, shut-IsSound}
use centroid_x.MediaVideo.Owned.{brief, seen, books, IsValid, seen-update}

abbrev halted : Video → Video
halted video = record video {
  shut_down = true;
  watched = video.watched && not video.context;
  texture_id = none;
}

shutdown-some :
    (keep : Option ℕ) (video : Video) (r : Registrar) (id : ℕ)
    → video.texture_id ≡ some id
    → shutdown keep video r ≡ (halted video, unregister id keep r)
unfolding shutdown
shutdown-some keep video r id e = ground (arith, e)

halted-brief :
    (video : Video) (h id : ℕ)
    → some (brief video) ≡ some (live h id)
    → some (brief (halted video)) ≡ some (stopped h)
halted-brief video h id e = ground (arith, e)

shown-id :
    (video : Video) (h id : ℕ) → some (brief video) ≡ some (live h id) → video.texture_id ≡ some id
shown-id video h id e = ground (arith, e)

-- Shutdown of an output that is shown, when it leaves the map.
stopped-IsSound :
    (h a : ℕ) (plugin : Plugin) (s : IsValid plugin) (video : Video) (outputs : List (ℕ × ℕ))
    → plugin.objects a ≡ some video
    → find plugin.outputs h ≡ some a
    → IsKeyed outputs
    → ((k : ℕ) → find outputs k ≡ (if h == k then none else find plugin.outputs k))
    → let (stopped_video, registrar) = shutdown (some a) video plugin.registrar in
      IsValid (record plugin {
        outputs = outputs;
        objects = update plugin.objects a (some stopped_video);
        registrar = registrar;
      })
stopped-IsSound h a plugin s video outputs e known keyed erased =
    let (o, t, w) = s.shown h a known in
    let same : some (brief video) ≡ some (live h (s.id_of a)) = ap seen (sym e) ∙ o in
    subst
      (λ (r : Video × Registrar). IsValid (record plugin {
        outputs = outputs;
        objects = update plugin.objects a (some r.0);
        registrar = r.1;
      }))
      (sym (
        shutdown-some (some a) video plugin.registrar (s.id_of a)
          (shown-id video h (s.id_of a) same)))
      (subst
        (λ object. IsSound (record (books plugin) {
          outputs = outputs;
          object = object;
          held =
              update plugin.registrar.held (s.id_of a)
                (gone (plugin.registrar.held (s.id_of a)) (some a));
        }))
        (sym (
          seen-update plugin.objects a (some (halted video))
          ∙ ap (λ (v : Option Brief). update (λ c. seen (plugin.objects c)) a v)
              (halted-brief video h (s.id_of a) same)))
        (subst
          (λ t. IsSound (record (shut h a (s.id_of a) outputs (books plugin)) {
            held = update plugin.registrar.held (s.id_of a) t;
          }))
          (sym (ap (λ (t : Option Held). gone t (some a)) t))
          (shut-IsSound h a outputs (books plugin) s keyed known erased)))

object-there :
    (h a : ℕ) (plugin : Plugin) (s : IsValid plugin)
    → find plugin.outputs h ≡ some a
    → plugin.objects a ≢ none
object-there h a plugin s known e =
    let (o, t, w) = s.shown h a known in
    let unseen : ◌≡◌ {A = Option Brief} none (some (live h (s.id_of a))) = ap seen (sym e) ∙ o in cc

-- Shutdown of the output of a player, when it leaves the map.
pub shut_output-IsValid :
    (h a : ℕ) (plugin : Plugin) (s : IsValid plugin) (outputs : List (ℕ × ℕ))
    → find plugin.outputs h ≡ some a
    → IsKeyed outputs
    → ((k : ℕ) → find outputs k ≡ (if h == k then none else find plugin.outputs k))
    → IsValid (record (shut_output a plugin) { outputs = outputs })
unfolding shut_output
shut_output-IsValid h a plugin s outputs known keyed erased = by_cases (plugin.objects a) refl
  where
    answer : Option Video → Plugin
    answer o = elim o [
      | none ↦ plugin
      | some video ↦
          let (stopped_video, registrar) = shutdown (some a) video plugin.registrar in
          record plugin {
            objects = update plugin.objects a (some stopped_video);
            registrar = registrar;
          }
    ]

    by_cases :
        (o : Option Video)
        → plugin.objects a ≡ o
        → IsValid (record (answer o) { outputs = outputs })
    by_cases none e = absurd (object-there h a plugin s known e)
    by_cases (some video) e = stopped-IsSound h a plugin s video outputs e known keyed erased
