-- ===== src/MediaVideo/Plugin.antt =====
-- packages/media_kit_video_elinux/elinux/media_kit_video_elinux_plugin.cc: the calls of the channel.
use Prim.Native.String.{String}
use text.Mathlib.Text
use centroid_x.Common.{ℕ, ◌+◌, List, [], ◌∷◌, Option, none, some, ◌==◌, if◌then◌else◌}
use centroid_x.Formats.{Formats}
use centroid_x.VideoGeometry.{Size, notifiable_size}
use centroid_x.MediaVideo.Values.{
  Value, map, phrase, other, Entries, int_at, size_at, requested_size,
}
use centroid_x.MediaVideo.{World, Video, Held, owner, registered, leaving, Registrar, update}
use centroid_x.MediaVideo.Library.{Load, Linker, loaded, refused, mpv_api_for_process}
use centroid_x.MediaVideo.Output.{
  new, initialize, shutdown, set_requested_size, current_size, on_mpv_render_update, Copied,
  copy_pixel_buffer,
}

pub data Reply : Type 0 where
  success not_implemented : Reply
  error : String → String → Reply

-- A message VideoOutput.Resize, whose rectangle begins at (0, 0).
pub record Resize : Type 0 where
  pub handle : ℕ
  pub id : Option ℕ
  pub size : Size

-- The plugin and what it works on: the map of its outputs, whose values own the objects at their
-- addresses; the objects, the next free address and the registrar; the static variables of
-- MpvApiForProcess; and the messages sent, the last first.
pub record Plugin : Type 0 where
  pub outputs : List (ℕ × ℕ)
  pub objects : ℕ → Option Video
  pub next : ℕ
  pub registrar : Registrar
  pub api : Option Load
  pub sent : List Resize

-- The destructor of the object at an address, whose last reference is dropped. The render context and
-- mpv's callback are the object's, and end with it.
abbrev pub release : ℕ → Plugin → Plugin
release a plugin = record plugin { objects = update plugin.objects a none }

-- `outputs_.find`.
unfoldable pub find : List (ℕ × ℕ) → ℕ → Option ℕ
find [] handle = none
find ((key, a) ∷ outputs) handle = if key == handle then some a else find outputs handle

-- `outputs_.erase`.
unfoldable pub erase : ℕ → List (ℕ × ℕ) → List (ℕ × ℕ)
erase handle [] = []
erase handle ((key, a) ∷ outputs) =
    if key == handle then erase handle outputs else (key, a) ∷ erase handle outputs

unfoldable pub notify_resize : World → ℕ → Video → Plugin → Plugin
notify_resize w handle video plugin = record plugin {
  sent =
      record {
        handle = handle;
        id = video.texture_id;
        size = notifiable_size (current_size w video);
      }
      ∷ plugin.sent;
}

-- The end of Create, after Initialize of the object at `self`: a reference that fails is the only one.
unfoldable pub keep_output :
    World → ℕ → ℕ → (Video × Registrar) × Option String → Plugin → Plugin × Reply
unfolding notify_resize
keep_output w handle self ((video, registrar), some e) plugin = (
  release self (record plugin {
    objects = update plugin.objects self (some video);
    next = self + 1;
    registrar = registrar;
  }),
  error "video-output-unavailable" e,
)
keep_output w handle self ((video, registrar), none) plugin = (
  notify_resize w handle video (record plugin {
    outputs = (handle, self) ∷ plugin.outputs;
    objects = update plugin.objects self (some video);
    next = self + 1;
    registrar = registrar;
  }),
  success,
)

-- The part of Create after the library is found.
unfoldable pub create_output : Formats → World → ℕ → Entries → Plugin → Plugin × Reply
unfolding keep_output
create_output f w handle arguments plugin =
    keep_output w handle plugin.next
      (initialize f w plugin.next (requested_size arguments) (new handle) plugin.registrar) plugin

unfoldable pub with_library : Formats → World → ℕ → Entries → Load → Plugin → Plugin × Reply
unfolding create_output
with_library f w handle arguments (refused e) plugin = (plugin, error "libmpv-unavailable" e)
with_library f w handle arguments (loaded api) plugin = create_output f w handle arguments plugin

unfoldable pub create : Formats → Linker → World → ℕ → Entries → Plugin → Plugin × Reply
unfolding find with_library
create f linker w handle arguments plugin = elim (find plugin.outputs handle) [
  | some a ↦ (plugin, success)
  | none ↦
      let (load, cached) = mpv_api_for_process linker plugin.api in
      with_library f w handle arguments load (record plugin { api = cached })
]

abbrev pub no_output : Reply
no_output = error "unknown-handle" "No video output for this player."

-- An operation on the object at an address, if it is there.
abbrev pub at_object : Plugin → ℕ → (Video → Plugin) → Plugin
at_object plugin a k = elim (plugin.objects a) [ none ↦ plugin | some video ↦ k video ]

unfoldable pub resize_output : World → ℕ → ℕ → Size → Plugin → Plugin
unfolding notify_resize
resize_output w handle a size plugin = at_object plugin a λ video.
    let resized = set_requested_size size video in
    notify_resize w handle resized
      (record plugin { objects = update plugin.objects a (some resized) })

unfoldable pub set_size : World → ℕ → Entries → Plugin → Plugin × Reply
unfolding find resize_output
set_size w handle arguments plugin = elim (find plugin.outputs handle) [
  | none ↦ (plugin, no_output)
  | some a ↦ (resize_output w handle a (size_at arguments) plugin, success)
]

-- output->Shutdown(output) of the object at an address.
unfoldable pub shut_output : ℕ → Plugin → Plugin
shut_output a plugin = at_object plugin a λ video.
    let (stopped, registrar) = shutdown (some a) video plugin.registrar in
    record plugin { objects = update plugin.objects a (some stopped); registrar = registrar }

unfoldable pub dispose : ℕ → Plugin → Plugin × Reply
unfolding find erase shut_output
dispose handle plugin = elim (find plugin.outputs handle) [
  | none ↦ (plugin, success)
  | some a ↦ (shut_output a (record plugin { outputs = erase handle plugin.outputs }), success)
]

unfoldable pub shut_all : List (ℕ × ℕ) → Plugin → Plugin
unfolding shut_output
shut_all [] plugin = plugin
shut_all ((handle, a) ∷ outputs) plugin = shut_all outputs (shut_output a plugin)

-- The destructor of the plugin.
unfoldable pub destroyed : Plugin → Plugin
unfolding shut_all
destroyed plugin = record (shut_all plugin.outputs plugin) { outputs = [] }

abbrev pub no_map : Reply
no_map = error "bad-arguments" "Expected a map of arguments."

abbrev pub no_handle : Reply
no_handle = error "bad-arguments" "Missing or unparseable mpv handle."

-- Handle, once its arguments are read.
unfoldable pub handle_method :
    Formats → Linker → World → String → ℕ → Entries → Plugin → Plugin × Reply
unfolding create set_size dispose
handle_method f linker w method handle arguments plugin =
    if Text.◌==◌ method "VideoOutputManager.Create"
    then create f linker w handle arguments plugin
    else if Text.◌==◌ method "VideoOutputManager.SetSize"
    then set_size w handle arguments plugin
    else if Text.◌==◌ method "VideoOutputManager.Dispose"
    then dispose handle plugin
    else (plugin, not_implemented)

-- Handle, of a call whose arguments are a value or none.
unfoldable pub handle_call :
    Formats → Linker → World → String → Option Value → Plugin → Plugin × Reply
unfolding handle_method
handle_call f linker w method (some (map arguments)) plugin = elim (int_at arguments "handle") [
  | none ↦ (plugin, no_handle)
  | some handle ↦ handle_method f linker w method handle arguments plugin
]
handle_call f linker w method (some (phrase text)) plugin = (plugin, no_map)
handle_call f linker w method (some other) plugin = (plugin, no_map)
handle_call f linker w method none plugin = (plugin, no_map)

-- A frame asked of a texture: of one that the registrar does not hold, of one whose object is no more,
-- and of an object.
pub data Asked : Type 0 where
  not_held dangling : Asked
  answered : Copied → Asked

unfoldable pub ask_object : World → ℕ → Plugin → Plugin × Asked
unfolding copy_pixel_buffer
ask_object w a plugin = elim (plugin.objects a) [
  | none ↦ (plugin, dangling)
  | some video ↦
      let copied = copy_pixel_buffer w video in
      (record plugin { objects = update plugin.objects a (some copied.video) }, answered copied)
]

-- The texture's callback, which Initialize gives to the registrar.
unfoldable pub ask_frame : World → ℕ → Plugin → Plugin × Asked
unfolding ask_object
ask_frame w id plugin = elim (plugin.registrar.held id) [
  | none ↦ (plugin, not_held)
  | some t ↦ ask_object w (owner t) plugin
]

-- mpv's update callback, while it is set.
unfoldable pub mpv_update : ℕ → Plugin → Plugin
unfolding on_mpv_render_update
mpv_update a plugin = at_object plugin a λ video.
    if video.watched
    then record plugin { registrar = on_mpv_render_update video plugin.registrar }
    else plugin

abbrev pub released : Option Held → Plugin → Plugin
released none plugin = plugin
released (some (registered a)) plugin = plugin
released (some (leaving a none)) plugin = plugin
released (some (leaving a (some k))) plugin = release k plugin

abbrev pub forgotten : Option Held → Option Held
forgotten (some (registered a)) = some (registered a)
forgotten _ = none

-- The render thread is done with a texture that leaves: the registrar forgets it, and runs the closure
-- given to UnregisterTexture.
unfoldable pub unregistered : ℕ → Plugin → Plugin
unregistered id plugin = released (plugin.registrar.held id) (record plugin {
  registrar = record plugin.registrar {
    held = update plugin.registrar.held id (forgotten (plugin.registrar.held id));
  };
})
