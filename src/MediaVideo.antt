-- ===== src/MediaVideo.antt =====
-- packages/media_kit_video_elinux/elinux, but for the geometry: the outputs of the video plugin, each a
-- player's texture and render context, and the registrar that holds the textures. The platform thread
-- answers the calls of the channel, the render thread of the embedder asks a texture for a frame, and
-- mpv says from a thread of its own that there is one. An object is known by its address, so that what
-- reads one after its end is seen; a lock makes each function of an output one step.
pub mod Library
pub mod Loaded
pub mod Values
pub mod Output
pub mod Plugin
pub mod Texture
pub mod Leaving
pub mod Owned
pub mod Creation
pub mod Stopping
pub mod Called
pub mod Histories
pub mod Frames
pub mod Errors
pub mod Calls
mod Tests
use Prim.Native.String.{String}
use centroid_x.Common.{ℕ, Bool, List, Option, none, some, ◌==◌, if◌then◌else◌}
use centroid_x.Common.Int.{ℤ}
use centroid_x.VideoGeometry.{Size}

-- What the parameters of a video were when mpv was asked for them: a map, whose values are int64_t
-- or of another format, or a node that is no map.
pub data Node : Type 0 where
  table : List (String × Option ℤ) → Node
  plain : Node

-- What the libraries answer while a function runs: the texture id, none when negative; the status of
-- mpv_render_context_create and of mpv_render_context_render; the node of "video-out-params", none when
-- mpv_get_property is below 0; and the arithmetic on doubles of a size.
pub record World : Type 0 where
  pub texture : Option ℕ
  pub context_status : ℤ
  pub render_status : ℤ
  pub params : Option Node
  pub scale_is_at_least_one : Size → Bool
  pub rounded : Size → ℤ × ℤ

-- VideoOutput. The texture's id is none for -1; `context` is whether there is a render context,
-- `watched` whether mpv has its update callback, and `pixels` the length of the buffer.
pub record Video : Type 0 where
  pub handle : ℕ
  pub context : Bool
  pub watched : Bool
  pub texture_id : Option ℕ
  pub pixels : ℕ
  pub requested : Size
  pub shut_down : Bool

-- A texture that the registrar holds, with the object that its callback reads. While it leaves, the
-- render thread may still use it, and the closure of UnregisterTexture keeps an object or none.
pub data Held : Type 0 where
  registered : ℕ → Held
  leaving : ℕ → Option ℕ → Held

abbrev pub owner : Held → ℕ
owner (registered a) = a
owner (leaving a keep) = a

-- flutter::TextureRegistrar: the textures by their ids, and the ids marked as having a new frame, the
-- last first.
pub record Registrar : Type 0 where
  pub held : ℕ → Option Held
  pub marks : List ℕ

abbrev pub update : {A : Type 0} → (ℕ → Option A) → ℕ → Option A → ℕ → Option A
update f key value k = if key == k then value else f k

-- UnregisterTexture, with the object that its closure keeps.
abbrev pub gone : Option Held → Option ℕ → Option Held
gone none keep = none
gone (some t) keep = some (leaving (owner t) keep)

abbrev pub unregister : ℕ → Option ℕ → Registrar → Registrar
unregister id keep registrar = record registrar {
  held = update registrar.held id (gone (registrar.held id) keep);
}
