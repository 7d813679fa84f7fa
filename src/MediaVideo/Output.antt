-- ===== src/MediaVideo/Output.antt =====
-- packages/media_kit_video_elinux/elinux/video_output.cc: what each function of an output does to it and
-- to the registrar.
use Prim.Native.String.{String, ◌++◌}
use text.Mathlib.Text.{◌==◌}
use centroid_x.Common.{
  ℕ, Bool, true, false, ◌||◌, not, List, [], ◌∷◌, Option, none, some, ltb, leb, ◌&&◌, if◌then◌else◌,
}
use centroid_x.Common.Int.{ℤ, pos, negsuc}
use centroid_x.Formats.{Formats}
use centroid_x.VideoGeometry.{
  Size, has_no_area, no_size, stride_bytes, pixel_buffer_bytes, resolve_render_size,
}
use centroid_x.MediaVideo.{
  Node, table, plain, World, Video, Registrar, registered, update, unregister,
}

-- The constructor.
unfoldable pub new : ℕ → Video
new handle = record {
  handle = handle;
  context = false;
  watched = false;
  texture_id = none;
  pixels = 0;
  requested = no_size;
  shut_down = false;
}

abbrev pub is_ok : ℤ → Bool
is_ok (pos n) = leb n 0
is_ok (negsuc n) = false

abbrev pub refused_texture : String
refused_texture = "The embedder refused to register a pixel buffer texture."

abbrev pub context_error : Formats → World → String
context_error f w =
    "mpv_render_context_create failed with status " ++ f.to_string_signed w.context_status ++ "."

-- The end of Initialize, with the texture registered.
unfoldable pub create_context :
    Formats → World → ℕ → Video → Registrar → (Video × Registrar) × Option String
create_context f w id video registrar =
    if is_ok w.context_status
    then ((record video { context = true; watched = true }, registrar), none)
    else (
      (record video { texture_id = none }, unregister id none registrar),
      some (context_error f w),
    )

-- Initialize of the object at `self`, with its error.
unfoldable pub initialize :
    Formats → World → ℕ → Size → Video → Registrar → (Video × Registrar) × Option String
unfolding create_context
initialize f w self requested video registrar =
    let asked = record video { requested = requested } in
    elim w.texture [
      | none ↦ ((asked, registrar), some refused_texture)
      | some id ↦
          create_context f w id (record asked { texture_id = some id })
            (record registrar { held = update registrar.held id (some (registered self)) })
    ]

-- Shutdown, with the object that keep_alive owns.
unfoldable pub shutdown : Option ℕ → Video → Registrar → Video × Registrar
shutdown keep_alive video registrar =
    let stopped = record video { shut_down = true; watched = video.watched && not video.context } in
    elim video.texture_id [
      | none ↦ (stopped, registrar)
      | some id ↦ (record stopped { texture_id = none }, unregister id keep_alive registrar)
    ]

unfoldable pub set_requested_size : Size → Video → Video
set_requested_size size video = record video { requested = size }

-- The variables of the loop of VideoSizeFromMpvLocked.
pub record Dims : Type 0 where
  pub dw : ℤ
  pub dh : ℤ
  pub rotate : ℤ

abbrev pub read_entry : String → ℤ → Dims → Dims
read_entry key value dims =
    if key == "dw"
    then record dims { dw = value }
    else if key == "dh"
    then record dims { dh = value }
    else if key == "rotate"
    then record dims { rotate = value }
    else dims

unfoldable pub read_entries : List (String × Option ℤ) → Dims → Dims
read_entries [] dims = dims
read_entries ((key, none) ∷ entries) dims = read_entries entries dims
read_entries ((key, some value) ∷ entries) dims = read_entries entries (read_entry key value dims)

abbrev pub no_dims : Dims
no_dims = record { dw = pos 0; dh = pos 0; rotate = pos 0 }

unfoldable pub read_node : Node → Dims
unfolding read_entries
read_node (table entries) = read_entries entries no_dims
read_node plain = no_dims

abbrev pub is_upright : ℤ → Bool
is_upright (pos n) = leb n 0 || (leb 180 n && leb n 180)
is_upright (negsuc n) = false

unfoldable pub video_size_from_mpv : Option Node → Size
unfolding read_node
video_size_from_mpv none = no_size
video_size_from_mpv (some node) =
    let dims = read_node node in
    if is_upright dims.rotate
    then record { width = dims.dw; height = dims.dh }
    else record { width = dims.dh; height = dims.dw }

unfoldable pub current_size : World → Video → Size
unfolding video_size_from_mpv resolve_render_size
current_size w video =
    resolve_render_size w.scale_is_at_least_one w.rounded video.requested
      (video_size_from_mpv w.params)

unfoldable pub on_mpv_render_update : Video → Registrar → Registrar
on_mpv_render_update video registrar = elim video.texture_id [
  | none ↦ registrar
  | some id ↦ record registrar { marks = id ∷ registrar.marks }
]

-- A call of mpv_render_context_render: the size and the stride it is told, and the length of the
-- buffer it is given.
pub record Render : Type 0 where
  pub size : Size
  pub stride : ℤ
  pub capacity : ℕ

-- CopyPixelBuffer: the output after it, the call of mpv, and the size of the buffer that it returns, or
-- none for a null pointer.
pub record Copied : Type 0 where
  pub video : Video
  pub render : Option Render
  pub frame : Option Size

unfoldable pub copy_pixel_buffer : World → Video → Copied
unfolding current_size
copy_pixel_buffer w video =
    let size = current_size w video in
    let required = pixel_buffer_bytes size in
    let capacity = if ltb video.pixels required then required else video.pixels in
    if video.shut_down || not video.context
    then record { video = video; render = none; frame = none }
    else if has_no_area size
    then record { video = video; render = none; frame = none }
    else record {
      video = record video { pixels = capacity };
      render = some (record { size = size; stride = stride_bytes size; capacity = capacity });
      frame = if is_ok w.render_status then some size else none;
    }
