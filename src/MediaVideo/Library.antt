-- ===== src/MediaVideo/Library.antt =====
-- packages/media_kit_video_elinux/elinux/mpv_library.cc: the functions of libmpv, found by name in a
-- library that the process has loaded.
use Prim.Native.String.{String, ◌++◌}
use centroid_x.Common.{ℕ, List, [], ◌∷◌, Option, none, some, ◌==◌, if◌then◌else◌, get_elem?}

-- The functions by their addresses.
pub record MpvApi : Type 0 where
  pub render_context_create : ℕ
  pub render_context_render : ℕ
  pub render_context_set_update_callback : ℕ
  pub render_context_free : ℕ
  pub get_property : ℕ
  pub free_node_contents : ℕ

abbrev pub library_names : List String
library_names = "libmpv.so" ∷ "libmpv.so.2" ∷ "libmpv.so.1" ∷ []

abbrev pub required_mpv_symbols : List String
required_mpv_symbols =
    "mpv_render_context_create" ∷ "mpv_render_context_render"
    ∷ "mpv_render_context_set_update_callback" ∷ "mpv_render_context_free" ∷ "mpv_get_property"
    ∷ "mpv_free_node_contents" ∷ []

-- The addresses of the names, or the first name that has none; a null pointer is 0.
pub data Addresses : Type 0 where
  found : List ℕ → Addresses
  missing : String → Addresses

unfoldable pub with_address : ℕ → Addresses → Addresses
with_address address (found addresses) = found (address ∷ addresses)
with_address address (missing name) = missing name

unfoldable pub resolve_all : (String → ℕ) → List String → Addresses
unfolding with_address
resolve_all resolve [] = found []
resolve_all resolve (name ∷ names) =
    if resolve name == 0
    then missing name
    else with_address (resolve name) (resolve_all resolve names)

abbrev pub address_at : List ℕ → ℕ → ℕ
address_at addresses i = elim (get_elem? addresses i) [ none ↦ 0 | some address ↦ address ]

pub data Load : Type 0 where
  loaded : MpvApi → Load
  refused : String → Load

unfoldable pub load_mpv_api : (String → ℕ) → Load
unfolding resolve_all
load_mpv_api resolve = elim (resolve_all resolve required_mpv_symbols) [
  | missing name ↦ refused name
  | found addresses ↦ loaded (record {
    render_context_create = address_at addresses 0;
    render_context_render = address_at addresses 1;
    render_context_set_update_callback = address_at addresses 2;
    render_context_free = address_at addresses 3;
    get_property = address_at addresses 4;
    free_node_contents = address_at addresses 5;
  })
]

-- `dlopen` of a name, 0 when it fails, and `dlsym` of a name in a library.
pub record Linker : Type 0 where
  pub dlopen : String → ℕ
  pub dlsym : ℕ → String → ℕ

-- The library under the first name that opens.
unfoldable pub open_library : Linker → List String → ℕ
open_library linker [] = 0
open_library linker (name ∷ names) =
    if linker.dlopen name == 0 then open_library linker names else linker.dlopen name

abbrev pub not_loaded : String
not_loaded =
    "libmpv is not loaded in this process. Install the libmpv shared library (Debian: libmpv2) or ship it beside the bundle."

-- What the first call of MpvApiForProcess leaves in its static variables.
unfoldable pub first_load : Linker → Load
unfolding open_library load_mpv_api
first_load linker =
    let library = open_library linker library_names in
    if library == 0 then refused not_loaded else elim (load_mpv_api (linker.dlsym library)) [
      | loaded api ↦ loaded api
      | refused name ↦ refused (
          "libmpv is missing the symbol " ++ name
          ++ "; it is too old for the render API this plugin needs.")
    ]

-- MpvApiForProcess, with its static variables: none until the first call.
unfoldable pub mpv_api_for_process : Linker → Option Load → Load × Option Load
unfolding first_load
mpv_api_for_process linker none = (first_load linker, some (first_load linker))
mpv_api_for_process linker (some load) = (load, some load)

-- A run of calls, each with the linker as it is then.
unfoldable pub calls : List Linker → Option Load → List Load
unfolding mpv_api_for_process
calls [] cached = []
calls (linker ∷ linkers) cached =
    let (load, cached') = mpv_api_for_process linker cached in load ∷ calls linkers cached'
