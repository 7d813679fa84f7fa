-- ===== src/MediaVideo/Tests.antt =====
-- Runs of the video plugin on concrete calls.
use centroid_x.Common.{
  ℕ, ◌≤◌, ◌≡◌, ◌≢◌, refl, ◌⊎◌, ◌↔◌, Bool, true, false, ◌&&◌, leb, [], ◌∷◌, none, some,
  if◌then◌else◌, arith,
}
use centroid_x.Common.Int.{pos}
use centroid_x.CString.{codes}
use centroid_x.Formats.{Formats}
use centroid_x.VideoGeometry.{
  Size, has_no_area, no_size, magnitude, pixel_buffer_bytes, resolve_render_size,
  fit_within_render_budget,
}
use centroid_x.VideoGeometry.Numbers.{
  is_digit, read_digits, starts_with_digit, from_digits, parse_nullable_int,
}
use centroid_x.MediaVideo.{World, Video, registered, leaving, table}
use centroid_x.MediaVideo.Library.{
  Linker, loaded, mpv_api_for_process, first_load, not_loaded, refused, open_library, load_mpv_api,
  resolve_all, with_address, calls,
}
use centroid_x.MediaVideo.Loaded.{LoadsAll, load_mpv_api-LoadsAll}
use centroid_x.MediaVideo.Output.{
  Render, new, initialize, create_context, current_size, video_size_from_mpv, read_node,
  read_entries, copy_pixel_buffer, context_error, is_ok,
}
use centroid_x.MediaVideo.Values.{
  Entries, phrase, map, empty, entry, lookup, string_at, int_at, requested_size,
}
use centroid_x.MediaVideo.Plugin.{
  Plugin, success, error, dangling, find, create, create_output, with_library, keep_output,
  notify_resize, ask_frame, handle_call, handle_method, set_size,
}
use centroid_x.MediaVideo.Histories.{
  Reached, here, next, called, started, is_dropped, is_withdrawn, is_quiet, ask_frame-dangling,
  Reached-owned,
}
use centroid_x.MediaVideo.Frames.{IsBounded, copy_pixel_buffer-IsBounded}
use centroid_x.MediaVideo.Errors.{IsUnchanged, handle_call-error}
use centroid_x.MediaVideo.Calls.{create_idem, create-dropped}

abbrev blank : Formats
blank = record {
  to_string = λ n. "0";
  to_string_signed = λ n. "0";
  seconds = λ n. "0.0";
  seconds_plain = λ n. "0";
  hex8 = λ n. "00000000";
  hex4 = λ n. "0000";
}

abbrev exact : Size → Bool
exact size = leb (magnitude size.width) 1920 && leb (magnitude size.height) 1080

-- Everything succeeds, and the video is upright.
abbrev granting : World
granting = record {
  texture = some 7;
  context_status = pos 0;
  render_status = pos 0;
  params = some (table (("dw", some (pos 640)) ∷ ("h", none) ∷ ("dh", some (pos 480)) ∷ []));
  scale_is_at_least_one = exact;
  rounded = λ size. (pos 1920, pos 1080);
}

abbrev refusing : World
refusing = record granting { context_status = pos 3 }

abbrev present : Linker
present = record { dlopen = λ name. 1; dlsym = λ library name. 5 }

abbrev player : Entries
player = entry "handle" (phrase (codes "42")) empty

abbrev created : Plugin
created =
    (handle_call blank present granting "VideoOutputManager.Create" (some (map player)) started).0

created-Reached : Reached blank created
created-Reached =
    next here (
      called present granting "VideoOutputManager.Create" (some (map player)) started
        (λ id e. refl))

-- The player's texture is 7.
created-shown : created.registrar.held 7 ≡ some (registered 0)
unfolding handle_call handle_method int_at lookup string_at parse_nullable_int from_digits
    read_digits starts_with_digit is_digit create find mpv_api_for_process first_load open_library
    load_mpv_api resolve_all with_address with_library create_output keep_output initialize
    create_context notify_resize
created-shown = refl

ask_frame-dangling_example :
    (((ask_frame granting 7 created).1 ≡ dangling) ↔ (is_dropped (created.registrar.held 7) ≡ true))
    × (is_withdrawn (created.registrar.held 7) ≡ true
        → is_quiet (ask_frame granting 7 created).1 ≡ true)
ask_frame-dangling_example = ask_frame-dangling blank created granting 7 created-Reached

load_mpv_api-LoadsAll_example : LoadsAll (λ name. 5) (load_mpv_api (λ name. 5))
load_mpv_api-LoadsAll_example = load_mpv_api-LoadsAll (λ name. 5)

abbrev shown_video : Video
shown_video = record (new 42) {
  context = true;
  watched = true;
  texture_id = some 7;
  requested = no_size;
}

created-object : created.objects 0 ≡ some shown_video
unfolding handle_call handle_method int_at lookup string_at parse_nullable_int from_digits
    read_digits starts_with_digit is_digit create find mpv_api_for_process first_load open_library
    load_mpv_api resolve_all with_address with_library create_output keep_output initialize
    create_context notify_resize requested_size new
created-object = refl

Reached-owned_example :
    ((find created.outputs shown_video.handle ≡ some 0)
      × (shown_video.shut_down ≡ false)
      × ((id : ℕ) × (shown_video.texture_id ≡ some id)
          × (created.registrar.held id ≡ some (registered 0))))
    ⊎ ((shown_video.shut_down ≡ true)
        × (shown_video.texture_id ≡ none)
        × ((id : ℕ) × (created.registrar.held id ≡ some (leaving 0 (some 0)))))
Reached-owned_example = Reached-owned blank created 0 shown_video created-Reached created-object

started-find : find started.outputs 42 ≡ none
unfolding find
started-find = refl

started-loaded :
    (mpv_api_for_process present started.api).0
    ≡ loaded (record {
      render_context_create = 5;
      render_context_render = 5;
      render_context_set_update_callback = 5;
      render_context_free = 5;
      get_property = 5;
      free_node_contents = 5;
    })
unfolding mpv_api_for_process first_load open_library load_mpv_api resolve_all with_address
started-loaded = refl

create-dropped_example :
    ((create blank present refusing 42 empty started).1
      ≡ error "video-output-unavailable" (context_error blank refusing))
    × ((ask_frame granting 7 (create blank present refusing 42 empty started).0).1 ≡ dangling)
create-dropped_example =
    create-dropped blank present refusing granting 42 7 empty _ started here started-find
      started-loaded refl refl refl

started-success : (create blank present granting 42 empty started).1 ≡ success
unfolding handle_call handle_method int_at lookup string_at parse_nullable_int from_digits
    read_digits starts_with_digit is_digit create find mpv_api_for_process first_load open_library
    load_mpv_api resolve_all with_address with_library create_output keep_output initialize
    create_context notify_resize requested_size
started-success = refl

create_idem_example :
    let q = (create blank present granting 42 empty started).0 in
    (find q.outputs 42 ≢ none) × (create blank present refusing 42 player q ≡ (q, success))
create_idem_example =
    create_idem blank present present granting refusing 42 empty player started started-success

unknown-method :
    (handle_call blank present granting "VideoOutputManager.SetSize" (some (map player)) started).1
    ≡ error "unknown-handle" "No video output for this player."
unfolding handle_call handle_method int_at lookup string_at parse_nullable_int from_digits
    read_digits starts_with_digit is_digit create find mpv_api_for_process first_load open_library
    load_mpv_api resolve_all with_address with_library create_output keep_output initialize
    create_context notify_resize set_size
unknown-method = refl

handle_call-error_example :
    IsUnchanged started
      (handle_call blank present granting "VideoOutputManager.SetSize"
        (some (map player))
        started).0
handle_call-error_example =
    handle_call-error blank present granting "VideoOutputManager.SetSize" (some (map player))
      started "unknown-handle" "No video output for this player." here unknown-method

exact_iff :
    (size : Size)
    → has_no_area size ≡ false
    → (exact size ≡ true) ↔ ((magnitude size.width ≤ 1920) × (magnitude size.height ≤ 1080))
exact_iff size a = ground arith

copy_pixel_buffer-IsBounded_example :
    let copied = copy_pixel_buffer granting shown_video in
    ((copied.render ≡ none) × (copied.frame ≡ none))
    ⊎ ((shown_video.shut_down ≡ false)
        × (shown_video.context ≡ true)
        × ((r : Render) × (copied.render ≡ some r)
            × IsBounded r
            × (copied.frame ≡ (if is_ok granting.render_status then some r.size else none))))
copy_pixel_buffer-IsBounded_example = copy_pixel_buffer-IsBounded granting shown_video exact_iff

-- The video's own size is taken, and the buffer grows to it.
shown-frame :
    (copy_pixel_buffer granting shown_video).frame
    ≡ some (record { width = pos 640; height = pos 480 })
unfolding copy_pixel_buffer current_size resolve_render_size fit_within_render_budget has_no_area
    video_size_from_mpv read_node read_entries pixel_buffer_bytes new
shown-frame = refl

-- No libmpv at the first call, and one at the second.
abbrev absent : Linker
absent = record present { dlopen = λ name. 0 }

-- A failure is kept.
absent-kept : calls (absent ∷ present ∷ []) none ≡ refused not_loaded ∷ refused not_loaded ∷ []
unfolding calls mpv_api_for_process first_load open_library
absent-kept = refl
