-- ===== src/GpuDiagnosis/Duration.antt =====
-- FormatDuration of gpu_diagnosis.cpp.
use centroid_x.Common.{ℕ, ◌+◌, ◌*◌, ◌/◌, ◌%◌, ◌<◌, ◌≡◌, ltb, if◌then◌else◌, arith}
use Prim.Native.String.{String, ◌++◌}
use centroid_x.Formats.{Formats}

pub record Parts : Type 0 where
  pub h : ℕ
  pub m : ℕ
  pub s : ℕ

-- The three divisions.
unfoldable pub duration_parts : ℕ → Parts
duration_parts ms =
    let seconds = ms / 1000 in
    record { h = seconds / 3600; m = (seconds % 3600) / 60; s = seconds % 60 }

-- The hours, minutes and seconds printed are a reading of the whole seconds: they add up to them,
-- with less than sixty minutes and less than sixty seconds.
pub duration_parts_lem :
    (ms : ℕ)
    → ((duration_parts ms).h * 3600 + (duration_parts ms).m * 60 + (duration_parts ms).s
        ≡ ms / 1000)
      × ((duration_parts ms).m < 60)
      × ((duration_parts ms).s < 60)
unfolding duration_parts
duration_parts_lem ms = (omega arith, omega arith, omega arith)

unfoldable pub format_duration : Formats → ℕ → String
format_duration f ms =
    let parts = duration_parts ms in
    if ltb 0 parts.h
    then f.to_string parts.h
      ++ ("h " ++ (f.to_string parts.m ++ ("m " ++ (f.to_string parts.s ++ "s"))))
    else if ltb 0 parts.m
    then f.to_string parts.m ++ ("m " ++ (f.to_string parts.s ++ "s"))
    else f.seconds_plain ms ++ "s"
