-- ===== src/Host/Channel.antt =====
-- OnRunnerChannelCall: what the Dart side reports.
use Prim.Native.String.{String}
use text.Mathlib.Text.{◌==◌}
use centroid_x.Common.{ℕ, Bool, true, false, not, if◌then◌else◌}
use centroid_x.Common.Int.{ℤ, pos, negsuc}
use centroid_x.Common
use centroid_x.Formats.{Formats}
use centroid_x.RebuildGate
use centroid_x.DartLiveness
use centroid_x.DartLiveness.Describe.{describe_liveness, describe_raster}
use centroid_x.LogThrottle
use centroid_x.Host.{World, Effect, Host, counted, when, emit}
use centroid_x.Host.Engine.{update_judgeable}
use centroid_x.Host.Arguments.{Arguments, int_arg, stamp_of}

-- "mainStarting": the epoch that comes with it is only logged.
unfoldable pub on_main_starting : World → Host → Host
on_main_starting w h = update_judgeable w (record h { dart_main_seen = true })

-- `epoch == engine_epoch_`
abbrev pub is_current : ℤ → ℕ → Bool
is_current (pos epoch) current = Common.◌==◌ epoch current
is_current (negsuc n) current = false

-- "startupComplete": a rebuild that waited for this is posted, not done under the engine's own call.
unfoldable pub on_startup_complete : World → ℤ → Host → Host
on_startup_complete w epoch h =
    if is_current epoch h.engine_epoch
    then (let h' = record h {
      dart_startup_complete = true;
      gate = RebuildGate.startup_complete h.gate w.now;
    } in
        when h'.gate.queued (emit Effect.rebuild_due) h')
    else h

abbrev pub is_nothing : DartLiveness.Verdict → Bool
is_nothing DartLiveness.Verdict.nothing_to_say = true
is_nothing _ = false

unfoldable pub reset_liveness_log : Host → Host
reset_liveness_log h = record h { liveness_log = LogThrottle.reset h.liveness_log }

unfoldable pub count_liveness_log : World → Host → Host
count_liveness_log w h = record h { liveness_log = counted h.liveness_log w.now }

module _ (f : Formats) where
  -- "liveness": the stamp is judged, the lines are logged, a raster loss is posted.
  unfoldable pub on_liveness : World → DartLiveness.Stamp → Host → Host
  on_liveness w stamp h =
      let (liveness, decision) = DartLiveness.on_stamp h.liveness stamp w.now in
      let h' = record h { liveness = liveness } in
      let line = describe_liveness f decision liveness.config in
      let raster_line = describe_raster f decision liveness.config in
      let logged =
        if not (line == "")
        then reset_liveness_log h'
        else when (is_nothing decision.verdict) (count_liveness_log w) h' in
      when decision.raster_lost (emit (Effect.raster_loss decision.raster_failures))
        (when (not (raster_line == "")) reset_liveness_log logged)

  -- The call by its name, with whether it is implemented.
  unfoldable pub on_call : World → String → Arguments → Host → Host × Bool
  on_call w method args h =
      if method == "mainStarting"
      then (on_main_starting w h, true)
      else if method == "startupComplete"
      then (on_startup_complete w (int_arg args "epoch" (negsuc 0)) h, true)
      else if method == "liveness"
      then (on_liveness w (stamp_of args) h, true)
      else (h, false)
