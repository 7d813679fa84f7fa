-- ===== src/Host/Tests.antt =====
-- Runs of the window on concrete histories.
use centroid_x.Common.{◌+◌, ◌≡◌, refl, inl, true, false, [], ◌∷◌, some, replicate, length}
use centroid_x.Common.Int.{pos}
use centroid_x.Formats.{Formats}
use centroid_x.GpuWatchdog
use centroid_x.RebuildGate
use centroid_x.Host.{World, Reason, Effect, Host, new, emit}
use centroid_x.Host.Engine.{
  update_judgeable, start_epoch, engine_up, note_engine_adapter, create_controller,
  destroy_controller, renew_sentinel, perform_engine_rebuild,
}
use centroid_x.Host.Actions.{gpu_loss_exit_code}
use centroid_x.Host.Messages.{on_create, close, on_rebuild_due, on_power_resume, on_tick}
use centroid_x.Host.TimerThread.{wedged_evidence, on_timer}
use centroid_x.Host.Kept.{to_nat, builds, teardowns, AllSpare, Descending}
use centroid_x.Host.Histories.{
  tick, rebuild_due, power_resume, here, next, Reached, reached, Reached-AllSpare,
  Reached-callbacks, Reached-balanced, Reached-Descending, close-lasts,
  perform_engine_rebuild-lasts,
}
use centroid_x.Host.Blame.{blame, on_tick-blame}
use centroid_x.Host.Arguments.{Arguments, narrow}
use centroid_x.Host.Wedged.{unanswered, unanswered-ends}

abbrev blank : Formats
blank = record {
  to_string = λ n. "0";
  to_string_signed = λ n. "0";
  seconds = λ n. "0.0";
  seconds_plain = λ n. "0";
  hex8 = λ n. "00000000";
  hex4 = λ n. "0000";
}

-- Everything that is asked for is granted, at 1 s.
abbrev granting : World
granting = record {
  now = 1000;
  engine_starts = true;
  engine_adapter = some 7;
  session_adapter = some 7;
  sentinel_created = true;
  removed_reason = 0;
  adapter_description = "adapter";
  adapter_vendor_id = 1;
  adapter_device_id = 2;
  queue_created = true;
  timer_created = true;
  timer_changed = true;
  session_notices = true;
  storm_detector = true;
  window_created = true;
  remote_session = true;
}

abbrev later : World
later = record granting { now = 200000 }

-- The engine does not come back.
abbrev refusing : World
refusing = record later { engine_starts = false }

abbrev unborn : Host
unborn = new GpuWatchdog.default_config true

abbrev created : Host
created = on_create granting unborn

-- A resume queues a rebuild, and a tick three minutes later does it.
abbrev resumed : Host
resumed = on_tick blank later (on_power_resume granting created)

resumed-Reached : Reached blank resumed
resumed-Reached = reached granting GpuWatchdog.default_config true refl (
    next (next here (power_resume granting created))
      (tick later (on_power_resume granting created)))

-- An engine that is due for a rebuild.
abbrev due : Host
due = record unborn {
  controller = true;
  engine_epoch = 1;
  gate = record (RebuildGate.new RebuildGate.default_config) { queued = true };
}

abbrev running : Host
running = record unborn { window = true }

-- The third reported loss, which exits.
abbrev giving_up : GpuWatchdog.Action
giving_up = record (GpuWatchdog.no_action) { report_loss = true; exit_process = true }

rebuilt-trace :
    (perform_engine_rebuild later "power resume" due).trace
    ≡ Effect.redraw
      ∷ Effect.built 2 (Reason.rebuilding "power resume")
      ∷ Effect.torn_down false 200000 (Reason.rebuilding "power resume")
      ∷ []
unfolding perform_engine_rebuild create_controller start_epoch engine_up note_engine_adapter
    update_judgeable destroy_controller renew_sentinel emit new
rebuilt-trace = refl

Reached-AllSpare_example : AllSpare resumed.trace
Reached-AllSpare_example = Reached-AllSpare resumed-Reached

Reached-callbacks_example : resumed.callbacks ≡ to_nat resumed.probe_armed
Reached-callbacks_example = Reached-callbacks resumed-Reached

Reached-balanced_example :
    builds resumed.trace ≡ teardowns resumed.trace + to_nat resumed.controller
Reached-balanced_example = Reached-balanced resumed-Reached

Reached-Descending_example :
    Descending (resumed.engine_epoch + 1) resumed.trace
    × (resumed.liveness.epoch ≡ pos resumed.engine_epoch)
Reached-Descending_example = Reached-Descending resumed-Reached

close-lasts_example :
    let h' = on_rebuild_due later (on_power_resume later (close later due)) in
    (h'.controller ≡ false) × (builds h'.trace ≡ builds due.trace)
close-lasts_example = close-lasts {f = blank} later due (
    next (next here (power_resume later (close later due)))
      (rebuild_due later (on_power_resume later (close later due))))

perform_engine_rebuild-lasts_example :
    let h' = on_tick blank later (perform_engine_rebuild refusing "power resume" due) in
    (h'.controller ≡ false) × (builds h'.trace ≡ builds due.trace)
perform_engine_rebuild-lasts_example =
    perform_engine_rebuild-lasts {f = blank} refusing "power resume" due refl
      (next here (tick later (perform_engine_rebuild refusing "power resume" due)))

on_tick-blame_example : blame (on_tick blank later due) ≡ blame due
unfolding new RebuildGate.new RebuildGate.poll RebuildGate.startup_blocking RebuildGate.release
on_tick-blame_example = on_tick-blame blank later due (inl refl)

eleven-length : length {A = World} (replicate 11 later) ≡ 11
eleven-length = refl

unanswered-ends_example :
    let k = unanswered (replicate 11 later) running in
    (k.trace ≡ running.trace)
    × ((on_timer later false k).trace
        ≡ Effect.exit_process gpu_loss_exit_code
          ∷ Effect.reported (wedged_evidence later k)
          ∷ running.trace)
    × ((on_timer later true k).unanswered_sends ≡ 0)
    × ((on_timer later true k).trace ≡ running.trace)
unfolding new
unanswered-ends_example =
    unanswered-ends (replicate 11 later) later running (record { going = refl; there = refl }) refl
      refl

abbrev saying : Arguments
saying = some (("epoch", narrow (pos 1)) ∷ [])
