-- ===== src/GpuDiagnosis/Words.antt =====
-- The words of gpu_diagnosis.cpp for the parts of a diagnosis.
use Prim.Native.String.{String}
use centroid_x.GpuDiagnosis.{AdapterVerdict, LossHint, LossCause, LossEscalation, LossAction}

unfoldable pub explain_verdict : AdapterVerdict → String
explain_verdict AdapterVerdict.healthy =
    "the adapter is healthy -- our sentinel D3D11 device survived, so the GPU did not go down and only ANGLE's device was lost. Look at the session/desktop swap path (RDP connect or disconnect, fast user switching, the console session moving), not at the graphics driver."
explain_verdict AdapterVerdict.hung =
    "the GPU stopped responding and Windows reset it (TDR). Check the System event log for Display/nvlddmkm 'has stopped responding and has successfully recovered', and whether a heavy page or a shader is driving it."
explain_verdict AdapterVerdict.removed =
    "the adapter went away: the driver was updated or restarted, a virtual GPU reset under the VM, or the device was disabled. Check the System event log around this timestamp for a driver install or a PnP removal."
explain_verdict AdapterVerdict.device_reset =
    "the device was reset after an invalid command. That is usually another process on the same adapter rather than this one, but a driver bug presents the same way."
explain_verdict AdapterVerdict.driver_error =
    "the graphics driver reported an internal error. This one is the driver's own fault -- note its version below and look for a known issue or an update."
explain_verdict AdapterVerdict.unknown =
    "the device is gone for a reason with no name in this build. The raw code above is the thing to look up in winerror.h."

unfoldable pub describe_hint : LossHint → String
describe_hint LossHint.no_hint = "none"
describe_hint LossHint.power_resume = "power resume"
describe_hint LossHint.display_change = "display change"
describe_hint LossHint.session_change = "session change"

unfoldable pub describe_loss_cause : LossCause → String
describe_loss_cause LossCause.no_frames_presented =
    "no frames presented -- consecutive probes went unanswered. This is an INFERENCE from silence: it is also what a watchdog that is not being ticked looks like, so treat it as the weaker finding."
describe_loss_cause LossCause.context_lost =
    "the render adapter reported itself REMOVED -- asked directly, not inferred. This is the strong finding: the GPU or its driver went down, and the reason code below names which way."
describe_loss_cause LossCause.platform_thread_wedged =
    "the platform thread did not answer a sent message inside the timeout. Nothing running on that thread, the engine included, can be assumed alive."
describe_loss_cause LossCause.raster_failed =
    "the UI isolate reported, on consecutive liveness stamps, that the engine returned an EMPTY image for a 1 x 1 snapshot. Observed from inside the isolate, not inferred: Dart is alive and building frames, the engine cannot rasterise them, and no native probe can see that -- the next-frame callback answers, the sentinel adapter is healthy, stderr is quiet."

unfoldable pub describe_escalation : LossEscalation → String
describe_escalation LossEscalation.not_escalated = "not escalated"
describe_escalation LossEscalation.repeated_losses =
    "in-place recovery WORKS but does not HOLD -- too many separate losses inside the guard window. Exiting so a supervisor can do what this process cannot."
describe_escalation LossEscalation.recovery_exhausted =
    "in-place recovery was tried the configured number of times and never produced a frame. Exiting so a supervisor can restart the process from scratch."

unfoldable pub describe_loss_action : LossAction → String
describe_loss_action LossAction.log_only = "log only"
describe_loss_action LossAction.exit_process = "exit the process"
describe_loss_action LossAction.restart_engine = "restart the Flutter engine"
