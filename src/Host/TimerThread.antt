-- ===== src/Host/TimerThread.antt =====
-- OnWatchdogTimerThread: the tick is sent to the platform thread, and a thread that takes none is
-- wedged.
use centroid_x.Common.{ℕ, ◌+◌, Bool, not, ◌||◌, if◌then◌else◌, ltb}
use centroid_x.GpuDiagnosis.{LossCause, LossEscalation, LossHint, dxgi_ok}
use centroid_x.GpuDiagnosis.Report.{LossEvidence}
use centroid_x.Common.{sub64}
use centroid_x.Host.{World, Effect, Host, counted, emit}
use centroid_x.Host.Actions.{gpu_loss_exit_code}

abbrev pub unanswered_sends_before_wedged : ℕ
unanswered_sends_before_wedged = 12

-- The evidence of this thread: what the watchdog knows is not read.
unfoldable pub wedged_evidence : World → Host → LossEvidence
wedged_evidence w h = record {
  cause = LossCause.platform_thread_wedged;
  escalation = LossEscalation.not_escalated;
  sentinel_available = h.sentinel_available;
  device_removed_reason = if h.sentinel_available then w.removed_reason else dxgi_ok;
  losses_in_window = 0;
  max_losses_in_window = 0;
  recovery_attempts = 0;
  last_hint = LossHint.no_hint;
  ms_since_last_hint = 0;
  session_change_code = 0;
  ms_since_start = sub64 w.now h.start_tick;
  ms_since_last_frame = sub64 w.now h.last_frame_tick;
  missed_probes = 0;
  remote_session = w.remote_session;
  adapter_description = w.adapter_description;
  adapter_vendor_id = w.adapter_vendor_id;
  adapter_device_id = w.adapter_device_id;
}

-- The end of the process, from this thread.
unfoldable pub end_process : World → Host → Host
end_process w h =
    emit (Effect.exit_process gpu_loss_exit_code)
      (emit (Effect.reported (wedged_evidence w h)) (record h { unanswered_sends = 0 }))

-- A send that was answered, or was not. The tick itself is the message that the window handles.
unfoldable pub on_timer : World → Bool → Host → Host
on_timer w answered h =
    let h' = record h { timer_thread_log = counted h.timer_thread_log w.now } in
    if h'.stopping || not h'.window
    then h'
    else if answered
    then record h' { unanswered_sends = 0 }
    else let unanswered = h'.unanswered_sends + 1 in
      let failed = record h' {
        unanswered_sends = unanswered;
        send_failure_log = counted h'.send_failure_log w.now;
      } in
      if ltb unanswered unanswered_sends_before_wedged then failed else end_process w failed
