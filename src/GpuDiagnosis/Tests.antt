-- ===== src/GpuDiagnosis/Tests.antt =====
-- The diagnosis on concrete codes and texts.
use centroid_x.Common.{true}
use centroid_x.Formats.{Formats}
use centroid_x.GpuDiagnosis.Report.{LossEvidence}
use centroid_x.GpuDiagnosis.{LossCause, LossEscalation, LossHint, dxgi_device_hung}

abbrev blank : Formats
blank = record {
  to_string = λ n. "0";
  to_string_signed = λ n. "0";
  seconds = λ n. "0.0";
  seconds_plain = λ n. "0";
  hex8 = λ n. "00000000";
  hex4 = λ n. "0000";
}

abbrev evidence : LossEvidence
evidence = record {
  cause = LossCause.context_lost;
  escalation = LossEscalation.not_escalated;
  sentinel_available = true;
  device_removed_reason = dxgi_device_hung;
  losses_in_window = 1;
  max_losses_in_window = 3;
  recovery_attempts = 0;
  last_hint = LossHint.session_change;
  ms_since_last_hint = 1200;
  session_change_code = 4;
  ms_since_start = 3600000;
  ms_since_last_frame = 5000;
  missed_probes = 1;
  remote_session = true;
  adapter_description = "";
  adapter_vendor_id = 0;
  adapter_device_id = 0;
}
