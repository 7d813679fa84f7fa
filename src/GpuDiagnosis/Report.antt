-- ===== src/GpuDiagnosis/Report.antt =====
-- FormatLossReport of gpu_diagnosis.cpp.
use Prim.Native.String.{String, ◌++◌}
use text.Mathlib.Text.{◌==◌}
use mathlib.Core.Path.{subst}
use centroid_x.Common
use centroid_x.Common.{
  ℕ, suc, Bool-cases, inl, inr, ◌+◌, ◌≡◌, refl, Bool, true, false, ◌&&◌, if◌then◌else◌, arith,
}
use centroid_x.Formats.{Formats}
use centroid_x.GpuDiagnosis.{LossCause, LossEscalation, LossHint, classify_removed_reason}
use centroid_x.GpuDiagnosis.Words.{
  explain_verdict, describe_hint, describe_loss_cause, describe_escalation,
}
use centroid_x.GpuDiagnosis.Names.{describe_removed_reason, describe_session_change}
use centroid_x.GpuDiagnosis.Duration.{format_duration}

pub record LossEvidence : Type 0 where
  pub cause : LossCause
  pub escalation : LossEscalation
  pub sentinel_available : Bool
  pub device_removed_reason : ℕ
  pub losses_in_window : ℕ
  pub max_losses_in_window : ℕ
  pub recovery_attempts : ℕ
  pub last_hint : LossHint
  pub ms_since_last_hint : ℕ
  pub session_change_code : ℕ
  pub ms_since_start : ℕ
  pub ms_since_last_frame : ℕ
  pub missed_probes : ℕ
  pub remote_session : Bool
  pub adapter_description : String
  pub adapter_vendor_id : ℕ
  pub adapter_device_id : ℕ

abbrev pub tag : String
tag = "[gpu-loss] "

unfoldable pub append_line : String → String → String
append_line out text = out ++ (tag ++ (text ++ "\n"))

abbrev is_none : LossHint → Bool
is_none LossHint.no_hint = true
is_none _ = false

abbrev is_escalated : LossEscalation → Bool
is_escalated LossEscalation.not_escalated = false
is_escalated _ = true

module _ (f : Formats) (e : LossEvidence) where
  -- The blocks of the report, in its order.
  append_opening : String → String
  append_opening out =
      append_line
        (append_line (append_line out "================ GPU DEVICE LOSS ================")
          "the renderer is dead. What follows is why, so that the EGL errors around it can be ignored.")
        ("detected by: " ++ describe_loss_cause e.cause)

  append_reason : String → String
  append_reason out =
      if e.sentinel_available
      then append_line
          (append_line out ("reason     : " ++ describe_removed_reason f e.device_removed_reason))
          ("meaning    : " ++ explain_verdict (classify_removed_reason e.device_removed_reason))
      else append_line out
          "adapter    : UNKNOWN -- no sentinel device (it could not be created at startup), so there is nothing to ask why it died."

  append_adapter : String → String
  append_adapter out =
      if e.adapter_description == ""
        && (Common.◌==◌ e.adapter_vendor_id 0 && Common.◌==◌ e.adapter_device_id 0)
      then append_line out "adapter    : unknown (could not be described)"
      else append_line out (
          "adapter    : "
          ++ ((if e.adapter_description == "" then "unknown" else e.adapter_description)
              ++ (" [vendor 0x"
                  ++ (f.hex4 e.adapter_vendor_id
                      ++ (" device 0x" ++ (f.hex4 e.adapter_device_id ++ "]"))))))

  append_session : String → String
  append_session out = append_line out (
      "session    : "
      ++ (if e.remote_session then "remote (RDP/terminal services)" else "console (local)"))

  session_suffix : LossHint → String
  session_suffix LossHint.session_change = " -- " ++ describe_session_change f e.session_change_code
  session_suffix _ = ""

  append_hint : String → String
  unfolding session_suffix
  append_hint out =
      if is_none e.last_hint
      then append_line out
          "preceded by: nothing -- no preceding power, display or session message. The loss arrived out of a clear sky, which rules those paths out."
      else append_line out (
          "preceded by: "
          ++ (describe_hint e.last_hint
              ++ (", "
                  ++ (f.to_string e.ms_since_last_hint
                      ++ (" ms before the loss was declared" ++ session_suffix e.last_hint)))))

  append_timing : String → String
  append_timing out = append_line out (
      "timing     : up "
      ++ (format_duration f e.ms_since_start
          ++ (" ("
              ++ (f.to_string e.ms_since_start
                  ++ (" ms), last frame "
                      ++ (format_duration f e.ms_since_last_frame
                          ++ (" ago ("
                              ++ (f.to_string e.ms_since_last_frame
                                  ++ (" ms), after "
                                      ++ (f.to_string e.missed_probes
                                          ++ " unanswered probe(s)"))))))))))

  append_history : String → String
  append_history out = append_line out (
      "history    : loss episode "
      ++ (f.to_string e.losses_in_window
          ++ (" of at most "
              ++ (f.to_string e.max_losses_in_window
                  ++ (" allowed in the guard window; "
                      ++ (f.to_string e.recovery_attempts
                          ++ " consecutive in-place recovery attempt(s) so far"))))))

  append_escalation : String → String
  append_escalation out =
      if is_escalated e.escalation
      then append_line out ("escalated  : " ++ describe_escalation e.escalation)
      else out

  unfoldable pub format_loss_report : String
  unfolding append_opening append_reason append_adapter append_session append_hint append_timing
      append_history append_escalation
  format_loss_report =
      append_line
        (append_escalation (
          append_history (
            append_timing
              (append_hint (append_session (append_adapter (append_reason (append_opening ""))))))))
        "================================================="

-- A block of `n` lines, each of them with the tag at its front.
pub data IsTagged : ℕ → String → Type 0 where
  no_lines : IsTagged 0 ""
  one_more :
      {n : ℕ} {out : String} (text : String)
      → IsTagged n out
      → IsTagged (suc n) (append_line out text)

-- One line more, where the test says so.
abbrev pub extra : Bool → ℕ → ℕ
extra true n = suc n
extra false n = n

module _ (f : Formats) (e : LossEvidence) {n : ℕ} {out : String} (t : IsTagged n out) where
  append_reason-IsTagged : IsTagged (extra e.sentinel_available (suc n)) (append_reason f e out)
  unfolding append_reason
  append_reason-IsTagged = elim (Bool-cases e.sentinel_available) [
    | inl h ↦ rw h (one_more _ (one_more _ t))
    | inr h ↦ rw h (one_more _ t)
  ]

  append_adapter-IsTagged : IsTagged (suc n) (append_adapter f e out)
  unfolding append_adapter
  append_adapter-IsTagged =
      elim (Bool-cases (
        e.adapter_description == ""
        && (Common.◌==◌ e.adapter_vendor_id 0 && Common.◌==◌ e.adapter_device_id 0))) [
          | inl h ↦ rw h (one_more _ t)
          | inr h ↦ rw h (one_more _ t)
        ]

  append_hint-IsTagged : IsTagged (suc n) (append_hint f e out)
  unfolding append_hint
  append_hint-IsTagged = elim (Bool-cases (is_none e.last_hint)) [
    | inl h ↦ rw h (one_more _ t)
    | inr h ↦ rw h (one_more _ t)
  ]

  append_escalation-IsTagged :
      IsTagged (extra (is_escalated e.escalation) n) (append_escalation f e out)
  unfolding append_escalation
  append_escalation-IsTagged = elim (Bool-cases (is_escalated e.escalation)) [
    | inl h ↦ rw h (one_more _ t)
    | inr h ↦ rw h t
  ]

extra-count :
    (escalated sentinel : Bool)
    → suc (extra escalated (suc (suc (suc (suc (suc (extra sentinel 4)))))))
      ≡ extra escalated (extra sentinel 10)
extra-count true true = refl
extra-count true false = refl
extra-count false true = refl
extra-count false false = refl

-- The report can be found in the log by one search: whatever the evidence and the formatting
-- functions, it is a block of ten lines that begin with the tag, with one more when a sentinel
-- device was there to ask, and one more when the loss was escalated.
pub format_loss_report-IsTagged :
    (f : Formats) (e : LossEvidence)
    → IsTagged
        (extra (is_escalated e.escalation) (extra e.sentinel_available 10))
        (format_loss_report f e)
unfolding format_loss_report append_opening append_session append_timing append_history
format_loss_report-IsTagged f e =
    let opened = one_more _ (one_more _ (one_more _ no_lines)) in
    let adapter = append_adapter-IsTagged f e (append_reason-IsTagged f e opened) in
    let hint = append_hint-IsTagged f e (one_more _ adapter) in
    let history = one_more _ (one_more _ hint) in
    subst (λ k. IsTagged k (format_loss_report f e))
      (extra-count (is_escalated e.escalation) e.sentinel_available)
      (one_more _ (append_escalation-IsTagged f e history))
