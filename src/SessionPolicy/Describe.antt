-- ===== src/SessionPolicy/Describe.antt =====
-- DescribeAdapterCheck and DescribeSessionRebuild: the log line of a decision.
use Prim.Native.String.{String, ◌++◌}
use text.Mathlib.TextLemmas.{cons≢nil}
use text.Mathlib.Text.{◌==◌}
use centroid_x.Common.{◌≡◌, refl, ◌↔◌, if◌then◌else◌}
use centroid_x.Formats.{Formats, append-ne-empty}
use centroid_x.SessionPolicy.{AdapterCheck, Verdict, Decision, is_changed}

unfoldable pub describe_adapter_check : AdapterCheck → String
describe_adapter_check AdapterCheck.unknown =
    "the render adapter could not be compared (the engine or DXGI did not report one -- measured to happen in a third of session-change windows, so this is not evidence)"
describe_adapter_check AdapterCheck.same =
    "the engine still renders on the session's display adapter"
describe_adapter_check AdapterCheck.changed =
    "the engine renders on an adapter that is NO LONGER the session's display adapter"

abbrev probing_line : String
probing_line = "session change (remote connect) -- PROBING before rebuilding: "

abbrev kept_line : String
kept_line = "remote connect: the renderer presented a frame "

abbrev rebuilding_line : String
rebuilding_line = "session change -- REBUILDING: "

module _ (f : Formats) where
  describe_verdict : Verdict → Decision → String
  unfolding describe_adapter_check
  describe_verdict Verdict.nothing d = ""
  describe_verdict Verdict.deferred d =
      "session change (remote disconnect) -- NOT rebuilding: nobody is viewing this session and no frames are owed. The context is marked suspect and the next remote connect decides. The sentinel device and the stderr storm detector stay armed, so a loss that is actually observed while disconnected is still recovered -- and the operator's page and pending proposals now survive that recovery."
  describe_verdict Verdict.probe d =
      probing_line
      ++ (describe_adapter_check d.adapter
          ++ (". The renderer has "
              ++ (f.seconds d.waited_ms
                  ++ " s to present a frame; the storm detector is watching for a context the frame probe cannot see. Until the 2026-09-12 change this connect rebuilt the engine unconditionally.")))
  describe_verdict Verdict.kept_renderer d =
      kept_line
      ++ (f.seconds d.waited_ms
          ++ " s after the reconnect -- KEPT, no rebuild. The operator is still on their page with their proposals.")
  describe_verdict Verdict.rebuild_now d =
      rebuilding_line
      ++ ((if d.reason == "" then "unspecified" else d.reason)
          ++ (if is_changed d.adapter then ". " ++ describe_adapter_check d.adapter else ""))

  unfoldable pub describe_session_rebuild : Decision → String
  unfolding describe_verdict
  describe_session_rebuild d = describe_verdict d.verdict d

  describe_verdict-empty :
      (v : Verdict) (d : Decision) → describe_verdict v d ≡ "" → v ≡ Verdict.nothing
  unfolding describe_verdict
  describe_verdict-empty Verdict.nothing d h = refl
  describe_verdict-empty Verdict.deferred d h = absurd (cons≢nil h)
  describe_verdict-empty Verdict.probe d h =
      absurd (append-ne-empty probing_line _ (λ e. cons≢nil e) h)
  describe_verdict-empty Verdict.kept_renderer d h =
      absurd (append-ne-empty kept_line _ (λ e. cons≢nil e) h)
  describe_verdict-empty Verdict.rebuild_now d h =
      absurd (append-ne-empty rebuilding_line _ (λ e. cons≢nil e) h)

  -- A decision is logged unless there is nothing to say: the line is empty for the verdict that says
  -- so and for no other, whatever the formatting functions return.
  pub describe_session_rebuild-empty :
      (d : Decision) → (describe_session_rebuild d ≡ "") ↔ (d.verdict ≡ Verdict.nothing)
  unfolding describe_session_rebuild
  describe_session_rebuild-empty d = (describe_verdict-empty d.verdict d, λ e. rw e refl)
