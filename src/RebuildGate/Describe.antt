-- ===== src/RebuildGate/Describe.antt =====
-- DescribeEngineRebuild: the log line of a decision.
use Prim.Native.String.{String, ◌++◌}
use text.Mathlib.TextLemmas.{cons≢nil}
use text.Mathlib.Text.{◌==◌}
use centroid_x.Common.{
  ℕ, ◌≡◌, ◌≢◌, refl, ◌↔◌, Bool, true, false, not, ◌&&◌, leb, if◌then◌else◌, arith, Bool-cases, inl,
  inr,
}
use centroid_x.Common
use centroid_x.Formats.{Formats, append-ne-empty}
use centroid_x.RebuildGate.{Verdict, Decision}

-- An empty reason is logged as "unspecified".
unfoldable pub or_unspecified : String → String
or_unspecified reason = if reason == "" then "unspecified" else reason

abbrev opening : String
opening = "rebuild request ("

opening-ne-empty : opening ≢ ""
opening-ne-empty e = cons≢nil e

module _ (f : Formats) where
  describe_rebuild_now : Decision → String → String
  describe_rebuild_now d reason =
      if Common.◌==◌ d.waited_ms 0 && leb d.coalesced 1
      then opening
        ++ (reason
            ++ ") -- REBUILDING the renderer now. A rebuild is a new Dart isolate; the operator's page and pending proposals are restored from the device-local store by the next one.")
      else opening
        ++ (reason
            ++ (") -- REBUILDING now, answering "
                ++ (f.to_string d.coalesced
                    ++ (" queued request(s) after waiting "
                        ++ (f.seconds d.waited_ms
                            ++ (" s for startup"
                                ++ (if d.startup_timed_out
                                    then ", which never reported complete -- rebuilding anyway rather than leaving the operator without a renderer"
                                    else " to finish")))))))

  describe_verdict : Verdict → Decision → String → String
  unfolding describe_rebuild_now
  describe_verdict Verdict.idle d reason = ""
  describe_verdict Verdict.debounced d reason =
      opening
      ++ (reason ++ ") ignored: a duplicate of the one the rebuild just above already answered")
  describe_verdict Verdict.queued d reason =
      opening
      ++ (reason
          ++ ") QUEUED: the current engine is still starting up. Tearing one down mid-startup orphaned a generation of OPC UA clients on 2026-09-10, and on 2026-09-11 it restarted a startup three times over until the app never came up at all. The rebuild will run once startup reports complete.")
  describe_verdict Verdict.coalesced d reason =
      opening
      ++ (reason
          ++ (") folded into the queued rebuild -- "
              ++ (f.to_string d.coalesced
                  ++ (" request(s) will now cost one rebuild, not " ++ f.to_string d.coalesced))))
  describe_verdict Verdict.rebuild_now d reason = describe_rebuild_now d reason

  unfoldable pub describe_engine_rebuild : Decision → String
  unfolding describe_verdict or_unspecified
  describe_engine_rebuild d = describe_verdict d.verdict d (or_unspecified d.reason)

  describe_rebuild_now-ne-empty :
      (d : Decision) (reason : String) → describe_rebuild_now d reason ≢ ""
  unfolding describe_rebuild_now
  describe_rebuild_now-ne-empty d reason =
      elim (Bool-cases (Common.◌==◌ d.waited_ms 0 && leb d.coalesced 1)) [
        | inl now ↦ rw now (append-ne-empty opening _ opening-ne-empty)
        | inr later ↦ rw later (append-ne-empty opening _ opening-ne-empty)
      ]

  describe_verdict-empty :
      (v : Verdict) (d : Decision) (reason : String)
      → describe_verdict v d reason ≡ ""
      → v ≡ Verdict.idle
  unfolding describe_verdict
  describe_verdict-empty Verdict.idle d reason h = refl
  describe_verdict-empty Verdict.debounced d reason h =
      absurd (append-ne-empty opening _ opening-ne-empty h)
  describe_verdict-empty Verdict.queued d reason h =
      absurd (append-ne-empty opening _ opening-ne-empty h)
  describe_verdict-empty Verdict.coalesced d reason h =
      absurd (append-ne-empty opening _ opening-ne-empty h)
  describe_verdict-empty Verdict.rebuild_now d reason h =
      absurd (describe_rebuild_now-ne-empty d reason h)

  -- A decision is logged unless there is nothing to do: the line is empty for the verdict that says
  -- so and for no other, whatever the formatting functions return.
  pub describe_engine_rebuild-empty :
      (d : Decision) → (describe_engine_rebuild d ≡ "") ↔ (d.verdict ≡ Verdict.idle)
  unfolding describe_engine_rebuild
  describe_engine_rebuild-empty d =
      (describe_verdict-empty d.verdict d (or_unspecified d.reason), λ e. rw e refl)
