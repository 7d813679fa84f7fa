-- ===== src/DartLiveness/Describe.antt =====
-- DescribeLiveness and DescribeRaster: the log lines of a decision.
use Prim.Native.String.{String, ◌++◌}
use text.Mathlib.TextLemmas.{cons≢nil}
use centroid_x.Common.{◌*◌, ◌≡◌, ◌≢◌, ◌↔◌, Bool, true, false, refl, if◌then◌else◌, u64}
use centroid_x.Formats.{Formats, append-ne-empty}
use centroid_x.DartLiveness.{Config, Verdict, Decision}

abbrev alive_line : String
alive_line = "UI isolate is ALIVE: first liveness stamp for epoch "

abbrev silent_line : String
silent_line = "UI isolate has gone SILENT: no liveness stamp for "

abbrev still_line : String
still_line = "UI isolate STILL silent: "

abbrev recovered_line : String
recovered_line = "UI isolate is stamping again after "

abbrev never_line : String
never_line = "UI isolate NEVER stamped: "

abbrev lost_line : String
lost_line = "the engine CANNOT RASTERISE: "

abbrev rasterising_line : String
rasterising_line = "the engine is rasterising again on its own (epoch "

module _ (f : Formats) where
  describe_verdict : Verdict → Decision → Config → String
  describe_verdict Verdict.nothing_to_say d c = ""
  describe_verdict Verdict.first_stamp d c =
      alive_line
      ++ (f.to_string_signed d.last.epoch
          ++ (" after "
              ++ (f.seconds d.silence_ms
                  ++ (" s, uptime "
                      ++ (f.seconds d.last.uptime_ms
                          ++ (" s, startup "
                              ++ (if d.last.startup_complete
                                  then "complete"
                                  else "still in progress")))))))
  describe_verdict Verdict.silent d c =
      silent_line
      ++ (f.seconds d.silence_ms
          ++ (" s (one is due every "
              ++ (f.seconds c.expected_interval_ms
                  ++ (" s). Last stamp: epoch "
                      ++ (f.to_string_signed d.last.epoch
                          ++ (", tick "
                              ++ (f.to_string d.last.ticks
                                  ++ (", uptime "
                                      ++ (f.seconds d.last.uptime_ms
                                          ++ (" s, lag "
                                              ++ (f.to_string d.last.lag_ms
                                                  ++ " ms. The Dart side has stopped running its own clock -- this is the freeze, and it is NOT visible to the frame probe, which counts the frames the watchdog itself forces.")))))))))))
  describe_verdict Verdict.still_silent d c =
      still_line
      ++ (f.seconds d.silence_ms
          ++ (" s since the last stamp (epoch "
              ++ (f.to_string_signed d.last.epoch
                  ++ (", tick " ++ (f.to_string d.last.ticks ++ ")")))))
  describe_verdict Verdict.recovered d c =
      recovered_line
      ++ (f.seconds d.silence_ms
          ++ (" s of silence -- the stall reported above has ENDED (epoch "
              ++ (f.to_string_signed d.last.epoch
                  ++ (", tick " ++ (f.to_string d.last.ticks ++ ")")))))
  describe_verdict Verdict.never_arrived d c =
      never_line
      ++ (f.seconds d.silence_ms
          ++ " s since this engine generation was created and no liveness stamp has arrived at all. Dart main() did not reach the point where it arms its timer -- the engine started but the app did not.")

  unfoldable pub describe_liveness : Decision → Config → String
  unfolding describe_verdict
  describe_liveness d c = describe_verdict d.verdict d c

  unfoldable pub describe_raster : Decision → Config → String
  describe_raster d c =
      if d.raster_lost
      then lost_line
        ++ (f.to_string d.raster_failures
            ++ (" consecutive liveness stamps ("
                ++ (f.seconds (u64 (d.raster_failures * c.expected_interval_ms))
                    ++ (" s) reported that a 1 x 1 snapshot came back empty or did not come back at all, while the UI isolate itself is alive (epoch "
                        ++ (f.to_string_signed d.last.epoch
                            ++ (", tick "
                                ++ (f.to_string d.last.ticks
                                    ++ (", "
                                        ++ (f.to_string d.last.frames
                                            ++ " frame(s) it built since the last stamp that nobody could see). This is the 2026-09-12 freeze: the next-frame probe is answered, the sentinel adapter is healthy and the engine writes no errors. Declaring the renderer lost.")))))))))
      else if d.raster_recovered
      then rasterising_line
        ++ (f.to_string_signed d.last.epoch
            ++ (", tick "
                ++ (f.to_string d.last.ticks
                    ++ ") -- the raster loss reported above has ENDED without a rebuild")))
      else ""

  describe_verdict-empty :
      (v : Verdict) (d : Decision) (c : Config)
      → describe_verdict v d c ≡ ""
      → v ≡ Verdict.nothing_to_say
  unfolding describe_verdict
  describe_verdict-empty Verdict.nothing_to_say d c h = refl
  describe_verdict-empty Verdict.first_stamp d c h =
      absurd (append-ne-empty alive_line _ (λ e. cons≢nil e) h)
  describe_verdict-empty Verdict.silent d c h =
      absurd (append-ne-empty silent_line _ (λ e. cons≢nil e) h)
  describe_verdict-empty Verdict.still_silent d c h =
      absurd (append-ne-empty still_line _ (λ e. cons≢nil e) h)
  describe_verdict-empty Verdict.recovered d c h =
      absurd (append-ne-empty recovered_line _ (λ e. cons≢nil e) h)
  describe_verdict-empty Verdict.never_arrived d c h =
      absurd (append-ne-empty never_line _ (λ e. cons≢nil e) h)

  describe_raster-empty :
      (lost recovered : Bool) (s t : String)
      → s ≢ ""
      → t ≢ ""
      → (if lost then s else if recovered then t else "") ≡ ""
      → (lost ≡ false) × (recovered ≡ false)
  describe_raster-empty true recovered s t hs ht h = absurd (hs h)
  describe_raster-empty false true s t hs ht h = absurd (ht h)
  describe_raster-empty false false s t hs ht h = (refl, refl)

  -- What the log is silent about: the liveness line is empty exactly for the verdict with nothing to
  -- say, and the raster line exactly for a decision without a raster loss or recovery, whatever the
  -- formatting functions return.
  pub describe-empty :
      (d : Decision) (c : Config)
      → ((describe_liveness d c ≡ "") ↔ (d.verdict ≡ Verdict.nothing_to_say))
        × ((describe_raster d c ≡ "") ↔ ((d.raster_lost ≡ false) × (d.raster_recovered ≡ false)))
  unfolding describe_liveness describe_raster
  describe-empty d c = (
    (describe_verdict-empty d.verdict d c, λ e. rw e refl),
    (
      describe_raster-empty d.raster_lost d.raster_recovered _ _
          (append-ne-empty lost_line _ (λ e. cons≢nil e))
          (append-ne-empty rasterising_line _ (λ e. cons≢nil e)),
      λ h. rw (h.0, h.1) refl,
    ),
  )
