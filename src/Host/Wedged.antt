-- ===== src/Host/Wedged.antt =====
-- A platform thread that takes no tick: how many sends the timer thread waits for before it ends the
-- process.
use centroid_x.Common.{◌+◌, ◌≡◌, ◌<◌, refl, ◌∙◌, true, false, List, [], ◌∷◌, arith, length, ap}
use centroid_x.Host.{World, Effect, Host, emit}
use centroid_x.Host.Actions.{gpu_loss_exit_code}
use centroid_x.Host.TimerThread.{wedged_evidence, end_process, on_timer}

-- Timer callbacks one after the other, none of which has its send answered.
unfoldable pub unanswered : List World → Host → Host
unanswered [] h = h
unanswered (w ∷ ws) h = unanswered ws (on_timer w false h)

-- A timer that runs on a window that is there.
pub record IsRunning (h : Host) : Type 0 where
  pub going : h.stopping ≡ false
  pub there : h.window ≡ true

on_timer-waits :
    (w : World) (h : Host)
    → IsRunning h
    → h.unanswered_sends + 1 < 12
    → let h' = on_timer w false h in
      IsRunning h' × (h'.unanswered_sends ≡ h.unanswered_sends + 1) × (h'.trace ≡ h.trace)
unfolding on_timer
on_timer-waits w h r b = ground arith

-- Fewer than twelve in all end nothing.
unanswered-waits :
    (ws : List World) (h : Host)
    → IsRunning h
    → h.unanswered_sends + length ws < 12
    → let h' = unanswered ws h in
      IsRunning h' × (h'.unanswered_sends ≡ h.unanswered_sends + length ws) × (h'.trace ≡ h.trace)
unfolding unanswered
unanswered-waits [] h r b = (r, omega arith, refl)
unanswered-waits (w ∷ ws) h r b =
    let (r', counted, kept) = on_timer-waits w h r (omega arith) in
    let (r'', counted', kept') = unanswered-waits ws (on_timer w false h) r' (omega arith) in
    (r'', omega arith, kept' ∙ kept)

-- What an unanswered send, the last of the twelve, does to the trace.
on_timer-ends :
    (w : World) (h : Host)
    → IsRunning h
    → h.unanswered_sends ≡ 11
    → let h' = on_timer w false h in
      (h'.unanswered_sends ≡ 0)
      × (h'.trace
          ≡ Effect.exit_process gpu_loss_exit_code
            ∷ Effect.reported (wedged_evidence w h)
            ∷ h.trace)
unfolding on_timer end_process emit wedged_evidence
on_timer-ends w h r e = ground arith

on_timer-answered :
    (w : World) (h : Host)
    → IsRunning h
    → let h' = on_timer w true h in (h'.unanswered_sends ≡ 0) × (h'.trace ≡ h.trace)
unfolding on_timer
on_timer-answered w h r = ground arith

-- On a running timer whose last send was answered, eleven unanswered sends in a row end nothing. If
-- the next is not answered either, the process is ended with the loss exit code, after one report from
-- the timer thread; if it is answered, the count starts again and nothing is reported.
pub unanswered-ends :
    (ws : List World) (w : World) (h : Host)
    → IsRunning h
    → h.unanswered_sends ≡ 0
    → length ws ≡ 11
    → let k = unanswered ws h in
      (k.trace ≡ h.trace)
      × ((on_timer w false k).trace
          ≡ Effect.exit_process gpu_loss_exit_code
            ∷ Effect.reported (wedged_evidence w k)
            ∷ h.trace)
      × ((on_timer w true k).unanswered_sends ≡ 0)
      × ((on_timer w true k).trace ≡ h.trace)
unanswered-ends ws w h r z n =
    let (r', counted, kept) = unanswered-waits ws h r (omega arith) in
    let (reset, ended) = on_timer-ends w (unanswered ws h) r' (omega arith) in
    let (again, quiet) = on_timer-answered w (unanswered ws h) r' in
    let said = λ (t : List Effect).
      Effect.exit_process gpu_loss_exit_code
      ∷ Effect.reported (wedged_evidence w (unanswered ws h))
      ∷ t in
    (kept, ended ∙ ap said kept, again, quiet ∙ kept)
