-- ===== src/Host/Replies.antt =====
-- The frame callback, the window messages with a hint or a loss, and the timer thread keep the books.
use centroid_x.Common.{ℕ, ◌+◌, ◌-◌, refl, Bool, true, false, not, ◌||◌, ◌&&◌, arith, ◌==◌, ltb}
use centroid_x.GpuDiagnosis.{LossCause, LossHint}
use centroid_x.Shutdown
use centroid_x.Host.{World, Reason, Effect, Host}
use centroid_x.Host.Actions.{Notice}
use centroid_x.Host.Messages.{
  on_destroy, close, end_episode, show_first_frame, on_frame_presented, on_observed_loss,
  note_loss_hint, hint, on_power_resume, on_display_change, remote_connect, remote_disconnect,
  is_watched, on_remote_connect, on_remote_disconnect, on_session_change,
}
use centroid_x.Host.TimerThread.{unanswered_sends_before_wedged, end_process, on_timer}
use centroid_x.Host.Kept.{Kept, same, followed, when-Kept, if-Kept}
use centroid_x.Host.Lives.{check_render_adapter-Kept, destroy_controller-Kept}
use centroid_x.Host.Requests.{request_engine_rebuild-Kept, handle_session_decision-Kept}
use centroid_x.Host.Handlers.{emit-Kept, stop_watchdog_timer-Kept, dispatch-Kept}

pub on_destroy-Kept : (w : World) (h : Host) → Kept h (on_destroy w h)
unfolding on_destroy
on_destroy-Kept w h =
    followed _ (stop_watchdog_timer-Kept h)
      (followed _ (same refl) (destroy_controller-Kept w Reason.closing _ (λ _. tt)))

pub close-Kept : (w : World) (h : Host) → Kept h (close w h)
unfolding close
close-Kept w h = followed _ (same refl) (
    followed _
      (when-Kept (Shutdown.window_destroyed h.shutdown true).1.withdraw_restart _ _
        (λ k. emit-Kept Effect.crash_restart_withdrawn k refl refl tt (λ b d. d)))
      (on_destroy-Kept w _))

end_episode-Kept : (h : Host) → Kept h (end_episode h)
unfolding end_episode
end_episode-Kept h = same refl

show_first_frame-Kept : (h : Host) → Kept h (show_first_frame h)
unfolding show_first_frame
show_first_frame-Kept h =
    followed _ (same refl) (emit-Kept Effect.show_window _ refl refl tt (λ b d. d))

-- The callback that was spent is the only one there was.
answered-Kept : (h : Host) → Kept h (record h { probe_armed = false; callbacks = h.callbacks - 1 })
answered-Kept h = record {
  valid = λ v. record {
    pending = ground (arith, v.pending);
    owned = λ _. refl;
    agrees = v.agrees;
    listens = v.listens;
    balanced = v.balanced;
    spared = v.spared;
    falling = v.falling;
  };
  idle = λ e. record { none_left = e; none_built = refl };
}

pub on_frame_presented-Kept : (w : World) (h : Host) → Kept h (on_frame_presented w h)
unfolding on_frame_presented
on_frame_presented-Kept w h =
    let answered = record h { probe_armed = false; callbacks = h.callbacks - 1 } in
    followed answered (answered-Kept h) (
      followed _ (same refl) (
        followed _ (dispatch-Kept w Notice.frame_presented _) (
          followed _ (same refl) (
            followed _ (handle_session_decision-Kept w _ _) (
              followed _ (when-Kept h.watchdog.reported_loss end_episode _ end_episode-Kept)
                (when-Kept _ show_first_frame _ show_first_frame-Kept))))))

pub on_observed_loss-Kept :
    (w : World) (cause : LossCause) (h : Host) → Kept h (on_observed_loss w cause h)
unfolding on_observed_loss
on_observed_loss-Kept w cause h =
    when-Kept (h.enabled && h.controller) _ h (dispatch-Kept w (Notice.renderer_lost cause))

hint-Kept : (w : World) (what : LossHint) (code : ℕ) (h : Host) → Kept h (hint w what code h)
unfolding hint note_loss_hint
hint-Kept w what code h = followed _ (same refl) (dispatch-Kept w Notice.device_loss_hint _)

pub on_power_resume-Kept : (w : World) (h : Host) → Kept h (on_power_resume w h)
unfolding on_power_resume
on_power_resume-Kept w h =
    if-Kept (h.enabled && h.controller) h _ _
      (λ _. followed _ (hint-Kept w _ _ h) (request_engine_rebuild-Kept w "power resume" _))
      (λ _. same refl)

pub on_display_change-Kept : (w : World) (h : Host) → Kept h (on_display_change w h)
unfolding on_display_change
on_display_change-Kept w h = when-Kept (h.enabled && h.controller) _ h (hint-Kept w _ _)

on_remote_connect-Kept : (w : World) (h : Host) → Kept h (on_remote_connect w h)
unfolding on_remote_connect
on_remote_connect-Kept w h =
    followed _ (check_render_adapter-Kept w h)
      (followed _ (same refl) (handle_session_decision-Kept w _ _))

on_remote_disconnect-Kept : (w : World) (h : Host) → Kept h (on_remote_disconnect w h)
unfolding on_remote_disconnect
on_remote_disconnect-Kept w h = followed _ (same refl) (handle_session_decision-Kept w _ _)

pub on_session_change-Kept : (w : World) (code : ℕ) (h : Host) → Kept h (on_session_change w code h)
unfolding on_session_change
on_session_change-Kept w code h =
    if-Kept (is_watched code && (h.enabled && h.controller)) h _ _
      (λ _. followed _ (hint-Kept w LossHint.session_change code h) (
        if-Kept (code == remote_connect) _ _ _ (λ _. on_remote_connect-Kept w _)
          (λ _.
            if-Kept (code == remote_disconnect) _ _ _ (λ _. on_remote_disconnect-Kept w _)
              (λ _. same refl))))
      (λ _. same refl)

end_process-Kept : (w : World) (h : Host) → Kept h (end_process w h)
unfolding end_process
end_process-Kept w h =
    followed _ (same refl)
      (followed _ (emit-Kept _ _ refl refl tt (λ b d. d)) (emit-Kept _ _ refl refl tt (λ b d. d)))

pub on_timer-Kept : (w : World) (answered : Bool) (h : Host) → Kept h (on_timer w answered h)
unfolding on_timer
on_timer-Kept w answered h =
    if-Kept (h.stopping || not h.window) h _ _ (λ _. same refl)
      (λ _.
        if-Kept answered h _ _ (λ _. same refl)
          (λ _.
            if-Kept (ltb (h.unanswered_sends + 1) unanswered_sends_before_wedged) h _ _
              (λ _. same refl) (λ _. followed _ (same refl) (end_process-Kept w _))))
